-- ===== src/Host/Schedule/Qtd.antt =====
-- schedule.rs, `QtdSlot` and `alloc_qtd`.
pub mod Laws
pub mod Apart
use imxrt_usbh.Base.{
  ℕ, ◌+◌, Bool, true, false, List, [], ◌∷◌, Option, none, some, get_or, set, if◌then◌else◌,
}
use imxrt_usbh.Ehci.Td
use imxrt_usbh.Ehci.Td.{TransferDescriptor, no_buffer}
use imxrt_usbh.Ehci.Link.{link_terminate}
use imxrt_usbh.Host.Statics.{UsbStatics}

-- The index of the first slot that is not allocated, of slots that are numbered from `i` on.
unfoldable pub first_free : (i : ℕ) → List Bool → Option ℕ
first_free i [] = none
first_free i (allocated ∷ rest) = if allocated then first_free (i + 1) rest else some i

module _ {Pool : Type 0} where
  -- The slot that the search has found is marked.
  abbrev pub taken : UsbStatics Pool → Option ℕ → Option (ℕ × UsbStatics Pool)
  taken s none = none
  taken s (some i) = some (i, record s { qtd_allocated = set s.qtd_allocated i true })

  -- A slot is its index; the guard's drop is `drop_slot`.
  unfoldable pub alloc_qtd : UsbStatics Pool → Option (ℕ × UsbStatics Pool)
  unfolding first_free
  alloc_qtd s = taken s (first_free 0 s.qtd_allocated)

  -- `Drop for QtdSlot`
  unfoldable pub drop_slot : (index : ℕ) → UsbStatics Pool → UsbStatics Pool
  drop_slot index s = record s {
    qtd_allocated = set s.qtd_allocated index false;
    qtd_pool = set s.qtd_pool index (record {
      next = link_terminate;
      alt_next = link_terminate;
      token = 0;
      buffer = no_buffer;
    });
  }
