-- ===== src/Host/Statics/Addresses.antt =====
-- Addresses of queue heads: where loads and stores land, and links made from them.
use imxrt_usbh.Base.{
  ℕ, ◌+◌, ◌^◌, ◌<◌, ◌≡◌, ◌≢◌, false, some, get_or, set, ◌==◌, bit_and, arith, ==_false,
}
use imxrt_usbh.Base.Bits.{not32}
use imxrt_usbh.Ehci.Qh
use imxrt_usbh.Ehci.Qh.{QueueHead}
use imxrt_usbh.Ehci.Link.{qh as qh_type, link_pointer, link_address, link_is_terminate}
use imxrt_usbh.Ehci.Link.Laws.{link_address_lem, link_address-link_pointer}
use imxrt_usbh.Host.Run.{ok}
use imxrt_usbh.Host.Statics.{
  UsbStatics, Layout, IsAligned, num_qh, qh_addr, qh_index, load_qh, store_qh,
}

-- The link that the driver writes for the queue head at index `i`.
abbrev pub qh_link : Layout → ℕ → ℕ
qh_link l i = link_pointer (qh_addr l i) qh_type

module _ (l : Layout) where
  qh_index-qh_addr : (i : ℕ) → i < num_qh + 1 → qh_index l (qh_addr l i) ≡ some i
  unfolding qh_index
  qh_index-qh_addr i h = ground arith

  pub qh_addr_ne : (i j : ℕ) → i ≢ j → (qh_addr l i == qh_addr l j) ≡ false
  qh_addr_ne i j h = ==_false _ _ (omega arith)

  module _ {Pool : Type 0} (s : UsbStatics Pool) (i : ℕ) (h : i < num_qh + 1) where
    pub load_qh-qh_addr : load_qh l s (qh_addr l i) ≡ ok (get_or s.qh_pool i Qh.new)
    unfolding load_qh
    load_qh-qh_addr = rw (qh_index-qh_addr i h, load_qh)

    pub store_qh-qh_addr :
        (q : QueueHead)
        → store_qh l s (qh_addr l i) q ≡ ok (record s { qh_pool = set s.qh_pool i q })
    unfolding store_qh
    store_qh-qh_addr q = rw (qh_index-qh_addr i h, store_qh)

module _ {l : Layout} (aligned : IsAligned l) (i : ℕ) (h : i < num_qh + 1) where
  pub qh_addr-lt : qh_addr l i < 2 ^ 32
  qh_addr-lt = omega arith

  pub link_address-qh_addr : link_address (qh_addr l i) ≡ qh_addr l i
  link_address-qh_addr = omega (arith, link_address_lem (qh_addr l i))

  pub link_address-qh_link : link_address (qh_link l i) ≡ qh_addr l i
  link_address-qh_link =
      omega (arith, (link_address-link_pointer (qh_addr l i) qh_type qh_addr-lt (omega arith)).0)

  pub link_is_terminate-qh_link : link_is_terminate (qh_link l i) ≡ false
  link_is_terminate-qh_link =
      (link_address-link_pointer (qh_addr l i) qh_type qh_addr-lt (omega arith)).2

  -- `qh_addr & !0x1F`
  pub masked-qh_addr : bit_and (qh_addr l i) (not32 0x1f) ≡ qh_addr l i
  unfolding link_address
  masked-qh_addr = link_address-qh_addr
