-- ===== src/Host/Shared.antt =====
-- shared.rs: the interrupt handler.
pub mod Laws
pub mod Wakeup
pub mod Doorbell
use imxrt_usbh.Base.{ℕ, ◌^◌, List, [], ◌∷◌, ◌++◌, bit_and, bit_or, ◌!=◌, if◌then◌else◌}
use imxrt_usbh.Base.Bits.{bit_mask, not32}
use imxrt_usbh.Host.Futures.{Waker, device, pipe, async_advance}
use imxrt_usbh.Host.Regs.{Ral}

abbrev pub nxp_uai : ℕ
nxp_uai = 2 ^ 18

abbrev pub nxp_upi : ℕ
nxp_upi = 2 ^ 19

-- What the handler does: the value it writes to USBSTS, the wakers that it wakes, in order, and the
-- new USBINTR.
pub record Handled : Type 0 where
  pub usbsts_written : ℕ
  pub woken : List Waker
  pub usbintr : ℕ

abbrev pub all_pipes : List Waker
all_pipes = pipe 0 ∷ pipe 1 ∷ pipe 2 ∷ pipe 3 ∷ pipe 4 ∷ []

module _ (r : Ral) where
  abbrev pub transfer_status : ℕ
  transfer_status = bit_or (bit_or (bit_or (bit_mask r.ui) (bit_mask r.uei)) nxp_uai) nxp_upi

  unfoldable pub on_irq : (status usbintr : ℕ) → Handled
  on_irq status usbintr =
      let for_device = if bit_and status (bit_mask r.pci) != 0 then device ∷ [] else [] in
      let for_pipes = if bit_and status transfer_status != 0 then all_pipes else [] in
      let for_advance = if bit_and status (bit_mask r.aai) != 0 then async_advance ∷ [] else [] in
      let serviced = bit_and status 0x000f_003f in
      record {
        usbsts_written = bit_and status (not32 (bit_mask r.aai));
        woken = for_device ++ for_pipes ++ for_advance;
        usbintr = bit_and usbintr (not32 serviced);
      }
