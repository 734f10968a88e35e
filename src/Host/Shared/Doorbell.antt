-- ===== src/Host/Shared/Doorbell.antt =====
-- Several waits for the doorbell of the async schedule at once.
use imxrt_usbh.Base.{
  ℕ, zero, suc, ◌^◌, ◌<◌, ◌≡◌, refl, sym, ap, subst, ==_refl, true, false, Option, none, some, List,
  [], ◌∷◌, replicate, bit_and, arith,
}
use imxrt_usbh.Base.Bits.{bit, bit_mask, not32, bit-bit_and, bit-not32, bit-bit_mask}
use imxrt_usbh.Host.Error.{Poll, ready, pending}
use imxrt_usbh.Host.Futures.{poll_async_advance}
use imxrt_usbh.Host.Regs.{Ral, IsRal}
use imxrt_usbh.Host.Shared.Wakeup.{advance_ready, advance_pending}

-- USBSTS after a write to it, which clears the bits that are written as 1.
abbrev written : (usbsts : ℕ) → Option ℕ → ℕ
written usbsts none = usbsts
written usbsts (some ones) = bit_and usbsts (not32 ones)

-- The polls of `count` waits, one after the other, with no step of the controller in between.
unfoldable pub poll_waits : Ral → (count usbsts usbintr : ℕ) → List (Poll (Unit {0}))
poll_waits r zero usbsts usbintr = []
poll_waits r (suc count) usbsts usbintr =
    let (polled, acknowledged) = poll_async_advance r usbsts usbintr in
    polled.result ∷ poll_waits r count (written usbsts acknowledged) polled.usbintr

module _ {r : Ral} (spec : IsRal r) where
  poll_waits_off :
      (count usbsts usbintr : ℕ)
      → bit usbsts r.aai ≡ false
      → poll_waits r count usbsts usbintr ≡ replicate count pending
  unfolding poll_waits
  poll_waits_off zero usbsts usbintr off = refl
  poll_waits_off (suc count) usbsts usbintr off =
      rw (advance_pending r usbsts usbintr off)
        (ap (λ ps. pending ∷ ps) (poll_waits_off count usbsts _ off))

  acknowledged_off : (usbsts : ℕ) → bit (bit_and usbsts (not32 (bit_mask r.aai))) r.aai ≡ false
  acknowledged_off usbsts =
      rw
        (
          bit-bit_and usbsts (not32 (bit_mask r.aai)) r.aai,
          bit-not32 (bit_mask r.aai) r.aai mask_small (omega (arith, spec.aai_at)),
          bit-bit_mask r.aai r.aai,
          ==_refl r.aai,
        )
        (ground arith)
    where
      mask_small : bit_mask r.aai < 2 ^ 32
      mask_small = subst (λ (k : ℕ). bit_mask k < 2 ^ 32) (sym spec.aai_at) (omega arith)

  -- Of the waits that are polled after one advance of the controller, whatever their number, only the
  -- first is ready: it acknowledges AAI, and all the others are pending, and stay so until another
  -- doorbell is rung.
  pub poll_waits_lem :
      (count usbsts usbintr : ℕ)
      → bit usbsts r.aai ≡ true
      → poll_waits r (suc count) usbsts usbintr ≡ ready tt ∷ replicate count pending
  unfolding poll_waits
  poll_waits_lem count usbsts usbintr on = rw (advance_ready r usbsts usbintr on) (
      ap (λ ps. ready tt ∷ ps)
        (poll_waits_off count (bit_and usbsts (not32 (bit_mask r.aai))) usbintr
          (acknowledged_off usbsts)))
