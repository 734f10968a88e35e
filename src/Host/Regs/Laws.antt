-- ===== src/Host/Regs/Laws.antt =====
-- Which bits of a register an update sets.
use native.Mathlib.Nat.{pow-suc, one-le-pow, pow-le-pow_right}
use imxrt_usbh.Base.{
  ℕ, zero, suc, ◌/◌, ◌^◌, ◌<◌, ◌≡◌, refl, ap, ◌∙◌, Bool, true, false, not, ◌&&◌, ◌||◌, bit_or,
  arith, ◌==◌,
}
use mathlib.Core.Bool.{or_assoc}
use imxrt_usbh.Base.Fields.{zero-bit_or}
use imxrt_usbh.Base.Digits.{bit_or_digit}
use imxrt_usbh.Base.Bits.{bit, bit_mask, bit-bit_and, bit-bit_or, bit-bit_mask, bit-not32}
use imxrt_usbh.Host.Regs.{
  Ral, IsRal, set_fields, transfer_enables, reenable_transfer_interrupts,
  reenable_port_change_interrupt, reenable_async_advance_interrupt,
}

pub bit_or-lt : (w a b : ℕ) → a < 2 ^ w → b < 2 ^ w → bit_or a b < 2 ^ w
bit_or-lt zero zero b ha hb = omega (arith, zero-bit_or b)
bit_or-lt zero (suc a) b ha hb = absurd (omega arith)
bit_or-lt (suc w) a b ha hb = omega (
  arith,
  bit_or_digit a b,
  pow-suc 2 w,
  bit_or-lt w (a / 2) (b / 2) (omega (arith, pow-suc 2 w)) (omega (arith, pow-suc 2 w)),
)

pub bit_mask-lt : (p w : ℕ) → p < w → bit_mask p < 2 ^ w
bit_mask-lt p w h = omega (
  arith,
  pow-suc 2 p,
  one-le-pow p 2,
  pow-le-pow_right {n = 2} (omega arith) {i = suc p} {j = w} h,
)

-- Exactly the bits of the mask are set, and the others stay.
pub bit-set_fields :
    (reg mask k : ℕ)
    → mask < 2 ^ 32
    → k < 32
    → bit (set_fields reg mask) k ≡ (bit reg k || bit mask k)
unfolding set_fields
bit-set_fields reg mask k small h =
    rw (bit-bit_or, bit-bit_and, bit-not32 mask k small h) (table (bit reg k) (bit mask k))
  where
    table : (a b : Bool) → ((a && not b) || b) ≡ (a || b)
    table true true = refl
    table true false = refl
    table false true = refl
    table false false = refl

-- The four transfer enables.
abbrev pub is_transfer_enable : Ral → ℕ → Bool
is_transfer_enable r k = r.ue == k || r.uee == k || r.uaie == k || r.upie == k

module _ {r : Ral} (spec : IsRal r) where
  transfer_enables-lt : transfer_enables r < 2 ^ 32
  unfolding transfer_enables
  transfer_enables-lt =
      bit_or-lt 32 (bit_or (bit_or (bit_mask r.ue) (bit_mask r.uee)) (bit_mask r.uaie))
        (bit_mask r.upie)
        (bit_or-lt 32 (bit_or (bit_mask r.ue) (bit_mask r.uee)) (bit_mask r.uaie)
          (bit_or-lt 32 (bit_mask r.ue) (bit_mask r.uee) (bit_mask-lt r.ue 32 (omega arith))
            (bit_mask-lt r.uee 32 (omega arith)))
          (bit_mask-lt r.uaie 32 (omega arith)))
        (bit_mask-lt r.upie 32 (omega arith))

  -- Exactly the four transfer enables are set in USBINTR, and the other bits stay.
  pub bit-reenable_transfer_interrupts :
      (usbintr k : ℕ)
      → k < 32
      → bit (reenable_transfer_interrupts r usbintr) k ≡ (bit usbintr k || is_transfer_enable r k)
  unfolding reenable_transfer_interrupts
  bit-reenable_transfer_interrupts usbintr k h =
      bit-set_fields usbintr (transfer_enables r) k transfer_enables-lt h
      ∙ ap (λ (b : Bool). bit usbintr k || b) masks
    where
      masks : bit (transfer_enables r) k ≡ is_transfer_enable r k
      masks = unfold transfer_enables in simp (bit-bit_or, bit-bit_mask, or_assoc)

  pub bit-reenable_port_change_interrupt :
      (usbintr k : ℕ)
      → k < 32
      → bit (reenable_port_change_interrupt r usbintr) k ≡ (bit usbintr k || r.pce == k)
  unfolding reenable_port_change_interrupt
  bit-reenable_port_change_interrupt usbintr k h =
      bit-set_fields usbintr (bit_mask r.pce) k (bit_mask-lt r.pce 32 (omega arith)) h
      ∙ ap (λ (b : Bool). bit usbintr k || b) (bit-bit_mask r.pce k)

  pub bit-reenable_async_advance_interrupt :
      (usbintr k : ℕ)
      → k < 32
      → bit (reenable_async_advance_interrupt r usbintr) k ≡ (bit usbintr k || r.aae == k)
  unfolding reenable_async_advance_interrupt
  bit-reenable_async_advance_interrupt usbintr k h =
      bit-set_fields usbintr (bit_mask r.aae) k (bit_mask-lt r.aae 32 (omega arith)) h
      ∙ ap (λ (b : Bool). bit usbintr k || b) (bit-bit_mask r.aae k)
