-- ===== src/Host/Port/Laws.antt =====
-- What a write to PORTSC1 acknowledges and changes.
use imxrt_usbh.Base.{
  ℕ, ◌^◌, ◌<◌, ◌≡◌, Bool, true, false, not, ◌&&◌, ◌||◌, bit_and, bit_or, ◌==◌, if◌then◌else◌, arith,
}
use imxrt_usbh.Base.Bits.{bit, bit_mask, not32, bit-bit_and, bit-bit_or, bit-bit_mask, bit-not32}
use imxrt_usbh.Host.Port.{portsc1_w1c_mask, portsc1_read_safe, reset_root_port}
use imxrt_usbh.Host.Regs.{Ral, IsRal}
use imxrt_usbh.Host.Regs.Laws.{bit_or-lt, bit_mask-lt}

-- The flags that a written 1 clears.
abbrev pub is_w1c : Ral → ℕ → Bool
is_w1c r k = ((r.csc == k || r.pec == k) || r.occ == k) || r.fpr == k

module _ {r : Ral} (spec : IsRal r) where
  pub portsc1_w1c_mask-lt : portsc1_w1c_mask r < 2 ^ 32
  unfolding portsc1_w1c_mask
  portsc1_w1c_mask-lt =
      bit_or-lt 32 (bit_or (bit_or (bit_mask r.csc) (bit_mask r.pec)) (bit_mask r.occ))
        (bit_mask r.fpr)
        (bit_or-lt 32 (bit_or (bit_mask r.csc) (bit_mask r.pec)) (bit_mask r.occ)
          (bit_or-lt 32 (bit_mask r.csc) (bit_mask r.pec) (bit_mask-lt r.csc 32 (omega arith))
            (bit_mask-lt r.pec 32 (omega arith)))
          (bit_mask-lt r.occ 32 (omega arith)))
        (bit_mask-lt r.fpr 32 (omega arith))

  bit-portsc1_w1c_mask : (k : ℕ) → bit (portsc1_w1c_mask r) k ≡ is_w1c r k
  unfolding portsc1_w1c_mask
  bit-portsc1_w1c_mask k = simp (bit-bit_or, bit-bit_mask)

  pub bit-portsc1_read_safe :
      (portsc1 k : ℕ)
      → k < 32
      → bit (bit_and portsc1 (not32 (portsc1_w1c_mask r))) k ≡ (bit portsc1 k && not (is_w1c r k))
  bit-portsc1_read_safe portsc1 k h = ground (
    arith,
    bit-bit_and portsc1 (not32 (portsc1_w1c_mask r)) k,
    bit-not32 (portsc1_w1c_mask r) k portsc1_w1c_mask-lt h,
    bit-portsc1_w1c_mask k,
  )

  -- Both writes of `reset_root_port` leave every bit as it was read but PR, which they set or clear,
  -- and the flags that a written 1 clears: the first acknowledges none of them, the second exactly
  -- CSC.
  pub reset_root_port_lem :
      (portsc1 k : ℕ)
      → k < 32
      → (bit (reset_root_port r true portsc1) k
          ≡ (if r.pr == k then true else bit portsc1 k && not (is_w1c r k)))
        × (bit (reset_root_port r false portsc1) k ≡ (
            if r.pr == k
            then false
            else if r.csc == k
            then true
            else bit portsc1 k && not (is_w1c r k)))
  unfolding reset_root_port portsc1_read_safe
  reset_root_port_lem portsc1 k h =
      let safe = bit_and portsc1 (not32 (portsc1_w1c_mask r)) in
      let pr_off = not32 (bit_mask r.pr) in
      (
        ground (
          arith,
          bit-bit_or safe (bit_mask r.pr) k,
          bit-bit_mask r.pr k,
          bit-portsc1_read_safe portsc1 k h,
        ),
        ground (
          arith,
          bit-bit_or (bit_and safe pr_off) (bit_mask r.csc) k,
          bit-bit_and safe pr_off k,
          bit-not32 (bit_mask r.pr) k (bit_mask-lt r.pr 32 (omega arith)) h,
          bit-bit_mask r.pr k,
          bit-bit_mask r.csc k,
          bit-portsc1_read_safe portsc1 k h,
        ),
      )
