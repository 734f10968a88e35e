-- ===== src/Gpt/Bits.antt =====
-- A field of one bit that is written and read back.
use imxrt_usbh.Base.{
  ℕ, ◌<◌, ◌≡◌, refl, sym, ap, ◌∙◌, Bool, true, false, not, ◌&&◌, ◌||◌, ◌==◌, if◌then◌else◌,
}
use imxrt_usbh.Base.Bits.{bit, bit_mask, bit-bit_and, bit-bit_mask, bit-not32, ne-bit_and-bit_mask}
use imxrt_usbh.Host.Regs.{set_fields}
use imxrt_usbh.Host.Regs.Laws.{bit_mask-lt, bit-set_fields}
use imxrt_usbh.Gpt.{modify_bit, read_bit}

bit-modify_bit :
    (reg p k : ℕ) (value : Bool)
    → p < 32
    → k < 32
    → bit (modify_bit reg p value) k
      ≡ (if value then bit reg k || p == k else bit reg k && not (p == k))
bit-modify_bit reg p k true hp hk = set_one ∙ ap (λ (b : Bool). bit reg k || b) (bit-bit_mask p k)
  where
    set_one : bit (modify_bit reg p true) k ≡ (bit reg k || bit (bit_mask p) k)
    set_one = unfold set_fields in bit-set_fields reg (bit_mask p) k (bit_mask-lt p 32 hp) hk
bit-modify_bit reg p k false hp hk =
    rw (bit-bit_and, bit-not32 (bit_mask p) k (bit_mask-lt p 32 hp) hk, bit-bit_mask)

-- A field that has been written reads as written, and any other as before.
pub read_bit-modify_bit :
    (reg p k : ℕ) (value : Bool)
    → p < 32
    → k < 32
    → read_bit (modify_bit reg p value) k ≡ (if p == k then value else read_bit reg k)
read_bit-modify_bit reg p k value hp hk =
    ne-bit_and-bit_mask (modify_bit reg p value) k
    ∙ bit-modify_bit reg p k value hp hk
    ∙ table value (p == k) (bit reg k)
    ∙ ap (λ (b : Bool). if p == k then value else b) (sym (ne-bit_and-bit_mask reg k))
  where
    table :
        (value here old : Bool)
        → (if value then old || here else old && not here) ≡ (if here then value else old)
    table true true true = refl
    table true true false = refl
    table true false true = refl
    table true false false = refl
    table false true true = refl
    table false true false = refl
    table false false true = refl
    table false false false = refl
