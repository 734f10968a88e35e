-- ===== src/Base/Fields.antt =====
-- Words as packed fields: `|` of disjoint fields is a sum, `&` with a field's mask extracts it.
use Prim.Native.Nat.{
  ℕ, zero, suc, ◌+◌, ◌-◌, ◌*◌, ◌/◌, ◌%◌, ◌^◌, ◌<◌, bit_and, bit_or, bit_or-bitwise,
}
use mathlib.Core.Path.{◌≡◌, sym, ap, ap₂}
use native.Mathlib.Omega.{arith}
use native.Mathlib.Nat.{
  pow-suc, pow-succ', one-le-pow, div-div-eq-div-mul, mod-eq-sub-div-mul, div-mul-le_self, mul-one,
  div-one, add-zero,
}
use imxrt_usbh.Base.Digits.{bit_and_digit, bit_or_digit}
use imxrt_usbh.Base.Bits.{bit_and-zero, bit_or-zero}

times_pow-suc : (q k : ℕ) → q * 2 ^ suc k ≡ 2 * (q * 2 ^ k)
times_pow-suc q k = omega (arith, ap (λ (t : ℕ). q * t) (pow-suc 2 k))

div_pow-suc : (a k : ℕ) → a / 2 ^ suc k ≡ a / 2 / 2 ^ k
div_pow-suc a k = rw (div-div-eq-div-mul, pow-succ' 2 k)

pub zero-bit_or : (b : ℕ) → bit_or 0 b ≡ b
zero-bit_or b = bit_or-bitwise 0 b

-- Fields above `k` are left alone by an operand below `2 ^ k`.
pub bit_or_above :
    (k q r s : ℕ) → r < 2 ^ k → s < 2 ^ k → bit_or (q * 2 ^ k + r) s ≡ q * 2 ^ k + bit_or r s
bit_or_above zero q r s hr hs = ground (arith, bit_or-zero q)
bit_or_above (suc k) q r s hr hs = omega (
  arith,
  bit_or_digit (q * 2 ^ suc k + r) s,
  bit_or_digit r s,
  times_pow-suc q k,
  ap (λ (t : ℕ). bit_or t (s / 2)) half,
  bit_or_above k q (r / 2) (s / 2) (omega (arith, pow-suc 2 k)) (omega (arith, pow-suc 2 k)),
)
  where
    half : (q * 2 ^ suc k + r) / 2 ≡ q * 2 ^ k + r / 2
    half = omega (arith, times_pow-suc q k)

-- A field below `2 ^ k` beside one that is shifted by `k`.
pub bit_or_shifted : (k q r : ℕ) → r < 2 ^ k → bit_or r (q * 2 ^ k) ≡ r + q * 2 ^ k
bit_or_shifted zero q r hr = ground (arith, zero-bit_or q)
bit_or_shifted (suc k) q r hr = omega (
  arith,
  bit_or_digit r (q * 2 ^ suc k),
  times_pow-suc q k,
  ap (λ (t : ℕ). bit_or (r / 2) t) half,
  bit_or_shifted k q (r / 2) (omega (arith, pow-suc 2 k)),
)
  where
    half : q * 2 ^ suc k / 2 ≡ q * 2 ^ k
    half = omega (arith, times_pow-suc q k)

-- `(q << k) | s` for `s` below `2 ^ k`.
pub bit_or_high : (k q s : ℕ) → s < 2 ^ k → bit_or (q * 2 ^ k) s ≡ q * 2 ^ k + s
bit_or_high k q s hs = omega (
  arith,
  ap (λ (t : ℕ). bit_or t s) (sym (add-zero (q * 2 ^ k))),
  bit_or_above k q 0 s (one-le-pow k 2 (omega arith)) hs,
  zero-bit_or s,
)

-- Two operands over the same low field.
pub bit_or_aligned :
    (k q r s : ℕ) → r < 2 ^ k → bit_or (q * 2 ^ k + r) (s * 2 ^ k) ≡ bit_or q s * 2 ^ k + r
bit_or_aligned zero q r s hr = rw no_rest (simp (mul-one, add-zero))
  where
    no_rest : r ≡ 0
    no_rest = omega arith
bit_or_aligned (suc k) q r s hr = omega (
  arith,
  bit_or_digit (q * 2 ^ suc k + r) (s * 2 ^ suc k),
  times_pow-suc q k,
  times_pow-suc s k,
  times_pow-suc (bit_or q s) k,
  ap₂ bit_or half half',
  bit_or_aligned k q (r / 2) s (omega (arith, pow-suc 2 k)),
)
  where
    half : (q * 2 ^ suc k + r) / 2 ≡ q * 2 ^ k + r / 2
    half = omega (arith, times_pow-suc q k)

    half' : s * 2 ^ suc k / 2 ≡ s * 2 ^ k
    half' = omega (arith, times_pow-suc s k)

mod_pow-suc : (a k : ℕ) → a % 2 ^ suc k ≡ 2 * (a / 2 % 2 ^ k) + a % 2
mod_pow-suc a k = omega (
  arith,
  mod-eq-sub-div-mul a (2 ^ suc k),
  mod-eq-sub-div-mul (a / 2) (2 ^ k),
  div-mul-le_self (a / 2) (2 ^ k),
  ap (λ (t : ℕ). t * 2 ^ suc k) (div_pow-suc a k),
  times_pow-suc (a / 2 / 2 ^ k) k,
)

-- A mask of the `k` lowest bits.
pub bit_and_low : (k a : ℕ) → bit_and a (2 ^ k - 1) ≡ a % 2 ^ k
bit_and_low zero a = ground (arith, bit_and-zero a)
bit_and_low (suc k) a = omega (
  arith,
  bit_and_digit a (2 ^ suc k - 1),
  ap (λ (t : ℕ). bit_and (a / 2) t) half,
  bit_and_low k (a / 2),
  mod_pow-suc a k,
  pow-suc 2 k,
  one-le-pow k 2,
)
  where
    half : (2 ^ suc k - 1) / 2 ≡ 2 ^ k - 1
    half = omega (arith, pow-suc 2 k)

-- A mask of `w` bits from bit `k` on.
pub bit_and_field : (w k a : ℕ) → bit_and a ((2 ^ w - 1) * 2 ^ k) ≡ a / 2 ^ k % 2 ^ w * 2 ^ k
bit_and_field w zero a = simp (mul-one, div-one) (bit_and_low w a)
bit_and_field w (suc k) a = omega (
  arith,
  bit_and_digit a ((2 ^ w - 1) * 2 ^ suc k),
  times_pow-suc (2 ^ w - 1) k,
  ap (λ (t : ℕ). bit_and (a / 2) t) half,
  bit_and_field w k (a / 2),
  ap (λ (t : ℕ). t % 2 ^ w * 2 ^ suc k) (div_pow-suc a k),
  times_pow-suc (a / 2 / 2 ^ k % 2 ^ w) k,
)
  where
    half : (2 ^ w - 1) * 2 ^ suc k / 2 ≡ (2 ^ w - 1) * 2 ^ k
    half = omega (arith, times_pow-suc (2 ^ w - 1) k)
