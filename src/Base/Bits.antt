-- ===== src/Base/Bits.antt =====
-- Words bit by bit: which bits `&`, `|`, `!` and a mask of one bit have set.
use Prim.Native.Nat.{bit_and-bitwise, ℕ, zero, suc, ◌-◌, ◌/◌, ◌%◌, ◌^◌, ◌<◌, ◌≤◌, bit_and, bit_or}
use mathlib.Core.Path.{◌≡◌, refl, ap, ◌∙◌}
use mathlib.Core.Bool.{Bool, false, not, ◌&&◌, ◌||◌}
use native.Mathlib.Omega.{arith}
use native.Mathlib.Nat.{pow-suc, one-le-pow}
use imxrt_usbh.Base.Tests.{◌==◌, ◌!=◌}
use imxrt_usbh.Base.Digits.{bit_and_digit, bit_or_digit}

-- Bit `k` of `x`.
unfoldable pub bit : ℕ → ℕ → Bool
bit x zero = x % 2 == 1
bit x (suc k) = bit (x / 2) k

-- `!x` on a `u32`.
abbrev pub not32 : ℕ → ℕ
not32 x = 0xffff_ffff - x

-- `mask << offset` for a mask of one bit.
abbrev pub bit_mask : ℕ → ℕ
bit_mask k = 2 ^ k

pub bit-bit_and : (a b k : ℕ) → bit (bit_and a b) k ≡ (bit a k && bit b k)
unfolding bit
bit-bit_and a b zero = ground (arith, bit_and_digit a b)
bit-bit_and a b (suc k) = ap (λ (t : ℕ). bit t k) half ∙ bit-bit_and (a / 2) (b / 2) k
  where
    half : bit_and a b / 2 ≡ bit_and (a / 2) (b / 2)
    half = omega (arith, bit_and_digit a b)

pub bit-bit_or : (a b k : ℕ) → bit (bit_or a b) k ≡ (bit a k || bit b k)
unfolding bit
bit-bit_or a b zero = ground (arith, bit_or_digit a b)
bit-bit_or a b (suc k) = ap (λ (t : ℕ). bit t k) half ∙ bit-bit_or (a / 2) (b / 2) k
  where
    half : bit_or a b / 2 ≡ bit_or (a / 2) (b / 2)
    half = omega (arith, bit_or_digit a b)

pub bit-zero : (k : ℕ) → bit 0 k ≡ false
unfolding bit
bit-zero zero = refl
bit-zero (suc k) = bit-zero k

pub bit-bit_mask : (p k : ℕ) → bit (bit_mask p) k ≡ (p == k)
unfolding bit
bit-bit_mask zero zero = refl
bit-bit_mask zero (suc k) = ground (arith, bit-zero k)
bit-bit_mask (suc p) zero = ground (arith, pow-suc 2 p)
bit-bit_mask (suc p) (suc k) = ap (λ (t : ℕ). bit t k) half ∙ bit-bit_mask p k ∙ ground arith
  where
    half : 2 ^ suc p / 2 ≡ 2 ^ p
    half = omega (arith, pow-suc 2 p)

-- The complement of a `w`-bit word.
bit-complement : (w x k : ℕ) → x < 2 ^ w → k < w → bit (2 ^ w - 1 - x) k ≡ not (bit x k)
unfolding bit
bit-complement zero x k small h = absurd (omega arith)
bit-complement (suc w) x zero small h = ground (arith, pow-suc 2 w, one-le-pow w 2)
bit-complement (suc w) x (suc k) small h =
    ap (λ (t : ℕ). bit t k) half
    ∙ bit-complement w (x / 2) k (omega (arith, pow-suc 2 w)) (omega arith)
  where
    half : (2 ^ suc w - 1 - x) / 2 ≡ 2 ^ w - 1 - x / 2
    half = omega (arith, pow-suc 2 w, one-le-pow w 2)

pub bit-not32 : (x k : ℕ) → x < 2 ^ 32 → k < 32 → bit (not32 x) k ≡ not (bit x k)
bit-not32 x k small h = bit-complement 32 x k small h

-- No bit of a `w`-bit word stands at `w` or above.
pub bit_of_lt : (w x k : ℕ) → x < 2 ^ w → w ≤ k → bit x k ≡ false
unfolding bit
bit_of_lt zero x k small h = ground (arith, bit-zero k)
bit_of_lt (suc w) x zero small h = absurd (omega arith)
bit_of_lt (suc w) x (suc k) small h =
    bit_of_lt w (x / 2) k (omega (arith, pow-suc 2 w)) (omega arith)

-- Induction on the digits of a number, from the lowest one on.
by_digits_below :
    (P : ℕ → Type 0) (base : P 0) (more : (x : ℕ) → P (suc x / 2) → P (suc x)) (bound x : ℕ)
    → x ≤ bound
    → P x
by_digits_below P base more bound zero below = base
by_digits_below P base more zero (suc x) below = absurd (omega arith)
by_digits_below P base more (suc bound) (suc x) below =
    more x (by_digits_below P base more bound (suc x / 2) (omega arith))

pub by_digits : (P : ℕ → Type 0) → P 0 → ((x : ℕ) → P (suc x / 2) → P (suc x)) → (x : ℕ) → P x
by_digits P base more x = by_digits_below P base more x x (omega arith)

zero-bit_and : (b : ℕ) → bit_and 0 b ≡ 0
zero-bit_and b = bit_and-bitwise 0 b

pub bit_and-zero : (a : ℕ) → bit_and a 0 ≡ 0
bit_and-zero =
    by_digits (λ a. bit_and a 0 ≡ 0) refl (λ x same. omega (arith, bit_and_digit (suc x) 0, same))

pub bit_or-zero : (a : ℕ) → bit_or a 0 ≡ a
bit_or-zero =
    by_digits (λ a. bit_or a 0 ≡ a) refl (λ x same. omega (arith, bit_or_digit (suc x) 0, same))

-- `x & (1 << k) != 0` tests bit `k`.
pub ne-bit_and-bit_mask : (x k : ℕ) → (bit_and x (bit_mask k) != 0) ≡ bit x k
unfolding bit
ne-bit_and-bit_mask x zero = ground (arith, bit_and_digit x 1, bit_and-zero (x / 2))
ne-bit_and-bit_mask x (suc k) =
    ground (arith, bit_and_digit x (2 ^ suc k), pow-suc 2 k, half, ne-bit_and-bit_mask (x / 2) k)
  where
    half : bit_and (x / 2) (2 ^ suc k / 2) ≡ bit_and (x / 2) (2 ^ k)
    half = ap (λ (t : ℕ). bit_and (x / 2) t) (omega (arith, pow-suc 2 k))

pub eq-bit_and-bit_mask : (x k : ℕ) → (bit_and x (bit_mask k) == 0) ≡ not (bit x k)
eq-bit_and-bit_mask x k = ground (arith, ne-bit_and-bit_mask x k)

test-bit_or_next :
    (x : ℕ)
    → ((a b : ℕ)
        → (bit_and (suc x / 2) (bit_or a b) != 0)
          ≡ (bit_and (suc x / 2) a != 0 || bit_and (suc x / 2) b != 0))
    → (a b : ℕ)
    → (bit_and (suc x) (bit_or a b) != 0) ≡ (bit_and (suc x) a != 0 || bit_and (suc x) b != 0)
test-bit_or_next x higher a b = ground (
  arith,
  bit_and_digit (suc x) (bit_or a b),
  bit_and_digit (suc x) a,
  bit_and_digit (suc x) b,
  bit_or_digit a b,
  ap (λ (t : ℕ). bit_and (suc x / 2) t) half,
  higher (a / 2) (b / 2),
)
  where
    half : bit_or a b / 2 ≡ bit_or (a / 2) (b / 2)
    half = omega (arith, bit_or_digit a b)

-- A test with two masks at once.
pub test-bit_or :
    (x a b : ℕ) → (bit_and x (bit_or a b) != 0) ≡ (bit_and x a != 0 || bit_and x b != 0)
test-bit_or =
    by_digits
      (λ x. (a b : ℕ) → (bit_and x (bit_or a b) != 0) ≡ (bit_and x a != 0 || bit_and x b != 0))
      (λ a b. ground (arith, zero-bit_and (bit_or a b), zero-bit_and a, zero-bit_and b))
      test-bit_or_next
