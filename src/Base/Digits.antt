-- ===== src/Base/Digits.antt =====
-- The native `&` and `|` by their lowest binary digit.
use Prim.Native.Nat.{
  ℕ, zero, suc, ◌+◌, ◌-◌, ◌*◌, ◌/◌, ◌%◌, ◌≤◌, min, max, bit_and, bit_or, digits, bitwise,
  bit_and-bitwise, bit_or-bitwise,
}
use mathlib.Core.Path.{◌≡◌, refl, ap, ◌∙◌}
use native.Mathlib.Omega.{arith}

-- `d` more than `n`, as so many successors.
abbrev up : (d n : ℕ) → ℕ
up zero n = n
up (suc d) n = suc (up d n)

up-add : (d n : ℕ) → up d n ≡ d + n
up-add zero n = omega arith
up-add (suc d) n = omega (arith, up-add d n)

-- The recursion on digits has enough fuel with the first operand, and more does not change it.
module _ (rest : ℕ → ℕ) (digit : ℕ → ℕ → ℕ) where
  digits-suc :
      (left right n : ℕ)
      → left ≤ n
      → digits rest digit (suc n) left right ≡ digits rest digit n left right
  digits-suc zero right zero below = refl
  digits-suc zero right (suc n) below = refl
  digits-suc (suc left) right zero below = absurd (omega arith)
  digits-suc (suc left) right (suc n) below =
      rw (digits-suc (suc left / 2) (right / 2) n (omega arith))

  digits-up :
      (d left right n : ℕ)
      → left ≤ n
      → digits rest digit (up d n) left right ≡ digits rest digit n left right
  digits-up zero left right n below = refl
  digits-up (suc d) left right n below =
      digits-suc left right (up d n) (omega (arith, up-add d n)) ∙ digits-up d left right n below

  halves :
      (left right : ℕ)
      → digits rest digit left (suc left / 2) right ≡ bitwise rest digit (suc left / 2) right
  halves left right =
      ap (λ (n : ℕ). digits rest digit n half right) (omega (arith, up-add (left - half) half))
      ∙ digits-up (left - half) half right half (omega arith)
    where
      half : ℕ
      half = suc left / 2

pub bit_and_digit :
    (left right : ℕ)
    → bit_and left right ≡ min (left % 2) (right % 2) + 2 * bit_and (left / 2) (right / 2)
bit_and_digit zero right = simp bit_and-bitwise (omega arith)
bit_and_digit (suc left) right =
    simp bit_and-bitwise (omega (arith, halves (λ y. 0) min left (right / 2)))

pub bit_or_digit :
    (left right : ℕ)
    → bit_or left right ≡ max (left % 2) (right % 2) + 2 * bit_or (left / 2) (right / 2)
bit_or_digit zero right = simp bit_or-bitwise (omega arith)
bit_or_digit (suc left) right =
    simp bit_or-bitwise (omega (arith, halves (λ y. y) max left (right / 2)))
