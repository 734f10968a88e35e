-- ===== src/Base/Members.antt =====
-- Lists of distinct indices.
use imxrt_usbh.Base.Tests.{◌==◌, if◌then◌else◌, Bool-cases}
use imxrt_usbh.Base.Lists.{length}
use Prim.Native.Nat.{ℕ, zero, suc, ◌≤◌, ◌<◌}
use mathlib.Core.Path.{◌≡◌, refl}
use mathlib.Core.Logic.{◌≢◌, inl, inr}
use mathlib.Core.Bool.{Bool, true, false, ◌||◌}
use mathlib.Core.List.{List, [], ◌∷◌}
use native.Mathlib.Omega.{arith}

abbrev pub has : ℕ → List ℕ → Bool
has a [] = false
has a (x ∷ xs) = (a == x) || has a xs

-- The list less the first occurrence of `a`.
abbrev pub erase : ℕ → List ℕ → List ℕ
erase a [] = []
erase a (x ∷ xs) = if a == x then xs else x ∷ erase a xs

abbrev pub Distinct : List ℕ → Type 0
Distinct [] = Unit
Distinct (x ∷ xs) = (has x xs ≡ false) × Distinct xs

-- Every element is below `n`.
abbrev pub AllBelow : ℕ → List ℕ → Type 0
AllBelow n [] = Unit
AllBelow n (x ∷ xs) = (x < n) × AllBelow n xs

pub has-erase_of_not-has : (a b : ℕ) (xs : List ℕ) → has a xs ≡ false → has a (erase b xs) ≡ false
has-erase_of_not-has a b [] h = refl
has-erase_of_not-has a b (x ∷ xs) h = ground (arith, has-erase_of_not-has a b xs)

pub has-erase_self : (a : ℕ) (xs : List ℕ) → Distinct xs → has a (erase a xs) ≡ false
has-erase_self a [] d = refl
has-erase_self a (x ∷ xs) d = ground (arith, has-erase_self a xs d.1)

pub Distinct-erase : (a : ℕ) (xs : List ℕ) → Distinct xs → Distinct (erase a xs)
Distinct-erase a [] d = tt
Distinct-erase a (x ∷ xs) d =
    ground (arith, Distinct-erase a xs d.1, has-erase_of_not-has x a xs d.0)

pub AllBelow-erase : (n a : ℕ) (xs : List ℕ) → AllBelow n xs → AllBelow n (erase a xs)
AllBelow-erase n a [] h = tt
AllBelow-erase n a (x ∷ xs) h = ground (arith, AllBelow-erase n a xs h.1)

pub erase_of_not-has : (a : ℕ) (xs : List ℕ) → has a xs ≡ false → erase a xs ≡ xs
erase_of_not-has a [] h = refl
erase_of_not-has a (x ∷ xs) h = ground (arith, erase_of_not-has a xs)

pub length-erase_of_has :
    (a : ℕ) (xs : List ℕ) → has a xs ≡ true → length xs ≡ suc (length (erase a xs))
length-erase_of_has a [] h = absurd (ne h)
  where
    ne : false ≡ true → ⊥
    ne e = cc
length-erase_of_has a (x ∷ xs) h = ground (arith, length-erase_of_has a xs)

-- Below `n` once `n` itself is gone.
AllBelow-step : (n : ℕ) (xs : List ℕ) → AllBelow (suc n) xs → has n xs ≡ false → AllBelow n xs
AllBelow-step n [] h out = tt
AllBelow-step n (x ∷ xs) h out = ground (arith, AllBelow-step n xs h.1)

-- At most `n` distinct elements are below `n`.
pub length-le_of_Distinct : (n : ℕ) (xs : List ℕ) → AllBelow n xs → Distinct xs → length xs ≤ n
length-le_of_Distinct zero [] h d = omega arith
length-le_of_Distinct zero (x ∷ xs) h d = absurd (omega arith)
length-le_of_Distinct (suc n) xs h d = elim (Bool-cases (has n xs)) [
  | inl member ↦ omega (
    arith,
    length-erase_of_has n xs member,
    length-le_of_Distinct n (erase n xs)
        (AllBelow-step n (erase n xs) (AllBelow-erase (suc n) n xs h) (has-erase_self n xs d))
        (Distinct-erase n xs d),
  )
  | inr out ↦ omega (arith, length-le_of_Distinct n xs (AllBelow-step n xs h out) d)
]

pub ne_of_has : (a b : ℕ) (xs : List ℕ) → has a xs ≡ true → has b xs ≡ false → a ≢ b
ne_of_has a b xs h k e = cc

pub erase-cons_eq : (a x : ℕ) (xs : List ℕ) → x ≡ a → erase a (x ∷ xs) ≡ xs
erase-cons_eq a x xs e = ground arith

pub erase-cons_ne : (a x : ℕ) (xs : List ℕ) → x ≢ a → erase a (x ∷ xs) ≡ x ∷ erase a xs
erase-cons_ne a x xs e = ground arith

pub has-cons_ne : (a x : ℕ) (xs : List ℕ) → x ≢ a → has a (x ∷ xs) ≡ true → has a xs ≡ true
has-cons_ne a x xs ne h = ground arith
