-- ===== src/Host/HostController/Placed.antt =====
-- The slots of the open pipes under changes of the bitmap.
use imxrt_usbh.Base.{
  ℕ, zero, suc, ◌<◌, ◌≡◌, ◌≢◌, refl, ap, Bool, true, false, some, List, [], ◌∷◌, map, get_elem?,
  set, replicate, drop, get_or, arith,
}
use native.Mathlib.Decide.{ℕ_discrete}
use imxrt_usbh.Base.Members.{has}
use imxrt_usbh.Host.HostController.Invariant.{ArePlaced, qtds}
use imxrt_usbh.Host.InterruptPipe.{ImxrtInterruptPipe}
use imxrt_usbh.Host.Schedule.Qtd.Laws.{in_use}

get_elem?-set_kept :
    (slots : List Bool) (i j : ℕ)
    → get_elem? slots j ≡ some true
    → get_elem? (set slots i true) j ≡ some true
get_elem?-set_kept [] i j h = cc
get_elem?-set_kept (x ∷ slots) zero zero h = refl
get_elem?-set_kept (x ∷ slots) zero (suc j) h = h
get_elem?-set_kept (x ∷ slots) (suc i) zero h = h
get_elem?-set_kept (x ∷ slots) (suc i) (suc j) h = get_elem?-set_kept slots i j h

pub get_elem?-set_taken :
    (slots : List Bool) (i : ℕ) (b c : Bool)
    → get_elem? slots i ≡ some b
    → get_elem? (set slots i c) i ≡ some c
get_elem?-set_taken [] i b c h = cc
get_elem?-set_taken (x ∷ slots) zero b c h = refl
get_elem?-set_taken (x ∷ slots) (suc i) b c h = get_elem?-set_taken slots i b c h

pub get_elem?-set_other :
    (slots : List Bool) (i j : ℕ) (b : Bool)
    → i ≢ j
    → get_elem? slots j ≡ some true
    → get_elem? (set slots i b) j ≡ some true
get_elem?-set_other [] i j b ne h = cc
get_elem?-set_other (x ∷ slots) zero zero b ne h = absurd (ne refl)
get_elem?-set_other (x ∷ slots) zero (suc j) b ne h = h
get_elem?-set_other (x ∷ slots) (suc i) zero b ne h = h
get_elem?-set_other (x ∷ slots) (suc i) (suc j) b ne h =
    get_elem?-set_other slots i j b (λ e. ne (ap suc e)) h

pub in_use-set_dropped :
    (slots : List Bool) (i : ℕ)
    → get_elem? slots i ≡ some true
    → in_use slots ≡ suc (in_use (set slots i false))
unfolding in_use
in_use-set_dropped [] i h = cc
in_use-set_dropped (x ∷ slots) zero h = ground arith
in_use-set_dropped (x ∷ slots) (suc i) h = ground (arith, in_use-set_dropped slots i h)

pub ArePlaced-set :
    (slots : List Bool) (i : ℕ) (pipes : List ImxrtInterruptPipe)
    → ArePlaced slots pipes
    → ArePlaced (set slots i true) pipes
ArePlaced-set slots i [] placed = tt
ArePlaced-set slots i (pipe ∷ pipes) (first, rest) = (
  record {
    head_is = first.head_is;
    which_pos = first.which_pos;
    which-lt = first.which-lt;
    buffer_is = first.buffer_is;
    marked = get_elem?-set_kept slots i pipe.qtd_slot first.marked;
  },
  ArePlaced-set slots i pipes rest,
)

-- A slot that is free is none of the pipes'.
pub slot_is_new :
    (slots : List Bool) (i : ℕ) (pipes : List ImxrtInterruptPipe)
    → get_elem? slots i ≡ some false
    → ArePlaced slots pipes
    → has i (qtds pipes) ≡ false
slot_is_new slots i [] vacant placed = refl
slot_is_new slots i (pipe ∷ pipes) vacant (first, rest) = elim (ℕ_discrete i pipe.qtd_slot) [
  | yes e ↦ absurd (ground (arith, vacant, first.marked, ap (λ (j : ℕ). get_elem? slots j) e))
  | no ne ↦ ground (arith, slot_is_new slots i pipes vacant rest)
]

-- The elements of a list whose images are all `c`.
pub get_elem?-replicate {ℓ} :
    {A : Type ℓ} (f : A → ℕ) (c m n : ℕ) (xs : List A)
    → map f xs ≡ replicate m c
    → n < m
    → (a : A) × (get_elem? xs n ≡ some a) × (f a ≡ c)
get_elem?-replicate f c zero n xs h lt = absurd (omega arith)
get_elem?-replicate f c (suc m) n [] h lt = cc
get_elem?-replicate f c (suc m) zero (x ∷ xs) h lt = (x, refl, ap (λ zs. get_or zs 0 c) h)
get_elem?-replicate f c (suc m) (suc n) (x ∷ xs) h lt =
    get_elem?-replicate f c m n xs (ap (λ zs. drop 1 zs) h) (omega arith)
