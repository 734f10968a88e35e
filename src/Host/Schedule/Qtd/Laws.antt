-- ===== src/Host/Schedule/Qtd/Laws.antt =====
-- What `alloc_qtd` and the drop of a slot do to the bitmap and the descriptors.
use imxrt_usbh.Base.{
  ◌∙◌, lt_of_get_elem?, ℕ, zero, suc, ◌+◌, ◌-◌, ◌≤◌, ◌<◌, ◌≡◌, refl, ap, subst, Bool, true, false,
  List, [], ◌∷◌, Option, none, some, get_elem?, set, length, arith, if◌then◌else◌,
}
use imxrt_usbh.Ehci.Td
use imxrt_usbh.Ehci.Td.{TransferDescriptor}
use imxrt_usbh.Host.Statics.{UsbStatics}
use imxrt_usbh.Host.Schedule.Qtd.{first_free, taken, alloc_qtd, drop_slot}

-- How many slots are allocated.
unfoldable pub in_use : List Bool → ℕ
in_use [] = 0
in_use (allocated ∷ rest) = (if allocated then 1 else 0) + in_use rest

in_use-le : (slots : List Bool) → in_use slots ≤ length slots
unfolding in_use
in_use-le [] = omega arith
in_use-le (x ∷ slots) = ground (arith, in_use-le slots)

-- What a search that started at number `i` says of the slots.
abbrev pub Found : ℕ → List Bool → Option ℕ → Type 0
Found i slots none = (k : ℕ) → k < length slots → get_elem? slots k ≡ some true
Found i slots (some j) =
    (i ≤ j)
    × (get_elem? slots (j - i) ≡ some false)
    × ((k : ℕ) → k < j - i → get_elem? slots k ≡ some true)

all_allocated :
    (slots : List Bool)
    → ((k : ℕ) → k < length slots → get_elem? slots k ≡ some true)
    → (k : ℕ) → k < suc (length slots)
    → get_elem? (true ∷ slots) k ≡ some true
all_allocated slots h zero lt = refl
all_allocated slots h (suc k) lt = h k (omega arith)

Found-step :
    (i : ℕ) (slots : List Bool) (r : Option ℕ) → Found (i + 1) slots r → Found i (true ∷ slots) r
Found-step i slots none h = all_allocated slots h
Found-step i slots (some j) h = (
  omega (arith, h.0),
  let e : j - i ≡ suc (j - (i + 1)) = omega (arith, h.0) in rw e h.1,
  earlier,
)
  where
    earlier : (k : ℕ) → k < j - i → get_elem? (true ∷ slots) k ≡ some true
    earlier zero lt = refl
    earlier (suc k) lt = h.2 k (omega arith)

pub first_free-Found : (i : ℕ) (slots : List Bool) → Found i slots (first_free i slots)
unfolding first_free
first_free-Found i [] = λ k lt. absurd (omega arith)
first_free-Found i (false ∷ slots) =
    let e : i - i ≡ 0 = omega arith in (omega arith, rw e, λ k lt. absurd (omega arith))
first_free-Found i (true ∷ slots) = Found-step i slots _ (first_free-Found (i + 1) slots)

set_same :
    (slots : List Bool) (i : ℕ) (b c : Bool)
    → get_elem? slots i ≡ some c
    → set (set slots i b) i c ≡ slots
set_same [] i b c h = refl
set_same (x ∷ slots) zero b c h = cc
set_same (x ∷ slots) (suc i) b c h = ap (λ r. x ∷ r) (set_same slots i b c h)

in_use-set :
    (slots : List Bool) (i : ℕ)
    → get_elem? slots i ≡ some false
    → in_use (set slots i true) ≡ suc (in_use slots)
unfolding in_use
in_use-set [] i h = cc
in_use-set (x ∷ slots) zero h = ground arith
in_use-set (x ∷ slots) (suc i) h = omega (arith, in_use-set slots i h)

in_use-lt :
    (slots : List Bool) (i : ℕ) → get_elem? slots i ≡ some false → in_use slots < length slots
unfolding in_use
in_use-lt [] i h = cc
in_use-lt (x ∷ slots) zero h = ground (arith, in_use-le slots)
in_use-lt (x ∷ slots) (suc i) h = ground (arith, in_use-lt slots i h)

in_use_full :
    (slots : List Bool)
    → ((k : ℕ) → k < length slots → get_elem? slots k ≡ some true)
    → in_use slots ≡ length slots
unfolding in_use
in_use_full [] h = refl
in_use_full (x ∷ slots) h =
    ground (arith, h 0 (omega arith), in_use_full slots (λ k lt. h (suc k) (omega arith)))

module _ {Pool : Type 0} where
  abbrev pub Allocates : UsbStatics Pool → Option (ℕ × UsbStatics Pool) → Type 0
  Allocates s none = in_use s.qtd_allocated ≡ length s.qtd_allocated
  Allocates s (some (i, s')) =
      (get_elem? s.qtd_allocated i ≡ some false)
      × ((k : ℕ) → k < i → get_elem? s.qtd_allocated k ≡ some true)
      × (s' ≡ record s { qtd_allocated = set s.qtd_allocated i true })
      × (in_use s'.qtd_allocated ≡ suc (in_use s.qtd_allocated))

  -- `alloc_qtd` fails exactly when every slot is in use. Otherwise it takes the first free slot,
  -- marks it and nothing else, and one more slot is in use.
  pub alloc_qtd-Allocates : (s : UsbStatics Pool) → Allocates s (alloc_qtd s)
  unfolding alloc_qtd
  alloc_qtd-Allocates s = outcome (first_free 0 slots) (first_free-Found 0 slots)
    where
      slots : List Bool
      slots = s.qtd_allocated

      outcome : (r : Option ℕ) → Found 0 slots r → Allocates s (taken s r)
      outcome none full = in_use_full slots full
      outcome (some i) found =
          let e : i - 0 ≡ i = omega arith in
          let free : get_elem? slots i ≡ some false = rw e at found.1 in
          (free, rw e at found.2, refl, in_use-set slots i free)

  -- A slot that is dropped right after its allocation leaves the bitmap as it was, and its
  -- descriptor as a new one.
  pub drop_slot-alloc_qtd :
      (s : UsbStatics Pool) {i : ℕ} {s' : UsbStatics Pool}
      → alloc_qtd s ≡ some (i, s')
      → drop_slot i s' ≡ record s { qtd_pool = set s.qtd_pool i Td.new }
  unfolding drop_slot Td.new
  drop_slot-alloc_qtd s {i} {s'} h =
      let (free, _, same, _) = allocated in rw (same, set_same s.qtd_allocated i true false free)
    where
      allocated : Allocates s (some (i, s'))
      allocated = subst (Allocates s) h (alloc_qtd-Allocates s)

  -- A slot that is allocated lies within the pool, and nothing but its mark is new.
  pub alloc_qtd-some :
      (s : UsbStatics Pool) (took : ℕ × UsbStatics Pool)
      → alloc_qtd s ≡ some took
      → (took.0 < length s.qtd_allocated)
        × (took.1 ≡ record s { qtd_allocated = set s.qtd_allocated took.0 true })
        × (in_use took.1.qtd_allocated ≡ suc (in_use s.qtd_allocated))
  alloc_qtd-some s took h =
      let (vacant, _, same, count) = allocated in
      (lt_of_get_elem? s.qtd_allocated took.0 vacant, same, count)
    where
      allocated : Allocates s (some (took.0, took.1))
      allocated = subst (Allocates s) h (alloc_qtd-Allocates s)

  -- Dropping the slot later brings the bitmap back, if that is the same as after the allocation.
  pub drop_slot-alloc_qtd_later :
      (s t : UsbStatics Pool) (took : ℕ × UsbStatics Pool)
      → alloc_qtd s ≡ some took
      → t.qtd_allocated ≡ took.1.qtd_allocated
      → (drop_slot took.0 t).qtd_allocated ≡ s.qtd_allocated
  unfolding drop_slot
  drop_slot-alloc_qtd_later s t took h same =
      ap (λ slots. set slots took.0 false) same
      ∙ ap (λ u. u.qtd_allocated) (drop_slot-alloc_qtd s {i = took.0} {s' = took.1} h)
