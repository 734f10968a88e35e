-- ===== src/Host/Transfer/Balance.antt =====
-- The qTD slots of a transfer: none is lost, on any path.
use imxrt_usbh.Base.{
  ◌<◌, sym, List, Option, none, length, length-set, arith, ℕ, ◌≡◌, refl, ap, ◌∙◌, inl, inr, Bool,
  true, false, Option-cases, some, set,
}
use mathlib.Core.Option.{some_inj}
use imxrt_usbh.Host.Error.{UsbError, Outcome, ok, err}
use imxrt_usbh.Host.Schedule.Qtd.{alloc_qtd, drop_slot}
use imxrt_usbh.Host.Schedule.Qtd.Laws.{
  drop_slot-alloc_qtd, drop_slot-alloc_qtd_later, alloc_qtd-some,
}
use imxrt_usbh.Host.Transfer.Keeps.{Rests, Rests-refl, Rests-trans, marks-Rests, drop_slot-Rests}
use imxrt_usbh.Host.Statics.{UsbStatics, num_qtd}
use imxrt_usbh.Host.Transfer.Bulk.{Slots, alloc_slots, drop_slots}

-- Whether there is a value.
abbrev pub is_some : Option ℕ → Bool
is_some none = false
is_some (some _) = true

module _ {Pool : Type 0} where
  -- A failed allocation says so and leaves the bitmap as it was; after one that succeeds the drops
  -- bring it back.
  abbrev pub Balances : UsbStatics Pool → Outcome Slots × UsbStatics Pool → Type 0
  Balances s (err e, s') = (e ≡ UsbError.all_pipes_in_use) × (s'.qtd_allocated ≡ s.qtd_allocated)
  Balances s (ok slots, s') = (drop_slots slots s').qtd_allocated ≡ s.qtd_allocated

  dropped :
      (s : UsbStatics Pool) {i : ℕ} {s' : UsbStatics Pool}
      → alloc_qtd s ≡ some (i, s')
      → (drop_slot i s').qtd_allocated ≡ s.qtd_allocated
  dropped s h = ap (λ t. t.qtd_allocated) (drop_slot-alloc_qtd s h)

  -- The drop of a slot looks at nothing but the bitmap for the bitmap.
  dropped_alike :
      (s t : UsbStatics Pool) (i : ℕ)
      → s.qtd_allocated ≡ t.qtd_allocated
      → (drop_slot i s).qtd_allocated ≡ (drop_slot i t).qtd_allocated
  unfolding drop_slot
  dropped_alike s t i same = ap (λ slots. set slots i false) same

  one_slot :
      (s : UsbStatics Pool) (zlp : Bool) (took : ℕ × UsbStatics Pool)
      → alloc_qtd s ≡ some took
      → Balances s (alloc_slots zlp s)
  unfolding alloc_slots drop_slots
  one_slot s false took first =
      rw (first, alloc_slots, Balances) (dropped s {i = took.0} {s' = took.1} first)
  one_slot s true took first = elim (Option-cases (alloc_qtd took.1)) [
    | inl full ↦
        rw (first, full, alloc_slots, Balances) (refl, dropped s {i = took.0} {s' = took.1} first)
    | inr (took', second) ↦
        rw (first, second, alloc_slots, Balances)
          (dropped_alike (drop_slot took'.0 took'.1) took.1 took.0
              (dropped took.1 {i = took'.0} {s' = took'.1} second)
            ∙ dropped s {i = took.0} {s' = took.1} first)
  ]

  -- The allocation of the slots of a bulk transfer, one for the data and one for a zero-length
  -- packet if there is to be one, fails only with `AllPipesInUse` and then marks no slot, also if the
  -- second of two allocations is the one that fails. If it succeeds, dropping the slots brings the
  -- bitmap back as it was.
  pub alloc_slots-Balances : (zlp : Bool) (s : UsbStatics Pool) → Balances s (alloc_slots zlp s)
  unfolding alloc_slots
  alloc_slots-Balances zlp s = elim (Option-cases (alloc_qtd s)) [
    | inl full ↦ rw (full, alloc_slots, Balances) (refl, refl)
    | inr (took, first) ↦ one_slot s zlp took first
  ]

  -- The slots that an allocation has given: they lie within the pool, nothing but the bitmap is new,
  -- and dropping them later brings that back.
  pub record Allocated (zlp : Bool) (s : UsbStatics Pool) (slots : Slots) (t : UsbStatics Pool)
      : Type 0 where
    pub data-lt : slots.data_slot < num_qtd
    pub zlp-lt : (z : ℕ) → slots.zlp_slot ≡ some z → z < num_qtd
    pub shape : is_some slots.zlp_slot ≡ zlp
    pub only_marks : t ≡ record s { qtd_allocated = t.qtd_allocated }
    pub releases :
        (u : UsbStatics Pool)
        → u.qtd_allocated ≡ t.qtd_allocated
        → (drop_slots slots u).qtd_allocated ≡ s.qtd_allocated

  -- What an allocation does, on each of its paths.
  abbrev pub Allocates : Bool → UsbStatics Pool → Outcome Slots × UsbStatics Pool → Type 0
  Allocates zlp s (err e, t) =
      (e ≡ UsbError.all_pipes_in_use)
      × (t.qtd_allocated ≡ s.qtd_allocated)
      × (t.qh_pool ≡ s.qh_pool)
      × (t.frame_list ≡ s.frame_list)
      × Rests s t
  Allocates zlp s (ok slots, t) = Allocated zlp s slots t

  -- What is new is the bitmap, whichever way it is written.
  marks_of :
      (s t : UsbStatics Pool) (slots : List Bool)
      → t ≡ record s { qtd_allocated = slots }
      → t ≡ record s { qtd_allocated = t.qtd_allocated }
  marks_of s t slots h =
      h ∙ ap (λ marks. record s { qtd_allocated = marks }) (ap (λ u. u.qtd_allocated) (sym h))

  -- The slots of the data and of the zero-length packet.
  given :
      (zlp : Bool) (s : UsbStatics Pool) (took : ℕ × UsbStatics Pool)
      → length s.qtd_allocated ≡ num_qtd
      → alloc_qtd s ≡ some took
      → Allocates zlp s (alloc_slots zlp s)
  unfolding alloc_slots drop_slots drop_slot
  given false s took size first =
      let (lt, same, _) = alloc_qtd-some s took first in
      rw (first, alloc_slots, Allocates)
        (record {
          data-lt = omega (arith, lt, size);
          zlp-lt = λ z h. cc;
          shape = refl;
          only_marks = marks_of s took.1 (set s.qtd_allocated took.0 true) same;
          releases = λ u h. drop_slot-alloc_qtd_later s u took first h;
        })
  given true s took size first =
      let (lt, same, _) = alloc_qtd-some s took first in
      elim (Option-cases (alloc_qtd took.1)) [
        | inl full ↦
            rw (first, full, alloc_slots, Allocates)
              (
                refl,
                drop_slot-alloc_qtd_later s took.1 took first refl,
                ap (λ u. u.qh_pool) same,
                ap (λ u. u.frame_list) same,
                Rests-trans s took.1 (drop_slot took.0 took.1)
                    (marks-Rests s took.1 (set s.qtd_allocated took.0 true) same)
                    (drop_slot-Rests took.0 took.1),
              )
        | inr (took', second) ↦
            let (lt', same', _) = alloc_qtd-some took.1 took' second in
            rw (first, second, alloc_slots, Allocates)
              (record {
                data-lt = omega (arith, lt, size);
                zlp-lt = λ z h. omega (arith, lt', marked_size took same size, some_inj.0 h);
                shape = refl;
                only_marks = marks_of s took'.1 (set took.1.qtd_allocated took'.0 true) (
                    same'
                    ∙ ap
                        (λ (u : UsbStatics Pool). record u {
                          qtd_allocated = set took.1.qtd_allocated took'.0 true;
                        })
                        same);
                releases = λ u h.
                    drop_slot-alloc_qtd_later s (drop_slot took'.0 u) took first
                      (drop_slot-alloc_qtd_later took.1 u took' second h);
              })
      ]
    where
      marked_size :
          (t : ℕ × UsbStatics Pool)
          → t.1 ≡ record s { qtd_allocated = set s.qtd_allocated t.0 true }
          → length s.qtd_allocated ≡ num_qtd
          → length t.1.qtd_allocated ≡ num_qtd
      marked_size t e h =
          ap (λ u. length u.qtd_allocated) e ∙ length-set s.qtd_allocated t.0 true ∙ h

  -- The allocation either fails with `AllPipesInUse` and changes no queue head, frame or mark, or gives
  -- slots within the pool.
  pub alloc_slots-Allocates :
      (zlp : Bool) (s : UsbStatics Pool)
      → length s.qtd_allocated ≡ num_qtd
      → Allocates zlp s (alloc_slots zlp s)
  unfolding alloc_slots drop_slots
  alloc_slots-Allocates zlp s size = elim (Option-cases (alloc_qtd s)) [
    | inl full ↦ rw (full, alloc_slots, Allocates) (refl, refl, refl, refl, Rests-refl s)
    | inr (took, first) ↦ given zlp s took size first
  ]
