-- ===== src/Host/Transfer/ControlBalance.antt =====
-- The qTD slots of a control transfer: different ones within the pool, and none is lost on any path.
use imxrt_usbh.Base.{
  ℕ, ◌<◌, ◌≡◌, ◌≢◌, refl, sym, ap, ◌∙◌, inl, inr, Bool, true, false, Option-cases, none, some,
  length, length-set, set, arith,
}
use mathlib.Core.Option.{some_inj}
use imxrt_usbh.Host.Error.{UsbError, Outcome, ok, err}
use imxrt_usbh.Host.Schedule.Qtd.{alloc_qtd, drop_slot}
use imxrt_usbh.Host.Schedule.Qtd.Laws.{drop_slot-alloc_qtd_later, alloc_qtd-some}
use imxrt_usbh.Host.Schedule.Qtd.Apart.{
  IsMarked, alloc_qtd-IsMarked, alloc_qtd_apart, alloc_qtd_kept,
}
use imxrt_usbh.Host.Transfer.Keeps.{Rests, Rests-refl, Rests-trans, marks-Rests, drop_slot-Rests}
use imxrt_usbh.Host.Statics.{UsbStatics, num_qtd}
use imxrt_usbh.Host.Transfer.Balance.{is_some}
use imxrt_usbh.Host.Transfer.Control.{ControlSlots, alloc_status, alloc_control, drop_control}

module _ {Pool : Type 0} where
  -- The two states differ in the bitmap at most.
  pub record OnlyMarks (s t : UsbStatics Pool) : Type 0 where
    pub heads : t.qh_pool ≡ s.qh_pool
    pub frames : t.frame_list ≡ s.frame_list
    pub rests : Rests s t
    pub count : length t.qtd_allocated ≡ length s.qtd_allocated

  alloc_qtd-OnlyMarks :
      (s : UsbStatics Pool) (took : ℕ × UsbStatics Pool)
      → alloc_qtd s ≡ some took
      → OnlyMarks s took.1
  alloc_qtd-OnlyMarks s took h =
      let (_, same, _) = alloc_qtd-some s took h in
      record {
        heads = ap (λ u. u.qh_pool) same;
        frames = ap (λ u. u.frame_list) same;
        rests = marks-Rests s took.1 (set s.qtd_allocated took.0 true) same;
        count = ap (λ u. length u.qtd_allocated) same ∙ length-set s.qtd_allocated took.0 true;
      }

  OnlyMarks-trans : (s t u : UsbStatics Pool) → OnlyMarks s t → OnlyMarks t u → OnlyMarks s u
  OnlyMarks-trans s t u k m = record {
    heads = m.heads ∙ k.heads;
    frames = m.frames ∙ k.frames;
    rests = Rests-trans s t u k.rests m.rests;
    count = m.count ∙ k.count;
  }

  -- The slots that an allocation has given: they lie within the pool and are different, nothing but the
  -- bitmap is new, and dropping them later brings that back.
  pub record Allocated (s : UsbStatics Pool) (slots : ControlSlots) (t : UsbStatics Pool)
      : Type 0 where
    pub setup-lt : slots.setup_slot < num_qtd
    pub data-lt : (d : ℕ) → slots.data_slot ≡ some d → d < num_qtd
    pub status-lt : slots.status_slot < num_qtd
    pub setup_data : (d : ℕ) → slots.data_slot ≡ some d → slots.setup_slot ≢ d
    pub setup_status : slots.setup_slot ≢ slots.status_slot
    pub data_status : (d : ℕ) → slots.data_slot ≡ some d → d ≢ slots.status_slot
    pub marks : OnlyMarks s t
    pub releases :
        (u : UsbStatics Pool)
        → u.qtd_allocated ≡ t.qtd_allocated
        → (drop_control slots u).qtd_allocated ≡ s.qtd_allocated

  -- What an allocation does, on each of its paths.
  abbrev pub Allocates : Bool → UsbStatics Pool → Outcome ControlSlots × UsbStatics Pool → Type 0
  Allocates data_phase s (err e, t) =
      (e ≡ UsbError.all_pipes_in_use)
      × (t.qtd_allocated ≡ s.qtd_allocated)
      × (t.qh_pool ≡ s.qh_pool)
      × (t.frame_list ≡ s.frame_list)
      × Rests s t
  Allocates data_phase s (ok slots, t) =
      (is_some slots.data_slot ≡ data_phase) × Allocated s slots t

  dropped-Rests : (s t : UsbStatics Pool) (i : ℕ) → Rests s t → Rests s (drop_slot i t)
  dropped-Rests s t i k = Rests-trans s t (drop_slot i t) k (drop_slot-Rests i t)

  without_data :
      (s : UsbStatics Pool) (a : ℕ × UsbStatics Pool)
      → length s.qtd_allocated ≡ num_qtd
      → alloc_qtd s ≡ some a
      → Allocates false s (alloc_status a.0 none a.1)
  unfolding alloc_status drop_control drop_slot
  without_data s a size first = elim (Option-cases (alloc_qtd a.1)) [
    | inl full ↦
        rw (full, alloc_status, Allocates)
          (
            refl,
            drop_slot-alloc_qtd_later s a.1 a first refl,
            m.heads,
            m.frames,
            dropped-Rests s a.1 a.0 m.rests,
          )
    | inr (c, third) ↦
        rw (third, alloc_status, Allocates)
          (
            refl,
            record {
              setup-lt = omega (arith, (alloc_qtd-some s a first).0, size);
              data-lt = λ d h. cc;
              status-lt = omega (arith, (alloc_qtd-some a.1 c third).0, m.count, size);
              setup_data = λ d h. cc;
              setup_status = alloc_qtd_apart a.1 c third a.0 (alloc_qtd-IsMarked s a first);
              data_status = λ d h. cc;
              marks = OnlyMarks-trans s a.1 c.1 m (alloc_qtd-OnlyMarks a.1 c third);
              releases = λ u h.
                  drop_slot-alloc_qtd_later s (drop_slot c.0 u) a first
                    (drop_slot-alloc_qtd_later a.1 u c third h);
            },
          )
  ]
    where
      m : OnlyMarks s a.1
      m = alloc_qtd-OnlyMarks s a first

  with_data :
      (s : UsbStatics Pool) (a b : ℕ × UsbStatics Pool)
      → length s.qtd_allocated ≡ num_qtd
      → alloc_qtd s ≡ some a
      → alloc_qtd a.1 ≡ some b
      → Allocates true s (alloc_status a.0 (some b.0) b.1)
  unfolding alloc_status drop_control drop_slot
  with_data s a b size first second = elim (Option-cases (alloc_qtd b.1)) [
    | inl full ↦
        rw (full, alloc_status, Allocates)
          (
            refl,
            drop_slot-alloc_qtd_later s (drop_slot b.0 b.1) a first
                (drop_slot-alloc_qtd_later a.1 b.1 b second refl),
            n.heads,
            n.frames,
            dropped-Rests s (drop_slot b.0 b.1) a.0 (dropped-Rests s b.1 b.0 n.rests),
          )
    | inr (c, third) ↦
        rw (third, alloc_status, Allocates)
          (
            refl,
            record {
              setup-lt = omega (arith, (alloc_qtd-some s a first).0, size);
              data-lt = λ d h.
                  omega (arith, (alloc_qtd-some a.1 b second).0, m.count, size, some_inj.0 h);
              status-lt = omega (arith, (alloc_qtd-some b.1 c third).0, n.count, size);
              setup_data =
                  λ d h e. alloc_qtd_apart a.1 b second a.0 marked (e ∙ sym (some_inj.0 h));
              setup_status =
                  alloc_qtd_apart b.1 c third a.0 (alloc_qtd_kept a.1 b second a.0 marked);
              data_status = λ d h e.
                  alloc_qtd_apart b.1 c third b.0 (alloc_qtd-IsMarked a.1 b second)
                    (some_inj.0 h ∙ e);
              marks = OnlyMarks-trans s b.1 c.1 n (alloc_qtd-OnlyMarks b.1 c third);
              releases = λ u h.
                  drop_slot-alloc_qtd_later s (drop_slot b.0 (drop_slot c.0 u)) a first (
                    drop_slot-alloc_qtd_later a.1 (drop_slot c.0 u) b second
                      (drop_slot-alloc_qtd_later b.1 u c third h));
            },
          )
  ]
    where
      m : OnlyMarks s a.1
      m = alloc_qtd-OnlyMarks s a first

      n : OnlyMarks s b.1
      n = OnlyMarks-trans s a.1 b.1 m (alloc_qtd-OnlyMarks a.1 b second)

      marked : IsMarked a.1 a.0
      marked = alloc_qtd-IsMarked s a first

  allocates_first :
      (data_phase : Bool) (s : UsbStatics Pool) (a : ℕ × UsbStatics Pool)
      → length s.qtd_allocated ≡ num_qtd
      → alloc_qtd s ≡ some a
      → Allocates data_phase s (alloc_control data_phase s)
  unfolding alloc_control drop_slot
  allocates_first false s a size first = rw (first, alloc_control) (without_data s a size first)
  allocates_first true s a size first = elim (Option-cases (alloc_qtd a.1)) [
    | inl full ↦
        let m : OnlyMarks s a.1 = alloc_qtd-OnlyMarks s a first in
        rw (first, full, alloc_control, Allocates)
          (
            refl,
            drop_slot-alloc_qtd_later s a.1 a first refl,
            m.heads,
            m.frames,
            dropped-Rests s a.1 a.0 m.rests,
          )
    | inr (b, second) ↦ rw (first, second, alloc_control) (with_data s a b size first second)
  ]

  -- The allocation of the slots of a control transfer, two or with a data phase three, fails only with
  -- `AllPipesInUse` and then changes no mark, queue head or frame, whichever of the allocations it is
  -- that fails. If it succeeds, the slots are different and lie within the pool, only the bitmap is new,
  -- and dropping the slots, at any later time at which the bitmap is the same, brings it back. The
  -- bitmap has as many marks as the pool has qTDs.
  pub alloc_control-Allocates :
      (data_phase : Bool) (s : UsbStatics Pool)
      → length s.qtd_allocated ≡ num_qtd
      → Allocates data_phase s (alloc_control data_phase s)
  unfolding alloc_control
  alloc_control-Allocates data_phase s size = elim (Option-cases (alloc_qtd s)) [
    | inl full ↦ rw (full, alloc_control, Allocates) (refl, refl, refl, refl, Rests-refl s)
    | inr (a, first) ↦ allocates_first data_phase s a size first
  ]
