-- ===== src/Host/Schedule/Reachable.antt =====
-- The states that links and unlinks of the two schedules lead to.
use imxrt_usbh.Host.Schedule.Both.{
  IsScheduled, link_async, unlink_async, link_periodic, unlink_periodic,
}
use imxrt_usbh.Base.{ℕ, ◌+◌, ◌<◌, ◌≡◌, subst, true, false, List, [], ◌∷◌, arith}
use imxrt_usbh.Base.Members.{has, erase}
use imxrt_usbh.Host.Run.{Run, ok}
use imxrt_usbh.Host.Statics.{UsbStatics, Layout, IsAligned, num_qh, qh_addr}
use imxrt_usbh.Host.Schedule.Async.{link_qh_to_async_schedule, unlink_qh_from_async_schedule}
use imxrt_usbh.Host.Schedule.Periodic.{
  link_qh_to_periodic_schedule, unlink_qh_from_periodic_schedule,
}

module _ {Pool : Type 0} (l : Layout) where
  -- The states that linking and unlinking lead to from `start`, with the queue heads that are in each
  -- schedule: a pipe links its queue head, which is in neither schedule and not the sentinel, and
  -- unlinks it again.
  pub data Reached (start : UsbStatics Pool) : UsbStatics Pool → List ℕ → List ℕ → Type 0 where
    initial : Reached start start [] []
    async_linked :
        {s s' : UsbStatics Pool} {xs ys : List ℕ} (q : ℕ)
        → Reached start s xs ys
        → 0 < q
        → q < num_qh + 1
        → has q xs ≡ false
        → has q ys ≡ false
        → link_qh_to_async_schedule l (qh_addr l q) s ≡ ok s'
        → Reached start s' (q ∷ xs) ys
    async_unlinked :
        {s s' : UsbStatics Pool} {xs ys : List ℕ} (q : ℕ)
        → Reached start s xs ys
        → q < num_qh + 1
        → has q xs ≡ true
        → unlink_qh_from_async_schedule l num_qh (qh_addr l q) s ≡ ok s'
        → Reached start s' (erase q xs) ys
    periodic_linked :
        {s s' : UsbStatics Pool} {xs ys : List ℕ} (q : ℕ)
        → Reached start s xs ys
        → 0 < q
        → q < num_qh + 1
        → has q xs ≡ false
        → has q ys ≡ false
        → link_qh_to_periodic_schedule l (qh_addr l q) s ≡ ok s'
        → Reached start s' xs (q ∷ ys)
    periodic_unlinked :
        {s s' : UsbStatics Pool} {xs ys : List ℕ} (q : ℕ)
        → Reached start s xs ys
        → q < num_qh + 1
        → has q ys ≡ true
        → unlink_qh_from_periodic_schedule l (qh_addr l q) s ≡ ok s'
        → Reached start s' xs (erase q ys)

  same_result : {s t : UsbStatics Pool} (r : Run (UsbStatics Pool)) → r ≡ ok s → r ≡ ok t → s ≡ t
  same_result r h k = cc

-- Every state that linking and unlinking lead to from two empty schedules keeps both of them right: the
-- async schedule is a ring through the sentinel, the periodic schedule a chain that all frames share,
-- each holds exactly the queue heads linked and not unlinked since, the last one linked first, and
-- none is in both.
pub Reached-IsScheduled :
    {Pool : Type 0} {l : Layout} (aligned : IsAligned l) {start s : UsbStatics Pool}
    {xs ys : List ℕ}
    → IsScheduled l start [] []
    → Reached l start s xs ys
    → IsScheduled l s xs ys
Reached-IsScheduled aligned empty initial = empty
Reached-IsScheduled {l = l} aligned empty
      (async_linked {s} {s'} {xs} {ys} q before pos below out free run) =
    let (runs, both) =
      link_async l s q xs ys (Reached-IsScheduled aligned empty before) pos below out free in
    subst (λ t. IsScheduled l t (q ∷ xs) ys) (same_result l _ runs run) both
Reached-IsScheduled {l = l} aligned empty
      (async_unlinked {s} {s'} {xs} {ys} q before below member run) =
    let (p, runs, both) =
      unlink_async l aligned s num_qh q xs ys (Reached-IsScheduled aligned empty before) below
        member (omega arith) in
    subst (λ t. IsScheduled l t (erase q xs) ys) (same_result l _ runs run) both
Reached-IsScheduled {l = l} aligned empty
      (periodic_linked {s} {s'} {xs} {ys} q before pos below out free run) =
    let (runs, both) =
      link_periodic l s q xs ys (Reached-IsScheduled aligned empty before) pos below out free in
    subst (λ t. IsScheduled l t xs (q ∷ ys)) (same_result l _ runs run) both
Reached-IsScheduled {l = l} aligned empty
      (periodic_unlinked {s} {s'} {xs} {ys} q before below member run) =
    let (t, runs, both, _) =
      unlink_periodic l aligned s q xs ys (Reached-IsScheduled aligned empty before) below member in
    subst (λ t. IsScheduled l t xs (erase q ys)) (same_result l _ runs run) both
