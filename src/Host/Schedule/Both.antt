-- ===== src/Host/Schedule/Both.antt =====
-- Both schedules together: they share the pool of queue heads, and a queue head is in one of them at
-- most.
use imxrt_usbh.Base.{
  ℕ, ◌+◌, ◌<◌, ◌≡◌, ◌≢◌, refl, sym, subst, ◌∙◌, true, false, List, ◌∷◌, length, get_or, ◌≤◌,
  Bool-cases, inl, inr, arith, replicate,
}
use imxrt_usbh.Base.Members.{has, erase, ne_of_has, has-erase_of_not-has}
use imxrt_usbh.Ehci.FrameList.{frame_list_len}
use imxrt_usbh.Ehci.Link.{link_terminate}
use imxrt_usbh.Host.Run.{ok}
use imxrt_usbh.Host.Statics.{UsbStatics, Layout, IsAligned, num_qh, qh_addr}
use imxrt_usbh.Host.Statics.Links.{SameRest, link_of, set_link, link_of-set_link_ne}
use imxrt_usbh.Host.Schedule.Async.{link_qh_to_async_schedule, unlink_qh_from_async_schedule}
use imxrt_usbh.Host.Schedule.Async.Ring.{Route-frame, IsRing}
use imxrt_usbh.Host.Schedule.Async.Insert as AsyncInsert
use imxrt_usbh.Host.Schedule.Async.Insert.{link_qh_to_async_schedule-IsRing}
use imxrt_usbh.Host.Schedule.Async.Remove.{unlink_qh_from_async_schedule-IsRing}
use imxrt_usbh.Host.Schedule.Periodic.{
  head_entry, link_qh_to_periodic_schedule, unlink_qh_from_periodic_schedule,
}
use imxrt_usbh.Host.Schedule.Periodic.Chain.{Chain, Chain-frame, IsPeriodic}
use imxrt_usbh.Host.Schedule.Periodic.Insert as PeriodicInsert
use imxrt_usbh.Host.Schedule.Periodic.Insert.{link_qh_to_periodic_schedule-IsPeriodic}
use imxrt_usbh.Host.Schedule.Periodic.Remove.{unlink_qh_from_periodic_schedule-IsPeriodic}

zero_ne : (x : ℕ) (xs : List ℕ) → has x (0 ∷ xs) ≡ false → 0 ≢ x
zero_ne x xs h e = ground arith

module _ {Pool : Type 0} (l : Layout) where
  -- The async schedule holds `xs`, the periodic schedule `ys`, none of them in both, and the sentinel
  -- is not in the periodic schedule.
  pub record IsScheduled (s : UsbStatics Pool) (xs ys : List ℕ) : Type 0 where
    pub ring : IsRing l s xs
    pub periodic : IsPeriodic l s ys
    pub apart : (x : ℕ) → has x ys ≡ true → has x (0 ∷ xs) ≡ false

  pub IsRing-frame :
      (s s' : UsbStatics Pool) (xs : List ℕ)
      → ((x : ℕ) → has x (0 ∷ xs) ≡ true → link_of s' x ≡ link_of s x)
      → length s'.qh_pool ≡ num_qh + 1
      → IsRing l s xs
      → IsRing l s' xs
  IsRing-frame s s' xs same size ring = record {
    path =
        Route-frame l s s' 0 0 xs (same 0 (ground arith)) (λ x h. same x (ground arith)) ring.path;
    distinct = ring.distinct;
    in_pool = ring.in_pool;
    size = size;
  }

  pub IsPeriodic-frame :
      (s s' : UsbStatics Pool) (ys : List ℕ)
      → s'.frame_list ≡ s.frame_list
      → ((x : ℕ) → has x ys ≡ true → link_of s' x ≡ link_of s x)
      → length s'.qh_pool ≡ num_qh + 1
      → IsPeriodic l s ys
      → IsPeriodic l s' ys
  IsPeriodic-frame s s' ys frames same size p = record {
    in_sync =
        subst (λ f. f.entries ≡ replicate frame_list_len (get_or f.entries 0 link_terminate))
          (sym frames) p.in_sync;
    chain =
        Chain-frame l s s' (head_entry s') ys same
          (subst (λ f. Chain l s (get_or f.entries 0 link_terminate) ys) (sym frames) p.chain);
    distinct = p.distinct;
    in_pool = p.in_pool;
    size = size;
  }

  pub link_async :
      (s : UsbStatics Pool) (q : ℕ) (xs ys : List ℕ)
      → IsScheduled s xs ys
      → 0 < q
      → q < num_qh + 1
      → has q xs ≡ false
      → has q ys ≡ false
      → (link_qh_to_async_schedule l (qh_addr l q) s ≡ ok (AsyncInsert.linked l s q))
        × IsScheduled (AsyncInsert.linked l s q) (q ∷ xs) ys
  link_async s q xs ys both pos below out free =
      let (run, ring) = link_qh_to_async_schedule-IsRing l s q xs both.ring pos below out in
      (
        run,
        record {
          ring = ring;
          periodic =
              IsPeriodic-frame s (AsyncInsert.linked l s q) ys refl
                (λ x h.
                  link_of-set_link_ne (set_link s q (link_of s 0)) 0 x _
                    (zero_ne x xs (both.apart x h))
                  ∙ link_of-set_link_ne s q x (link_of s 0) (λ e. ne_of_has x q ys h free (sym e)))
                ring.size both.periodic;
          apart = λ x h. ground (arith, both.apart x h, ne_of_has x q ys h free);
        },
      )

  pub unlink_async :
      IsAligned l
      → (s : UsbStatics Pool) (fuel q : ℕ) (xs ys : List ℕ) → IsScheduled s xs ys
      → q < num_qh + 1
      → has q xs ≡ true
      → num_qh ≤ fuel
      → (p : ℕ) × (unlink_qh_from_async_schedule l fuel (qh_addr l q) s
          ≡ ok (set_link s p (link_of s q)))
        × IsScheduled (set_link s p (link_of s q)) (erase q xs) ys
  unlink_async aligned s fuel q xs ys both below member enough =
      let (p, run, on_path, ring) =
        unlink_qh_from_async_schedule-IsRing aligned s fuel q xs both.ring below member enough in
      (
        p,
        run,
        record {
          ring = ring;
          periodic =
              IsPeriodic-frame s (set_link s p (link_of s q)) ys refl
                (λ x h.
                  link_of-set_link_ne s p x (link_of s q)
                    (ne_of_has p x (0 ∷ xs) on_path (both.apart x h)))
                ring.size both.periodic;
          apart = λ x h.
              ground (
                arith,
                both.apart x h,
                has-erase_of_not-has x q xs (ground (arith, both.apart x h)),
              );
        },
      )

  pub link_periodic :
      (s : UsbStatics Pool) (q : ℕ) (xs ys : List ℕ)
      → IsScheduled s xs ys
      → 0 < q
      → q < num_qh + 1
      → has q xs ≡ false
      → has q ys ≡ false
      → (link_qh_to_periodic_schedule l (qh_addr l q) s ≡ ok (PeriodicInsert.linked l s q))
        × IsScheduled (PeriodicInsert.linked l s q) xs (q ∷ ys)
  link_periodic s q xs ys both pos below out free =
      let (run, periodic) =
        link_qh_to_periodic_schedule-IsPeriodic l s q ys both.periodic below free in
      (
        run,
        record {
          ring =
              IsRing-frame s (PeriodicInsert.linked l s q) xs
                (λ x h.
                  link_of-set_link_ne s q x (head_entry s)
                    (λ e. ne_of_has x q (0 ∷ xs) h (ground arith) (sym e)))
                periodic.size both.ring;
          periodic = periodic;
          apart = λ x h. elim (Bool-cases (has x ys)) [
            | inl member ↦ both.apart x member
            | inr other ↦ ground arith
          ];
        },
      )

  pub unlink_periodic :
      IsAligned l
      → (s : UsbStatics Pool) (q : ℕ) (xs ys : List ℕ) → IsScheduled s xs ys
      → q < num_qh + 1
      → has q ys ≡ true
      → (s' : UsbStatics Pool) × (unlink_qh_from_periodic_schedule l (qh_addr l q) s ≡ ok s')
        × IsScheduled s' xs (erase q ys)
        × SameRest s s'
  unlink_periodic aligned s q xs ys both below member =
      let (s', run, periodic, others, rest) =
        unlink_qh_from_periodic_schedule-IsPeriodic aligned s q ys below member both.periodic in
      (
        s',
        run,
        record {
          ring =
              IsRing-frame s s' xs
                (λ x h. others x (elim (Bool-cases (has x ys)) [
                  | inl member ↦ absurd (ground (arith, both.apart x member))
                  | inr other ↦ other
                ]))
                periodic.size both.ring;
          periodic = periodic;
          apart = λ x h. both.apart x (elim (Bool-cases (has x ys)) [
            | inl known ↦ known
            | inr other ↦ absurd (ground (arith, has-erase_of_not-has x q ys other))
          ]);
        },
        rest,
      )
