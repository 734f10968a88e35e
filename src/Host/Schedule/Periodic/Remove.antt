-- ===== src/Host/Schedule/Periodic/Remove.antt =====
-- `unlink_qh_from_periodic_schedule` takes a queue head out of all frames.
use native.Mathlib.Decide.{ℕ_discrete}
use imxrt_usbh.Base.{
  ℕ, ◌+◌, ◌<◌, ◌≡◌, ◌≢◌, refl, ap, ◌∙◌, true, false, List, [], ◌∷◌, arith, ◌==◌, ==_refl,
  if◌then◌else◌, replicate,
}
use imxrt_usbh.Base.Members.{
  has, erase, erase-cons_eq, erase-cons_ne, has-cons_ne, ne_of_has, AllBelow, Distinct-erase,
  AllBelow-erase, has-erase_of_not-has, length-le_of_Distinct,
}
use imxrt_usbh.Ehci.FrameList.{frame_list_len}
use imxrt_usbh.Ehci.Link.{link_is_terminate, link_address}
use imxrt_usbh.Host.Run.{ok}
use imxrt_usbh.Host.Statics.{UsbStatics, Layout, IsAligned, num_qh, qh_addr}
use imxrt_usbh.Host.Statics.Addresses.{
  qh_link, load_qh-qh_addr, link_address-qh_link, link_is_terminate-qh_link, link_address-qh_addr,
  qh_addr_ne,
}
use imxrt_usbh.Host.Statics.Links.{
  SameRest, link_of, set_link, length-set_link, link_of-set_link_ne,
}
use imxrt_usbh.Host.Schedule.Periodic.{unlink_qh_from_periodic_schedule, unlink_walk}
use imxrt_usbh.Host.Schedule.Periodic.Chain.{Chain, Chain-frame, IsPeriodic, map-replicate}
use imxrt_usbh.Host.Schedule.Periodic.Insert.{set_frames}
use imxrt_usbh.Host.Schedule.Periodic.Walk.{Removes, unlink_walk-Removes, unlink_walk_absent}

module _ {Pool : Type 0} {l : Layout} (aligned : IsAligned l) (s : UsbStatics Pool) where
  -- The run, with the new first link worked out.
  frames_run :
      (q x head : ℕ)
      → q < num_qh + 1
      → x < num_qh + 1
      → s.frame_list.entries ≡ replicate frame_list_len (qh_link l x)
      → (if qh_addr l x == qh_addr l q then link_of s q else qh_link l x) ≡ head
      → unlink_qh_from_periodic_schedule l (qh_addr l q) s ≡ (
          if link_is_terminate head
          then ok (set_frames s head)
          else unlink_walk l num_qh
              (qh_addr l q)
              (link_of s q)
              (link_address head)
              (set_frames s head))
  unfolding unlink_qh_from_periodic_schedule
  frames_run q x head hq hx sync e = rw (
    link_address-qh_addr aligned q hq,
    load_qh-qh_addr l s q hq,
    sync,
    map-replicate,
    link_address-qh_link aligned x hx,
    e,
  )

  -- What a removal of `q` from the schedule `xs` comes to.
  record Removed (q : ℕ) (xs : List ℕ) : Type 0 where
    s' : UsbStatics Pool
    run : unlink_qh_from_periodic_schedule l (qh_addr l q) s ≡ ok s'
    periodic : IsPeriodic l s' (erase q xs)
    others : (j : ℕ) → has j xs ≡ false → link_of s' j ≡ link_of s j
    rest : SameRest s s'

  module _ (q x : ℕ) (ys : List ℕ) (hq : q < num_qh + 1) (p : IsPeriodic l s (x ∷ ys)) where
    -- The link that the frames have is that of `x`.
    in_sync_head : s.frame_list.entries ≡ replicate frame_list_len (qh_link l x)
    in_sync_head = p.in_sync ∙ ap (λ (t : ℕ). replicate frame_list_len t) p.chain.0

    -- The walk behind a new first queue head finds nothing.
    walk_on :
        (zs : List ℕ) (head : ℕ)
        → AllBelow (num_qh + 1) zs
        → has q zs ≡ false
        → Chain l s head zs
        → (if link_is_terminate head
            then ok (set_frames s head)
            else unlink_walk l num_qh
                (qh_addr l q)
                (link_of s q)
                (link_address head)
                (set_frames s head))
          ≡ ok (set_frames s head)
    walk_on [] head below out chain = rw chain
    walk_on (z ∷ zs) head below out chain =
        rw
          (
            chain.0,
            link_is_terminate-qh_link aligned z below.0,
            link_address-qh_link aligned z below.0,
          )
          (unlink_walk_absent aligned (set_frames s (qh_link l z)) p.size q (link_of s q) num_qh z
            zs below.0 below.1 (ground arith)
            (Chain-frame l s (set_frames s (qh_link l z)) (link_of s z) zs (λ y h. refl) chain.1))

    Removed-first : x ≡ q → Removed q (x ∷ ys)
    Removed-first e = record {
      s' = set_frames s (link_of s q);
      run =
          frames_run q x (link_of s q) hq p.in_pool.0 in_sync_head (rw (e, ==_refl))
          ∙ walk_on ys (link_of s q) p.in_pool.1 out chain;
      periodic = rw (erase-cons_eq q x ys e) (record {
        in_sync = refl;
        chain = Chain-frame l s (set_frames s (link_of s q)) (link_of s q) ys (λ y h. refl) chain;
        distinct = p.distinct.1;
        in_pool = p.in_pool.1;
        size = p.size;
      });
      others = λ j h. refl;
      rest = refl;
    }
      where
        out : has q ys ≡ false
        out = rw e at p.distinct.0

        chain : Chain l s (link_of s q) ys
        chain = rw e at p.chain.1

    Removed-later : x ≢ q → has q ys ≡ true → Removed q (x ∷ ys)
    Removed-later ne member = record {
      s' = set_link kept walk.p (link_of s q);
      run =
          frames_run q x (qh_link l x) hq p.in_pool.0 in_sync_head (rw (qh_addr_ne l x q ne))
          ∙ rw
              (
                link_is_terminate-qh_link aligned x p.in_pool.0,
                link_address-qh_link aligned x p.in_pool.0,
              )
              walk.run;
      periodic = rw (erase-cons_ne q x ys ne) (record {
        in_sync = refl;
        chain = (refl, walk.chain);
        distinct = (has-erase_of_not-has x q ys p.distinct.0, Distinct-erase q ys p.distinct.1);
        in_pool = (p.in_pool.0, AllBelow-erase (num_qh + 1) q ys p.in_pool.1);
        size = length-set_link kept walk.p (link_of s q) ∙ p.size;
      });
      others = λ j h.
          link_of-set_link_ne kept walk.p j (link_of s q)
            (ne_of_has walk.p j (x ∷ ys) walk.on_chain h);
      rest = refl;
    }
      where
        kept : UsbStatics Pool
        kept = set_frames s (qh_link l x)

        walk : Removes aligned kept p.size q (link_of s q) num_qh x ys
        walk =
            unlink_walk-Removes aligned kept p.size q (link_of s q) num_qh x ys p.in_pool.0
              p.in_pool.1 p.distinct member
              (omega (arith, length-le_of_Distinct (num_qh + 1) (x ∷ ys) p.in_pool p.distinct)) refl
              (Chain-frame l s kept (link_of s x) ys (λ y h. refl) p.chain.1)

  removed :
      (q : ℕ) (xs : List ℕ) → q < num_qh + 1 → has q xs ≡ true → IsPeriodic l s xs → Removed q xs
  removed q [] hq member p = cc
  removed q (x ∷ ys) hq member p = elim (ℕ_discrete x q) [
    | yes e ↦ Removed-first q x ys hq p e
    | no ne ↦ Removed-later q x ys hq p ne (has-cons_ne q x ys ne member)
  ]

  -- A queue head that is in the schedule is taken out of all frames: no fault, the walk of `num_qh`
  -- rounds is long enough, the others stay in their order, and the links of the queue heads outside
  -- the schedule are as before, as is all that the two schedules do not consist of.
  pub unlink_qh_from_periodic_schedule-IsPeriodic :
      (q : ℕ) (xs : List ℕ)
      → q < num_qh + 1
      → has q xs ≡ true
      → IsPeriodic l s xs
      → (s' : UsbStatics Pool) × (unlink_qh_from_periodic_schedule l (qh_addr l q) s ≡ ok s')
        × IsPeriodic l s' (erase q xs)
        × ((j : ℕ) → has j xs ≡ false → link_of s' j ≡ link_of s j)
        × SameRest s s'
  unlink_qh_from_periodic_schedule-IsPeriodic q xs hq member p =
      (r.s', r.run, r.periodic, r.others, r.rest)
    where
      r : Removed q xs
      r = removed q xs hq member p
