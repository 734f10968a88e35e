-- ===== src/Host/Schedule/Async/Remove.antt =====
-- `unlink_qh_from_async_schedule` takes a queue head out.
use imxrt_usbh.Base.{
  ℕ, zero, suc, ◌+◌, ◌<◌, ◌≤◌, ◌≡◌, ◌≢◌, sym, ◌∙◌, true, false, List, [], ◌∷◌, length, arith, ◌==◌,
  ==_refl, if◌then◌else◌,
}
use native.Mathlib.Decide.{ℕ_discrete}
use imxrt_usbh.Base.Members.{
  has, erase, erase-cons_eq, erase-cons_ne, has-cons_ne, ne_of_has, Distinct, AllBelow,
  Distinct-erase, AllBelow-erase, has-erase_of_not-has, length-le_of_Distinct,
}
use imxrt_usbh.Host.Run.{ok}
use imxrt_usbh.Host.Statics.{UsbStatics, Layout, IsAligned, num_qh, qh_addr}
use imxrt_usbh.Host.Statics.Addresses.{
  qh_link, load_qh-qh_addr, store_qh-qh_addr, link_address-qh_link, qh_addr_ne, masked-qh_addr,
}
use imxrt_usbh.Host.Statics.Links.{
  link_of, set_link, length-set_link, link_of-set_link_self, link_of-set_link_ne,
}
use imxrt_usbh.Host.Schedule.Async.{unlink_loop, unlink_qh_from_async_schedule}
use imxrt_usbh.Host.Schedule.Async.Ring.{Route, Route-frame, IsRing}

module _ {Pool : Type 0} {l : Layout} (aligned : IsAligned l) (s : UsbStatics Pool)
    (size : length s.qh_pool ≡ num_qh + 1) (q : ℕ) (hq : q < num_qh + 1) where
  -- One round of the loop, at a predecessor whose link is that of `x`.
  loop_round :
      (fuel i x : ℕ)
      → i < num_qh + 1
      → x < num_qh + 1
      → link_of s i ≡ qh_link l x
      → unlink_loop l (suc fuel) (qh_addr l q) (qh_addr l i) s ≡ (
          if qh_addr l x == qh_addr l q
          then ok (set_link s i (link_of s q))
          else if qh_addr l x == qh_addr l 0
          then ok s
          else unlink_loop l fuel (qh_addr l q) (qh_addr l x) s)
  unfolding unlink_loop
  loop_round fuel i x hi hx e = rw (
    load_qh-qh_addr l s i hi,
    e,
    link_address-qh_link aligned x hx,
    masked-qh_addr aligned q hq,
    load_qh-qh_addr l s q hq,
    store_qh-qh_addr l s i hi,
  )

  -- The run ends with the link of one queue head `p`, on the path, moved past `q`.
  record Removes (fuel i : ℕ) (xs : List ℕ) : Type 0 where
    p : ℕ
    run : unlink_loop l fuel (qh_addr l q) (qh_addr l i) s ≡ ok (set_link s p (link_of s q))
    on_path : has p (i ∷ xs) ≡ true
    path : Route l (set_link s p (link_of s q)) i (erase q xs)

  module _ (fuel i x : ℕ) (xs : List ℕ) (hi : i < num_qh + 1) (hx : x < num_qh + 1)
      (new : has i (x ∷ xs) ≡ false) where
    Removes-here : has x xs ≡ false → Route l s i (x ∷ xs) → x ≡ q → Removes (suc fuel) i (x ∷ xs)
    Removes-here out path e = record {
      p = i;
      run = loop_round fuel i x hi hx path.0 ∙ rw (e, ==_refl);
      on_path = ground arith;
      path = rw (erase-cons_eq q x xs e) past;
    }
      where
        past : Route l (set_link s i (link_of s q)) i xs
        past =
            Route-frame l s (set_link s i (link_of s q)) q i xs
              (link_of-set_link_self s i (link_of s q) (omega (arith, size)))
              (λ y h.
                link_of-set_link_ne s i y (link_of s q)
                  (λ f. ne_of_has y i xs h (ground arith) (sym f)))
              (rw e at path.1)

    Removes-later :
        (x == 0) ≡ false
        → Route l s i (x ∷ xs)
        → x ≢ q
        → Removes fuel x xs
        → Removes (suc fuel) i (x ∷ xs)
    Removes-later pos path ne rest = record {
      p = rest.p;
      run =
          loop_round fuel i x hi hx path.0
          ∙ rw (qh_addr_ne l x q ne, qh_addr_ne l x 0 (ground arith)) rest.run;
      on_path = ground (arith, rest.on_path);
      path = rw (erase-cons_ne q x xs ne) (first, rest.path);
    }
      where
        first : link_of (set_link s rest.p (link_of s q)) i ≡ qh_link l x
        first =
            link_of-set_link_ne s rest.p i (link_of s q)
              (ne_of_has rest.p i (x ∷ xs) rest.on_path new)
            ∙ path.0

  unlink_loop-Removes :
      (fuel i : ℕ) (xs : List ℕ)
      → i < num_qh + 1
      → AllBelow (num_qh + 1) xs
      → Distinct (i ∷ xs)
      → has 0 xs ≡ false
      → has q xs ≡ true
      → length xs ≤ fuel
      → Route l s i xs
      → Removes fuel i xs
  unlink_loop-Removes fuel i [] hi below d no_zero member enough path = cc
  unlink_loop-Removes zero i (x ∷ xs) hi below d no_zero member enough path = absurd (omega arith)
  unlink_loop-Removes (suc fuel) i (x ∷ xs) hi below d no_zero member enough path =
      elim (ℕ_discrete x q) [
        | yes e ↦ Removes-here fuel i x xs hi below.0 d.0 d.1.0 path e
        | no ne ↦ Removes-later fuel i x xs hi below.0 d.0 (ground arith) path ne (
            unlink_loop-Removes fuel x xs below.0 below.1 d.1 (ground arith)
              (has-cons_ne q x xs ne member) (omega arith) path.1)
      ]

  -- A queue head that is not in the schedule: the loop comes back to the sentinel.
  unlink_loop_absent :
      (fuel i : ℕ) (xs : List ℕ)
      → i < num_qh + 1
      → AllBelow (num_qh + 1) xs
      → has 0 xs ≡ false
      → q ≢ 0
      → has q xs ≡ false
      → length xs < fuel
      → Route l s i xs
      → unlink_loop l fuel (qh_addr l q) (qh_addr l i) s ≡ ok s
  unlink_loop_absent zero i xs hi below no_zero pos out enough path = absurd (omega arith)
  unlink_loop_absent (suc fuel) i [] hi below no_zero pos out enough path =
      loop_round fuel i 0 hi (omega arith) path ∙ rw (qh_addr_ne l 0 q (λ e. pos (sym e)), ==_refl)
  unlink_loop_absent (suc fuel) i (x ∷ xs) hi below no_zero pos out enough path =
      loop_round fuel i x hi below.0 path.0
      ∙ rw (qh_addr_ne l x q (ground arith), qh_addr_ne l x 0 (ground arith))
          (unlink_loop_absent fuel x xs below.0 below.1 (ground arith) pos (ground arith)
            (omega arith) path.1)

module _ {Pool : Type 0} {l : Layout} (aligned : IsAligned l) (s : UsbStatics Pool) where
  length-le_of_IsRing : (xs : List ℕ) → IsRing l s xs → length xs ≤ num_qh
  length-le_of_IsRing xs ring =
      omega (
        arith,
        length-le_of_Distinct (num_qh + 1) (0 ∷ xs) (omega arith, ring.in_pool) ring.distinct,
      )

  -- With fuel for one round for each queue head of the pool, a queue head that is in the schedule is
  -- taken out: no fault, the others stay in their order, and the links of all queue heads but one
  -- (the predecessor, which is the sentinel or in the schedule) are as before.
  pub unlink_qh_from_async_schedule-IsRing :
      (fuel q : ℕ) (xs : List ℕ)
      → IsRing l s xs
      → q < num_qh + 1
      → has q xs ≡ true
      → num_qh ≤ fuel
      → (p : ℕ) × (unlink_qh_from_async_schedule l fuel (qh_addr l q) s
          ≡ ok (set_link s p (link_of s q)))
        × (has p (0 ∷ xs) ≡ true)
        × IsRing l (set_link s p (link_of s q)) (erase q xs)
  unfolding unlink_qh_from_async_schedule
  unlink_qh_from_async_schedule-IsRing fuel q xs ring hq member enough = (
    removed.p,
    removed.run,
    removed.on_path,
    record {
      path = removed.path;
      distinct = (has-erase_of_not-has 0 q xs ring.distinct.0, Distinct-erase q xs ring.distinct.1);
      in_pool = AllBelow-erase (num_qh + 1) q xs ring.in_pool;
      size = length-set_link s removed.p (link_of s q) ∙ ring.size;
    },
  )
    where
      removed : Removes aligned s ring.size q hq fuel 0 xs
      removed =
          unlink_loop-Removes aligned s ring.size q hq fuel 0 xs (omega arith) ring.in_pool
            ring.distinct ring.distinct.0 member (omega (arith, length-le_of_IsRing xs ring))
            ring.path

  -- A queue head that is not in the schedule is looked for in vain: nothing changes, and the loop
  -- ends within one more round than the pool has queue heads for pipes.
  pub unlink_qh_from_async_schedule_absent :
      (fuel q : ℕ) (xs : List ℕ)
      → IsRing l s xs
      → q < num_qh + 1
      → q ≢ 0
      → has q xs ≡ false
      → num_qh < fuel
      → unlink_qh_from_async_schedule l fuel (qh_addr l q) s ≡ ok s
  unfolding unlink_qh_from_async_schedule
  unlink_qh_from_async_schedule_absent fuel q xs ring hq pos out enough =
      unlink_loop_absent aligned s ring.size q hq fuel 0 xs (omega arith) ring.in_pool
        ring.distinct.0 pos out (omega (arith, length-le_of_IsRing xs ring)) ring.path
