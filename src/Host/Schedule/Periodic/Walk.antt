-- ===== src/Host/Schedule/Periodic/Walk.antt =====
-- The walk of `unlink_qh_from_periodic_schedule` for the predecessor of a queue head.
use native.Mathlib.Decide.{ℕ_discrete}
use imxrt_usbh.Base.{
  ℕ, zero, suc, ◌+◌, ◌<◌, ◌≤◌, ◌≡◌, ◌≢◌, refl, sym, subst, ap, ◌∙◌, true, false, List, [], ◌∷◌,
  length, arith, ◌==◌, ==_refl, if◌then◌else◌,
}
use imxrt_usbh.Base.Members.{
  has, erase, erase-cons_eq, erase-cons_ne, has-cons_ne, ne_of_has, Distinct, AllBelow,
}
use imxrt_usbh.Ehci.Link.{link_is_terminate}
use imxrt_usbh.Host.Run.{ok}
use imxrt_usbh.Host.Statics.{UsbStatics, Layout, IsAligned, num_qh, qh_addr}
use imxrt_usbh.Host.Statics.Addresses.{
  qh_link, load_qh-qh_addr, store_qh-qh_addr, link_address-qh_link, link_is_terminate-qh_link,
  qh_addr_ne,
}
use imxrt_usbh.Host.Statics.Links.{link_of, set_link, link_of-set_link_self, link_of-set_link_ne}
use imxrt_usbh.Host.Schedule.Periodic.{unlink_walk}
use imxrt_usbh.Host.Schedule.Periodic.Chain.{Chain, Chain-frame}

module _ {Pool : Type 0} {l : Layout} (aligned : IsAligned l) (s : UsbStatics Pool)
    (size : length s.qh_pool ≡ num_qh + 1) (q successor : ℕ) where
  -- One round, at a predecessor whose link is that of `x`.
  walk_round :
      (steps i x : ℕ)
      → i < num_qh + 1
      → x < num_qh + 1
      → link_of s i ≡ qh_link l x
      → unlink_walk l (suc steps) (qh_addr l q) successor (qh_addr l i) s ≡ (
          if qh_addr l x == qh_addr l q
          then ok (set_link s i successor)
          else unlink_walk l steps (qh_addr l q) successor (qh_addr l x) s)
  unfolding unlink_walk
  walk_round steps i x hi hx e = rw (
    load_qh-qh_addr l s i hi,
    e,
    link_is_terminate-qh_link aligned x hx,
    link_address-qh_link aligned x hx,
    store_qh-qh_addr l s i hi,
  )

  walk_end :
      (steps i : ℕ)
      → i < num_qh + 1
      → link_is_terminate (link_of s i) ≡ true
      → unlink_walk l (suc steps) (qh_addr l q) successor (qh_addr l i) s ≡ ok s
  unfolding unlink_walk
  walk_end steps i hi e = rw (load_qh-qh_addr l s i hi, e)

  -- A queue head that is not on the chain: nothing changes, however long the walk is.
  pub unlink_walk_absent :
      (steps i : ℕ) (xs : List ℕ)
      → i < num_qh + 1
      → AllBelow (num_qh + 1) xs
      → has q xs ≡ false
      → Chain l s (link_of s i) xs
      → unlink_walk l steps (qh_addr l q) successor (qh_addr l i) s ≡ ok s
  unlink_walk_absent zero i xs hi below out chain = unfold unlink_walk in refl
  unlink_walk_absent (suc steps) i [] hi below out chain = walk_end steps i hi chain
  unlink_walk_absent (suc steps) i (x ∷ xs) hi below out chain =
      walk_round steps i x hi below.0 chain.0
      ∙ rw (qh_addr_ne l x q (ground arith))
          (unlink_walk_absent steps x xs below.0 below.1 (ground arith) chain.1)

  -- The walk ends with the link of one queue head `p`, on the chain, moved past `q`.
  pub record Removes (steps i : ℕ) (xs : List ℕ) : Type 0 where
    pub p : ℕ
    pub run :
        unlink_walk l steps (qh_addr l q) successor (qh_addr l i) s ≡ ok (set_link s p successor)
    pub on_chain : has p (i ∷ xs) ≡ true
    pub chain : Chain l (set_link s p successor) (link_of (set_link s p successor) i) (erase q xs)

  module _ (steps i x : ℕ) (xs : List ℕ) (hi : i < num_qh + 1) (hx : x < num_qh + 1)
      (new : has i (x ∷ xs) ≡ false) where
    Removes-here :
        successor ≡ link_of s q
        → Chain l s (link_of s i) (x ∷ xs)
        → x ≡ q
        → Removes (suc steps) i (x ∷ xs)
    Removes-here next chain e = record {
      p = i;
      run = walk_round steps i x hi hx chain.0 ∙ rw (e, ==_refl);
      on_chain = ground arith;
      chain =
          rw (erase-cons_eq q x xs e)
            (subst (λ (t : ℕ). Chain l (set_link s i successor) t xs) (sym moved) past);
    }
      where
        moved : link_of (set_link s i successor) i ≡ successor
        moved = link_of-set_link_self s i successor (omega (arith, size))

        past : Chain l (set_link s i successor) successor xs
        past =
            Chain-frame l s (set_link s i successor) successor xs
              (λ y h.
                link_of-set_link_ne s i y successor
                  (λ f. ne_of_has y i xs h (ground arith) (sym f)))
              (subst (λ (t : ℕ). Chain l s t xs) (ap (link_of s) e ∙ sym next) chain.1)

    Removes-later :
        Chain l s (link_of s i) (x ∷ xs)
        → x ≢ q
        → Removes steps x xs
        → Removes (suc steps) i (x ∷ xs)
    Removes-later chain ne rest = record {
      p = rest.p;
      run = walk_round steps i x hi hx chain.0 ∙ rw (qh_addr_ne l x q ne) rest.run;
      on_chain = ground (arith, rest.on_chain);
      chain = rw (erase-cons_ne q x xs ne) (first, rest.chain);
    }
      where
        first : link_of (set_link s rest.p successor) i ≡ qh_link l x
        first =
            link_of-set_link_ne s rest.p i successor (ne_of_has rest.p i (x ∷ xs) rest.on_chain new)
            ∙ chain.0

  pub unlink_walk-Removes :
      (steps i : ℕ) (xs : List ℕ)
      → i < num_qh + 1
      → AllBelow (num_qh + 1) xs
      → Distinct (i ∷ xs)
      → has q xs ≡ true
      → length xs ≤ steps
      → successor ≡ link_of s q
      → Chain l s (link_of s i) xs
      → Removes steps i xs
  unlink_walk-Removes steps i [] hi below d member enough next chain = cc
  unlink_walk-Removes zero i (x ∷ xs) hi below d member enough next chain = absurd (omega arith)
  unlink_walk-Removes (suc steps) i (x ∷ xs) hi below d member enough next chain =
      elim (ℕ_discrete x q) [
        | yes e ↦ Removes-here steps i x xs hi below.0 d.0 next chain e
        | no ne ↦ Removes-later steps i x xs hi below.0 d.0 chain ne (
            unlink_walk-Removes steps x xs below.0 below.1 d.1 (has-cons_ne q x xs ne member)
              (omega arith) next chain.1)
      ]
