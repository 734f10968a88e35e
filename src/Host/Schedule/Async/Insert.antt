-- ===== src/Host/Schedule/Async/Insert.antt =====
-- `link_qh_to_async_schedule` puts a queue head first.
use imxrt_usbh.Base.{ℕ, ◌+◌, ◌<◌, ◌≡◌, ◌≢◌, sym, ◌∙◌, false, List, ◌∷◌, length, arith}
use imxrt_usbh.Base.Members.{has, ne_of_has}
use imxrt_usbh.Host.Run.{ok}
use imxrt_usbh.Host.Statics.{UsbStatics, Layout, num_qh, qh_addr}
use imxrt_usbh.Host.Statics.Addresses.{qh_link, load_qh-qh_addr, store_qh-qh_addr}
use imxrt_usbh.Host.Statics.Links.{
  link_of, set_link, length-set_link, link_of-set_link_self, link_of-set_link_ne,
}
use imxrt_usbh.Host.Schedule.Async.{link_qh_to_async_schedule}
use imxrt_usbh.Host.Schedule.Async.Ring.{Route, Route-frame, IsRing}

module _ {Pool : Type 0} (l : Layout) (s : UsbStatics Pool) where
  -- The state after the two writes.
  abbrev pub linked : ℕ → UsbStatics Pool
  linked q = set_link (set_link s q (link_of s 0)) 0 (qh_link l q)

  link_qh_to_async_schedule_run :
      (q : ℕ) → q < num_qh + 1 → link_qh_to_async_schedule l (qh_addr l q) s ≡ ok (linked q)
  unfolding link_qh_to_async_schedule
  link_qh_to_async_schedule_run q h =
      rw
        (
          load_qh-qh_addr l s q h,
          load_qh-qh_addr l s 0 sentinel,
          store_qh-qh_addr l s q h,
          load_qh-qh_addr l (set_link s q (link_of s 0)) 0 sentinel,
        )
        (store_qh-qh_addr l (set_link s q (link_of s 0)) 0 sentinel _)
    where
      sentinel : 0 < num_qh + 1
      sentinel = omega arith

  -- A queue head other than the sentinel that is not in the schedule is put in front of those that
  -- are, and the run meets no fault.
  pub link_qh_to_async_schedule-IsRing :
      (q : ℕ) (xs : List ℕ)
      → IsRing l s xs
      → 0 < q
      → q < num_qh + 1
      → has q xs ≡ false
      → (link_qh_to_async_schedule l (qh_addr l q) s ≡ ok (linked q)) × IsRing l (linked q) (q ∷ xs)
  link_qh_to_async_schedule-IsRing q xs ring pos h out = (
    link_qh_to_async_schedule_run q h,
    record {
      path = (first, rest);
      distinct = ground (arith, ring.distinct);
      in_pool = (h, ring.in_pool);
      size = size;
    },
  )
    where
      after : UsbStatics Pool
      after = set_link s q (link_of s 0)

      apart : q ≢ 0
      apart = omega arith

      size' : length after.qh_pool ≡ num_qh + 1
      size' = length-set_link s q (link_of s 0) ∙ ring.size

      size : length (linked q).qh_pool ≡ num_qh + 1
      size = length-set_link after 0 (qh_link l q) ∙ size'

      first : link_of (linked q) 0 ≡ qh_link l q
      first = link_of-set_link_self after 0 (qh_link l q) (omega (arith, size'))

      rest : Route l (linked q) q xs
      rest =
          Route-frame l s (linked q) 0 q xs
            (link_of-set_link_ne after 0 q (qh_link l q) (λ e. apart (sym e))
              ∙ link_of-set_link_self s q (link_of s 0) (omega (arith, ring.size)))
            (λ x h'.
              link_of-set_link_ne after 0 x (qh_link l q)
                (λ e. ne_of_has x 0 xs h' ring.distinct.0 (sym e))
              ∙ link_of-set_link_ne s q x (link_of s 0) (λ e. ne_of_has x q xs h' out (sym e)))
            ring.path
