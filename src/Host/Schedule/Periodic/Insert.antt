-- ===== src/Host/Schedule/Periodic/Insert.antt =====
-- `link_qh_to_periodic_schedule` puts a queue head first, in every frame.
use imxrt_usbh.Base.{ℕ, ◌+◌, ◌<◌, ◌≡◌, refl, sym, subst, ◌∙◌, false, List, ◌∷◌, arith, replicate}
use imxrt_usbh.Base.Members.{has, ne_of_has}
use imxrt_usbh.Ehci.FrameList.{frame_list_len}
use imxrt_usbh.Host.Run.{ok}
use imxrt_usbh.Host.Statics.{UsbStatics, Layout, num_qh, qh_addr}
use imxrt_usbh.Host.Statics.Addresses.{qh_link, load_qh-qh_addr, store_qh-qh_addr}
use imxrt_usbh.Host.Statics.Links.{
  link_of, set_link, length-set_link, link_of-set_link_self, link_of-set_link_ne,
}
use imxrt_usbh.Host.Schedule.Periodic.{head_entry, link_qh_to_periodic_schedule}
use imxrt_usbh.Host.Schedule.Periodic.Chain.{Chain, Chain-frame, IsPeriodic, map-replicate}

module _ {Pool : Type 0} (s : UsbStatics Pool) where
  -- Every frame starts at `link`.
  abbrev pub set_frames : (link : ℕ) → UsbStatics Pool
  set_frames link = record s { frame_list = record { entries = replicate frame_list_len link } }

module _ {Pool : Type 0} (l : Layout) (s : UsbStatics Pool) where
  -- The state after the writes.
  abbrev pub linked : ℕ → UsbStatics Pool
  linked q = set_frames (set_link s q (head_entry s)) (qh_link l q)

  -- A queue head that is not in the schedule is put in front of those that are, in all frames, and
  -- the run meets no fault.
  pub link_qh_to_periodic_schedule-IsPeriodic :
      (q : ℕ) (xs : List ℕ)
      → IsPeriodic l s xs
      → q < num_qh + 1
      → has q xs ≡ false
      → (link_qh_to_periodic_schedule l (qh_addr l q) s ≡ ok (linked q))
        × IsPeriodic l (linked q) (q ∷ xs)
  unfolding link_qh_to_periodic_schedule
  link_qh_to_periodic_schedule-IsPeriodic q xs p h out = (
    rw (load_qh-qh_addr l s q h, store_qh-qh_addr l s q h, p.in_sync, map-replicate),
    record {
      in_sync = refl;
      chain = (refl, subst (λ (t : ℕ). Chain l (linked q) t xs) (sym behind) rest);
      distinct = (out, p.distinct);
      in_pool = (h, p.in_pool);
      size = length-set_link s q (head_entry s) ∙ p.size;
    },
  )
    where
      behind : link_of (linked q) q ≡ head_entry s
      behind = link_of-set_link_self s q (head_entry s) (omega (arith, p.size))

      rest : Chain l (linked q) (head_entry s) xs
      rest =
          Chain-frame l s (linked q) (head_entry s) xs
            (λ x h'.
              link_of-set_link_ne s q x (head_entry s) (λ e. ne_of_has x q xs h' out (sym e)))
            p.chain
