-- ===== src/Host/InterruptPipe/Closing.antt =====
-- The drop of an interrupt pipe takes its queue head out of the periodic schedule.
use imxrt_usbh.Base.{
  ℕ, ◌+◌, ◌<◌, ◌≡◌, sym, ap, ◌∙◌, true, false, List, length, set, length-set, get_or-set_self,
  get_or-set_ne, arith,
}
use native.Mathlib.Decide.{ℕ_discrete}
use imxrt_usbh.Base.Members.{has, erase}
use imxrt_usbh.Ehci.Qh
use imxrt_usbh.Host.InterruptPipe.{ImxrtInterruptPipe, drop_pipe}
use imxrt_usbh.Host.InterruptPipe.Laws.{ltb-true}
use imxrt_usbh.Host.Run.{ok}
use imxrt_usbh.Host.Schedule.Qtd.{drop_slot}
use imxrt_usbh.Host.Schedule.Periodic.{head_entry}
use imxrt_usbh.Host.Schedule.Periodic.Chain.{Chain-frame, IsPeriodic}
use imxrt_usbh.Host.Schedule.Periodic.Remove.{unlink_qh_from_periodic_schedule-IsPeriodic}
use imxrt_usbh.Host.Statics.{UsbStatics, Layout, IsAligned, num_qh, qh_ptr}
use imxrt_usbh.Host.Statics.Addresses.{load_qh-qh_addr, store_qh-qh_addr}
use imxrt_usbh.Host.Statics.Links.{qh_at, link_of}

module _ {Pool : Type 0} (s : UsbStatics Pool) (q slot : ℕ) where
  -- The pools after the flags of the queue head are cleared and the slot is dropped.
  abbrev pub released : UsbStatics Pool
  released =
      drop_slot slot (record s { qh_pool = set s.qh_pool q (record (qh_at s q) { sw_flags = 0 }) })

  released_link : (x : ℕ) → q < length s.qh_pool → link_of released x ≡ link_of s x
  unfolding drop_slot
  released_link x h = elim (ℕ_discrete q x) [
    | yes e ↦
        ap (λ (i : ℕ). link_of released i) (sym e)
        ∙ ap (λ head. head.horizontal_link) (get_or-set_self s.qh_pool q _ Qh.new h)
        ∙ ap (λ (i : ℕ). link_of s i) e
    | no ne ↦ ap (λ head. head.horizontal_link) (get_or-set_ne s.qh_pool q x _ Qh.new ne)
  ]

  released-IsPeriodic :
      (l : Layout) (xs : List ℕ) → q < num_qh + 1 → IsPeriodic l s xs → IsPeriodic l released xs
  unfolding drop_slot
  released-IsPeriodic l xs h p = record {
    in_sync = p.in_sync;
    chain =
        Chain-frame l s released (head_entry s) xs (λ x _. released_link x (omega (arith, p.size)))
          p.chain;
    distinct = p.distinct;
    in_pool = p.in_pool;
    size = length-set s.qh_pool q _ ∙ p.size;
  }

module _ {Pool : Type 0} {l : Layout} (aligned : IsAligned l) (self : ImxrtInterruptPipe)
    (s : UsbStatics Pool) where
  -- The drop of a pipe whose queue head is in the periodic schedule ends without a fault and takes
  -- exactly that queue head out of the schedule; the links of the queue heads outside of it stay as
  -- they are.
  pub drop_pipe-IsPeriodic :
      (xs : List ℕ)
      → self.qh_index < num_qh + 1
      → has self.qh_index xs ≡ true
      → IsPeriodic l s xs
      → (s' : UsbStatics Pool) × (drop_pipe l self s ≡ ok s')
        × IsPeriodic l s' (erase self.qh_index xs)
        × ((j : ℕ) → has j xs ≡ false → link_of s' j ≡ link_of s j)
  unfolding drop_pipe qh_ptr drop_slot
  drop_pipe-IsPeriodic xs h member p =
      let (t, unlinked, periodic, others, _) =
        unlink_qh_from_periodic_schedule-IsPeriodic aligned s self.qh_index xs h member p in
      (
        released t self.qh_index self.qtd_slot,
        rw (
          ltb-true self.qh_index (num_qh + 1) h,
          unlinked,
          load_qh-qh_addr l t self.qh_index h,
          store_qh-qh_addr l t self.qh_index h,
        ),
        released-IsPeriodic t self.qh_index self.qtd_slot l (erase self.qh_index xs) h periodic,
        λ j out.
            released_link t self.qh_index self.qtd_slot j (omega (arith, periodic.size))
            ∙ others j out,
      )
