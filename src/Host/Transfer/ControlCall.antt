-- ===== src/Host/Transfer/ControlCall.antt =====
-- `do_control_transfer` as a whole.
use imxrt_usbh.Base.{ℕ, inl, inr, ◌≤◌, ◌≡◌, refl, ap, ◌∙◌, true, false, List, length, arith}
use imxrt_usbh.Base.Members.{has}
use imxrt_usbh.Ehci.Qh.{QueueHead, qh_characteristics, qh_capabilities, init_endpoint}
use imxrt_usbh.Host.Error.Laws.{AtMost}
use imxrt_usbh.Host.Error.{Outcome, ok, err}
use imxrt_usbh.Host.Regs.{Ral}
use imxrt_usbh.Host.Run.{Run}
use imxrt_usbh.Host.Schedule.Both.{IsScheduled}
use imxrt_usbh.Host.Statics.{UsbStatics, Layout, IsAligned, num_qh, num_qtd, qh_addr}
use imxrt_usbh.Host.Transfer.{Controller}
use imxrt_usbh.Host.Transfer.Control.{
  has_data, ControlRequest, ControlSlots, ControlDone, control_speed, control_data_len,
  alloc_control, drop_control, control_with, do_control_transfer,
}
use imxrt_usbh.Host.Transfer.ControlBalance.{Allocates, alloc_control-Allocates}
use imxrt_usbh.Host.Transfer.Keeps.{
  qh_ptr-some, Rests, Rests-trans, changed-Rests, changed, modify_qh-qh_addr, Keeps-IsScheduled,
  changed-IsScheduled, same_pools-IsScheduled,
}
use imxrt_usbh.Host.Transfer.Session.{IsController, Unless}
use imxrt_usbh.Host.Transfer.ControlRun.{
  control_complete-IsWithin, drop_control-Rests, drop_control_pools, chain_returns,
  run_control_returns,
}

module _ {Pool : Type 0} {l : Layout} (aligned : IsAligned l) (r : Ral) {hardware : Controller Pool}
    (spec : IsController hardware) where
  abbrev endpoint_of : (portsc1 : ℕ) → ControlRequest → QueueHead → QueueHead
  endpoint_of portsc1 req q =
      init_endpoint q
        (qh_characteristics req.address 0 (control_speed r portsc1 req.transfer_extras)
          req.packet_size true false)
        (qh_capabilities 0 0 0 0 1)

  abbrev set_up : (portsc1 : ℕ) → ControlRequest → UsbStatics Pool → UsbStatics Pool
  set_up portsc1 req s = changed 1 (endpoint_of portsc1 req) s

  set_up_run :
      (fuel portsc1 : ℕ) (req : ControlRequest) (usbcmd : ℕ) (s : UsbStatics Pool)
      → do_control_transfer l r hardware fuel portsc1 req usbcmd s
        ≡ control_with l r hardware fuel
            (qh_addr l 1)
            req
            usbcmd
            (alloc_control (has_data req.data_phase) (set_up portsc1 req s))
  unfolding do_control_transfer
  set_up_run fuel portsc1 req usbcmd s = rw (
    qh_ptr-some l 1 (omega arith),
    modify_qh-qh_addr l 1 (endpoint_of portsc1 req) s (omega arith),
  )

  -- The call waits, or it returns and leaves the schedules and the bitmap as they are.
  abbrev Completes :
      (fuel portsc1 : ℕ)
      → ControlRequest
      → (usbcmd : ℕ) → UsbStatics Pool
      → (xs ys : List ℕ) → Type 0
  Completes fuel portsc1 req usbcmd s xs ys =
      Unless l r hardware 1 xs ys (do_control_transfer l r hardware fuel portsc1 req usbcmd s) (
        (done : ControlDone Pool) × (do_control_transfer l r hardware fuel portsc1 req usbcmd s
          ≡ Run.ok done)
        × IsScheduled l done.statics xs ys
        × (done.statics.qtd_allocated ≡ s.qtd_allocated)
        × Rests s done.statics
        × AtMost (control_data_len req.setup req.data_phase) done.result)

  -- Once the queue head is set up: `after` is the allocation's outcome and the pools after it.
  continue_control :
      (fuel portsc1 : ℕ) (req : ControlRequest) (usbcmd : ℕ) (s : UsbStatics Pool) (xs ys : List ℕ)
      (after : Outcome ControlSlots × UsbStatics Pool)
      → alloc_control (has_data req.data_phase) (set_up portsc1 req s) ≡ after
      → Allocates (has_data req.data_phase) (set_up portsc1 req s) after
      → IsScheduled l (set_up portsc1 req s) xs ys
      → length s.qtd_pool ≡ num_qtd
      → has 1 xs ≡ false
      → has 1 ys ≡ false
      → num_qh ≤ fuel
      → Completes fuel portsc1 req usbcmd s xs ys
  unfolding control_with
  continue_control fuel portsc1 req usbcmd s xs ys (err e, t) taken
        (is_full, marks, heads, frames, rests) both qtd_size out free enough =
      inr (
        record { result = err e; statics = t; usbcmd = usbcmd },
        set_up_run fuel portsc1 req usbcmd s
            ∙ ap (control_with l r hardware fuel (qh_addr l 1) req usbcmd) taken,
        same_pools-IsScheduled l (set_up portsc1 req s) xs ys both t heads frames,
        marks,
        Rests-trans s (set_up portsc1 req s) t (changed-Rests 1 (endpoint_of portsc1 req) s) rests,
        tt,
      )
  continue_control fuel portsc1 req usbcmd s xs ys (ok slots, t) taken (shape, given) both qtd_size
        out free enough =
      let both2 : IsScheduled l t xs ys =
        same_pools-IsScheduled l (set_up portsc1 req s) xs ys both t given.marks.heads
          given.marks.frames in
      let size2 : length t.qtd_pool ≡ num_qtd = given.marks.rests.qtd_size ∙ qtd_size in
      let (u, chained, kept, asks) =
        chain_returns l req slots (set_up portsc1 req s) t shape given size2 in
      elim (run_control_returns aligned r spec fuel req slots usbcmd u xs ys
        (Keeps-IsScheduled l t xs ys both2 u kept) (kept.rests.qtd_size ∙ size2) given.setup-lt
        (control_complete-IsWithin slots given.status-lt given.data-lt) asks out free enough) [
          | inl (ran, waits) ↦ inl (
            set_up_run fuel portsc1 req usbcmd s
                ∙ ap (control_with l r hardware fuel (qh_addr l 1) req usbcmd) taken
                ∙ rw (chained, ran),
            waits,
          )
          | inr (last, usbcmd', result, ran, both3, marks, rests, most) ↦ inr (
            record { result = result; statics = drop_control slots last; usbcmd = usbcmd' },
            set_up_run fuel portsc1 req usbcmd s
                ∙ ap (control_with l r hardware fuel (qh_addr l 1) req usbcmd) taken
                ∙ rw (chained, ran),
            same_pools-IsScheduled l last xs ys both3 (drop_control slots last)
                (drop_control_pools slots last).0 (drop_control_pools slots last).1,
            given.releases last (marks ∙ kept.slots),
            Rests-trans s t (drop_control slots last)
                (Rests-trans s (set_up portsc1 req s) t
                  (changed-Rests 1 (endpoint_of portsc1 req) s) given.marks.rests)
                (Rests-trans t u (drop_control slots last) kept.rests (
                  Rests-trans u last (drop_control slots last) rests
                    (drop_control-Rests slots last))),
            most,
          )
        ]

  -- A control transfer whose queue head, the first after the sentinel, is in neither schedule, whatever
  -- the slots left and however the controller ends it, meets no fault and needs no more than the fuel of
  -- one round for each queue head; in particular the subtraction of the bytes left does not underflow. It
  -- returns, unless the controller never retires it: then its queue head is the first in the async
  -- schedule, the schedule is enabled, and the transfer is still running after all that the controller
  -- does. When it returns, both schedules hold what they held before, in the same order, the qTD bitmap
  -- is as before, on the error paths too, and so are the pools of pipes and the sizes of the buffers, and
  -- a byte count that it returns is at most the length of the data phase, `control_data_len`: for an IN
  -- transfer the smaller of the buffer and `wLength`, or the buffer alone if `wLength` is 0.
  pub do_control_transfer-IsScheduled :
      (fuel portsc1 : ℕ) (req : ControlRequest) (usbcmd : ℕ) (s : UsbStatics Pool) (xs ys : List ℕ)
      → IsScheduled l s xs ys
      → length s.qtd_pool ≡ num_qtd
      → length s.qtd_allocated ≡ num_qtd
      → has 1 xs ≡ false
      → has 1 ys ≡ false
      → num_qh ≤ fuel
      → Unless l r hardware 1 xs ys (do_control_transfer l r hardware fuel portsc1 req usbcmd s) (
          (done : ControlDone Pool) × (do_control_transfer l r hardware fuel portsc1 req usbcmd s
            ≡ Run.ok done)
          × IsScheduled l done.statics xs ys
          × (done.statics.qtd_allocated ≡ s.qtd_allocated)
          × Rests s done.statics
          × AtMost (control_data_len req.setup req.data_phase) done.result)
  do_control_transfer-IsScheduled fuel portsc1 req usbcmd s xs ys both qtd_size slots out free
        enough =
      continue_control fuel portsc1 req usbcmd s xs ys
        (alloc_control (has_data req.data_phase) (set_up portsc1 req s)) refl
        (alloc_control-Allocates (has_data req.data_phase) (set_up portsc1 req s) slots)
        (changed-IsScheduled l s xs ys both 1 (endpoint_of portsc1 req) (omega arith) out free)
        qtd_size out free enough
