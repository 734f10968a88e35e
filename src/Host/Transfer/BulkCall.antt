-- ===== src/Host/Transfer/BulkCall.antt =====
-- `do_bulk_transfer` as a whole.
use imxrt_usbh.Base.{
  ℕ, ◌+◌, inl, inr, ◌≤◌, ◌<◌, ◌≡◌, refl, ap, ◌∙◌, Bool, false, List, length, arith,
}
use imxrt_usbh.Base.Members.{has}
use imxrt_usbh.Ehci.Qh.{QueueHead, qh_characteristics, qh_capabilities, init_endpoint}
use imxrt_usbh.Host.Error.Laws.{AtMost}
use imxrt_usbh.Host.Error.{Outcome, ok, err}
use imxrt_usbh.Host.InterruptPipe.{Pipe}
use imxrt_usbh.Host.Regs.{Ral}
use imxrt_usbh.Host.Run.{Run}
use imxrt_usbh.Host.Schedule.Both.{IsScheduled}
use imxrt_usbh.Host.Statics.{UsbStatics, Layout, IsAligned, num_qh, num_qtd, qh_addr}
use imxrt_usbh.Host.Transfer.{Controller}
use imxrt_usbh.Host.Transfer.Balance.{Allocates, alloc_slots-Allocates}
use imxrt_usbh.Host.Transfer.Bulk.{
  BulkRequest, Slots, Transferred, alloc_slots, drop_slots, bulk_speed, actual_packet_size,
  need_zlp, transfer_with, do_bulk_transfer,
}
use imxrt_usbh.Host.Transfer.Keeps.{
  qh_ptr-some, Rests, changed-Rests, Rests-trans, marks-Rests, changed, modify_qh-qh_addr,
  Keeps-IsScheduled, changed-IsScheduled, same_pools-IsScheduled,
}
use imxrt_usbh.Host.Transfer.Session.{IsController, Unless}
use imxrt_usbh.Host.Transfer.BulkRun.{
  write_chain_returns, drop_slots-Rests, drop_slots_pools, run_chain_returns,
}

module _ {Pool : Type 0} {l : Layout} (aligned : IsAligned l) (r : Ral) {hardware : Controller Pool}
    (spec : IsController hardware) where
  abbrev zlp_of : (portsc1 : ℕ) → BulkRequest → Bool
  zlp_of portsc1 req =
      need_zlp req.is_in req.transfer_type req.data_len
        (actual_packet_size (bulk_speed r portsc1) req.packet_size)

  abbrev endpoint_of : (portsc1 : ℕ) → BulkRequest → QueueHead → QueueHead
  endpoint_of portsc1 req q =
      init_endpoint q
        (qh_characteristics req.address req.endpoint (bulk_speed r portsc1)
          (actual_packet_size (bulk_speed r portsc1) req.packet_size) false false)
        (qh_capabilities 0 0 0 0 1)

  abbrev set_up : (portsc1 : ℕ) → Pipe → BulkRequest → UsbStatics Pool → UsbStatics Pool
  set_up portsc1 pipe req s = changed (pipe.which + 1) (endpoint_of portsc1 req) s

  set_up_run :
      (fuel portsc1 : ℕ) (pipe : Pipe) (req : BulkRequest) (usbcmd : ℕ) (s : UsbStatics Pool)
      → pipe.which < num_qh
      → do_bulk_transfer l r hardware fuel portsc1 pipe req usbcmd s
        ≡ transfer_with l r hardware fuel
            (qh_addr l (pipe.which + 1))
            pipe
            req
            (zlp_of portsc1 req)
            usbcmd
            (alloc_slots (zlp_of portsc1 req) (set_up portsc1 pipe req s))
  unfolding do_bulk_transfer
  set_up_run fuel portsc1 pipe req usbcmd s high = rw (
    qh_ptr-some l (pipe.which + 1) (omega arith),
    modify_qh-qh_addr l (pipe.which + 1) (endpoint_of portsc1 req) s (omega arith),
  )

  -- The call waits, or it returns and leaves the schedules and the bitmap as they are.
  abbrev Completes :
      (fuel portsc1 : ℕ)
      → Pipe
      → BulkRequest
      → (usbcmd : ℕ) → UsbStatics Pool
      → (xs ys : List ℕ) → Type 0
  Completes fuel portsc1 pipe req usbcmd s xs ys =
      Unless l r hardware (pipe.which + 1) xs ys
        (do_bulk_transfer l r hardware fuel portsc1 pipe req usbcmd s)
        ((done : Transferred Pool) × (do_bulk_transfer l r hardware fuel portsc1 pipe req usbcmd s
            ≡ Run.ok done)
          × IsScheduled l done.statics xs ys
          × (done.statics.qtd_allocated ≡ s.qtd_allocated)
          × Rests s done.statics
          × AtMost req.data_len done.result)

  -- Once the queue head is set up: `t` is the allocation's outcome and the pools after it.
  continue_bulk :
      (fuel portsc1 : ℕ) (pipe : Pipe) (req : BulkRequest) (usbcmd : ℕ) (s : UsbStatics Pool)
      (xs ys : List ℕ) (after : Outcome Slots × UsbStatics Pool)
      → alloc_slots (zlp_of portsc1 req) (set_up portsc1 pipe req s) ≡ after
      → Allocates (zlp_of portsc1 req) (set_up portsc1 pipe req s) after
      → IsScheduled l (set_up portsc1 pipe req s) xs ys
      → length s.qtd_pool ≡ num_qtd
      → pipe.which < num_qh
      → has (pipe.which + 1) xs ≡ false
      → has (pipe.which + 1) ys ≡ false
      → num_qh ≤ fuel
      → Completes fuel portsc1 pipe req usbcmd s xs ys
  unfolding transfer_with
  continue_bulk fuel portsc1 pipe req usbcmd s xs ys (err e, t) taken
        (is_full, marks, heads, frames, rests) both qtd_size high out free enough =
      inr (
        record { result = err e; statics = t; data_toggle = req.data_toggle; usbcmd = usbcmd },
        set_up_run fuel portsc1 pipe req usbcmd s high
            ∙ ap
                (transfer_with l r hardware fuel (qh_addr l (pipe.which + 1)) pipe req
                  (zlp_of portsc1 req) usbcmd)
                taken,
        same_pools-IsScheduled l (set_up portsc1 pipe req s) xs ys both t heads frames,
        marks,
        Rests-trans s (set_up portsc1 pipe req s) t
            (changed-Rests (pipe.which + 1) (endpoint_of portsc1 req) s) rests,
        tt,
      )
  continue_bulk fuel portsc1 pipe req usbcmd s xs ys (ok slots, t) taken given both qtd_size high
        out free enough =
      let both2 : IsScheduled l t xs ys =
        same_pools-IsScheduled l (set_up portsc1 pipe req s) xs ys both t
          (ap (λ u. u.qh_pool) given.only_marks) (ap (λ u. u.frame_list) given.only_marks) in
      let marked : Rests (set_up portsc1 pipe req s) t =
        marks-Rests (set_up portsc1 pipe req s) t t.qtd_allocated given.only_marks in
      let taken_rests : Rests s t =
        Rests-trans s (set_up portsc1 pipe req s) t
          (changed-Rests (pipe.which + 1) (endpoint_of portsc1 req) s) marked in
      let size2 : length t.qtd_pool ≡ num_qtd = marked.qtd_size ∙ qtd_size in
      let (v, chained, kept) =
        write_chain_returns l req (zlp_of portsc1 req) slots t given.data-lt given.zlp-lt in
      elim (run_chain_returns aligned r spec fuel pipe req slots usbcmd v xs ys
        (Keeps-IsScheduled l t xs ys both2 v kept) (kept.rests.qtd_size ∙ size2) high given.data-lt
        given.zlp-lt out free enough) [
          | inl (ran, waits) ↦ inl (
            set_up_run fuel portsc1 pipe req usbcmd s high
                ∙ ap
                    (transfer_with l r hardware fuel (qh_addr l (pipe.which + 1)) pipe req
                      (zlp_of portsc1 req) usbcmd)
                    taken
                ∙ rw (chained, ran),
            waits,
          )
          | inr (last, toggle, usbcmd', result, ran, both3, marks, rests, most) ↦ inr (
            record {
              result = result;
              statics = drop_slots slots last;
              data_toggle = toggle;
              usbcmd = usbcmd';
            },
            set_up_run fuel portsc1 pipe req usbcmd s high
                ∙ ap
                    (transfer_with l r hardware fuel (qh_addr l (pipe.which + 1)) pipe req
                      (zlp_of portsc1 req) usbcmd)
                    taken
                ∙ rw (chained, ran),
            same_pools-IsScheduled l last xs ys both3 (drop_slots slots last)
                (drop_slots_pools slots last).0 (drop_slots_pools slots last).1,
            given.releases last (marks ∙ kept.slots),
            Rests-trans s t (drop_slots slots last) taken_rests (
                Rests-trans t v (drop_slots slots last) kept.rests
                  (Rests-trans v last (drop_slots slots last) rests (drop_slots-Rests slots last))),
            most,
          )
        ]

  -- A bulk transfer on a pipe of the bulk pool whose queue head is in neither schedule, whatever the
  -- slots left and however the controller ends it, meets no fault and needs no more than the fuel of one
  -- round for each queue head. It returns, unless the controller never retires it: then its queue
  -- head is the first in the async schedule, the schedule is enabled, and the transfer is still running
  -- after all that the controller does. When it returns, both schedules hold what they held before, in
  -- the same order, the qTD bitmap is as before, on the error paths too, and so are the pools of pipes
  -- and the sizes of the buffers, and a byte count that it returns is at most the length of the buffer.
  pub do_bulk_transfer-IsScheduled :
      (fuel portsc1 : ℕ) (pipe : Pipe) (req : BulkRequest) (usbcmd : ℕ) (s : UsbStatics Pool)
      (xs ys : List ℕ)
      → IsScheduled l s xs ys
      → length s.qtd_pool ≡ num_qtd
      → length s.qtd_allocated ≡ num_qtd
      → pipe.which < num_qh
      → has (pipe.which + 1) xs ≡ false
      → has (pipe.which + 1) ys ≡ false
      → num_qh ≤ fuel
      → Unless l r hardware
          (pipe.which + 1)
          xs
          ys
          (do_bulk_transfer l r hardware fuel portsc1 pipe req usbcmd s)
          ((done : Transferred Pool) × (do_bulk_transfer l r hardware fuel portsc1 pipe req usbcmd s
              ≡ Run.ok done)
            × IsScheduled l done.statics xs ys
            × (done.statics.qtd_allocated ≡ s.qtd_allocated)
            × Rests s done.statics
            × AtMost req.data_len done.result)
  do_bulk_transfer-IsScheduled fuel portsc1 pipe req usbcmd s xs ys both qtd_size slots high out
        free enough =
      continue_bulk fuel portsc1 pipe req usbcmd s xs ys
        (alloc_slots (zlp_of portsc1 req) (set_up portsc1 pipe req s)) refl
        (alloc_slots-Allocates (zlp_of portsc1 req) (set_up portsc1 pipe req s) slots)
        (changed-IsScheduled l s xs ys both (pipe.which + 1) (endpoint_of portsc1 req) (omega arith)
          out free)
        qtd_size high out free enough
