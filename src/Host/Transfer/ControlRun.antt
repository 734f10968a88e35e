-- ===== src/Host/Transfer/ControlRun.antt =====
-- A control transfer from its chain of qTDs on.
use imxrt_usbh.Base.{
  get_or-set_self, ℕ, ◌-◌, ◌≤◌, ◌<◌, ◌≡◌, refl, sym, ap, ◌∙◌, inl, inr, Option-cases, false, Option,
  none, some, List, length, arith,
}
use mathlib.Core.Option
use mathlib.Core.Option.{some_inj}
use imxrt_usbh.Base.Members.{has}
use imxrt_usbh.Ehci.Qh
use imxrt_usbh.Ehci.Qh.{QueueHead, attach_qtd}
use imxrt_usbh.Host.Error.Laws.{AtMost}
use imxrt_usbh.Host.Error.{Outcome, ok, err}
use imxrt_usbh.Host.Regs.{Ral}
use imxrt_usbh.Host.Run.{Run}
use imxrt_usbh.Host.Schedule.Both.{IsScheduled}
use imxrt_usbh.Host.Schedule.Qtd.{drop_slot}
use imxrt_usbh.Host.Statics.{UsbStatics, Layout, IsAligned, num_qh, num_qtd, qh_addr, qtd_addr}
use imxrt_usbh.Host.Statics.Links.{qh_at}
use imxrt_usbh.Host.Transfer.{Controller}
use imxrt_usbh.Host.Transfer.Balance.{is_some}
use imxrt_usbh.Host.Transfer.Control.{
  DataPhase, data_in, data_out, no_data, has_data, SetupPacket, ControlRequest, ControlSlots,
  control_data_len, drop_control, write_control_chain, control_complete, bytes_transferred,
  run_control,
}
use imxrt_usbh.Host.Transfer.ControlBalance.{Allocated}
use imxrt_usbh.Host.Transfer.ControlChain.{write_control_chain-status, write_control_chain-data}
use imxrt_usbh.Host.Transfer.Keeps.{
  qtd_ptr-some, Rests, Rests-trans, drop_slot-Rests, Keeps, changed, changed-Rests,
  modify_qh-qh_addr, changed-Keeps, Keeps-IsScheduled, changed-IsScheduled,
}
use imxrt_usbh.Host.Transfer.Session.{IsController, IsWithin, Unless, session, to_go}

pub control_complete-IsWithin :
    (slots : ControlSlots)
    → slots.status_slot < num_qtd
    → ((d : ℕ) → slots.data_slot ≡ some d → d < num_qtd)
    → IsWithin (control_complete slots)
unfolding control_complete
control_complete-IsWithin slots status-lt data-lt = record {
  waker-lt = omega arith;
  status-lt = status-lt;
  qh-lt = omega arith;
  data-lt = data-lt;
}

-- What is left of the data is at most what was asked for, and so is the result.
bytes_transferred_returns :
    (setup : SetupPacket) (p : DataPhase) (remaining : Option ℕ) (outcome : Outcome (Unit {0}))
    → ((x : ℕ) → remaining ≡ some x → x ≤ control_data_len setup p)
    → (result : Outcome ℕ) × (bytes_transferred p (control_data_len setup p) remaining outcome
        ≡ Run.ok result)
      × AtMost (control_data_len setup p) result
unfolding bytes_transferred control_data_len
bytes_transferred_returns setup (data_in buffer len) (some x) (ok _) most =
    (ok (control_data_len setup (data_in buffer len) - x), ground (arith, most x refl), omega arith)
bytes_transferred_returns setup (data_in buffer len) none (ok _) most = (ok 0, refl, omega arith)
bytes_transferred_returns setup (data_out buffer len) remaining (ok _) most =
    (ok len, refl, omega arith)
bytes_transferred_returns setup no_data remaining (ok _) most = (ok 0, refl, omega arith)
bytes_transferred_returns setup (data_in buffer len) (some x) (err e) most = (err e, refl, tt)
bytes_transferred_returns setup (data_in buffer len) none (err e) most = (err e, refl, tt)
bytes_transferred_returns setup (data_out buffer len) remaining (err e) most = (err e, refl, tt)
bytes_transferred_returns setup no_data remaining (err e) most = (err e, refl, tt)

module _ {Pool : Type 0} where
  pub drop_control-Rests :
      (slots : ControlSlots) (s : UsbStatics Pool) → Rests s (drop_control slots s)
  unfolding drop_control drop_slot
  drop_control-Rests slots s = elim (Option-cases slots.data_slot) [
    | inl absent ↦ rw absent (
        Rests-trans s (drop_slot slots.status_slot s) _ (drop_slot-Rests slots.status_slot s)
          (drop_slot-Rests slots.setup_slot (drop_slot slots.status_slot s)))
    | inr (d, present) ↦
        let t : UsbStatics Pool = drop_slot slots.status_slot s in
        rw present (
          Rests-trans s t _ (drop_slot-Rests slots.status_slot s) (
            Rests-trans t (drop_slot d t) _ (drop_slot-Rests d t)
              (drop_slot-Rests slots.setup_slot (drop_slot d t))))
  ]

  pub drop_control_pools :
      (slots : ControlSlots) (s : UsbStatics Pool)
      → ((drop_control slots s).qh_pool ≡ s.qh_pool)
        × ((drop_control slots s).frame_list ≡ s.frame_list)
  unfolding drop_control drop_slot
  drop_control_pools slots s = elim (Option-cases slots.data_slot) [
    | inl absent ↦ rw absent (refl, refl)
    | inr (d, present) ↦ rw present (refl, refl)
  ]

  -- The bytes of the data qTD, if there is one.
  abbrev Asks : (n : ℕ) → Option ℕ → UsbStatics Pool → Type 0
  Asks n data_slot s = (d : ℕ) → data_slot ≡ some d → to_go s d ≤ n

  bytes_left :
      (n : ℕ) (data_slot : Option ℕ) (s t : UsbStatics Pool)
      → ((i : ℕ) → to_go t i ≤ to_go s i)
      → Asks n data_slot s
      → (x : ℕ) → Option.map (to_go t) data_slot ≡ some x
      → x ≤ n
  bytes_left n none s t counts asks x h = cc
  bytes_left n (some d) s t counts asks x h = omega (arith, counts d, asks d refl, some_inj.0 h)

  pub chain_returns :
      (l : Layout) (req : ControlRequest) (slots : ControlSlots) (s t : UsbStatics Pool)
      → is_some slots.data_slot ≡ has_data req.data_phase
      → Allocated s slots t
      → length t.qtd_pool ≡ num_qtd
      → (u : UsbStatics Pool) × (write_control_chain l req slots t ≡ Run.ok u)
        × Keeps t u
        × Asks (control_data_len req.setup req.data_phase) slots.data_slot u
  chain_returns l req slots s t shape given size = elim (Option-cases slots.data_slot) [
    | inl absent ↦
        let (u, run, _, _, kept) =
          write_control_chain-status l req t slots.setup_slot slots.status_slot given.setup-lt
            given.status-lt given.setup_status size (sym shape ∙ ap is_some absent) in
        (
          u,
          ap (λ (d : Option ℕ). write_control_chain l req (record slots { data_slot = d }) t) absent
              ∙ run,
          kept,
          λ d present. cc,
        )
    | inr (d, present) ↦
        let (u, run, _, asks, _, kept) =
          write_control_chain-data l req t slots.setup_slot slots.status_slot given.setup-lt
            given.status-lt given.setup_status size d (given.data-lt d present)
            (given.setup_data d present) (given.data_status d present)
            (sym shape ∙ ap is_some present) in
        (
          u,
          ap (λ (d : Option ℕ). write_control_chain l req (record slots { data_slot = d }) t)
                present
              ∙ run,
          kept,
          λ e same. rw (some_inj.0 (sym same ∙ present)) (omega (arith, asks.bytes)),
        )
  ]

module _ {Pool : Type 0} {l : Layout} (aligned : IsAligned l) (r : Ral) {hardware : Controller Pool}
    (spec : IsController hardware) where
  -- From the attachment of the chain on, with the control queue head in neither schedule.
  pub run_control_returns :
      (fuel : ℕ) (req : ControlRequest) (slots : ControlSlots) (usbcmd : ℕ) (s : UsbStatics Pool)
      (xs ys : List ℕ)
      → IsScheduled l s xs ys
      → length s.qtd_pool ≡ num_qtd
      → slots.setup_slot < num_qtd
      → IsWithin (control_complete slots)
      → Asks (control_data_len req.setup req.data_phase) slots.data_slot s
      → has 1 xs ≡ false
      → has 1 ys ≡ false
      → num_qh ≤ fuel
      → Unless l r hardware 1 xs ys
          (run_control l r hardware fuel (qh_addr l 1) req slots usbcmd s)
          ((last : UsbStatics Pool) × (usbcmd' : ℕ) × (result : Outcome ℕ) × (run_control l r
                hardware fuel
                (qh_addr l 1)
                req
                slots
                usbcmd
                s
              ≡ Run.ok
                  (record { result = result; statics = drop_control slots last; usbcmd = usbcmd' }))
            × IsScheduled l last xs ys
            × (last.qtd_allocated ≡ s.qtd_allocated)
            × Rests s last
            × AtMost (control_data_len req.setup req.data_phase) result)
  unfolding run_control attach_qtd control_complete
  run_control_returns fuel req slots usbcmd s xs ys both qtd_size setup-lt within asks out free
        enough =
      let attach : QueueHead → QueueHead = λ head. attach_qtd head (qtd_addr l slots.setup_slot) in
      let s1 : UsbStatics Pool = changed 1 attach s in
      let kept : Keeps s s1 = changed-Keeps 1 attach s (omega (arith, both.ring.size)) refl in
      let attached : (qh_at s1 1).overlay_next ≡ qtd_addr l slots.setup_slot =
        ap (λ head. head.overlay_next)
          (get_or-set_self s.qh_pool 1 _ Qh.new (omega (arith, both.ring.size))) in
      elim (session aligned r spec fuel 1 usbcmd (control_complete slots) s1 xs ys slots.setup_slot
        (Keeps-IsScheduled l s xs ys both s1 kept) (kept.rests.qtd_size ∙ qtd_size) within refl
        setup-lt attached (omega arith) (omega arith) out free enough) [
          | inl (started, start_run, await_run, waits) ↦ inl (
            rw (
              qtd_ptr-some l slots.setup_slot setup-lt,
              modify_qh-qh_addr l 1 attach s (omega arith),
              start_run,
              await_run,
            ),
            waits,
          )
          | inr used ↦
              let clear : QueueHead → QueueHead = λ head. record head { sw_flags = 0 } in
              let remaining : Option ℕ = Option.map (to_go used.stopped.1) slots.data_slot in
              let (result, counted, most) =
                bytes_transferred_returns req.setup req.data_phase remaining used.outcome (
                  bytes_left (control_data_len req.setup req.data_phase) slots.data_slot s
                    used.stopped.1 used.counts asks) in
              inr (
                changed 1 clear used.stopped.1,
                used.stopped.0,
                result,
                rw (
                  qtd_ptr-some l slots.setup_slot setup-lt,
                  modify_qh-qh_addr l 1 attach s (omega arith),
                  used.start_run,
                  used.await_run,
                  used.stop_run,
                  counted,
                  modify_qh-qh_addr l 1 clear used.stopped.1 (omega arith),
                ),
                changed-IsScheduled l used.stopped.1 xs ys used.scheduled 1 clear (omega arith) out
                    free,
                used.slots,
                Rests-trans s s1 (changed 1 clear used.stopped.1) kept.rests (
                    Rests-trans s1 used.stopped.1 (changed 1 clear used.stopped.1) used.rests
                      (changed-Rests 1 clear used.stopped.1)),
                most,
              )
        ]
