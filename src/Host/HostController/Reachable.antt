-- ===== src/Host/HostController/Reachable.antt =====
-- The states that calls of the trait lead to, in any order.
use imxrt_usbh.Base.{
  ℕ, ◌-◌, ◌≤◌, ◌≡◌, refl, sym, ◌∙◌, inl, inr, Option-cases, subst, Bool, List, [], ◌∷◌, length,
}
use imxrt_usbh.Host.Controller.{init}
use imxrt_usbh.Host.Controller.Laws.{init-IsScheduled}
use imxrt_usbh.Host.Error.{Outcome, ok}
use imxrt_usbh.Host.HostController.{
  PoolOps, InterruptRequest, control_transfer, bulk_on, bulk_in_transfer, bulk_out_transfer,
  try_alloc_interrupt_pipe, close_pipe,
}
use imxrt_usbh.Host.HostController.Invariant.{IsPool, IsDriver}
use imxrt_usbh.Host.HostController.Transfers.{control_transfer-IsDriver, bulk_taken}
use imxrt_usbh.Host.HostController.Opening.{Opens, try_alloc_interrupt_pipe-IsDriver}
use imxrt_usbh.Host.HostController.Closing.{Removes, close_pipe-IsDriver}
use imxrt_usbh.Host.HostController.Polling.{poll_next-Keeps, Keeps-IsDriver, open-IsOpen}
use imxrt_usbh.Host.InterruptPipe.{InterruptPacket, ImxrtInterruptPipe, Polled, poll_next}
use imxrt_usbh.Host.Regs.{Ral}
use imxrt_usbh.Host.Run.{Run}
use imxrt_usbh.Host.Schedule.Qtd.Laws.{in_use}
use imxrt_usbh.Host.Statics
use imxrt_usbh.Host.Statics.{UsbStatics, Layout, IsAligned, num_qh}
use imxrt_usbh.Host.Transfer.{Controller}
use imxrt_usbh.Host.Transfer.Bulk.{BulkRequest, Transferred}
use imxrt_usbh.Host.Transfer.Control.{ControlRequest, ControlDone}
use imxrt_usbh.Host.Transfer.Keeps.{Keeps}
use imxrt_usbh.Host.Transfer.Session.{IsController}
use imxrt_usbh.Midi.Driver.{TransferType}

module _ {Pool : Type 0} (pool : PoolOps Pool) (l : Layout) (r : Ral) (hardware : Controller Pool)
    (fuel : ℕ) where
  -- The states that calls lead to from `start`, one call after the other, with the pipes that are open;
  -- in `acted` the controller has written to the qTDs, the overlays or the buffers.
  pub data Driven (start : UsbStatics Pool)
      : UsbStatics Pool → List ImxrtInterruptPipe → Type 0 where
    started : Driven start start []
    controlled :
        {s : UsbStatics Pool} {pipes : List ImxrtInterruptPipe} (portsc1 usbcmd : ℕ)
        (req : ControlRequest) (done : ControlDone Pool)
        → Driven start s pipes
        → control_transfer pool l r hardware fuel portsc1 req usbcmd s ≡ Run.ok done
        → Driven start done.statics pipes
    received :
        {s : UsbStatics Pool} {pipes : List ImxrtInterruptPipe} (portsc1 usbcmd : ℕ)
        (address endpoint packet_size buffer data_len : ℕ) (kind : TransferType) (toggle : Bool)
        (done : Transferred Pool)
        → Driven start s pipes
        → bulk_in_transfer pool l r hardware fuel portsc1 address endpoint packet_size buffer
            data_len kind toggle usbcmd s
          ≡ Run.ok done
        → Driven start done.statics pipes
    sent :
        {s : UsbStatics Pool} {pipes : List ImxrtInterruptPipe} (portsc1 usbcmd : ℕ)
        (address endpoint packet_size buffer data_len : ℕ) (kind : TransferType) (toggle : Bool)
        (done : Transferred Pool)
        → Driven start s pipes
        → bulk_out_transfer pool l r hardware fuel portsc1 address endpoint packet_size buffer
            data_len kind toggle usbcmd s
          ≡ Run.ok done
        → Driven start done.statics pipes
    opened :
        {s t : UsbStatics Pool} {pipes : List ImxrtInterruptPipe} (portsc1 : ℕ)
        (req : InterruptRequest) (self : ImxrtInterruptPipe)
        → Driven start s pipes
        → try_alloc_interrupt_pipe pool l r portsc1 req s ≡ Run.ok (ok self, t)
        → Driven start t (self ∷ pipes)
    polled :
        {s : UsbStatics Pool} {pipes rest : List ImxrtInterruptPipe} (usbintr : ℕ)
        (blank : InterruptPacket) (self : ImxrtInterruptPipe) (poll : Polled Pool)
        → Driven start s pipes
        → Removes self pipes rest
        → length blank.bytes ≡ 64
        → poll_next l r blank self s usbintr ≡ Run.ok poll
        → Driven start poll.statics pipes
    closed :
        {s t : UsbStatics Pool} {pipes rest : List ImxrtInterruptPipe} (self : ImxrtInterruptPipe)
        → Driven start s pipes
        → Removes self pipes rest
        → close_pipe pool l r self s ≡ Run.ok t
        → Driven start t rest
    acted :
        {s t : UsbStatics Pool} {pipes : List ImxrtInterruptPipe}
        → Driven start s pipes
        → Keeps s t
        → Driven start t pipes

same_result {ℓ} : {A : Type ℓ} {a b : A} (run : Run A) → run ≡ Run.ok a → run ≡ Run.ok b → a ≡ b
same_result run h k = cc

no_result {ℓ} : {A : Type ℓ} {a : A} → Run.out_of_fuel ≡ Run.ok a → ⊥
no_result h = cc

module _ {Pool : Type 0} {pool : PoolOps Pool} (l : Layout) (r : Ral) (p : IsPool pool)
    (frame_list : ℕ) (hub_support : Bool) (portsc1 usbsts : ℕ) where
  -- The pools that `init` leaves.
  abbrev pub started_pools : UsbStatics Pool
  started_pools = (init r l frame_list hub_support portsc1 usbsts (Statics.new pool.new)).statics

  -- `init` establishes the invariant of the driver, with no pipe open.
  pub init-IsDriver : IsDriver l p started_pools []
  unfolding init Statics.new in_use
  init-IsDriver = record {
    scheduled = (init-IsScheduled r l frame_list hub_support portsc1 usbsts pool.new).1;
    qtd_size = refl;
    slots_size = refl;
    control_size = p.size_new 1;
    control_free = p.used_new 1 0;
    bulk_size = p.size_new (num_qh - 1);
    bulk_used = λ k. p.used_new (num_qh - 1) k;
    buffers = refl;
    placed = tt;
    slots_apart = tt;
    count = refl;
  }

module _ {Pool : Type 0} {pool : PoolOps Pool} {l : Layout} (aligned : IsAligned l) (r : Ral)
    (p : IsPool pool) {hardware : Controller Pool} (spec : IsController hardware) (fuel : ℕ)
    (enough : num_qh ≤ fuel) where
  bulk-IsDriver :
      (portsc1 usbcmd : ℕ) (req : BulkRequest) (s : UsbStatics Pool)
      (pipes : List ImxrtInterruptPipe) (done : Transferred Pool)
      → IsDriver l p s pipes
      → bulk_on pool l r hardware fuel portsc1 req usbcmd s (pool.try_alloc s.bulk_pipes)
        ≡ Run.ok done
      → IsDriver l p done.statics pipes
  unfolding bulk_on
  bulk-IsDriver portsc1 usbcmd req s pipes done d run =
      elim (Option-cases (pool.try_alloc s.bulk_pipes)) [
        | inl none_left ↦ absurd (no_result (rw none_left at run))
        | inr (took, taken) ↦
            elim (bulk_taken aligned r p spec fuel portsc1 enough req usbcmd s pipes took d taken) [
              | inl (waits, _) ↦ absurd (no_result (sym waits ∙ rw taken at run))
              | inr (other, runs, kept, _) ↦
                  subst (λ (t : Transferred Pool). IsDriver l p t.statics pipes)
                    (same_result _ runs (rw taken at run)) kept
            ]
      ]

  opened-IsDriver :
      (portsc1 : ℕ) (req : InterruptRequest) (s : UsbStatics Pool) (pipes : List ImxrtInterruptPipe)
      (d : IsDriver l p s pipes) (out : Outcome ImxrtInterruptPipe × UsbStatics Pool)
      (self : ImxrtInterruptPipe) (t : UsbStatics Pool)
      → Opens l r p portsc1 req s pipes d out
      → out ≡ (ok self, t)
      → IsDriver l p t (self ∷ pipes)
  opened-IsDriver portsc1 req s pipes d out self t opens same =
      (subst (λ o. Opens l r p portsc1 req s pipes d o) same opens).0.driver

  -- In every state that calls of the trait lead to after `init`, one after the other and in any order,
  -- with polls and drops of the open pipes and writes of the controller in between: the async
  -- schedule is empty, the periodic schedule holds exactly the queue heads of the open pipes, the bulk
  -- pool has given out exactly their numbers and the qTD bitmap exactly their slots, all different, the
  -- control pipe is free, and the pools and buffers have their sizes. The pool of cotton-usb-host and
  -- the controller do what their documentation says, and the fuel is one round for each queue head.
  pub Driven-IsDriver :
      (start s : UsbStatics Pool) (pipes : List ImxrtInterruptPipe)
      → IsDriver l p start []
      → Driven pool l r hardware fuel start s pipes
      → IsDriver l p s pipes
  unfolding bulk_in_transfer bulk_out_transfer
  Driven-IsDriver start s pipes first started = first
  Driven-IsDriver start s pipes first (controlled {s = before} portsc1 usbcmd req done driven run) =
      elim (control_transfer-IsDriver aligned r p spec fuel portsc1 enough req usbcmd before pipes
        (Driven-IsDriver start before pipes first driven)) [
          | inl (waits, _) ↦ absurd (no_result (sym waits ∙ run))
          | inr (other, runs, kept, _) ↦
              subst (λ (t : ControlDone Pool). IsDriver l p t.statics pipes)
                (same_result _ runs run) kept
        ]
  Driven-IsDriver start s pipes first
        (received {s = before} portsc1 usbcmd address endpoint packet_size buffer data_len kind
          toggle done driven run) =
      bulk-IsDriver portsc1 usbcmd _ before pipes done
        (Driven-IsDriver start before pipes first driven) run
  Driven-IsDriver start s pipes first
        (sent {s = before} portsc1 usbcmd address endpoint packet_size buffer data_len kind toggle
          done driven run) =
      bulk-IsDriver portsc1 usbcmd _ before pipes done
        (Driven-IsDriver start before pipes first driven) run
  Driven-IsDriver start s pipes first
        (opened {s = before} {t} {pipes = old} portsc1 req self driven run) =
      let d : IsDriver l p before old = Driven-IsDriver start before old first driven in
      let (out, runs, opens) = try_alloc_interrupt_pipe-IsDriver l r p portsc1 req before old d in
      opened-IsDriver portsc1 req before old d out self t opens (same_result _ runs run)
  Driven-IsDriver start s pipes first
        (polled {s = before} {rest = rest} usbintr blank self poll driven one full run) =
      let d : IsDriver l p before pipes = Driven-IsDriver start before pipes first driven in
      let (other, runs, kept) =
        poll_next-Keeps l r blank self before usbintr (open-IsOpen l p before pipes d self rest one)
          full d.scheduled.periodic.size in
      subst (λ (t : Polled Pool). IsDriver l p t.statics pipes) (same_result _ runs run)
        (Keeps-IsDriver l p before pipes d other.statics kept)
  Driven-IsDriver start s pipes first
        (closed {s = before} {t} {pipes = old} {rest} self driven one run) =
      let (other, runs, kept) =
        close_pipe-IsDriver aligned r p self before old rest one
          (Driven-IsDriver start before old first driven) in
      subst (λ (u : UsbStatics Pool). IsDriver l p u rest) (same_result _ runs run) kept
  Driven-IsDriver start s pipes first (acted {s = before} {t} driven kept) =
      Keeps-IsDriver l p before pipes (Driven-IsDriver start before pipes first driven) t kept
