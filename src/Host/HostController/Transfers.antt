-- ===== src/Host/HostController/Transfers.antt =====
-- Control and bulk transfers keep the driver's invariant.
use imxrt_usbh.Base.{
  ℕ, ◌+◌, ◌-◌, ◌≤◌, ◌<◌, ◌≡◌, refl, sym, ap, ◌∙◌, Bool, true, false, not, ◌&&◌, ◌||◌, ◌==◌, inl,
  inr, Option-cases, some, List, [], ◌∷◌, length, subst, arith,
}
use native.Mathlib.Decide.{ℕ_discrete}
use imxrt_usbh.Base.Members.{has}
use imxrt_usbh.Ehci.Token.{pid_out, pid_in}
use imxrt_usbh.Host.Error.Laws.{AtMost}
use imxrt_usbh.Host.HostController.{
  PoolOps, control_on, control_transfer, bulk_on, bulk_in_transfer, bulk_out_transfer,
}
use imxrt_usbh.Host.HostController.Invariant.{IsPool, ArePlaced, IsDriver, heads}
use imxrt_usbh.Host.InterruptPipe as InterruptPipe
use imxrt_usbh.Host.InterruptPipe.{ImxrtInterruptPipe}
use imxrt_usbh.Host.Regs.{Ral}
use imxrt_usbh.Host.Run.{ok}
use imxrt_usbh.Host.Schedule.Both.{IsScheduled}
use imxrt_usbh.Host.Schedule.Qtd.Laws.{in_use}
use imxrt_usbh.Host.Statics.{UsbStatics, Layout, IsAligned, num_qh}
use imxrt_usbh.Host.Transfer.{Controller}
use imxrt_usbh.Host.Transfer.Bulk.{BulkRequest, Transferred}
use imxrt_usbh.Host.Transfer.BulkCall.{do_bulk_transfer-IsScheduled}
use imxrt_usbh.Host.Transfer.Control.{ControlRequest, ControlDone, control_data_len}
use imxrt_usbh.Host.Transfer.ControlCall.{do_control_transfer-IsScheduled}
use imxrt_usbh.Host.Transfer.Keeps.{buffer_sizes, same_pools-IsScheduled}
use imxrt_usbh.Host.Transfer.Session.{IsController, Waits, Unless}
use imxrt_usbh.Midi.Driver.{TransferType}

-- The control queue head is none of the pipes'.
control_head_free :
    (slots : List Bool) (pipes : List ImxrtInterruptPipe)
    → ArePlaced slots pipes
    → has 1 (heads pipes) ≡ false
control_head_free slots [] placed = refl
control_head_free slots (pipe ∷ pipes) (first, rest) =
    ground (arith, first.head_is, first.which_pos, control_head_free slots pipes rest)

-- A number that was not in use is given out and given back.
restored :
    (used : ℕ → Bool) (n k : ℕ) → used n ≡ false → (not (k == n) && ((k == n) || used k)) ≡ used k
restored used n k unused = elim (ℕ_discrete k n) [
  | yes e ↦ ground (arith, ap used e)
  | no ne ↦ ground arith
]

module _ {Pool : Type 0} {pool : PoolOps Pool} {l : Layout} (p : IsPool pool) where
  -- A state with the same marks, sizes and users of the pools.
  pub alike-IsDriver :
      (s t : UsbStatics Pool) (pipes : List ImxrtInterruptPipe)
      → IsDriver l p s pipes
      → IsScheduled l t [] (heads pipes)
      → t.qtd_allocated ≡ s.qtd_allocated
      → length t.qtd_pool ≡ length s.qtd_pool
      → buffer_sizes t ≡ buffer_sizes s
      → (p.size t.control_pipes ≡ 1) × (p.used t.control_pipes 0 ≡ false)
      → (p.size t.bulk_pipes ≡ num_qh - 1)
        × ((k : ℕ) → p.used t.bulk_pipes k ≡ p.used s.bulk_pipes k)
      → IsDriver l p t pipes
  alike-IsDriver s t pipes d both marks size buffers control bulk = record {
    scheduled = both;
    qtd_size = size ∙ d.qtd_size;
    slots_size = ap (λ slots. length slots) marks ∙ d.slots_size;
    control_size = control.0;
    control_free = control.1;
    bulk_size = bulk.0;
    bulk_used = λ k. bulk.1 k ∙ d.bulk_used k;
    buffers = buffers ∙ d.buffers;
    placed = subst (λ slots. ArePlaced slots pipes) (sym marks) d.placed;
    slots_apart = d.slots_apart;
    count = ap in_use marks ∙ d.count;
  }

  -- The queue head of a number that the bulk pool gives out is in no schedule.
  pub given_head_free :
      (s : UsbStatics Pool) (pipes : List ImxrtInterruptPipe) (n : ℕ)
      → IsDriver l p s pipes
      → p.used s.bulk_pipes n ≡ false
      → has (n + 1 + 1) (heads pipes) ≡ false
  given_head_free s pipes n d unused =
      let e : n + 1 + 1 ≡ n + 2 = omega arith in
      ap (λ (x : ℕ). has x (heads pipes)) e ∙ sym (d.bulk_used n) ∙ unused

module _ {Pool : Type 0} {pool : PoolOps Pool} {l : Layout} (aligned : IsAligned l) (r : Ral)
    (p : IsPool pool) {hardware : Controller Pool} (spec : IsController hardware) (fuel portsc1 : ℕ)
    (enough : num_qh ≤ fuel) where
  control_taken :
      (req : ControlRequest) (usbcmd : ℕ) (s : UsbStatics Pool) (pipes : List ImxrtInterruptPipe)
      (took : ℕ × Pool)
      → IsDriver l p s pipes
      → pool.try_alloc s.control_pipes ≡ some took
      → Unless l r hardware 1 []
          (heads pipes)
          (control_on pool l r hardware fuel portsc1 req usbcmd s (some took))
          ((done : ControlDone Pool) × (control_on pool l r hardware fuel portsc1 req usbcmd s
                (some took)
              ≡ ok done)
            × IsDriver l p done.statics pipes
            × AtMost (control_data_len req.setup req.data_phase) done.result)
  unfolding control_on
  control_taken req usbcmd s pipes took d taken =
      let s1 : UsbStatics Pool = record s { control_pipes = took.1 } in
      let (below, _, size, _) = p.gives s.control_pipes took taken in
      elim (do_control_transfer-IsScheduled aligned r spec fuel portsc1 req usbcmd s1 []
        (heads pipes) (same_pools-IsScheduled l s [] (heads pipes) d.scheduled s1 refl refl)
        d.qtd_size d.slots_size refl (control_head_free s.qtd_allocated pipes d.placed) enough) [
          | inl (run, waits) ↦ inl (rw run, waits)
          | inr (done, run, both, marks, rests, most) ↦
              let control : Pool = done.statics.control_pipes in
              let t : UsbStatics Pool = record done.statics {
                control_pipes = pool.free took.0 control;
              } in
              inr (
                record done { statics = t },
                rw run,
                alike-IsDriver p s t pipes d
                    (same_pools-IsScheduled l done.statics [] (heads pipes) both t refl refl) marks
                    rests.qtd_size rests.buffers
                    (
                      p.size_free took.0 control ∙ ap p.size rests.control ∙ size ∙ d.control_size,
                      p.used_free took.0 control 0 ∙ ground (arith, below, d.control_size),
                    )
                    (ap p.size rests.bulk ∙ d.bulk_size, λ k. ap (λ q. p.used q k) rests.bulk),
                most,
              )
        ]

  -- A control transfer does not wait for its pipe and meets no fault. It returns, unless the controller
  -- never retires it, though the async schedule is enabled with the control queue head first. When it
  -- returns, it has kept the invariant of the driver with the same pipes open, and has transferred no
  -- more bytes than it was asked for.
  pub control_transfer-IsDriver :
      (req : ControlRequest) (usbcmd : ℕ) (s : UsbStatics Pool) (pipes : List ImxrtInterruptPipe)
      → IsDriver l p s pipes
      → Unless l r hardware 1 []
          (heads pipes)
          (control_transfer pool l r hardware fuel portsc1 req usbcmd s)
          ((done : ControlDone Pool) × (control_transfer pool l r hardware fuel portsc1 req usbcmd s
              ≡ ok done)
            × IsDriver l p done.statics pipes
            × AtMost (control_data_len req.setup req.data_phase) done.result)
  unfolding control_transfer
  control_transfer-IsDriver req usbcmd s pipes d =
      elim (Option-cases (pool.try_alloc s.control_pipes)) [
        | inl none_left ↦ absurd (
            ground (
              arith,
              p.full s.control_pipes none_left 0 (omega (arith, d.control_size)),
              d.control_free,
            ))
        | inr (took, taken) ↦ rw (taken) (control_taken req usbcmd s pipes took d taken)
      ]

  pub bulk_taken :
      (req : BulkRequest) (usbcmd : ℕ) (s : UsbStatics Pool) (pipes : List ImxrtInterruptPipe)
      (took : ℕ × Pool)
      → IsDriver l p s pipes
      → pool.try_alloc s.bulk_pipes ≡ some took
      → Unless l r hardware
          (took.0 + 2)
          []
          (heads pipes)
          (bulk_on pool l r hardware fuel portsc1 req usbcmd s (some took))
          ((done : Transferred Pool) × (bulk_on pool l r hardware fuel portsc1 req usbcmd s
                (some took)
              ≡ ok done)
            × IsDriver l p done.statics pipes
            × AtMost req.data_len done.result)
  unfolding bulk_on InterruptPipe.new
  bulk_taken req usbcmd s pipes took d taken =
      let s1 : UsbStatics Pool = record s { bulk_pipes = took.1 } in
      let (below, unused, size, users) = p.gives s.bulk_pipes took taken in
      elim (do_bulk_transfer-IsScheduled aligned r spec fuel portsc1 (InterruptPipe.new took.0 1)
        req usbcmd s1 [] (heads pipes)
        (same_pools-IsScheduled l s [] (heads pipes) d.scheduled s1 refl refl) d.qtd_size
        d.slots_size (omega (arith, below, d.bulk_size)) refl
        (given_head_free p s pipes took.0 d unused) enough) [
          | inl (run, waits) ↦
              inl (
                rw run,
                subst (λ (q : ℕ). Waits l r hardware q [] (heads pipes)) (omega arith) waits,
              )
          | inr (done, run, both, marks, rests, most) ↦
              let bulk : Pool = done.statics.bulk_pipes in
              let t : UsbStatics Pool = record done.statics {
                bulk_pipes = pool.free took.0 bulk;
              } in
              inr (
                record done { statics = t },
                rw run,
                alike-IsDriver p s t pipes d
                    (same_pools-IsScheduled l done.statics [] (heads pipes) both t refl refl) marks
                    rests.qtd_size rests.buffers
                    (
                      ap p.size rests.control ∙ d.control_size,
                      ap (λ q. p.used q 0) rests.control ∙ d.control_free,
                    )
                    (
                      p.size_free took.0 bulk ∙ ap p.size rests.bulk ∙ size ∙ d.bulk_size,
                      λ k.
                          p.used_free took.0 bulk k
                          ∙ ap (λ b. not (k == took.0) && b)
                              (ap (λ q. p.used q k) rests.bulk ∙ users k)
                          ∙ restored (p.used s.bulk_pipes) took.0 k unused,
                    ),
                most,
              )
        ]

  -- The two directions of a bulk transfer, if a pipe is left. It meets no fault, and it returns, unless
  -- the controller never retires it, though the async schedule is enabled with the queue head of a pipe
  -- first. When it returns, it has kept the invariant of the driver with the same pipes open, and has
  -- transferred no more bytes than the buffer has.
  pub bulk_transfer-IsDriver :
      (address endpoint packet_size buffer data_len : ℕ) (kind : TransferType) (toggle : Bool)
      (usbcmd : ℕ) (s : UsbStatics Pool) (pipes : List ImxrtInterruptPipe) (which : ℕ)
      → which < p.size s.bulk_pipes
      → p.used s.bulk_pipes which ≡ false
      → IsDriver l p s pipes
      → ((which : ℕ) × Unless l r hardware
            (which + 2)
            []
            (heads pipes)
            (bulk_in_transfer pool l r hardware fuel portsc1 address endpoint packet_size buffer
              data_len kind toggle usbcmd s)
            ((done : Transferred Pool) × (bulk_in_transfer pool l r hardware fuel portsc1 address
                  endpoint packet_size buffer data_len kind toggle usbcmd s
                ≡ ok done)
              × IsDriver l p done.statics pipes
              × AtMost data_len done.result))
        × (which : ℕ) × Unless l r hardware
            (which + 2)
            []
            (heads pipes)
            (bulk_out_transfer pool l r hardware fuel portsc1 address endpoint packet_size buffer
              data_len kind toggle usbcmd s)
            ((done : Transferred Pool) × (bulk_out_transfer pool l r hardware fuel portsc1 address
                  endpoint packet_size buffer data_len kind toggle usbcmd s
                ≡ ok done)
              × IsDriver l p done.statics pipes
              × AtMost data_len done.result)
  unfolding bulk_in_transfer bulk_out_transfer
  bulk_transfer-IsDriver address endpoint packet_size buffer data_len kind toggle usbcmd s pipes
        which below unused d =
      elim (Option-cases (pool.try_alloc s.bulk_pipes)) [
        | inl none_left ↦ absurd (ground (arith, p.full s.bulk_pipes none_left which below, unused))
        | inr (took, taken) ↦
            let req : BulkRequest = record {
              address = address;
              endpoint = endpoint;
              packet_size = packet_size;
              buffer = buffer;
              data_len = data_len;
              pid = pid_out;
              is_in = false;
              transfer_type = kind;
              data_toggle = toggle;
            } in
            rw taken (
              (
                took.0,
                bulk_taken (record req { pid = pid_in; is_in = true }) usbcmd s pipes took d taken,
              ),
              took.0,
              bulk_taken req usbcmd s pipes took d taken,
            )
      ]
