-- ===== src/Host/HostController/Polling.antt =====
-- Open pipes can be polled, and neither a poll nor the controller breaks the driver's invariant.
use imxrt_usbh.Base.{
  ℕ, ◌+◌, ◌-◌, ◌≡◌, refl, ap, ◌∙◌, inl, inr, Bool-cases, List, length, length-set, lt_of_get_elem?,
  [], arith,
}
use imxrt_usbh.Ehci.Token.{is_active, is_halted}
use imxrt_usbh.Ehci.Qh.{QueueHead, reattach_qtd_preserve_toggle}
use imxrt_usbh.Host.HostController.{PoolOps}
use imxrt_usbh.Host.HostController.Invariant.{IsPool, IsPlaced, IsDriver, heads}
use imxrt_usbh.Host.HostController.Closing.{Removes, IsPlaced-Removes}
use imxrt_usbh.Host.HostController.Placed.{get_elem?-replicate}
use imxrt_usbh.Host.HostController.Transfers.{alike-IsDriver}
use imxrt_usbh.Host.InterruptPipe.{InterruptPacket, ImxrtInterruptPipe, Polled, poll_next}
use imxrt_usbh.Host.InterruptPipe.Laws.{
  IsOpen, qtd_at, rearmed, poll_next_running, poll_next_halted, poll_next_done,
}
use imxrt_usbh.Host.Regs.{Ral}
use imxrt_usbh.Host.Run.{ok}
use imxrt_usbh.Host.Statics.{UsbStatics, Layout, num_qh, qtd_addr, RecvBuf}
use imxrt_usbh.Host.Transfer.Keeps.{Keeps, Rests-refl, changed, changed-Keeps, Keeps-IsScheduled}

module _ {Pool : Type 0} (l : Layout) (r : Ral) (blank : InterruptPacket)
    (self : ImxrtInterruptPipe) (s : UsbStatics Pool) (usbintr : ℕ) (opened : IsOpen self s)
    (full : length blank.bytes ≡ 64) (size : length s.qh_pool ≡ num_qh + 1) where
  rearmed-Keeps : Keeps s (rearmed l self s)
  unfolding reattach_qtd_preserve_toggle
  rearmed-Keeps =
      let attach : QueueHead → QueueHead =
        λ head. reattach_qtd_preserve_toggle head (qtd_addr l self.qtd_slot) in
      let kept : Keeps s (changed self.qh_index attach s) =
        changed-Keeps self.qh_index attach s (omega (arith, opened.qh-lt, size)) refl in
      record {
        links = kept.links;
        size = kept.size;
        frames = refl;
        slots = refl;
        rests = record {
          qtd_size = length-set s.qtd_pool self.qtd_slot _;
          buffers = refl;
          control = refl;
          bulk = refl;
        };
      }

  same-Keeps : Keeps s s
  same-Keeps = record {
    links = λ x. refl;
    size = refl;
    frames = refl;
    slots = refl;
    rests = Rests-refl s;
  }

  pub poll_next-Keeps :
      (polled : Polled Pool) × (poll_next l r blank self s usbintr ≡ ok polled)
      × Keeps s polled.statics
  poll_next-Keeps = elim (Bool-cases (is_active (qtd_at s self.qtd_slot).token)) [
    | inl active ↦ (_, poll_next_running l r blank self s usbintr opened active, same-Keeps)
    | inr inactive ↦ elim (Bool-cases (is_halted (qtd_at s self.qtd_slot).token)) [
      | inl halted ↦
          (_, poll_next_halted l r blank self s usbintr opened inactive halted, same-Keeps)
      | inr unhalted ↦
          (_, poll_next_done l r blank self s usbintr opened full inactive unhalted, rearmed-Keeps)
    ]
  ]

module _ {Pool : Type 0} {pool : PoolOps Pool} (l : Layout) (p : IsPool pool) (s : UsbStatics Pool)
    (pipes : List ImxrtInterruptPipe) (d : IsDriver l p s pipes) where
  -- What the controller may write at any time.
  pub Keeps-IsDriver : (t : UsbStatics Pool) → Keeps s t → IsDriver l p t pipes
  Keeps-IsDriver t kept =
      alike-IsDriver p s t pipes d (Keeps-IsScheduled l s [] (heads pipes) d.scheduled t kept)
        kept.slots kept.rests.qtd_size kept.rests.buffers
        (
          ap p.size kept.rests.control ∙ d.control_size,
          ap (λ q. p.used q 0) kept.rests.control ∙ d.control_free,
        )
        (ap p.size kept.rests.bulk ∙ d.bulk_size, λ k. ap (λ q. p.used q k) kept.rests.bulk)

  pub open-IsOpen :
      (self : ImxrtInterruptPipe) (rest : List ImxrtInterruptPipe)
      → Removes self pipes rest
      → IsOpen self s
  open-IsOpen self rest one =
      let placed : IsPlaced s.qtd_allocated self =
        IsPlaced-Removes self s.qtd_allocated one d.placed in
      let (buf, recv, full) =
        get_elem?-replicate (λ (buf : RecvBuf). length buf.bytes) 64 (num_qh - 1) self.recv_buf_idx
          s.recv_bufs d.buffers
          (omega (arith, placed.buffer_is, placed.which-lt, placed.which_pos)) in
      record {
        which-lt = omega (arith, placed.which-lt);
        qh-lt = omega (arith, placed.head_is, placed.which-lt);
        qtd-lt =
            omega
              (arith, d.slots_size, lt_of_get_elem? s.qtd_allocated self.qtd_slot placed.marked);
        qtd_size = d.qtd_size;
        recv_buf = buf;
        recv_at = recv;
        recv_size = full;
      }
