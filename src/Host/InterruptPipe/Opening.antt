-- ===== src/Host/InterruptPipe/Opening.antt =====
-- `do_alloc_interrupt_pipe`: the pipe that it returns is open, waits for a packet, and is scheduled.
use imxrt_usbh.Host.InterruptPipe.Preparing.{
  opened_pipe, prepared, prepared-IsPeriodic, do_alloc_interrupt_pipe_steps,
}
use imxrt_usbh.Base.{
  lt_of_get_elem?, ℕ, ◌+◌, ◌-◌, ◌<◌, ◌≡◌, inl, inr, Option-cases, suc, refl, sym, ap, subst, ◌∙◌,
  true, false, Option, none, some, List, ◌∷◌, length, get_elem?, set, length-set, get_or-set_self,
  arith,
}
use imxrt_usbh.Base.Members.{has}
use imxrt_usbh.Ehci.Token.{is_active}
use imxrt_usbh.Ehci.Td
use imxrt_usbh.Host.Regs.{Ral, reenable_transfer_interrupts}
use imxrt_usbh.Host.Run.{ok, ◌>>=◌}
use imxrt_usbh.Host.Schedule.Qtd.{alloc_qtd}
use imxrt_usbh.Host.Schedule.Qtd.Laws.{in_use, Allocates, alloc_qtd-Allocates}
use imxrt_usbh.Host.Futures.{Waker}
use imxrt_usbh.Host.Error.{pending}
use imxrt_usbh.Host.Schedule.Periodic.{head_entry}
use imxrt_usbh.Host.Schedule.Periodic.Chain.{Chain-frame, IsPeriodic}
use imxrt_usbh.Host.Schedule.Periodic.Insert.{linked, link_qh_to_periodic_schedule-IsPeriodic}
use imxrt_usbh.Host.Schedule.Periodic.{link_qh_to_periodic_schedule}
use imxrt_usbh.Host.Statics.{UsbStatics, Layout, num_qh, num_qtd, qh_addr, RecvBuf}
use imxrt_usbh.Host.InterruptPipe.{
  InterruptPacket, poll_next, TransferExtras, Pipe, ImxrtInterruptPipe, do_alloc_interrupt_pipe,
}
use imxrt_usbh.Host.InterruptPipe.Laws.{IsOpen, qtd_at, armed-is_active, poll_next_running}

module _ {Pool : Type 0} (l : Layout) (r : Ral) (portsc1 : ℕ) (pipe : Pipe) (address : ℕ)
    (extras : TransferExtras) (endpoint max_packet_size : ℕ) where
  abbrev before_link : (i : ℕ) → UsbStatics Pool → UsbStatics Pool
  before_link i s = prepared l r portsc1 pipe address extras endpoint max_packet_size i s

  -- The pools once the slot `i` is taken.
  abbrev marked : (i : ℕ) → UsbStatics Pool → UsbStatics Pool
  marked i s = record s { qtd_allocated = set s.qtd_allocated i true }

  marked-IsPeriodic :
      (i : ℕ) (s : UsbStatics Pool) (xs : List ℕ) → IsPeriodic l s xs → IsPeriodic l (marked i s) xs
  marked-IsPeriodic i s xs p = record {
    in_sync = p.in_sync;
    chain = Chain-frame l s (marked i s) (head_entry s) xs (λ x h. refl) p.chain;
    distinct = p.distinct;
    in_pool = p.in_pool;
    size = p.size;
  }

  opened-IsOpen :
      (i : ℕ) (s : UsbStatics Pool) (buf : RecvBuf)
      → 0 < pipe.which
      → pipe.which < num_qh
      → i < num_qtd
      → length s.qtd_pool ≡ num_qtd
      → get_elem? s.recv_bufs (pipe.which - 1) ≡ some buf
      → length buf.bytes ≡ 64
      → IsOpen
          (opened_pipe r portsc1 pipe address extras endpoint max_packet_size i)
          (linked l (before_link i (marked i s)) (pipe.which + 1))
  opened-IsOpen i s buf low high slot size recv full = record {
    which-lt = omega arith;
    qh-lt = omega arith;
    qtd-lt = slot;
    qtd_size = length-set s.qtd_pool i _ ∙ size;
    recv_buf = buf;
    recv_at = recv;
    recv_size = full;
  }

  opened-is_active :
      (i : ℕ) (s : UsbStatics Pool)
      → i < num_qtd
      → length s.qtd_pool ≡ num_qtd
      → is_active (qtd_at (linked l (before_link i (marked i s)) (pipe.which + 1)) i).token ≡ true
  unfolding Td.init
  opened-is_active i s slot size =
      ap (λ qtd. is_active qtd.token) (get_or-set_self s.qtd_pool i _ Td.new (omega (arith, size)))
      ∙ armed-is_active max_packet_size

  taken_slot :
      (s : UsbStatics Pool)
      → length s.qtd_allocated ≡ num_qtd
      → in_use s.qtd_allocated < num_qtd
      → (i : ℕ) × (i < num_qtd)
        × (alloc_qtd s ≡ some (i, marked i s))
        × (in_use (marked i s).qtd_allocated ≡ suc (in_use s.qtd_allocated))
  taken_slot s slots free = elim (Option-cases (alloc_qtd s)) [
    | inl exhausted ↦ absurd (omega (arith, slots, allocated none exhausted))
    | inr (took, taken) ↦
        let (vacant, _, same, count) = allocated (some (took.0, took.1)) taken in
        (
          took.0,
          omega (arith, slots, lt_of_get_elem? s.qtd_allocated took.0 vacant),
          taken ∙ ap (λ t. some (took.0, t)) same,
          ap (λ t. in_use t.qtd_allocated) (sym same) ∙ count,
        )
  ]
    where
      allocated : (o : Option (ℕ × UsbStatics Pool)) → alloc_qtd s ≡ o → Allocates s o
      allocated o h = subst (Allocates s) h (alloc_qtd-Allocates s)

  -- With a pipe slot of the bulk pool (1 to num_qh - 1), a qTD slot free, 64-byte receive buffers
  -- and the queue head of the pipe not in the periodic schedule, `do_alloc_interrupt_pipe` does not
  -- panic. The indices of the pipe that it returns lie within the pools, its queue head is the first
  -- of the periodic schedule, one more qTD slot is in use, and the first poll of the pipe, before
  -- the controller has done anything, is pending.
  pub do_alloc_interrupt_pipe-IsOpen :
      (s : UsbStatics Pool) (buf : RecvBuf) (xs : List ℕ) (blank : InterruptPacket) (usbintr : ℕ)
      → 0 < pipe.which
      → pipe.which < num_qh
      → length s.qtd_allocated ≡ num_qtd
      → in_use s.qtd_allocated < num_qtd
      → length s.qtd_pool ≡ num_qtd
      → get_elem? s.recv_bufs (pipe.which - 1) ≡ some buf
      → length buf.bytes ≡ 64
      → IsPeriodic l s xs
      → has (pipe.which + 1) xs ≡ false
      → (self : ImxrtInterruptPipe) × (s' : UsbStatics Pool) × (do_alloc_interrupt_pipe l r portsc1
            pipe address extras endpoint max_packet_size s
          ≡ ok (self, s'))
        × (self.pipe ≡ pipe)
        × IsOpen self s'
        × IsPeriodic l s' (self.qh_index ∷ xs)
        × (in_use s'.qtd_allocated ≡ suc (in_use s.qtd_allocated))
        × (poll_next l r blank self s' usbintr
            ≡ ok (record {
              registered = Waker.pipe pipe.which;
              result = pending;
              statics = s';
              usbintr = reenable_transfer_interrupts r usbintr;
            }))
  do_alloc_interrupt_pipe-IsOpen s buf xs blank usbintr low high slots free size recv full p out =
      let (i, slot, taken, count) = taken_slot s slots free in
      (
        opened_pipe r portsc1 pipe address extras endpoint max_packet_size i,
        linked l (before_link i (marked i s)) (pipe.which + 1),
        do_alloc_interrupt_pipe_steps l r portsc1 pipe address extras endpoint max_packet_size s
              (marked i s) i buf taken low high slot recv
            ∙ ap
                (λ run. run >>= λ t.
                  ok (opened_pipe r portsc1 pipe address extras endpoint max_packet_size i, t))
                (scheduled i).0,
        refl,
        opened-IsOpen i s buf low high slot size recv full,
        (scheduled i).1,
        count,
        poll_next_running l r blank
            (opened_pipe r portsc1 pipe address extras endpoint max_packet_size i)
            (linked l (before_link i (marked i s)) (pipe.which + 1)) usbintr
            (opened-IsOpen i s buf low high slot size recv full) (opened-is_active i s slot size),
      )
    where
      scheduled :
          (i : ℕ)
          → (link_qh_to_periodic_schedule l
                (qh_addr l (pipe.which + 1))
                (before_link i (marked i s))
              ≡ ok (linked l (before_link i (marked i s)) (pipe.which + 1)))
            × IsPeriodic l
                (linked l (before_link i (marked i s)) (pipe.which + 1))
                ((pipe.which + 1) ∷ xs)
      scheduled i =
          link_qh_to_periodic_schedule-IsPeriodic l (before_link i (marked i s)) (pipe.which + 1) xs
            (prepared-IsPeriodic l r portsc1 pipe address extras endpoint max_packet_size i
              (marked i s) xs out (marked-IsPeriodic i s xs p))
            (omega arith) out
