-- ===== src/Host/InterruptPipe/Preparing.antt =====
-- `do_alloc_interrupt_pipe` up to the link of the queue head into the periodic schedule.
use imxrt_usbh.Base.{
  ℕ, ◌+◌, ◌*◌, ◌^◌, ◌-◌, ◌<◌, ◌≡◌, ◌≢◌, sym, ap, ◌∙◌, true, false, some, List, get_elem?, set,
  length-set, get_or-set_ne, ==_false, bit_and, arith,
}
use imxrt_usbh.Base.Bits.{not32}
use imxrt_usbh.Base.Members.{has, ne_of_has}
use imxrt_usbh.Ehci.Token.{pid_in, qtd_token}
use imxrt_usbh.Ehci.Td
use imxrt_usbh.Ehci.Qh
use imxrt_usbh.Ehci.Qh.{qh_characteristics, qh_capabilities, init_endpoint, attach_qtd}
use imxrt_usbh.Host.Regs.{Ral}
use imxrt_usbh.Host.Run.{ok, ◌>>=◌}
use imxrt_usbh.Host.Schedule.Qtd.{alloc_qtd}
use imxrt_usbh.Host.Schedule.Periodic.{head_entry}
use imxrt_usbh.Host.Schedule.Periodic.Chain.{Chain-frame, IsPeriodic}
use imxrt_usbh.Host.Schedule.Periodic.{link_qh_to_periodic_schedule}
use imxrt_usbh.Host.Statics.{
  UsbStatics, Layout, num_qh, num_qtd, qh_addr, qtd_addr, qh_ptr, qtd_ptr, RecvBuf,
}
use imxrt_usbh.Host.Statics.Addresses.{load_qh-qh_addr, store_qh-qh_addr}
use imxrt_usbh.Host.Statics.Links.{qh_at, link_of}
use imxrt_usbh.Host.InterruptPipe.{
  TransferExtras, Pipe, ImxrtInterruptPipe, pipe_speed, recv_addr, do_alloc_interrupt_pipe,
}
use imxrt_usbh.Host.InterruptPipe.Laws.{qtd_at, ltb-true}

module _ (r : Ral) (portsc1 : ℕ) (pipe : Pipe) (address : ℕ) (extras : TransferExtras)
    (endpoint max_packet_size : ℕ) where
  abbrev pub opened_characteristics : ℕ
  opened_characteristics =
      bit_and
        (qh_characteristics address endpoint (pipe_speed r portsc1 extras) max_packet_size false
          false)
        (not32 (0xf * 2 ^ 28))

  -- The pipe over the qTD slot `i`.
  abbrev pub opened_pipe : (i : ℕ) → ImxrtInterruptPipe
  opened_pipe i = record {
    pipe = pipe;
    qh_index = pipe.which + 1;
    qtd_slot = i;
    recv_buf_idx = pipe.which - 1;
    address = address;
    endpoint = endpoint;
    max_packet_size = max_packet_size;
  }

module _ {Pool : Type 0} (l : Layout) (r : Ral) (portsc1 : ℕ) (pipe : Pipe) (address : ℕ)
    (extras : TransferExtras) (endpoint max_packet_size : ℕ) where
  -- The pools once the queue head is set up.
  abbrev pub with_endpoint : UsbStatics Pool → UsbStatics Pool
  with_endpoint s = record s {
    qh_pool = set s.qh_pool (pipe.which + 1) (
        init_endpoint (qh_at s (pipe.which + 1))
          (opened_characteristics r portsc1 pipe address extras endpoint max_packet_size)
          (qh_capabilities 1 0 0 0 1));
  }

  abbrev pub with_qtd : (i : ℕ) → UsbStatics Pool → UsbStatics Pool
  with_qtd i s = record s {
    qtd_pool = set s.qtd_pool i (
        Td.init (qtd_at s i) (qtd_token pid_in max_packet_size false true)
          (recv_addr l (pipe.which - 1)) max_packet_size);
  }

  abbrev pub attached : (i : ℕ) → UsbStatics Pool → UsbStatics Pool
  attached i s = record s {
    qh_pool = set s.qh_pool (pipe.which + 1) (attach_qtd (qh_at s (pipe.which + 1)) (qtd_addr l i));
  }

  -- The pools before the queue head is linked.
  abbrev pub prepared : (i : ℕ) → UsbStatics Pool → UsbStatics Pool
  prepared i s = attached i (with_qtd i (with_endpoint s))

  prepared_link_ne :
      (i x : ℕ) (s : UsbStatics Pool) → pipe.which + 1 ≢ x → link_of (prepared i s) x ≡ link_of s x
  prepared_link_ne i x s ne =
      ap (λ q. q.horizontal_link) (get_or-set_ne _ (pipe.which + 1) x _ Qh.new ne)
      ∙ ap (λ q. q.horizontal_link) (get_or-set_ne s.qh_pool (pipe.which + 1) x _ Qh.new ne)

  pub prepared-IsPeriodic :
      (i : ℕ) (s : UsbStatics Pool) (xs : List ℕ)
      → has (pipe.which + 1) xs ≡ false
      → IsPeriodic l s xs
      → IsPeriodic l (prepared i s) xs
  prepared-IsPeriodic i s xs out p = record {
    in_sync = p.in_sync;
    chain =
        Chain-frame l s (prepared i s) (head_entry s) xs
          (λ x h. prepared_link_ne i x s (λ e. ne_of_has x (pipe.which + 1) xs h out (sym e)))
          p.chain;
    distinct = p.distinct;
    in_pool = p.in_pool;
    size = length-set _ (pipe.which + 1) _ ∙ length-set s.qh_pool (pipe.which + 1) _ ∙ p.size;
  }

  module _ (s s' : UsbStatics Pool) (i : ℕ) (buf : RecvBuf) (taken : alloc_qtd s ≡ some (i, s'))
      (low : 0 < pipe.which) (high : pipe.which < num_qh) (slot : i < num_qtd)
      (recv : get_elem? s'.recv_bufs (pipe.which - 1) ≡ some buf) where
    pub do_alloc_interrupt_pipe_steps :
        do_alloc_interrupt_pipe l r portsc1 pipe address extras endpoint max_packet_size s ≡ (
          link_qh_to_periodic_schedule l (qh_addr l (pipe.which + 1)) (prepared i s') >>= λ t.
          ok (opened_pipe r portsc1 pipe address extras endpoint max_packet_size i, t))
    unfolding do_alloc_interrupt_pipe qh_ptr qtd_ptr
    do_alloc_interrupt_pipe_steps = rw (
      taken,
      ==_false pipe.which 0 (omega arith),
      ltb-true (pipe.which + 1) (num_qh + 1) (omega arith),
      load_qh-qh_addr l s' (pipe.which + 1) (omega arith),
      store_qh-qh_addr l s' (pipe.which + 1) (omega arith),
      recv,
      ltb-true i num_qtd slot,
      load_qh-qh_addr l (with_endpoint s') (pipe.which + 1) (omega arith),
      store_qh-qh_addr l (with_qtd i (with_endpoint s')) (pipe.which + 1) (omega arith),
    )
