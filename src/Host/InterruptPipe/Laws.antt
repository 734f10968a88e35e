-- ===== src/Host/InterruptPipe/Laws.antt =====
-- What a poll of an interrupt pipe returns on each branch, and that a packet arms the pipe again.
use imxrt_usbh.Base.{
  get_elem?_of_lt, ℕ, ◌+◌, ◌-◌, ◌≤◌, ◌<◌, ◌≡◌, true, false, ltb, none, some, List, min, length,
  take, drop, ◌++◌, get_elem?, get_or, set, arith,
}
use imxrt_usbh.Ehci.Token.{pid_in, qtd_token, qtd_token_bytes_remaining, is_active, is_halted}
use imxrt_usbh.Ehci.Token.Laws.{qtd_token_decodes, is_inactive_lem, is_active_lem}
use imxrt_usbh.Ehci.Td
use imxrt_usbh.Ehci.Td.{TransferDescriptor}
use imxrt_usbh.Ehci.Qh.{reattach_qtd_preserve_toggle}
use imxrt_usbh.Host.Error.{ready, pending}
use imxrt_usbh.Host.Futures.{pipe, pipe_waker}
use imxrt_usbh.Host.Regs.{Ral, reenable_transfer_interrupts, reenable_port_change_interrupt}
use imxrt_usbh.Host.Run.{ok}
use imxrt_usbh.Host.Statics.{
  UsbStatics, Layout, num_qh, num_qtd, num_pipe_wakers, qtd_addr, qh_ptr, qtd_ptr, RecvBuf,
}
use imxrt_usbh.Host.Statics.Addresses.{load_qh-qh_addr, store_qh-qh_addr}
use imxrt_usbh.Host.Statics.Links.{qh_at}
use imxrt_usbh.Host.InterruptPipe.{
  InterruptPacket, ImxrtInterruptPipe, copy_prefix, recv_addr, take_packet, poll_next,
}

pub ltb-true : (m n : ℕ) → m < n → ltb m n ≡ true
ltb-true m n h = ground arith

-- The token with which a pipe waits for a packet.
pub armed-is_active : (n : ℕ) → is_active (qtd_token pid_in n false true) ≡ true
armed-is_active n =
    let (_, _, _, _, _, inactive, _) = qtd_token_decodes pid_in n false true (omega arith) in
    ground (
      arith,
      is_active_lem (qtd_token pid_in n false true),
      is_inactive_lem (qtd_token pid_in n false true),
      inactive,
    )

-- The packet that a token of a completed qTD stands for.
abbrev pub packet_of :
    (blank : InterruptPacket) → ImxrtInterruptPipe → (token : ℕ) → RecvBuf → InterruptPacket
packet_of blank self token buf = record {
  address = self.address;
  endpoint = self.endpoint;
  size = min (self.max_packet_size - qtd_token_bytes_remaining token) 64;
  bytes =
      take (min (self.max_packet_size - qtd_token_bytes_remaining token) 64) buf.bytes
      ++ drop (min (self.max_packet_size - qtd_token_bytes_remaining token) 64) blank.bytes;
}

copy_prefix_lem :
    (n : ℕ) (src dst : List ℕ)
    → n ≤ length src
    → n ≤ length dst
    → copy_prefix n src dst ≡ ok (take n src ++ drop n dst)
unfolding copy_prefix
copy_prefix_lem n src dst hs hd = ground arith

module _ {Pool : Type 0} where
  abbrev pub qtd_at : UsbStatics Pool → ℕ → TransferDescriptor
  qtd_at s i = get_or s.qtd_pool i Td.new

  -- The indices of a pipe are within the pools, and its buffer holds 64 bytes.
  pub record IsOpen (self : ImxrtInterruptPipe) (s : UsbStatics Pool) : Type 0 where
    pub which-lt : self.pipe.which < num_pipe_wakers
    pub qh-lt : self.qh_index < num_qh + 1
    pub qtd-lt : self.qtd_slot < num_qtd
    pub qtd_size : length s.qtd_pool ≡ num_qtd
    pub recv_buf : RecvBuf
    pub recv_at : get_elem? s.recv_bufs self.recv_buf_idx ≡ some recv_buf
    pub recv_size : length recv_buf.bytes ≡ 64

module _ {Pool : Type 0} (l : Layout) where
  -- The pools after a packet: the qTD is set up as at first, and the queue head points to it.
  abbrev pub rearmed : ImxrtInterruptPipe → UsbStatics Pool → UsbStatics Pool
  rearmed self s = record s {
    qtd_pool = set s.qtd_pool self.qtd_slot (
        Td.init (qtd_at s self.qtd_slot) (qtd_token pid_in self.max_packet_size false true)
          (recv_addr l self.recv_buf_idx) self.max_packet_size);
    qh_pool =
        set s.qh_pool self.qh_index
          (reattach_qtd_preserve_toggle (qh_at s self.qh_index) (qtd_addr l self.qtd_slot));
  }

  take_packet_lem :
      (blank : InterruptPacket) (self : ImxrtInterruptPipe) (token : ℕ) (s : UsbStatics Pool)
      (opened : IsOpen self s)
      → length blank.bytes ≡ 64
      → take_packet l blank self token s
        ≡ ok (packet_of blank self token opened.recv_buf, rearmed self s)
  unfolding take_packet qtd_ptr qh_ptr
  take_packet_lem blank self token s opened hb = rw (
    opened.recv_at,
    copy_prefix_lem n opened.recv_buf.bytes blank.bytes (omega (arith, opened.recv_size))
        (omega arith),
    ltb-true self.qtd_slot num_qtd opened.qtd-lt,
    ltb-true self.qh_index (num_qh + 1) opened.qh-lt,
    load_qh-qh_addr l s self.qh_index opened.qh-lt,
    store_qh-qh_addr l t self.qh_index opened.qh-lt,
  )
    where
      n : ℕ
      n = min (self.max_packet_size - qtd_token_bytes_remaining token) 64

      t : UsbStatics Pool
      t = record s {
        qtd_pool = set s.qtd_pool self.qtd_slot (
            Td.init (qtd_at s self.qtd_slot) (qtd_token pid_in self.max_packet_size false true)
              (recv_addr l self.recv_buf_idx) self.max_packet_size);
      }

  -- The three branches of a poll, by the token of the qTD.
  module _ (r : Ral) (blank : InterruptPacket) (self : ImxrtInterruptPipe) (s : UsbStatics Pool)
      (usbintr : ℕ) (opened : IsOpen self s) where
    qtd_read : get_elem? s.qtd_pool self.qtd_slot ≡ some (qtd_at s self.qtd_slot)
    qtd_read =
        get_elem?_of_lt s.qtd_pool self.qtd_slot Td.new
          (omega (arith, opened.qtd-lt, opened.qtd_size))

    waker_read : pipe_waker self.pipe.which ≡ some (pipe self.pipe.which)
    unfolding pipe_waker
    waker_read = rw (ltb-true self.pipe.which num_pipe_wakers opened.which-lt)

    pub poll_next_running :
        is_active (qtd_at s self.qtd_slot).token ≡ true
        → poll_next l r blank self s usbintr
          ≡ ok (record {
            registered = pipe self.pipe.which;
            result = pending;
            statics = s;
            usbintr = reenable_transfer_interrupts r usbintr;
          })
    unfolding poll_next
    poll_next_running active = rw (waker_read, qtd_read, active)

    pub poll_next_halted :
        is_active (qtd_at s self.qtd_slot).token ≡ false
        → is_halted (qtd_at s self.qtd_slot).token ≡ true
        → poll_next l r blank self s usbintr
          ≡ ok (record {
            registered = pipe self.pipe.which;
            result = ready none;
            statics = s;
            usbintr = reenable_port_change_interrupt r usbintr;
          })
    unfolding poll_next
    poll_next_halted inactive halted = rw (waker_read, qtd_read, inactive, halted)

    pub poll_next_done :
        length blank.bytes ≡ 64
        → is_active (qtd_at s self.qtd_slot).token ≡ false
        → is_halted (qtd_at s self.qtd_slot).token ≡ false
        → poll_next l r blank self s usbintr
          ≡ ok (record {
            registered = pipe self.pipe.which;
            result =
                ready (some (packet_of blank self (qtd_at s self.qtd_slot).token opened.recv_buf));
            statics = rearmed self s;
            usbintr = reenable_transfer_interrupts r usbintr;
          })
    unfolding poll_next
    poll_next_done hb inactive unhalted = rw (
      waker_read,
      qtd_read,
      inactive,
      unhalted,
      take_packet_lem blank self (qtd_at s self.qtd_slot).token s opened hb,
    )
