-- ===== src/Host/InterruptPipe.antt =====
-- interrupt_pipe.rs, and `do_alloc_interrupt_pipe` of transfer.rs: the stream of packets of an
-- interrupt IN endpoint.
pub mod Laws
pub mod Polling
pub mod Closing
pub mod Preparing
pub mod Opening
use imxrt_usbh.Base.{
  ℕ, ◌+◌, ◌-◌, ◌*◌, ◌^◌, Bool, true, false, Option, none, some, List, ◌++◌, bit_and, min, length,
  take, drop, get_elem?, get_or, set, leb, ◌&&◌, ◌==◌, if◌then◌else◌,
}
use imxrt_usbh.Base.Bits.{not32}
use imxrt_usbh.Ehci.Token.{pid_in, qtd_token, qtd_token_bytes_remaining, is_active, is_halted}
use imxrt_usbh.Ehci.Td
use imxrt_usbh.Ehci.Td.{TransferDescriptor}
use imxrt_usbh.Ehci.Qh
use imxrt_usbh.Ehci.Qh.{
  QueueHead, speed_full, speed_low, speed_high, qh_characteristics, qh_capabilities, init_endpoint,
  attach_qtd, reattach_qtd_preserve_toggle,
}
use imxrt_usbh.Host.Error.{Poll, ready, pending}
use imxrt_usbh.Host.Futures.{Waker, pipe_waker}
use imxrt_usbh.Host.Port.{port_speed}
use imxrt_usbh.Host.Regs.{Ral, reenable_transfer_interrupts, reenable_port_change_interrupt}
use imxrt_usbh.Host.Run.{Run, ok, fault, ◌>>=◌}
use imxrt_usbh.Host.Schedule.Periodic.{
  link_qh_to_periodic_schedule, unlink_qh_from_periodic_schedule,
}
use imxrt_usbh.Host.Schedule.Qtd.{alloc_qtd, drop_slot}
use imxrt_usbh.Host.Statics.{UsbStatics, Layout, qh_ptr, qtd_ptr, load_qh, store_qh}

-- cotton-usb-host's `TransferExtras` and `InterruptPacket`.
pub data TransferExtras : Type 0 where
  normal with_preamble : TransferExtras

pub record InterruptPacket : Type 0 where
  pub address : ℕ
  pub endpoint : ℕ
  pub size : ℕ
  pub bytes : List ℕ

-- A pipe is the number that `Pipe::new` gives it; `which` is that of the pool's slot.
pub record Pipe : Type 0 where
  pub which : ℕ

unfoldable pub new : (which offset : ℕ) → Pipe
new which offset = record { which = which + offset }

-- `qtd_slot` is the index of the slot.
pub record ImxrtInterruptPipe : Type 0 where
  pub pipe : Pipe
  pub qh_index : ℕ
  pub qtd_slot : ℕ
  pub recv_buf_idx : ℕ
  pub address : ℕ
  pub endpoint : ℕ
  pub max_packet_size : ℕ

-- What a poll has registered with, its result, and the pools and USBINTR after it.
pub record Polled (Pool : Type 0) : Type 0 where
  pub registered : Waker
  pub result : Poll (Option InterruptPacket)
  pub statics : UsbStatics Pool
  pub usbintr : ℕ

-- A panic.
abbrev pub or_panic {ℓ} : {A : Type ℓ} → Option A → Run A
or_panic none = fault
or_panic (some a) = ok a

-- `dst[..n].copy_from_slice(&src[..n])`; a range beyond either panics.
unfoldable pub copy_prefix : (n : ℕ) (src dst : List ℕ) → Run (List ℕ)
copy_prefix n src dst =
    if leb n (length src) && leb n (length dst) then ok (take n src ++ drop n dst) else fault

-- `recv_bufs[index].as_ptr()`
abbrev pub recv_addr : Layout → (index : ℕ) → ℕ
recv_addr l index = l.recv_base + 64 * index

unfoldable pub pipe_speed : Ral → (portsc1 : ℕ) → TransferExtras → ℕ
pipe_speed r portsc1 with_preamble = speed_low
pipe_speed r portsc1 normal =
    if port_speed r portsc1 == 0
    then speed_full
    else if port_speed r portsc1 == 1
    then speed_low
    else speed_high

module _ {Pool : Type 0} (l : Layout) where
  -- The part of `poll_next` from the completion of the qTD on: the packet, and the pools with the
  -- qTD armed again. `blank` is what `InterruptPacket::new()` returns.
  unfoldable pub take_packet :
      (blank : InterruptPacket)
      → ImxrtInterruptPipe
      → (token : ℕ) → UsbStatics Pool
      → Run (InterruptPacket × UsbStatics Pool)
  take_packet blank self token s = do
    recv_buf ← or_panic (get_elem? s.recv_bufs self.recv_buf_idx)
    let copy_len = min (self.max_packet_size - qtd_token_bytes_remaining token) 64
    bytes ← copy_prefix copy_len recv_buf.bytes blank.bytes
    qtd ← or_panic (qtd_ptr l self.qtd_slot)
    qh ← or_panic (qh_ptr l self.qh_index)
    let rearm_token = qtd_token pid_in self.max_packet_size false true
    let qtd_pool = set s.qtd_pool self.qtd_slot (
        Td.init (get_or s.qtd_pool self.qtd_slot Td.new) rearm_token (recv_addr l self.recv_buf_idx)
          self.max_packet_size)
    q ← load_qh l s qh
    s ← store_qh l (record s { qtd_pool = qtd_pool }) qh (reattach_qtd_preserve_toggle q qtd)
    ok (
      record { address = self.address; endpoint = self.endpoint; size = copy_len; bytes = bytes },
      s,
    )

  unfoldable pub poll_next :
      (r : Ral) (blank : InterruptPacket)
      → ImxrtInterruptPipe
      → UsbStatics Pool
      → (usbintr : ℕ) → Run (Polled Pool)
  poll_next r blank self s usbintr = do
    waker ← or_panic (pipe_waker self.pipe.which)
    qtd ← or_panic (get_elem? s.qtd_pool self.qtd_slot)
    if is_active qtd.token
        then ok (record {
          registered = waker;
          result = pending;
          statics = s;
          usbintr = reenable_transfer_interrupts r usbintr;
        })
        else if is_halted qtd.token
        then ok (record {
          registered = waker;
          result = ready none;
          statics = s;
          usbintr = reenable_port_change_interrupt r usbintr;
        })
        else (do
          (packet, s) ← take_packet blank self qtd.token s
          ok (record {
            registered = waker;
            result = ready (some packet);
            statics = s;
            usbintr = reenable_transfer_interrupts r usbintr;
          }))

  -- `Drop for ImxrtInterruptPipe`, and the drop of its qTD slot after it. The wait of 1 ms in
  -- between changes no state; the pool's slot goes back to the pool.
  unfoldable pub drop_pipe : ImxrtInterruptPipe → UsbStatics Pool → Run (UsbStatics Pool)
  drop_pipe self s = do
    qh ← or_panic (qh_ptr l self.qh_index)
    s ← unlink_qh_from_periodic_schedule l qh s
    q ← load_qh l s qh
    s ← store_qh l s qh (record q { sw_flags = 0 })
    ok (drop_slot self.qtd_slot s)

  -- `pipe.which() as usize - 1` panics at 0, by the subtraction or the index that it gives.
  unfoldable pub do_alloc_interrupt_pipe :
      (r : Ral) (portsc1 : ℕ) (pipe : Pipe) (address : ℕ) (transfer_extras : TransferExtras)
      (endpoint max_packet_size : ℕ)
      → UsbStatics Pool
      → Run (ImxrtInterruptPipe × UsbStatics Pool)
  do_alloc_interrupt_pipe r portsc1 pipe address transfer_extras endpoint max_packet_size s = do
    let qh_index = pipe.which + 1
    recv_buf_idx ← if pipe.which == 0 then fault else ok (pipe.which - 1)
    (qtd_slot, s) ← or_panic (alloc_qtd s)
    let speed = pipe_speed r portsc1 transfer_extras
    let characteristics =
        bit_and (qh_characteristics address endpoint speed max_packet_size false false)
          (not32 (0xf * 2 ^ 28))
    let capabilities = qh_capabilities 1 0 0 0 1
    qh ← or_panic (qh_ptr l qh_index)
    q ← load_qh l s qh
    s ← store_qh l s qh (init_endpoint q characteristics capabilities)
    recv_buf ← or_panic (get_elem? s.recv_bufs recv_buf_idx)
    let token = qtd_token pid_in max_packet_size false true
    qtd ← or_panic (qtd_ptr l qtd_slot)
    let qtd_pool = set s.qtd_pool qtd_slot (
        Td.init (get_or s.qtd_pool qtd_slot Td.new) token (recv_addr l recv_buf_idx)
          max_packet_size)
    q ← load_qh l s qh
    s ← store_qh l (record s { qtd_pool = qtd_pool }) qh (attach_qtd q qtd)
    s ← link_qh_to_periodic_schedule l qh s
    ok (
      record {
        pipe = pipe;
        qh_index = qh_index;
        qtd_slot = qtd_slot;
        recv_buf_idx = recv_buf_idx;
        address = address;
        endpoint = endpoint;
        max_packet_size = max_packet_size;
      },
      s,
    )
