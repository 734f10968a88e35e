-- ===== src/Host/Tests/Pipes.antt =====
-- An interrupt pipe that is opened, and one whose first packet has come.
use imxrt_usbh.Base.{
  if◌then◌else◌, ◌||◌, ℕ, ◌+◌, ◌-◌, ◌*◌, ◌^◌, ◌<◌, ◌≡◌, refl, ◌↔◌, true, false, not, ◌&&◌, none,
  some, suc, [], ◌∷◌, min, length, take, replicate, arith,
}
use imxrt_usbh.Ehci.FrameList
use imxrt_usbh.Ehci.Token.{qtd_token_bytes_remaining, is_active, is_halted}
use imxrt_usbh.Ehci.Td
use imxrt_usbh.Ehci.Td.{TransferDescriptor}
use imxrt_usbh.Ehci.Qh
use imxrt_usbh.Host.Controller.{init}
use imxrt_usbh.Host.Controller.Laws.{init-IsScheduled}
use imxrt_usbh.Host.Error.{ready, pending}
use imxrt_usbh.Host.Futures as Futures
use imxrt_usbh.Host.InterruptPipe.{
  normal, InterruptPacket, Pipe, ImxrtInterruptPipe, Polled, poll_next, do_alloc_interrupt_pipe,
}
use imxrt_usbh.Host.InterruptPipe.Laws.{rearmed, IsOpen}
use imxrt_usbh.Host.InterruptPipe.Opening.{do_alloc_interrupt_pipe-IsOpen}
use imxrt_usbh.Host.InterruptPipe.Polling.{poll_next-packet, poll_next-IsOpen}
use imxrt_usbh.Host.Regs.{reenable_transfer_interrupts}
use imxrt_usbh.Host.Schedule.Periodic.Insert as PeriodicInsert
use imxrt_usbh.Host.Schedule.Periodic.Insert.{link_qh_to_periodic_schedule-IsPeriodic}
use imxrt_usbh.Host.Run.{ok}
use imxrt_usbh.Host.Schedule.Periodic.Chain.{IsPeriodic}
use imxrt_usbh.Host.Schedule.Qtd.Laws.{in_use}
use imxrt_usbh.Host.Statics
use imxrt_usbh.Host.Statics.{UsbStatics, num_qh, qtd_addr, RecvBuf, recv_buf}
use imxrt_usbh.Host.Statics.Links.{qh_at}
use imxrt_usbh.Host.Tests.{ral, layout}

abbrev pool_new : ℕ → ℕ
pool_new n = n

abbrev statics : UsbStatics ℕ
statics = (init ral layout 0x2020_3000 false 0x1000_1803 0 (Statics.new pool_new)).statics

abbrev first_pipe : Pipe
first_pipe = record { which = 1 }

abbrev blank : InterruptPacket
blank = record { address = 0; endpoint = 0; size = 0; bytes = replicate 64 0 }

slots_are_free : in_use statics.qtd_allocated < 16
unfolding init Statics.new in_use
slots_are_free = omega arith

do_alloc_interrupt_pipe-IsOpen_example :
    (self : ImxrtInterruptPipe) × (s' : UsbStatics ℕ) × (do_alloc_interrupt_pipe layout ral
        0x1000_1803 first_pipe 5 normal 1 8 statics
      ≡ ok (self, s'))
    × (self.pipe ≡ first_pipe)
    × IsOpen self s'
    × IsPeriodic layout s' (self.qh_index ∷ [])
    × (in_use s'.qtd_allocated ≡ suc (in_use statics.qtd_allocated))
    × (poll_next layout ral blank self s' 0
        ≡ ok (record {
          registered = Futures.pipe 1;
          result = pending;
          statics = s';
          usbintr = reenable_transfer_interrupts ral 0;
        }))
unfolding init Statics.new in_use
do_alloc_interrupt_pipe-IsOpen_example =
    do_alloc_interrupt_pipe-IsOpen layout ral 0x1000_1803 first_pipe 5 normal 1 8 statics recv_buf
      [] blank 0 (omega arith) (omega arith) refl slots_are_free refl refl recv_size
      (init-IsScheduled ral layout 0x2020_3000 false 0x1000_1803 0 pool_new).1.periodic refl
  where
    recv_size : length recv_buf.bytes ≡ 64
    recv_size = unfold recv_buf in refl

-- Eight bytes of a packet of 64 have come: 56 are left of the 64 that the qTD asked for.
abbrev arrived : TransferDescriptor
arrived = record {
  next = 1;
  alt_next = 1;
  token = 56 * 2 ^ 16 + 0x8d00;
  buffer = 0x2020_2000 ∷ 0 ∷ 0 ∷ 0 ∷ 0 ∷ [];
}

abbrev pools : UsbStatics ℕ
pools = record {
  control_pipes = 1;
  bulk_pipes = 3;
  qh_pool = replicate 5 Qh.new;
  qtd_pool = arrived ∷ replicate 15 Td.new;
  frame_list = FrameList.new;
  qtd_allocated = true ∷ replicate 15 false;
  recv_bufs = record { bytes = replicate 64 7 } ∷ replicate 2 recv_buf;
}

abbrev keyboard : ImxrtInterruptPipe
keyboard = record {
  pipe = first_pipe;
  qh_index = 2;
  qtd_slot = 0;
  recv_buf_idx = 0;
  address = 5;
  endpoint = 1;
  max_packet_size = 64;
}

keyboard-IsOpen : IsOpen keyboard pools
keyboard-IsOpen = record {
  which-lt = omega arith;
  qh-lt = omega arith;
  qtd-lt = omega arith;
  qtd_size = refl;
  recv_buf = record { bytes = replicate 64 7 };
  recv_at = refl;
  recv_size = refl;
}

arrived_inactive : is_active arrived.token ≡ false
unfolding is_active
arrived_inactive = refl

arrived_unhalted : is_halted arrived.token ≡ false
unfolding is_halted
arrived_unhalted = refl

poll_next-packet_example :
    (packet : InterruptPacket) × (s' : UsbStatics ℕ) × (usbintr' : ℕ) × (poll_next layout ral blank
        keyboard pools 0
      ≡ ok (record {
        registered = Futures.pipe 1;
        result = ready (some packet);
        statics = s';
        usbintr = usbintr';
      }))
    × (packet.size ≡ min (64 - qtd_token_bytes_remaining arrived.token) 64)
    × (length packet.bytes ≡ 64)
    × (take packet.size packet.bytes ≡ take packet.size keyboard-IsOpen.recv_buf.bytes)
    × (qh_at s' 2 ≡ record (qh_at pools 2) { overlay_next = qtd_addr layout 0 })
    × (poll_next layout ral blank keyboard s' usbintr'
        ≡ ok (record {
          registered = Futures.pipe 1;
          result = pending;
          statics = s';
          usbintr = reenable_transfer_interrupts ral usbintr';
        }))
poll_next-packet_example =
    poll_next-packet layout keyboard pools ral blank 0 keyboard-IsOpen refl refl arrived_inactive
      arrived_unhalted

poll_next-IsOpen_example :
    (polled : Polled ℕ) × (poll_next layout ral blank keyboard pools 0 ≡ ok polled)
    × (polled.registered ≡ Futures.pipe 1)
    × IsOpen keyboard polled.statics
    × (polled.statics ≡ (
        if is_active arrived.token || is_halted arrived.token
        then pools
        else rearmed layout keyboard pools))
    × ((polled.result ≡ pending) ↔ (is_active arrived.token ≡ true))
    × ((polled.result ≡ ready none)
        ↔ ((not (is_active arrived.token) && is_halted arrived.token) ≡ true))
poll_next-IsOpen_example = poll_next-IsOpen layout keyboard pools ral blank 0 keyboard-IsOpen refl

-- The keyboard's queue head in the periodic schedule.
abbrev with_keyboard : UsbStatics ℕ
with_keyboard = PeriodicInsert.linked layout statics 2

with_keyboard-IsPeriodic : IsPeriodic layout with_keyboard (2 ∷ [])
with_keyboard-IsPeriodic =
    (link_qh_to_periodic_schedule-IsPeriodic layout statics 2 []
      (init-IsScheduled ral layout 0x2020_3000 false 0x1000_1803 0 pool_new).1.periodic
      (omega arith) refl).1
