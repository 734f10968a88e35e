-- ===== src/Host/InterruptPipe/Polling.antt =====
-- Polls of an interrupt pipe: none panics, and a packet arms the pipe again.
use imxrt_usbh.Base.{
  if◌then◌else◌, ◌||◌, ℕ, ◌+◌, ◌-◌, ◌≡◌, refl, ap, ◌∙◌, ◌↔◌, inl, inr, Bool-cases, true, false, not,
  ◌&&◌, none, some, min, length, take, drop, length-set, length-append, length-take, length-drop,
  take-append_left, get_or-set_self, arith,
}
use imxrt_usbh.Ehci.Token.{qtd_token_bytes_remaining, is_active, is_halted}
use imxrt_usbh.Ehci.Td
use imxrt_usbh.Ehci.Qh
use imxrt_usbh.Ehci.Qh.{reattach_qtd_preserve_toggle}
use imxrt_usbh.Host.Error.{ready, pending}
use imxrt_usbh.Host.Futures.{pipe}
use imxrt_usbh.Host.Regs.{Ral, reenable_transfer_interrupts, reenable_port_change_interrupt}
use imxrt_usbh.Host.Run.{ok}
use imxrt_usbh.Host.Statics.{UsbStatics, Layout, num_qh, qtd_addr}
use imxrt_usbh.Host.Statics.Links.{qh_at}
use imxrt_usbh.Host.InterruptPipe.{InterruptPacket, ImxrtInterruptPipe, Polled, poll_next}
use imxrt_usbh.Host.InterruptPipe.Laws.{
  IsOpen, qtd_at, rearmed, packet_of, armed-is_active, poll_next_running, poll_next_halted,
  poll_next_done,
}

module _ {Pool : Type 0} (l : Layout) (self : ImxrtInterruptPipe) (s : UsbStatics Pool) where
  rearmed-IsOpen : IsOpen self s → IsOpen self (rearmed l self s)
  rearmed-IsOpen opened = record {
    which-lt = opened.which-lt;
    qh-lt = opened.qh-lt;
    qtd-lt = opened.qtd-lt;
    qtd_size = length-set s.qtd_pool self.qtd_slot _ ∙ opened.qtd_size;
    recv_buf = opened.recv_buf;
    recv_at = opened.recv_at;
    recv_size = opened.recv_size;
  }

  rearmed-is_active :
      IsOpen self s → is_active (qtd_at (rearmed l self s) self.qtd_slot).token ≡ true
  unfolding Td.init
  rearmed-is_active opened =
      ap (λ qtd. is_active qtd.token)
        (get_or-set_self s.qtd_pool self.qtd_slot _ Td.new
          (omega (arith, opened.qtd-lt, opened.qtd_size)))
      ∙ armed-is_active self.max_packet_size

  -- The queue head keeps all but the pointer to its next qTD, so also the toggle in its overlay.
  rearmed_overlay :
      IsOpen self s
      → length s.qh_pool ≡ num_qh + 1
      → qh_at (rearmed l self s) self.qh_index
        ≡ record (qh_at s self.qh_index) { overlay_next = qtd_addr l self.qtd_slot }
  unfolding reattach_qtd_preserve_toggle
  rearmed_overlay opened size =
      get_or-set_self s.qh_pool self.qh_index _ Qh.new (omega (arith, opened.qh-lt, size))

  module _ (r : Ral) (blank : InterruptPacket) (usbintr : ℕ) where
    -- The poll of a pipe whose qTD has completed without a halt returns a packet of as many bytes
    -- as were received, 64 at most: the first bytes of the pipe's buffer. It leaves the pipe armed:
    -- the queue head keeps all but the pointer to the qTD, so also the toggle, and the next poll, if
    -- the controller does nothing in between, is pending and changes no pool. `blank`, a new packet,
    -- holds 64 bytes, and the pipe's indices lie within the pools.
    pub poll_next-packet :
        (opened : IsOpen self s)
        → length s.qh_pool ≡ num_qh + 1
        → length blank.bytes ≡ 64
        → is_active (qtd_at s self.qtd_slot).token ≡ false
        → is_halted (qtd_at s self.qtd_slot).token ≡ false
        → (packet : InterruptPacket) × (s' : UsbStatics Pool) × (usbintr' : ℕ) × (poll_next l r
              blank self s usbintr
            ≡ ok (record {
              registered = pipe self.pipe.which;
              result = ready (some packet);
              statics = s';
              usbintr = usbintr';
            }))
          × (packet.size
              ≡ min
                  (self.max_packet_size - qtd_token_bytes_remaining (qtd_at s self.qtd_slot).token)
                  64)
          × (length packet.bytes ≡ 64)
          × (take packet.size packet.bytes ≡ take packet.size opened.recv_buf.bytes)
          × (qh_at s' self.qh_index
              ≡ record (qh_at s self.qh_index) { overlay_next = qtd_addr l self.qtd_slot })
          × (poll_next l r blank self s' usbintr'
              ≡ ok (record {
                registered = pipe self.pipe.which;
                result = pending;
                statics = s';
                usbintr = reenable_transfer_interrupts r usbintr';
              }))
    poll_next-packet opened size hb inactive unhalted = (
      packet_of blank self (qtd_at s self.qtd_slot).token opened.recv_buf,
      rearmed l self s,
      reenable_transfer_interrupts r usbintr,
      poll_next_done l r blank self s usbintr opened hb inactive unhalted,
      refl,
      omega (
        arith,
        length-append (take n opened.recv_buf.bytes) (drop n blank.bytes),
        length-take n opened.recv_buf.bytes,
        length-drop n blank.bytes,
        opened.recv_size,
      ),
      take-append_left (take n opened.recv_buf.bytes) (drop n blank.bytes) n
          (omega (arith, length-take n opened.recv_buf.bytes, opened.recv_size)),
      rearmed_overlay opened size,
      poll_next_running l r blank self (rearmed l self s) (reenable_transfer_interrupts r usbintr)
          (rearmed-IsOpen opened) (rearmed-is_active opened),
    )
      where
        n : ℕ
        n = min (self.max_packet_size - qtd_token_bytes_remaining (qtd_at s self.qtd_slot).token) 64

    -- A poll of a pipe whose indices lie within the pools ends without a panic, whatever the
    -- controller has written, registers with the waker of the pipe, and leaves the indices within
    -- the pools. It is pending exactly if the qTD is active, and ends the stream exactly if the qTD
    -- is halted and not active; on both the pools stay as they are, and otherwise the qTD is set up
    -- again as at first, with the queue head pointing to it. `blank` holds 64 bytes.
    pub poll_next-IsOpen :
        (opened : IsOpen self s)
        → length blank.bytes ≡ 64
        → (polled : Polled Pool) × (poll_next l r blank self s usbintr ≡ ok polled)
          × (polled.registered ≡ pipe self.pipe.which)
          × IsOpen self polled.statics
          × (polled.statics ≡ (
              if is_active (qtd_at s self.qtd_slot).token
                || is_halted (qtd_at s self.qtd_slot).token
              then s
              else rearmed l self s))
          × ((polled.result ≡ pending) ↔ (is_active (qtd_at s self.qtd_slot).token ≡ true))
          × ((polled.result ≡ ready none) ↔ (
              (not (is_active (qtd_at s self.qtd_slot).token)
                && is_halted (qtd_at s self.qtd_slot).token)
              ≡ true))
    poll_next-IsOpen opened hb = elim (Bool-cases (is_active (qtd_at s self.qtd_slot).token)) [
      | inl active ↦ (
        record {
          registered = pipe self.pipe.which;
          result = pending;
          statics = s;
          usbintr = reenable_transfer_interrupts r usbintr;
        },
        poll_next_running l r blank self s usbintr opened active,
        refl,
        opened,
        rw active refl,
        (λ _. active, λ _. refl),
        (λ e. ground arith, λ h. ground arith),
      )
      | inr inactive ↦ elim (Bool-cases (is_halted (qtd_at s self.qtd_slot).token)) [
        | inl halted ↦ (
          record {
            registered = pipe self.pipe.which;
            result = ready none;
            statics = s;
            usbintr = reenable_port_change_interrupt r usbintr;
          },
          poll_next_halted l r blank self s usbintr opened inactive halted,
          refl,
          opened,
          rw (inactive, halted) refl,
          (λ e. ground arith, λ h. ground arith),
          (λ _. ground arith, λ _. refl),
        )
        | inr unhalted ↦ (
          record {
            registered = pipe self.pipe.which;
            result =
                ready (some (packet_of blank self (qtd_at s self.qtd_slot).token opened.recv_buf));
            statics = rearmed l self s;
            usbintr = reenable_transfer_interrupts r usbintr;
          },
          poll_next_done l r blank self s usbintr opened hb inactive unhalted,
          refl,
          rearmed-IsOpen opened,
          rw (inactive, unhalted) refl,
          (λ e. ground arith, λ h. ground arith),
          (λ e. ground arith, λ h. ground arith),
        )
      ]
    ]
