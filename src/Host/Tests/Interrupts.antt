-- ===== src/Host/Tests/Interrupts.antt =====
-- Polls and interrupts on concrete register values.
use imxrt_usbh.Base.{
  ℕ, ◌<◌, ◌^◌, ◌≡◌, refl, ◌↔◌, true, false, not, ◌&&◌, ◌||◌, none, some, [], ◌∷◌, bit_and, set,
  ◌==◌, arith,
}
use imxrt_usbh.Base.Bits.{bit, not32}
use imxrt_usbh.Ehci.Token.{has_error_bits, is_active, is_halted}
use imxrt_usbh.Ehci.Td
use imxrt_usbh.Host.Controller.{init}
use imxrt_usbh.Host.Controller.Laws.{init-registers}
use imxrt_usbh.Host.Error.{UsbError, map_qtd_error, Outcome, ok, err, ready, pending}
use imxrt_usbh.Host.Error.Laws.{map_qtd_error-bits}
use imxrt_usbh.Host.Futures.{
  device, pipe, async_advance, Polled, Tokens, TransferComplete, read_tokens, pipe_waker,
  poll_tokens, poll_transfer, poll_async_advance,
}
use imxrt_usbh.Host.Futures.Laws.{is_running, is_done, IsRead, poll_tokens_lem}
use imxrt_usbh.Host.Port.{reset_root_port}
use imxrt_usbh.Host.Port.Laws.{reset_root_port_lem}
use imxrt_usbh.Host.Regs.{reenable_transfer_interrupts, set_fields}
use imxrt_usbh.Host.Regs.Laws.{is_transfer_enable}
use imxrt_usbh.Host.Shared.{on_irq}
use imxrt_usbh.Host.Shared.Doorbell.{poll_waits, poll_waits_lem}
use imxrt_usbh.Host.Shared.Laws.{is_woken, is_serviced, on_irq_lem}
use imxrt_usbh.Host.Shared.Wakeup.{IsRaised, poll_transfer-on_irq, poll_async_advance-on_irq}
use imxrt_usbh.Host.Statics
use imxrt_usbh.Host.Statics.{UsbStatics}
use imxrt_usbh.Host.Tests.{ral, ral-IsRal, layout}

-- A status qTD that is active, and one that was stalled.
abbrev running : Tokens
running = record { status = 0x80; data_token = none; overlay = 0x80 }

poll_tokens_lem_example :
    let (result, usbintr') = poll_tokens ral running 0 in
    ((result ≡ pending) ↔ (is_running running ≡ true))
    × ((result ≡ ready (ok tt)) ↔ (is_done running ≡ true))
    × ((e : UsbError)
        → result ≡ ready (err e)
        → (token : ℕ) × IsRead running token
          × (has_error_bits token ≡ true)
          × (e ≡ map_qtd_error token))
    × ((k : ℕ)
        → k < 32
        → bit usbintr' k ≡ (bit 0 k || (is_running running && is_transfer_enable ral k)))
poll_tokens_lem_example = poll_tokens_lem ral-IsRal running 0

on_irq_lem_example :
    let handled = on_irq ral 0x25 0x37 in
    ((k : ℕ) → k < 32 → bit handled.usbsts_written k ≡ (bit 0x25 k && not (5 == k)))
    × (is_woken device handled.woken ≡ true)
    × ((i : ℕ) → i < 5 → is_woken (pipe i) handled.woken ≡ true)
    × (is_woken async_advance handled.woken ≡ true)
    × ((k : ℕ) → k < 32 → bit handled.usbintr k ≡ (bit 0x37 k && not (bit 0x25 k && is_serviced k)))
unfolding bit
on_irq_lem_example = on_irq_lem ral-IsRal 0x25 0x37 (omega arith)

-- A control transfer whose status qTD, at index 1, is active.
abbrev statics : UsbStatics ℕ
statics =
    let s = Statics.new (λ (n : ℕ). n) in
    record s { qtd_pool = set s.qtd_pool 1 (record Td.new { token = 0x80 }) }

abbrev transfer : TransferComplete
transfer = record { status_qtd_index = 1; data_qtd_index = none; qh_index = 1; waker_index = 0 }

abbrev waiting : Polled (Outcome (Unit {0}))
waiting = record {
  registered = pipe 0;
  result = pending;
  usbintr = reenable_transfer_interrupts ral 0;
}

poll_transfer-on_irq_example :
    IsRaised 0x01 waiting.usbintr
    × (is_woken (pipe 0) (on_irq ral 0x01 waiting.usbintr).woken ≡ true)
unfolding poll_transfer pipe_waker read_tokens poll_tokens Statics.new bit Td.new is_active
    reenable_transfer_interrupts is_halted set_fields
poll_transfer-on_irq_example =
    poll_transfer-on_irq ral-IsRal transfer statics 0 0x01 {polled = waiting} refl refl
      (omega arith) refl

poll_async_advance-on_irq_example :
    let (polled, acknowledged) = poll_async_advance ral 0 0 in
    (polled.registered ≡ async_advance)
    × ((polled.result ≡ ready tt) ↔ (bit 0 5 ≡ true))
    × ((polled.result ≡ ready tt) ↔ (acknowledged ≡ some 32))
    × ((status : ℕ)
        → polled.result ≡ pending
        → status < 2 ^ 32
        → bit status 5 ≡ true
        → let handled = on_irq ral status polled.usbintr in
          IsRaised status polled.usbintr
          × (is_woken async_advance handled.woken ≡ true)
          × ((later : ℕ)
              → (poll_async_advance ral
                  (bit_and status (not32 handled.usbsts_written))
                  later).0.result
                ≡ ready tt))
poll_async_advance-on_irq_example = poll_async_advance-on_irq ral-IsRal 0 0

map_qtd_error-bits_example : map_qtd_error 0x48 ≡ UsbError.protocol_error
unfolding bit
map_qtd_error-bits_example = map_qtd_error-bits 0x48

reset_root_port_lem_example :
    (bit (reset_root_port ral true 0x1000_180b) 3 ≡ false)
    × (bit (reset_root_port ral false 0x1000_180b) 3 ≡ false)
unfolding bit
reset_root_port_lem_example = reset_root_port_lem ral-IsRal 0x1000_180b 3 (omega arith)

init-registers_example :
    let started = init ral layout 0x2020_3000 true 0x1000_1803 0 (Statics.new (λ (n : ℕ). n)) in
    (started.usbcmd ≡ 0x18b15) × (bit started.usbintr 5 ≡ true) × (bit started.portsc1 5 ≡ false)
unfolding bit
init-registers_example =
    init-registers ral-IsRal layout 0x2020_3000 true 0x1000_1803 0 5 (Statics.new (λ (n : ℕ). n))
      (omega arith)

-- Two transfers that end at once: the second wait misses the advance.
poll_waits_lem_example : poll_waits ral 2 0x20 0 ≡ ready tt ∷ pending ∷ []
unfolding bit
poll_waits_lem_example = poll_waits_lem ral-IsRal 1 0x20 0 refl
