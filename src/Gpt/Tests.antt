-- ===== src/Gpt/Tests.antt =====
-- The timers on concrete registers.
use imxrt_usbh.Base.{ℕ, ◌+◌, ◌^◌, ◌<◌, ◌≡◌, refl, Bool, true, false, min, max, arith}
use imxrt_usbh.Gpt.{
  Mode, one_shot, repeat, gpt0, gpt1, Fields, IsFields, Usb, set_load, run, stop, reset, set_mode,
  mode, is_running, is_elapsed, clear_elapsed, set_interrupt_enabled,
}
use imxrt_usbh.Gpt.Laws.{timer, updated, timer-setters}

-- The positions of the reference manual.
abbrev fields : Fields
fields = record { gptrun = 31; gptrst = 30; gptmode = 24; ti0 = 24; ti1 = 25; tie0 = 24; tie1 = 25 }

fields-IsFields : IsFields fields
fields-IsFields = record {
  gptrun-lt = omega arith;
  gptrst-lt = omega arith;
  gptmode-lt = omega arith;
  tie0-lt = omega arith;
  tie1-lt = omega arith;
  run_rst = refl;
  run_mode = refl;
  rst_mode = refl;
  rst_run = refl;
  mode_run = refl;
  tie0_tie1 = refl;
  tie1_tie0 = refl;
}

abbrev usb : Usb
usb = record {
  gptimer0ctrl = 0x0100_0000;
  gptimer1ctrl = 0x8000_0000;
  gptimer0ld = 0;
  gptimer1ld = 49_999;
  usbsts = 0x0100_0000;
  usbintr = 0;
}

timer-setters_example :
    (timer fields gpt0 (run fields gpt1 usb)
      ≡ updated gpt1 gpt0 (λ t. record t { running = true }) (timer fields gpt0 usb))
    × (timer fields gpt0 (stop fields gpt1 usb)
        ≡ updated gpt1 gpt0 (λ t. record t { running = false }) (timer fields gpt0 usb))
    × (timer fields gpt0 (reset fields gpt1 usb) ≡ timer fields gpt0 usb)
    × ((m : Mode)
        → timer fields gpt0 (set_mode fields gpt1 m usb)
          ≡ updated gpt1 gpt0 (λ t. record t { mode = m }) (timer fields gpt0 usb))
    × ((us : ℕ)
        → (n : ℕ) × (n + 1 ≡ min (max us 1) 0xff_ffff)
          × (n < 2 ^ 24)
          × (timer fields gpt0 (set_load gpt1 us usb)
              ≡ updated gpt1 gpt0 (λ t. record t { load = n }) (timer fields gpt0 usb)))
    × ((enable : Bool)
        → timer fields gpt0 (set_interrupt_enabled fields gpt1 enable usb)
          ≡ updated gpt1 gpt0 (λ t. record t { enabled = enable }) (timer fields gpt0 usb))
timer-setters_example = timer-setters fields-IsFields usb gpt1 gpt0

run_started : is_running fields gpt0 (run fields gpt0 usb) ≡ true
unfolding run is_running
run_started = refl

mode_read : (mode fields gpt0 usb ≡ repeat) × (mode fields gpt1 usb ≡ one_shot)
unfolding mode
mode_read = (refl, refl)

elapsed_first : (is_elapsed fields gpt0 usb ≡ true) × (is_elapsed fields gpt1 usb ≡ false)
unfolding is_elapsed
elapsed_first = (refl, refl)

elapsed_cleared : clear_elapsed fields gpt0 ≡ 0x0100_0000
unfolding clear_elapsed
elapsed_cleared = refl
