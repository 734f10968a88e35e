-- ===== src/Gpt/Laws.antt =====
-- The timers as what their getters show, and the setters as updates of it.
use imxrt_usbh.Gpt.Bits.{read_bit-modify_bit}
use imxrt_usbh.Base.{
  ℕ, ◌+◌, ◌^◌, ◌<◌, ◌≡◌, refl, ap, ◌∙◌, Bool, true, false, min, max, arith, ◌==◌, if◌then◌else◌,
}
use imxrt_usbh.Gpt.{
  Mode, one_shot, repeat, Instance, gpt0, gpt1, Fields, IsFields, Usb, modify_bit, read_bit,
  load_value, is_repeat, set_load, load, run, is_running, stop, reset, set_mode, mode,
  set_interrupt_enabled, is_interrupt_enabled,
}

-- What the getters of a timer show.
pub record Timer : Type 0 where
  pub running : Bool
  pub mode : Mode
  pub load : ℕ
  pub enabled : Bool

abbrev pub timer : Fields → Instance → Usb → Timer
timer f gpt usb = record {
  running = is_running f gpt usb;
  mode = mode f gpt usb;
  load = load gpt usb;
  enabled = is_interrupt_enabled f gpt usb;
}

abbrev pub same_timer : Instance → Instance → Bool
same_timer gpt0 gpt0 = true
same_timer gpt1 gpt1 = true
same_timer _ _ = false

-- An update of one of the timers.
abbrev pub updated : (i j : Instance) → (Timer → Timer) → Timer → Timer
updated i j update t = if same_timer i j then update t else t

updated_same : (i j : Instance) (t : Timer) → updated i j (λ t. t) t ≡ t
updated_same i j t = elim (same_timer i j) as (λ b. (if b then t else t) ≡ t) [
  | true ↦ refl
  | false ↦ refl
]

module _ {f : Fields} (spec : IsFields f) (usb : Usb) where
  read_same : (reg p : ℕ) (value : Bool) → p < 32 → read_bit (modify_bit reg p value) p ≡ value
  read_same reg p value hp = read_bit-modify_bit reg p p value hp hp ∙ ground arith

  read_other :
      (reg p k : ℕ) (value : Bool)
      → p < 32
      → k < 32
      → (p == k) ≡ false
      → read_bit (modify_bit reg p value) k ≡ read_bit reg k
  read_other reg p k value hp hk h =
      read_bit-modify_bit reg p k value hp hk
      ∙ ap (λ (b : Bool). if b then value else read_bit reg k) h

  timer-run :
      (i j : Instance)
      → timer f j (run f i usb) ≡ updated i j (λ t. record t { running = true }) (timer f j usb)
  unfolding run is_running mode load is_interrupt_enabled
  timer-run gpt0 gpt0 = rw (
    read_same usb.gptimer0ctrl f.gptrun true spec.gptrun-lt,
    read_other usb.gptimer0ctrl f.gptrun f.gptmode true spec.gptrun-lt spec.gptmode-lt
        spec.run_mode,
  )
  timer-run gpt0 gpt1 = refl
  timer-run gpt1 gpt0 = refl
  timer-run gpt1 gpt1 = rw (
    read_same usb.gptimer1ctrl f.gptrun true spec.gptrun-lt,
    read_other usb.gptimer1ctrl f.gptrun f.gptmode true spec.gptrun-lt spec.gptmode-lt
        spec.run_mode,
  )

  timer-stop :
      (i j : Instance)
      → timer f j (stop f i usb) ≡ updated i j (λ t. record t { running = false }) (timer f j usb)
  unfolding stop is_running mode load is_interrupt_enabled
  timer-stop gpt0 gpt0 = rw (
    read_same usb.gptimer0ctrl f.gptrun false spec.gptrun-lt,
    read_other usb.gptimer0ctrl f.gptrun f.gptmode false spec.gptrun-lt spec.gptmode-lt
        spec.run_mode,
  )
  timer-stop gpt0 gpt1 = refl
  timer-stop gpt1 gpt0 = refl
  timer-stop gpt1 gpt1 = rw (
    read_same usb.gptimer1ctrl f.gptrun false spec.gptrun-lt,
    read_other usb.gptimer1ctrl f.gptrun f.gptmode false spec.gptrun-lt spec.gptmode-lt
        spec.run_mode,
  )

  timer-reset : (i j : Instance) → timer f j (reset f i usb) ≡ updated i j (λ t. t) (timer f j usb)
  unfolding reset is_running mode load is_interrupt_enabled
  timer-reset gpt0 gpt0 = rw (
    read_other usb.gptimer0ctrl f.gptrst f.gptrun true spec.gptrst-lt spec.gptrun-lt spec.rst_run,
    read_other usb.gptimer0ctrl f.gptrst f.gptmode true spec.gptrst-lt spec.gptmode-lt
        spec.rst_mode,
  )
  timer-reset gpt0 gpt1 = refl
  timer-reset gpt1 gpt0 = refl
  timer-reset gpt1 gpt1 = rw (
    read_other usb.gptimer1ctrl f.gptrst f.gptrun true spec.gptrst-lt spec.gptrun-lt spec.rst_run,
    read_other usb.gptimer1ctrl f.gptrst f.gptmode true spec.gptrst-lt spec.gptmode-lt
        spec.rst_mode,
  )

  read_mode : (m : Mode) → (if is_repeat m then repeat else one_shot) ≡ m
  read_mode one_shot = refl
  read_mode repeat = refl

  timer-set_mode :
      (i j : Instance) (m : Mode)
      → timer f j (set_mode f i m usb) ≡ updated i j (λ t. record t { mode = m }) (timer f j usb)
  unfolding set_mode is_running mode load is_interrupt_enabled
  timer-set_mode gpt0 gpt0 m = rw (
    read_other usb.gptimer0ctrl f.gptmode f.gptrun (is_repeat m) spec.gptmode-lt spec.gptrun-lt
        spec.mode_run,
    read_same usb.gptimer0ctrl f.gptmode (is_repeat m) spec.gptmode-lt,
    read_mode m,
  )
  timer-set_mode gpt0 gpt1 m = refl
  timer-set_mode gpt1 gpt0 m = refl
  timer-set_mode gpt1 gpt1 m = rw (
    read_other usb.gptimer1ctrl f.gptmode f.gptrun (is_repeat m) spec.gptmode-lt spec.gptrun-lt
        spec.mode_run,
    read_same usb.gptimer1ctrl f.gptmode (is_repeat m) spec.gptmode-lt,
    read_mode m,
  )

  timer-set_load :
      (i j : Instance) (us : ℕ)
      → timer f j (set_load i us usb)
        ≡ updated i j (λ t. record t { load = load_value us }) (timer f j usb)
  unfolding set_load is_running mode load is_interrupt_enabled
  timer-set_load gpt0 gpt0 us = refl
  timer-set_load gpt0 gpt1 us = refl
  timer-set_load gpt1 gpt0 us = refl
  timer-set_load gpt1 gpt1 us = refl

  timer-set_interrupt_enabled :
      (i j : Instance) (enable : Bool)
      → timer f j (set_interrupt_enabled f i enable usb)
        ≡ updated i j (λ t. record t { enabled = enable }) (timer f j usb)
  unfolding set_interrupt_enabled is_running mode load is_interrupt_enabled
  timer-set_interrupt_enabled gpt0 gpt0 enable =
      rw (read_same usb.usbintr f.tie0 enable spec.tie0-lt)
  timer-set_interrupt_enabled gpt0 gpt1 enable =
      rw (read_other usb.usbintr f.tie0 f.tie1 enable spec.tie0-lt spec.tie1-lt spec.tie0_tie1)
  timer-set_interrupt_enabled gpt1 gpt0 enable =
      rw (read_other usb.usbintr f.tie1 f.tie0 enable spec.tie1-lt spec.tie0-lt spec.tie1_tie0)
  timer-set_interrupt_enabled gpt1 gpt1 enable =
      rw (read_same usb.usbintr f.tie1 enable spec.tie1-lt)

  -- Each setter of a timer changes what the getters of that timer show in its own place and
  -- nothing else, and nothing of the other timer: `run` and `stop` whether it runs, `set_mode` its
  -- mode, `set_interrupt_enabled` its interrupt, and `reset` nothing. `set_load` makes `load` one
  -- less than the microseconds asked for, these first brought between 1 and 0xffffff, so that the
  -- value fits in 24 bits. The fields lie where `IsFields` says.
  pub timer-setters :
      (i j : Instance)
      → (timer f j (run f i usb) ≡ updated i j (λ t. record t { running = true }) (timer f j usb))
        × (timer f j (stop f i usb)
            ≡ updated i j (λ t. record t { running = false }) (timer f j usb))
        × (timer f j (reset f i usb) ≡ timer f j usb)
        × ((m : Mode)
            → timer f j (set_mode f i m usb)
              ≡ updated i j (λ t. record t { mode = m }) (timer f j usb))
        × ((us : ℕ)
            → (n : ℕ) × (n + 1 ≡ min (max us 1) 0xff_ffff)
              × (n < 2 ^ 24)
              × (timer f j (set_load i us usb)
                  ≡ updated i j (λ t. record t { load = n }) (timer f j usb)))
        × ((enable : Bool)
            → timer f j (set_interrupt_enabled f i enable usb)
              ≡ updated i j (λ t. record t { enabled = enable }) (timer f j usb))
  timer-setters i j = (
    timer-run i j,
    timer-stop i j,
    timer-reset i j ∙ updated_same i j (timer f j usb),
    timer-set_mode i j,
    λ us. (load_value us, omega arith, omega arith, timer-set_load i j us),
    timer-set_interrupt_enabled i j,
  )
