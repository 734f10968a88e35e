-- ===== src/Gpt.antt =====
-- gpt.rs: the two general purpose timers of the USB core.
pub mod Bits
pub mod Laws
mod Tests
use imxrt_usbh.Base.{
  ℕ, ◌-◌, ◌<◌, ◌≡◌, Bool, true, false, ◌!=◌, min, max, bit_and, bit_or, ◌==◌, if◌then◌else◌,
}
use imxrt_usbh.Base.Bits.{bit_mask, not32}

pub data Mode : Type 0 where
  one_shot repeat : Mode

pub data Instance : Type 0 where
  gpt0 gpt1 : Instance

-- The positions of the fields, which are imxrt-ral's.
pub record Fields : Type 0 where
  pub gptrun : ℕ
  pub gptrst : ℕ
  pub gptmode : ℕ
  pub ti0 : ℕ
  pub ti1 : ℕ
  pub tie0 : ℕ
  pub tie1 : ℕ

-- What the reference manual says of them: bits of a 32-bit word, those of one register distinct.
pub record IsFields (f : Fields) : Type 0 where
  pub gptrun-lt : f.gptrun < 32
  pub gptrst-lt : f.gptrst < 32
  pub gptmode-lt : f.gptmode < 32
  pub tie0-lt : f.tie0 < 32
  pub tie1-lt : f.tie1 < 32
  pub run_rst : (f.gptrun == f.gptrst) ≡ false
  pub run_mode : (f.gptrun == f.gptmode) ≡ false
  pub rst_mode : (f.gptrst == f.gptmode) ≡ false
  pub rst_run : (f.gptrst == f.gptrun) ≡ false
  pub mode_run : (f.gptmode == f.gptrun) ≡ false
  pub tie0_tie1 : (f.tie0 == f.tie1) ≡ false
  pub tie1_tie0 : (f.tie1 == f.tie0) ≡ false

-- The registers that the timers read and write.
pub record Usb : Type 0 where
  pub gptimer0ctrl : ℕ
  pub gptimer1ctrl : ℕ
  pub gptimer0ld : ℕ
  pub gptimer1ld : ℕ
  pub usbsts : ℕ
  pub usbintr : ℕ

-- `modify_reg!` of a field of one bit.
abbrev pub modify_bit : (reg position : ℕ) (value : Bool) → ℕ
modify_bit reg position value =
    if value
    then bit_or (bit_and reg (not32 (bit_mask position))) (bit_mask position)
    else bit_and reg (not32 (bit_mask position))

-- `read_reg!` of a field of one bit, compared with 1.
abbrev pub read_bit : (reg position : ℕ) → Bool
read_bit reg position = bit_and reg (bit_mask position) != 0

-- The register of a timer in which a setter changes one bit.
abbrev pub control : Instance → Usb → ℕ
control gpt0 usb = usb.gptimer0ctrl
control gpt1 usb = usb.gptimer1ctrl

abbrev modify_control : Instance → (position : ℕ) (value : Bool) → Usb → Usb
modify_control gpt0 position value usb = record usb {
  gptimer0ctrl = modify_bit usb.gptimer0ctrl position value;
}
modify_control gpt1 position value usb = record usb {
  gptimer1ctrl = modify_bit usb.gptimer1ctrl position value;
}

abbrev pub is_repeat : Mode → Bool
is_repeat one_shot = false
is_repeat repeat = true

-- `us.clamp(1, 0xFF_FFFF).saturating_sub(1)`
abbrev pub load_value : (us : ℕ) → ℕ
load_value us = min (max us 1) 0xff_ffff - 1

unfoldable pub set_load : Instance → (us : ℕ) → Usb → Usb
set_load gpt0 us usb = record usb { gptimer0ld = load_value us }
set_load gpt1 us usb = record usb { gptimer1ld = load_value us }

unfoldable pub load : Instance → Usb → ℕ
load gpt0 usb = usb.gptimer0ld
load gpt1 usb = usb.gptimer1ld

module _ (f : Fields) where
  unfoldable pub run : Instance → Usb → Usb
  run gpt usb = modify_control gpt f.gptrun true usb

  unfoldable pub is_running : Instance → Usb → Bool
  is_running gpt usb = read_bit (control gpt usb) f.gptrun

  unfoldable pub stop : Instance → Usb → Usb
  stop gpt usb = modify_control gpt f.gptrun false usb

  unfoldable pub reset : Instance → Usb → Usb
  reset gpt usb = modify_control gpt f.gptrst true usb

  unfoldable pub set_mode : Instance → Mode → Usb → Usb
  set_mode gpt mode usb = modify_control gpt f.gptmode (is_repeat mode) usb

  -- The field has one bit, so that no other value reaches the `unreachable!()`.
  unfoldable pub mode : Instance → Usb → Mode
  mode gpt usb = if read_bit (control gpt usb) f.gptmode then repeat else one_shot

  unfoldable pub is_elapsed : Instance → Usb → Bool
  is_elapsed gpt0 usb = read_bit usb.usbsts f.ti0
  is_elapsed gpt1 usb = read_bit usb.usbsts f.ti1

  -- The value written to USBSTS, whose flags are cleared by a 1.
  unfoldable pub clear_elapsed : Instance → ℕ
  clear_elapsed gpt0 = bit_mask f.ti0
  clear_elapsed gpt1 = bit_mask f.ti1

  unfoldable pub set_interrupt_enabled : Instance → Bool → Usb → Usb
  set_interrupt_enabled gpt0 enable usb = record usb {
    usbintr = modify_bit usb.usbintr f.tie0 enable;
  }
  set_interrupt_enabled gpt1 enable usb = record usb {
    usbintr = modify_bit usb.usbintr f.tie1 enable;
  }

  unfoldable pub is_interrupt_enabled : Instance → Usb → Bool
  is_interrupt_enabled gpt0 usb = read_bit usb.usbintr f.tie0
  is_interrupt_enabled gpt1 usb = read_bit usb.usbintr f.tie1
