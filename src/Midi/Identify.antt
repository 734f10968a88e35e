-- ===== src/Midi/Identify.antt =====
-- midi.rs: finding the MIDI streaming interface and its bulk endpoints in the descriptors.
pub mod Laws
use imxrt_usbh.Base.{
  ℕ, Bool, true, false, not, ◌&&◌, Option, none, some, List, [], ◌∷◌, bit_and, ◌==◌, ◌!=◌,
  if◌then◌else◌,
}

pub record IdentifyMidi : Type 0 where
  pub current_configuration : Option ℕ
  pub midi_configuration : Option ℕ
  pub midi_interface : Bool
  pub ep_in : Option ℕ
  pub ep_out : Option ℕ

-- `IdentifyMidi::default()`
abbrev pub default : IdentifyMidi
default = record {
  current_configuration = none;
  midi_configuration = none;
  midi_interface = false;
  ep_in = none;
  ep_out = none;
}

abbrev pub audio_class : ℕ
audio_class = 0x01

abbrev pub midi_streaming_subclass : ℕ
midi_streaming_subclass = 0x03

-- The fields that the driver reads of cotton-usb-host's descriptors.
pub data Descriptor : Type 0 where
  configuration : (bConfigurationValue : ℕ) → Descriptor
  interface : (bInterfaceClass bInterfaceSubClass : ℕ) → Descriptor
  endpoint : (bEndpointAddress bmAttributes : ℕ) → Descriptor
  other : List ℕ → Descriptor

abbrev is_none : Option ℕ → Bool
is_none none = true
is_none (some x) = false

unfoldable pub on_configuration : (bConfigurationValue : ℕ) → IdentifyMidi → IdentifyMidi
on_configuration bConfigurationValue self = record self {
  current_configuration = some bConfigurationValue;
}

unfoldable pub on_interface : (bInterfaceClass bInterfaceSubClass : ℕ) → IdentifyMidi → IdentifyMidi
on_interface bInterfaceClass bInterfaceSubClass self =
    if bInterfaceClass == audio_class && bInterfaceSubClass == midi_streaming_subclass
    then record self { midi_interface = true; midi_configuration = self.current_configuration }
    else record self { midi_interface = false }

unfoldable pub on_endpoint : (bEndpointAddress bmAttributes : ℕ) → IdentifyMidi → IdentifyMidi
on_endpoint bEndpointAddress bmAttributes self =
    if not self.midi_interface
    then self
    else if bit_and bmAttributes 0x03 != 0x02
    then self
    else let ep_num = bit_and bEndpointAddress 0x0f in
      if bit_and bEndpointAddress 0x80 != 0
      then if is_none self.ep_in then record self { ep_in = some ep_num } else self
      else if is_none self.ep_out
      then record self { ep_out = some ep_num }
      else self

-- `on_other` only prints.
unfoldable pub on_descriptor : Descriptor → IdentifyMidi → IdentifyMidi
on_descriptor (configuration value) self = on_configuration value self
on_descriptor (interface class subclass) self = on_interface class subclass self
on_descriptor (endpoint address attributes) self = on_endpoint address attributes self
on_descriptor (other bytes) self = self

-- The visitor called with each descriptor, in order.
unfoldable pub visit : List Descriptor → IdentifyMidi → IdentifyMidi
visit [] self = self
visit (d ∷ ds) self = visit ds (on_descriptor d self)

unfoldable pub identify : IdentifyMidi → Option ℕ
identify self = if is_none self.ep_in then none else self.midi_configuration
