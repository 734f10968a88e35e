-- ===== src/Keyboard.antt =====
-- examples/rtic_usb_midi_keyboard.rs: the task that waits for a MIDI keyboard and reads it.
pub mod Packets
pub mod Events
mod Tests
use imxrt_usbh.Base.{
  ℕ, ◌+◌, ◌%◌, ◌^◌, Bool, true, false, Option, none, some, List, [], ◌∷◌, length, get_elem?, ltb,
  ◌==◌, if◌then◌else◌,
}
use imxrt_usbh.Host.Error.{UsbError, Outcome, ok, err}
use imxrt_usbh.Host.InterruptPipe.{or_panic}
use imxrt_usbh.Host.Run.{Run, out_of_fuel, ◌>>=◌}
use imxrt_usbh.Midi.Driver as Driver
use imxrt_usbh.Midi.Driver.{Bus}
use imxrt_usbh.Midi.Identify.{IdentifyMidi, identify}
use imxrt_usbh.Midi.Packet.{UsbMidiEventPacket, code_index_number, midi_bytes}

-- `b[i]`, which panics out of bounds.
abbrev pub byte_at : (i : ℕ) → List ℕ → Run ℕ
byte_at i b = or_panic (get_elem? b i)

-- The channel, and one or two bytes; the last one.
unfoldable pub read_two : List ℕ → Run ℕ
read_two b = do _ ← byte_at 0 b; byte_at 1 b

unfoldable pub read_three : List ℕ → Run ℕ
read_three b = do _ ← byte_at 0 b; _ ← byte_at 1 b; byte_at 2 b

-- `let _ = last; false`
abbrev then_false : Run ℕ → Run Bool
then_false run = do _ ← run; Run.ok false

-- What is logged is left out, but not the bytes that are read for it.
unfoldable pub log_midi_packet : UsbMidiEventPacket → Run Bool
log_midi_packet pkt =
    let cin = code_index_number pkt in
    let b = midi_bytes pkt in
    if cin == 0x09
    then (do vel ← read_three b; Run.ok (ltb 0 vel))
    else if cin == 0x08
    then then_false (read_three b)
    else if cin == 0x0b
    then then_false (read_three b)
    else if cin == 0x0e
    then then_false (read_three b)
    else if cin == 0x0c
    then then_false (read_two b)
    else if cin == 0x0d
    then then_false (read_two b)
    else if cin == 0x0a
    then then_false (read_three b)
    else Run.ok false

-- The LED after a packet.
unfoldable pub set_led : UsbMidiEventPacket → (note_on led : Bool) → Run Bool
set_led pkt note_on led =
    if note_on
    then Run.ok true
    else if code_index_number pkt == 0x08
    then Run.ok false
    else if code_index_number pkt == 0x09
    then (do vel ← byte_at 2 (midi_bytes pkt); Run.ok (if vel == 0 then false else led))
    else Run.ok led

-- The loop over the first `count` packets.
unfoldable pub show_packets : List UsbMidiEventPacket → (led : Bool) → Run Bool
show_packets [] led = Run.ok led
show_packets (pkt ∷ packets) led = do
  note_on ← log_midi_packet pkt
  led ← set_led pkt note_on led
  show_packets packets led

abbrev pub enum_attempts : ℕ
enum_attempts = 5

-- `attempt`, `MIDI_READY`, `MIDI_MESSAGES` and the LED.
pub record Task : Type 0 where
  pub attempt : ℕ
  pub midi_ready : Bool
  pub midi_messages : ℕ
  pub led : Bool

-- The loop over what `read_packets` returns: the packets counted, or an error, which ends it.
unfoldable pub read_device : List (Outcome (List UsbMidiEventPacket)) → Task → Run Task
read_device [] task = out_of_fuel
read_device (ok packets ∷ reads) task = do
  led ← show_packets packets task.led
  read_device reads
      (record task { midi_messages = (task.midi_messages + length packets) % 2 ^ 32; led = led })
read_device (err e ∷ reads) task = Run.ok (record task { midi_ready = false })

module _ (bus : Bus) where
  -- What the calls of the bus return for a device that has connected.
  pub record Connection : Type 0 where
    pub class : ℕ
    pub configuration : Outcome IdentifyMidi
    pub configure : (value : ℕ) → Outcome bus.Device
    pub reads : List (Outcome (List UsbMidiEventPacket))

  -- cotton-usb-host's `DeviceEvent`.
  pub data DeviceEvent : Type 0 where
    connect : Connection → DeviceEvent
    disconnect enumeration_error hub_connect no_event : DeviceEvent

  -- From the endpoint numbers on.
  unfoldable pub start_midi :
      Connection → (config_value in_ep : ℕ) (out_ep : Option ℕ) → Task → Run Task
  start_midi c config_value in_ep out_ep task = elim (c.configure config_value) [
    | err e ↦ Run.ok task
    | ok usb_device ↦ elim (Driver.new bus usb_device in_ep out_ep) [
      | err e ↦ Run.ok task
      | ok midi ↦ read_device c.reads (record task { midi_messages = 0; midi_ready = true })
    ]
  ]

  unfoldable pub on_connect : Connection → Task → Run Task
  on_connect c task =
      let task' = record task { attempt = 0 } in
      if c.class == 9 then Run.ok task' else elim c.configuration [
        | err e ↦ Run.ok task'
        | ok identifier ↦ elim (identify identifier) [
          | none ↦ Run.ok task'
          | some config_value ↦ elim identifier.ep_in [
            | none ↦ Run.ok task'
            | some in_ep ↦ start_midi c config_value in_ep identifier.ep_out task'
          ]
        ]
      ]

  -- The task after an event, and whether the port is reset for another attempt.
  unfoldable pub on_event : DeviceEvent → Task → Run (Bool × Task)
  on_event (connect c) task = do task ← on_connect c task; Run.ok (false, task)
  on_event disconnect task = Run.ok (false, record task { midi_ready = false; attempt = 0 })
  on_event enumeration_error task =
      if ltb (task.attempt + 1) enum_attempts
      then Run.ok (true, record task { attempt = task.attempt + 1 })
      else Run.ok (false, task)
  on_event hub_connect task = Run.ok (false, task)
  on_event no_event task = Run.ok (false, task)

  -- The events up to the end of the stream, with the number of new attempts.
  unfoldable pub on_events : List DeviceEvent → (resets : ℕ) → Task → Run (ℕ × Task)
  on_events [] resets task = Run.ok (resets, task)
  on_events (event ∷ events) resets task = do
    (again, task) ← on_event event task
    on_events events (if again then resets + 1 else resets) task
