-- ===== src/Keyboard/Tests.antt =====
-- The MIDI task on a keyboard that is enumerated at the second attempt, played and unplugged.
use imxrt_usbh.Base.{
  ℕ, ◌+◌, ◌*◌, ◌≤◌, ◌≡◌, refl, false, true, some, none, List, [], ◌∷◌, length, arith,
}
use imxrt_usbh.Host.Error.{ok, err, timeout}
use imxrt_usbh.Host.Run as Run
use imxrt_usbh.Keyboard.{
  Task, Connection, DeviceEvent, connect, disconnect, enumeration_error, hub_connect, no_event,
  show_packets, on_events,
}
use imxrt_usbh.Keyboard.Events.{Waits, EndsAs, AllLeave, on_events-Waits, all_clears}
use imxrt_usbh.Keyboard.Packets.{last_note, show_packets_lem}
use imxrt_usbh.Midi.Driver.{Bus}
use imxrt_usbh.Midi.Packet.{UsbMidiEventPacket}

abbrev bus : Bus
bus = record {
  BulkIn = ℕ;
  BulkOut = ℕ;
  State = ℕ;
  Device = Unit;
  open_in_endpoint = λ device number. (ok number, device);
  open_out_endpoint = λ device number. (ok number, device);
  bulk_in_transfer = λ pipe buf kind s. (ok 0, buf, s);
  bulk_out_transfer = λ pipe bytes kind s. (ok (length bytes), s);
}

-- Note on, a program change, and a note on of velocity 0.
abbrev packets : List UsbMidiEventPacket
packets =
    record { data0 = 0x09; data1 = 0x90; data2 = 60; data3 = 100 }
    ∷ record { data0 = 0x0c; data1 = 0xc0; data2 = 5; data3 = 0 }
    ∷ record { data0 = 0x09; data1 = 0x90; data2 = 60; data3 = 0 }
    ∷ []

show_packets_lem_example : show_packets packets true ≡ Run.ok (last_note packets true)
show_packets_lem_example = show_packets_lem packets true

abbrev keyboard : Connection bus
keyboard = record {
  class = 0;
  configuration = ok (record {
    current_configuration = some 1;
    midi_configuration = some 1;
    midi_interface = true;
    ep_in = some 1;
    ep_out = none;
  });
  configure = λ value. ok tt;
  reads = ok packets ∷ ok [] ∷ err timeout ∷ [];
}

abbrev events : List (DeviceEvent bus)
events = no_event ∷ enumeration_error ∷ connect keyboard ∷ disconnect ∷ hub_connect ∷ []

abbrev task : Task
task = record { attempt = 0; midi_ready = false; midi_messages = 0; led = false }

on_events-Waits_example :
    EndsAs
      (AllLeave events)
      (λ (resets', task').
        Waits task' × (resets' + task.attempt ≤ 0 + task'.attempt + 4 * all_clears events))
      (on_events bus events 0 task)
on_events-Waits_example =
    on_events-Waits events 0 task (record { not_ready = refl; attempt-lt = ground arith })
