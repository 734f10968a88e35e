-- ===== src/Midi/Tests.antt =====
-- The MIDI driver on a concrete bus and concrete packets.
use imxrt_usbh.Base.{ℕ, ◌+◌, ◌≡◌, some, List, [], ◌∷◌, length, drop, arith, replicate}
use imxrt_usbh.Base.Bits.{bit}
use imxrt_usbh.Host.Error.{ok}
use imxrt_usbh.Midi.Driver.{Bus, Midi}
use imxrt_usbh.Midi.Identify.{
  default, Descriptor, configuration, interface, endpoint, visit, identify,
}
use imxrt_usbh.Midi.Identify.Laws.{identify-visit}
use imxrt_usbh.Midi.Packet.{UsbMidiEventPacket, is_empty}
use imxrt_usbh.Midi.Read.{Received, read_packets}
use imxrt_usbh.Midi.Read.Laws.{read_packets_lem}
use imxrt_usbh.Midi.Write.{Written, write_packets}
use imxrt_usbh.Midi.Write.Laws.{IsWritten, write_packets_lem}

-- A bus that accepts every transfer out and delivers eight bytes for a transfer in.
abbrev bus : Bus
bus = record {
  BulkIn = ℕ;
  BulkOut = ℕ;
  State = ℕ;
  Device = Unit;
  open_in_endpoint = λ device number. (ok number, device);
  open_out_endpoint = λ device number. (ok number, device);
  bulk_in_transfer =
      λ pipe buf kind s. (ok 8, 0x09 ∷ 0x90 ∷ 60 ∷ 100 ∷ 0 ∷ 0 ∷ 0 ∷ 0 ∷ drop 8 buf, s + 1);
  bulk_out_transfer = λ pipe bytes kind s. (ok (length bytes), s + 1);
}

abbrev midi : Midi bus
midi = record { bulk_in = 1; bulk_out = some 2 }

abbrev note_on : ℕ → UsbMidiEventPacket
note_on note = record { data0 = 0x09; data1 = 0x90; data2 = note; data3 = 127 }

abbrev notes : List UsbMidiEventPacket
notes = note_on 1 ∷ note_on 2 ∷ note_on 3 ∷ []

write_packets_lem_example :
    (w : Written ℕ) × (write_packets bus 3 midi (replicate 8 0) notes 0 ≡ some w)
    × IsWritten bus (some 2) 8 notes w
write_packets_lem_example = write_packets_lem bus midi (replicate 8 0) notes 0

read_packets_lem_example :
    (w : Received ℕ) × (read_packets bus midi (replicate 8 0) (note_on 0 ∷ []) 0 ≡ some w)
    × ((w.result ≡ ok 1)
        × (w.packet_buf ≡ record { data0 = 0x09; data1 = 0x90; data2 = 60; data3 = 100 } ∷ []))
unfolding is_empty
read_packets_lem_example =
    read_packets_lem bus midi (replicate 8 0) (note_on 0 ∷ []) 0 (λ n h. ground arith)

-- An audio control interface, then a MIDI streaming interface with both bulk endpoints.
abbrev keyboard : List Descriptor
keyboard = configuration 1 ∷ interface 1 1 ∷ interface 1 3 ∷ endpoint 0x02 2 ∷ endpoint 0x81 2 ∷ []

identify-visit_example :
    let found = visit keyboard default in
    (found.ep_in ≡ some 1) × (found.ep_out ≡ some 2) × (identify found ≡ some 1)
unfolding bit
identify-visit_example = identify-visit keyboard
