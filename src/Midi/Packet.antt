-- ===== src/Midi/Packet.antt =====
-- midi.rs: USB-MIDI event packets, and packing them into a buffer.
pub mod Laws
use imxrt_usbh.Base.{
  ℕ, ◌/◌, min, Bool, ◌&&◌, List, [], ◌∷◌, ◌++◌, length, take, drop, bit_and, ◌==◌, if◌then◌else◌,
}
use imxrt_usbh.Ehci.Token.{shr}

-- The four bytes of `data`.
pub record UsbMidiEventPacket : Type 0 where
  pub data0 : ℕ
  pub data1 : ℕ
  pub data2 : ℕ
  pub data3 : ℕ

unfoldable pub from_bytes : ℕ → ℕ → ℕ → ℕ → UsbMidiEventPacket
from_bytes b0 b1 b2 b3 = record { data0 = b0; data1 = b1; data2 = b2; data3 = b3 }

unfoldable pub as_bytes : UsbMidiEventPacket → List ℕ
as_bytes p = p.data0 ∷ p.data1 ∷ p.data2 ∷ p.data3 ∷ []

unfoldable pub cable_number : UsbMidiEventPacket → ℕ
cable_number p = shr p.data0 4

unfoldable pub code_index_number : UsbMidiEventPacket → ℕ
code_index_number p = bit_and p.data0 0x0f

-- The table by the code index number.
abbrev pub data_len_of : (code : ℕ) → ℕ
data_len_of code =
    if code == 0x02
    then 2
    else if code == 0x03
    then 3
    else if code == 0x04
    then 3
    else if code == 0x05
    then 1
    else if code == 0x06
    then 2
    else if code == 0x07
    then 3
    else if code == 0x08
    then 3
    else if code == 0x09
    then 3
    else if code == 0x0a
    then 3
    else if code == 0x0b
    then 3
    else if code == 0x0c
    then 2
    else if code == 0x0d
    then 2
    else if code == 0x0e
    then 3
    else 1

unfoldable pub midi_data_len : UsbMidiEventPacket → ℕ
midi_data_len p = data_len_of (code_index_number p)

unfoldable pub midi_bytes : UsbMidiEventPacket → List ℕ
midi_bytes p = take (midi_data_len p) (drop 1 (as_bytes p))

unfoldable pub is_empty : UsbMidiEventPacket → Bool
is_empty p = p.data0 == 0 && p.data1 == 0 && p.data2 == 0 && p.data3 == 0

-- The loop of `pack` over the buffer's chunks of four bytes and the packets.
unfoldable pub copy_chunks : (buf : List ℕ) (packets : List UsbMidiEventPacket) → List ℕ
copy_chunks buf [] = buf
copy_chunks (b0 ∷ b1 ∷ b2 ∷ b3 ∷ buf) (p ∷ packets) = as_bytes p ++ copy_chunks buf packets
copy_chunks buf (p ∷ packets) = buf

-- The buffer after `pack`, and what it returns.
unfoldable pub pack : (buf : List ℕ) → List UsbMidiEventPacket → List ℕ × ℕ
pack buf packets =
    let count = min (length packets) (length buf / 4) in
    (copy_chunks buf (take count packets), count)
