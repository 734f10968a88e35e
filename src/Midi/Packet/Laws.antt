-- ===== src/Midi/Packet/Laws.antt =====
-- Packets as bytes: the data of a packet, and what `pack` leaves in the buffer.
use imxrt_usbh.Base.{
  ℕ, suc, ◌+◌, ◌*◌, ◌/◌, ◌<◌, ◌≤◌, min, ◌≡◌, refl, ap, ◌∙◌, List, [], ◌∷◌, ◌++◌, length, take, drop,
  length-take, length-append, length-drop, take-append_left, drop-append_left, bit_and, arith,
}
use imxrt_usbh.Base.Fields.{bit_and_low}
use imxrt_usbh.Midi.Packet.{
  UsbMidiEventPacket, as_bytes, cable_number, code_index_number, data_len_of, midi_data_len,
  midi_bytes, copy_chunks, pack,
}

-- The bytes of packets in a row.
abbrev pub bytes_of : List UsbMidiEventPacket → List ℕ
bytes_of [] = []
bytes_of (p ∷ ps) = p.data0 ∷ p.data1 ∷ p.data2 ∷ p.data3 ∷ bytes_of ps

-- The whole packets that bytes hold.
abbrev pub packets_of : List ℕ → List UsbMidiEventPacket
packets_of (b0 ∷ b1 ∷ b2 ∷ b3 ∷ bytes) =
    record { data0 = b0; data1 = b1; data2 = b2; data3 = b3 } ∷ packets_of bytes
packets_of _ = []

pub packets_of-bytes_of : (ps : List UsbMidiEventPacket) → packets_of (bytes_of ps) ≡ ps
packets_of-bytes_of [] = refl
packets_of-bytes_of (p ∷ ps) = ap (λ rest. p ∷ rest) (packets_of-bytes_of ps)

pub length-bytes_of : (ps : List UsbMidiEventPacket) → length (bytes_of ps) ≡ length ps * 4
length-bytes_of [] = refl
length-bytes_of (p ∷ ps) = omega (arith, length-bytes_of ps)

pub bytes_of-append :
    (ps qs : List UsbMidiEventPacket) → bytes_of (ps ++ qs) ≡ bytes_of ps ++ bytes_of qs
bytes_of-append [] qs = refl
bytes_of-append (p ∷ ps) qs =
    ap (λ rest. p.data0 ∷ p.data1 ∷ p.data2 ∷ p.data3 ∷ rest) (bytes_of-append ps qs)

data_len_range : (code : ℕ) → (1 ≤ data_len_of code) × (data_len_of code ≤ 3)
data_len_range code = (ground arith, ground arith)

-- The first byte of a packet is its cable number and its code index number, and the MIDI bytes are
-- one to three, as many as `midi_data_len` says, so that the slice never leaves the packet.
pub midi_bytes_lem :
    (p : UsbMidiEventPacket)
    → (p.data0 ≡ cable_number p * 16 + code_index_number p)
      × (code_index_number p < 16)
      × (1 ≤ midi_data_len p)
      × (midi_data_len p ≤ 3)
      × (length (midi_bytes p) ≡ midi_data_len p)
unfolding cable_number code_index_number midi_data_len midi_bytes as_bytes
midi_bytes_lem p = (
  omega (arith, bit_and_low 4 p.data0),
  omega (arith, bit_and_low 4 p.data0),
  (data_len_range (bit_and p.data0 0x0f)).0,
  (data_len_range (bit_and p.data0 0x0f)).1,
  omega (
    arith,
    length-take (data_len_of (bit_and p.data0 0x0f)) (p.data1 ∷ p.data2 ∷ p.data3 ∷ []),
    (data_len_range (bit_and p.data0 0x0f)).1,
  ),
)

-- What the loop of `pack` leaves, for as many packets as the buffer holds.
copy_chunks_lem :
    (buf : List ℕ) (ps : List UsbMidiEventPacket)
    → length ps * 4 ≤ length buf
    → copy_chunks buf ps ≡ bytes_of ps ++ drop (length ps * 4) buf
unfolding copy_chunks as_bytes
copy_chunks_lem buf [] h = refl
copy_chunks_lem [] (p ∷ ps) h = absurd (omega arith)
copy_chunks_lem (b0 ∷ []) (p ∷ ps) h = absurd (omega arith)
copy_chunks_lem (b0 ∷ b1 ∷ []) (p ∷ ps) h = absurd (omega arith)
copy_chunks_lem (b0 ∷ b1 ∷ b2 ∷ []) (p ∷ ps) h = absurd (omega arith)
copy_chunks_lem (b0 ∷ b1 ∷ b2 ∷ b3 ∷ buf) (p ∷ ps) h = rw four (
    ap (λ rest. p.data0 ∷ p.data1 ∷ p.data2 ∷ p.data3 ∷ rest)
      (copy_chunks_lem buf ps (omega arith)))
  where
    four : suc (length ps) * 4 ≡ suc (suc (suc (suc (length ps * 4))))
    four = omega arith

-- `pack` copies as many packets as there are or as the buffer holds whole, in order and from the
-- start of the buffer, and leaves the bytes behind them alone.
pub pack_lem :
    (buf : List ℕ) (packets : List UsbMidiEventPacket)
    → let (buf', count) = pack buf packets in
      (count ≡ min (length packets) (length buf / 4))
      × (length buf' ≡ length buf)
      × (take (count * 4) buf' ≡ bytes_of (take count packets))
      × (drop (count * 4) buf' ≡ drop (count * 4) buf)
unfolding pack
pack_lem buf packets = (
  refl,
  ap (λ l. length l) copied
      ∙ omega (
        arith,
        length-append (bytes_of ps) (drop (length ps * 4) buf),
        length-drop (length ps * 4) buf,
        whole,
        room,
        length-bytes_of ps,
      ),
  ap (take (count * 4)) copied
      ∙ take-append_left (bytes_of ps) (drop (length ps * 4) buf) (count * 4) bytes,
  ap (drop (count * 4)) copied
      ∙ drop-append_left (bytes_of ps) (drop (length ps * 4) buf) (count * 4) bytes
      ∙ ap (λ (n : ℕ). drop (n * 4) buf) whole,
)
  where
    count : ℕ
    count = min (length packets) (length buf / 4)

    ps : List UsbMidiEventPacket
    ps = take count packets

    whole : length ps ≡ count
    whole = omega (arith, length-take count packets)

    room : length ps * 4 ≤ length buf
    room = omega (arith, whole)

    bytes : count * 4 ≡ length (bytes_of ps)
    bytes = omega (arith, whole, length-bytes_of ps)

    copied : copy_chunks buf ps ≡ bytes_of ps ++ drop (length ps * 4) buf
    copied = copy_chunks_lem buf ps room
