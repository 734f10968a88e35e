-- ===== src/Keyboard/Packets.antt =====
-- The packets of a keyboard: no index is out of bounds, and the LED follows the notes.
use imxrt_usbh.Base.{
  ℕ, ◌≡◌, refl, inl, inr, Bool-cases, Bool, true, false, Option, none, some, List, [], ◌∷◌, ltb,
  ◌==◌, ◌&&◌, ==_false, if◌then◌else◌, arith,
}
use native.Mathlib.Decide.{ℕ_discrete}
use imxrt_usbh.Host.Run.{ok}
use imxrt_usbh.Keyboard.{read_two, read_three, log_midi_packet, set_led, show_packets}
use imxrt_usbh.Midi.Packet.{
  UsbMidiEventPacket, code_index_number, midi_bytes, midi_data_len, as_bytes,
}

-- What a packet says of the notes: one is on, one is off, or nothing.
abbrev pub note : UsbMidiEventPacket → Option Bool
note pkt =
    if code_index_number pkt == 0x09
    then some (ltb 0 pkt.data3)
    else if code_index_number pkt == 0x08
    then some false
    else none

-- The last packet that says something decides.
abbrev pub last_note : List UsbMidiEventPacket → (led : Bool) → Bool
last_note [] led = led
last_note (pkt ∷ packets) led =
    last_note packets (elim (note pkt) [ none ↦ led | some is_on ↦ is_on ])

log_midi_packet_lem :
    (pkt : UsbMidiEventPacket)
    → log_midi_packet pkt ≡ ok (code_index_number pkt == 0x09 && ltb 0 pkt.data3)
unfolding log_midi_packet read_two read_three midi_bytes midi_data_len as_bytes
log_midi_packet_lem pkt = elim (ℕ_discrete (code_index_number pkt) 0x09) [
  | yes e ↦ rw e refl
  | no ne0 ↦ elim (ℕ_discrete (code_index_number pkt) 0x08) [
    | yes e ↦ rw e refl
    | no ne1 ↦ elim (ℕ_discrete (code_index_number pkt) 0x0b) [
      | yes e ↦ rw e refl
      | no ne2 ↦ elim (ℕ_discrete (code_index_number pkt) 0x0e) [
        | yes e ↦ rw e refl
        | no ne3 ↦ elim (ℕ_discrete (code_index_number pkt) 0x0c) [
          | yes e ↦ rw e refl
          | no ne4 ↦ elim (ℕ_discrete (code_index_number pkt) 0x0d) [
            | yes e ↦ rw e refl
            | no ne5 ↦ elim (ℕ_discrete (code_index_number pkt) 0x0a) [
              | yes e ↦ rw e refl
              | no ne6 ↦
                  rw
                    (
                      ==_false (code_index_number pkt) 0x09 ne0,
                      ==_false (code_index_number pkt) 0x08 ne1,
                      ==_false (code_index_number pkt) 0x0b ne2,
                      ==_false (code_index_number pkt) 0x0e ne3,
                      ==_false (code_index_number pkt) 0x0c ne4,
                      ==_false (code_index_number pkt) 0x0d ne5,
                      ==_false (code_index_number pkt) 0x0a ne6,
                    )
                    refl
            ]
          ]
        ]
      ]
    ]
  ]
]

zero-of_not_lt : (n : ℕ) → ltb 0 n ≡ false → (n == 0) ≡ true
zero-of_not_lt n h = ground arith

set_led_lem :
    (pkt : UsbMidiEventPacket) (led : Bool)
    → set_led pkt (code_index_number pkt == 0x09 && ltb 0 pkt.data3) led
      ≡ ok (elim (note pkt) [ none ↦ led | some is_on ↦ is_on ])
unfolding set_led midi_bytes midi_data_len as_bytes
set_led_lem pkt led = elim (ℕ_discrete (code_index_number pkt) 0x09) [
  | yes e ↦ elim (Bool-cases (ltb 0 pkt.data3)) [
    | inl loud ↦ rw (e, loud) refl
    | inr silent ↦ rw (e, silent, zero-of_not_lt pkt.data3 silent) refl
  ]
  | no ne ↦ elim (ℕ_discrete (code_index_number pkt) 0x08) [
    | yes e ↦ rw e refl
    | no ne' ↦
        rw (==_false (code_index_number pkt) 0x09 ne, ==_false (code_index_number pkt) 0x08 ne')
          refl
  ]
]

-- The packets of a read, whatever bytes they hold, are shown without a panic: each byte that is looked
-- at is one of the MIDI bytes of the packet. Afterwards the LED is on if the last Note On or Note Off
-- among them is a Note On with a velocity above 0, off if it is another, and as before if there is none.
pub show_packets_lem :
    (packets : List UsbMidiEventPacket) (led : Bool)
    → show_packets packets led ≡ ok (last_note packets led)
unfolding show_packets
show_packets_lem [] led = refl
show_packets_lem (pkt ∷ packets) led =
    rw (log_midi_packet_lem pkt, set_led_lem pkt led)
      (show_packets_lem packets (elim (note pkt) [ none ↦ led | some is_on ↦ is_on ]))
