-- ===== src/Midi/Write/Laws.antt =====
-- What `write_packets` sends, and that its loop ends.
use imxrt_usbh.Base.{
  ℕ, zero, suc, ◌+◌, ◌*◌, ◌<◌, ◌≤◌, ◌≡◌, refl, sym, ap, ap₂, ◌∙◌, true, Option, none, some, List,
  [], ◌∷◌, ◌++◌, length, take, drop, length-take, take-add, length-drop, ltb, Bool-cases,
  Option-cases, arith, inl, inr, ◌⊎◌,
}
use mathlib.Core.List.{append_assoc, append-nil}
use imxrt_usbh.Host.Error.{UsbError, ok, err}
use imxrt_usbh.Host.Error.Laws.{Outcome-cases}
use imxrt_usbh.Midi.Driver.{Bus, Midi, fixed_size}
use imxrt_usbh.Midi.Packet.{UsbMidiEventPacket, pack}
use imxrt_usbh.Midi.Packet.Laws.{bytes_of, bytes_of-append, pack_lem}
use imxrt_usbh.Midi.Write.{Written, write_loop, write_packets}

-- The bytes of all transfers in a row.
abbrev pub wire : List (List ℕ) → List ℕ
wire [] = []
wire (t ∷ ts) = t ++ wire ts

-- Every transfer is of one whole packet at least and fits in the buffer.
abbrev pub AllFit : (room : ℕ) → List (List ℕ) → Type 0
AllFit room [] = Unit
AllFit room (t ∷ ts) = ((n : ℕ) × (length t ≡ n * 4) × (1 ≤ n)) × (length t ≤ room) × AllFit room ts

wire-append : (ts us : List (List ℕ)) → wire (ts ++ us) ≡ wire ts ++ wire us
wire-append [] us = refl
wire-append (t ∷ ts) us =
    ap (λ rest. t ++ rest) (wire-append ts us) ∙ sym (append_assoc t (wire ts) (wire us))

AllFit-append :
    (room : ℕ) (ts us : List (List ℕ)) → AllFit room ts → AllFit room us → AllFit room (ts ++ us)
AllFit-append room [] us h k = k
AllFit-append room (t ∷ ts) us (packets, fits, h) k = (packets, fits, AllFit-append room ts us h k)

-- The next transfer: at least one packet, within the buffer, and the bytes of the packets that follow
-- those sent.
next_transfer :
    (packets : List UsbMidiEventPacket) (sent : ℕ) (send_buf : List ℕ)
    → sent < length packets
    → 4 ≤ length send_buf
    → let (send_buf', count) = pack send_buf (drop sent packets) in
      (1 ≤ count)
      × (sent + count ≤ length packets)
      × (count * 4 ≤ length send_buf)
      × (length send_buf' ≡ length send_buf)
      × (take (count * 4) send_buf' ≡ bytes_of (take count (drop sent packets)))
      × (length (take (count * 4) send_buf') ≡ count * 4)
next_transfer packets sent send_buf more room =
    let (count_is, length_is, bytes_are, kept) = pack_lem send_buf (drop sent packets) in
    let left = length-drop sent packets in
    (
      omega (arith, count_is, left),
      omega (arith, count_is, left),
      omega (arith, count_is, left),
      length_is,
      bytes_are,
      omega (
        arith,
        count_is,
        length_is,
        length-take ((pack send_buf (drop sent packets)).1 * 4)
            (pack send_buf (drop sent packets)).0,
      ),
    )

module _ (bus : Bus) (bulk_out : bus.BulkOut) (packets : List UsbMidiEventPacket) (room : ℕ) where
  -- The transfers that were accepted carry the first `n` packets, in order; these are all of them if
  -- the call returns their number, and otherwise it returns the error of the transfer after them.
  abbrev pub IsSent : Written bus.State → Type 0
  IsSent w =
      (n : ℕ) × (n ≤ length packets)
      × (wire w.accepted ≡ bytes_of (take n packets))
      × AllFit room w.accepted
      × (((w.result ≡ ok (length packets)) × (n ≡ length packets))
          ⊎ ((e : UsbError) × (w.result ≡ err e)
              × (n < length packets)
              × (bytes : List ℕ) × (s : bus.State) × ((bus.bulk_out_transfer bulk_out bytes
                    fixed_size s).0
                  ≡ err e)))

  carry :
      (accepted : List (List ℕ)) (bytes : List ℕ) (sent count : ℕ)
      → wire accepted ≡ bytes_of (take sent packets)
      → bytes ≡ bytes_of (take count (drop sent packets))
      → wire (accepted ++ bytes ∷ []) ≡ bytes_of (take (sent + count) packets)
  carry accepted bytes sent count carried next =
      wire-append accepted (bytes ∷ [])
      ∙ ap₂ ◌++◌ carried (append-nil bytes ∙ next)
      ∙ sym (bytes_of-append (take sent packets) (take count (drop sent packets)))
      ∙ ap bytes_of (sym (take-add sent count packets))

  write_loop_next :
      (fuel sent : ℕ) (send_buf : List ℕ) (accepted : List (List ℕ)) (s : bus.State) {n : ℕ}
      → ltb sent (length packets) ≡ true
      → let (send_buf', count) = pack send_buf (drop sent packets) in
        let bytes = take (count * 4) send_buf' in
        let (outcome, s') = bus.bulk_out_transfer bulk_out bytes fixed_size s in
        outcome ≡ ok n
        → write_loop bus (suc fuel) bulk_out packets sent send_buf accepted s
          ≡ write_loop bus fuel bulk_out packets
              (sent + count)
              send_buf'
              (accepted ++ bytes ∷ [])
              s'
  unfolding write_loop
  write_loop_next fuel sent send_buf accepted s more accept = rw (more, accept, write_loop)

  write_loop-IsSent :
      (fuel sent : ℕ) (send_buf : List ℕ) (accepted : List (List ℕ)) (s : bus.State)
      → length packets ≤ sent + fuel
      → sent ≤ length packets
      → length send_buf ≡ room
      → 4 ≤ room
      → wire accepted ≡ bytes_of (take sent packets)
      → AllFit room accepted
      → (w : Written bus.State) × (write_loop bus fuel bulk_out packets sent send_buf accepted s
          ≡ some w)
        × IsSent w
  unfolding write_loop
  write_loop-IsSent zero sent send_buf accepted s fuel_is within room_is room_min carried fit = (
    record { result = ok sent; accepted = accepted; bus_state = s; send_buf = send_buf },
    ground arith,
    (sent, within, carried, fit, inl (ap (λ n. ok n) (omega arith), omega arith)),
  )
  write_loop-IsSent (suc fuel) sent send_buf accepted s fuel_is within room_is room_min carried
        fit =
      elim (Bool-cases (ltb sent (length packets))) [
        | inl more ↦
            let send_buf' : List ℕ = (pack send_buf (drop sent packets)).0 in
            let count : ℕ = (pack send_buf (drop sent packets)).1 in
            let bytes : List ℕ = take (count * 4) send_buf' in
            let s' : bus.State = (bus.bulk_out_transfer bulk_out bytes fixed_size s).1 in
            let next = next_transfer packets sent send_buf (ground arith) (omega arith) in
            elim (Outcome-cases (bus.bulk_out_transfer bulk_out bytes fixed_size s).0) [
              | inl (n, accept) ↦ rw (write_loop_next fuel sent send_buf accepted s more accept) (
                  write_loop-IsSent fuel (sent + count) send_buf' (accepted ++ bytes ∷ []) s'
                    (omega (arith, next.0)) next.1 (next.3 ∙ room_is) room_min
                    (carry accepted bytes sent count carried next.4)
                    (AllFit-append room accepted (bytes ∷ []) fit
                      ((count, next.5, next.0), omega (arith, next.2, next.5), tt)))
              | inr (e, fails) ↦
                  rw (more, fails, write_loop)
                    (
                      record {
                        result = err e;
                        accepted = accepted;
                        bus_state = s';
                        send_buf = send_buf';
                      },
                      refl,
                      (sent, within, carried, fit, inr (e, refl, ground arith, bytes, s, fails)),
                    )
            ]
        | inr done ↦
            rw (done, write_loop)
              (
                record {
                  result = ok sent;
                  accepted = accepted;
                  bus_state = s;
                  send_buf = send_buf;
                },
                refl,
                (sent, within, carried, fit, inl (ap (λ n. ok n) (ground arith), ground arith)),
              )
      ]

-- What a call comes to, by the endpoint and the size of the buffer.
abbrev pub IsWritten :
    (bus : Bus)
    → Option bus.BulkOut
    → (room : ℕ) → List UsbMidiEventPacket
    → Written bus.State
    → Type 0
IsWritten bus none room packets w = (w.result ≡ err UsbError.no_such_endpoint) × (w.accepted ≡ [])
IsWritten bus (some out) room packets w =
    (room < 4 → (w.result ≡ err UsbError.buffer_too_small) × (w.accepted ≡ []))
    × (4 ≤ room → IsSent bus out packets room w)

-- `write_packets`, with fuel for one round per packet, returns. Without a bulk OUT endpoint it is
-- `NoSuchEndpoint`, with a buffer of less than four bytes `BufferTooSmall`, both without a transfer.
-- Otherwise the transfers that the bus has accepted, each of at least one whole packet and within the
-- buffer, carry the first packets in order: all of them, and their number is returned; or, if the bus
-- has failed a transfer, fewer, and the bus's error is returned.
pub write_packets_lem :
    (bus : Bus) (self : Midi bus) (send_buf : List ℕ) (packets : List UsbMidiEventPacket)
    (s : bus.State)
    → (w : Written bus.State) × (write_packets bus (length packets) self send_buf packets s
        ≡ some w)
      × IsWritten bus self.bulk_out (length send_buf) packets w
unfolding write_packets
write_packets_lem bus self send_buf packets s = elim (Option-cases self.bulk_out) [
  | inl missing ↦
      rw (missing, write_packets)
        (
          record {
            result = err UsbError.no_such_endpoint;
            accepted = [];
            bus_state = s;
            send_buf = send_buf;
          },
          refl,
          (refl, refl),
        )
  | inr (out, has_out) ↦ elim (Bool-cases (ltb (length send_buf) 4)) [
    | inl small ↦
        rw (has_out, small, write_packets)
          (
            record {
              result = err UsbError.buffer_too_small;
              accepted = [];
              bus_state = s;
              send_buf = send_buf;
            },
            refl,
            (λ h. (refl, refl), λ h. absurd (ground arith)),
          )
    | inr large ↦
        let (w, returns, sent) =
          write_loop-IsSent bus out packets (length send_buf) (length packets) 0 send_buf [] s
            (omega arith) (omega arith) refl (ground arith) refl tt in
        rw (has_out, large, write_packets) (w, returns, (λ h. absurd (ground arith), λ h. sent))
  ]
]
