-- ===== src/Midi/Read/Laws.antt =====
-- What `read_packets` keeps of a transfer.
use mathlib.Core.List.{append_assoc}
use imxrt_usbh.Base.{
  ℕ, zero, suc, ◌+◌, ◌*◌, ◌/◌, ◌%◌, ◌<◌, ◌≤◌, min, ◌≡◌, refl, sym, ap, ap₂, ◌∙◌, Bool, true, false,
  not, ◌&&◌, some, List, [], ◌∷◌, ◌++◌, length, get_elem?, set, take, drop, length-append,
  length-drop, get_elem?-drop, drop-drop, ltb, if◌then◌else◌, Bool-cases, arith, inl, inr,
}
use imxrt_usbh.Host.Error.{Outcome, ok, err}
use imxrt_usbh.Host.Error.Laws.{Outcome-cases}
use imxrt_usbh.Midi.Driver.{Bus, Midi, variable_size}
use imxrt_usbh.Midi.Packet.{UsbMidiEventPacket, from_bytes, is_empty}
use imxrt_usbh.Midi.Packet.Laws.{packets_of}
use imxrt_usbh.Midi.Read.{Received, packet_at, read_loop, read_packets}

-- The packets that are not padding.
abbrev pub non_empty : List UsbMidiEventPacket → List UsbMidiEventPacket
non_empty [] = []
non_empty (p ∷ ps) = let rest = non_empty ps in if is_empty p then rest else p ∷ rest

-- The loop on packets that are already parsed.
abbrev store :
    List UsbMidiEventPacket
    → (packet_buf : List UsbMidiEventPacket) → (count : ℕ) → List UsbMidiEventPacket × ℕ
store [] packet_buf count = (packet_buf, count)
store (p ∷ ps) packet_buf count =
    let keep = not (is_empty p) && ltb count (length packet_buf) in
    store ps (if keep then set packet_buf count p else packet_buf)
      (if keep then count + 1 else count)

set-append :
    (front rest : List UsbMidiEventPacket) (y p : UsbMidiEventPacket)
    → set (front ++ y ∷ rest) (length front) p ≡ front ++ p ∷ rest
set-append [] rest y p = refl
set-append (x ∷ front) rest y p = ap (λ l. x ∷ l) (set-append front rest y p)

-- Packets written over the start of a buffer, as far as it reaches.
abbrev overlay : (events packet_buf : List UsbMidiEventPacket) → List UsbMidiEventPacket
overlay [] ys = ys
overlay (e ∷ es) [] = []
overlay (e ∷ es) (y ∷ ys) = e ∷ overlay es ys

overlay_lem :
    (es ys : List UsbMidiEventPacket)
    → let k = min (length ys) (length es) in overlay es ys ≡ take k es ++ drop k ys
overlay_lem [] ys = rw no_event refl
  where
    no_event : min (length ys) 0 ≡ 0
    no_event = omega arith
overlay_lem (e ∷ es) [] = rw no_room refl
  where
    no_room : min 0 (suc (length es)) ≡ 0
    no_room = omega arith
overlay_lem (e ∷ es) (y ∷ ys) = rw next (ap (λ rest. e ∷ rest) (overlay_lem es ys))
  where
    next : min (suc (length ys)) (suc (length es)) ≡ suc (min (length ys) (length es))
    next = omega arith

module _ (p : UsbMidiEventPacket) (ps : List UsbMidiEventPacket) where
  non_empty-padding : is_empty p ≡ true → non_empty (p ∷ ps) ≡ non_empty ps
  non_empty-padding h = ap (λ (b : Bool). if b then non_empty ps else p ∷ non_empty ps) h

  non_empty-event : is_empty p ≡ false → non_empty (p ∷ ps) ≡ p ∷ non_empty ps
  non_empty-event h = ap (λ (b : Bool). if b then non_empty ps else p ∷ non_empty ps) h

  module _ (packet_buf : List UsbMidiEventPacket) (count : ℕ) where
    store_skip :
        (not (is_empty p) && ltb count (length packet_buf)) ≡ false
        → store (p ∷ ps) packet_buf count ≡ store ps packet_buf count
    store_skip h =
        ap
          (λ (b : Bool).
            store ps (if b then set packet_buf count p else packet_buf)
              (if b then count + 1 else count))
          h

    store_keep :
        (not (is_empty p) && ltb count (length packet_buf)) ≡ true
        → store (p ∷ ps) packet_buf count ≡ store ps (set packet_buf count p) (count + 1)
    store_keep h =
        ap
          (λ (b : Bool).
            store ps (if b then set packet_buf count p else packet_buf)
              (if b then count + 1 else count))
          h

overlay-nil : (es : List UsbMidiEventPacket) → overlay es [] ≡ []
overlay-nil [] = refl
overlay-nil (e ∷ es) = refl

event_lem :
    (p : UsbMidiEventPacket) (ps front rest : List UsbMidiEventPacket)
    → is_empty p ≡ false
    → ((rest' : List UsbMidiEventPacket)
        → store ps (front ++ rest') (length front) ≡ (
          front ++ overlay (non_empty ps) rest',
          length front + min (length rest') (length (non_empty ps)),
        ))
    → ((rest' : List UsbMidiEventPacket)
        → store ps ((front ++ p ∷ []) ++ rest') (length (front ++ p ∷ [])) ≡ (
          (front ++ p ∷ []) ++ overlay (non_empty ps) rest',
          length (front ++ p ∷ []) + min (length rest') (length (non_empty ps)),
        ))
    → store (p ∷ ps) (front ++ rest) (length front) ≡ (
      front ++ overlay (non_empty (p ∷ ps)) rest,
      length front + min (length rest) (length (non_empty (p ∷ ps))),
    )
event_lem p ps front [] event same more =
    store_skip p ps (front ++ []) (length front) (ground (arith, length-append front []))
    ∙ same []
    ∙ ap₂ (λ l (n : ℕ). (front ++ l, n))
        (overlay-nil (non_empty ps) ∙ sym (overlay-nil (non_empty (p ∷ ps)))) (omega arith)
event_lem p ps front (y ∷ rest) event same more =
    store_keep p ps (front ++ y ∷ rest) (length front)
      (ground (arith, length-append front (y ∷ rest)))
    ∙ ap₂ (store ps) (set-append front rest y p ∙ sym (append_assoc front (p ∷ []) rest))
        (omega (arith, length-append front (p ∷ [])))
    ∙ more rest
    ∙ ap₂ (λ l (n : ℕ). (l, n))
        (append_assoc front (p ∷ []) (overlay (non_empty ps) rest)
          ∙ ap (λ es. front ++ overlay es (y ∷ rest)) (sym (non_empty-event p ps event)))
        (omega
          (arith, length-append front (p ∷ []), ap (λ es. length es) (non_empty-event p ps event)))

store_lem :
    (ps front rest : List UsbMidiEventPacket)
    → store ps (front ++ rest) (length front) ≡ (
      front ++ overlay (non_empty ps) rest,
      length front + min (length rest) (length (non_empty ps)),
    )
store_lem [] front rest = ap (λ (n : ℕ). (front ++ rest, n)) (omega arith)
store_lem (p ∷ ps) front rest = elim (Bool-cases (is_empty p)) [
  | inl padding ↦
      store_skip p ps (front ++ rest) (length front) (ground arith)
      ∙ store_lem ps front rest
      ∙ ap (λ es. (front ++ overlay es rest, length front + min (length rest) (length es)))
          (sym (non_empty-padding p ps padding))
  | inr event ↦
      event_lem p ps front rest event (λ rest'. store_lem ps front rest')
        (λ rest'. store_lem ps (front ++ p ∷ []) rest')
]

packet_of_four :
    (xs : List ℕ)
    → 4 ≤ length xs
    → (p : UsbMidiEventPacket) × (get_elem? xs 0 ≡ some p.data0)
      × (get_elem? xs 1 ≡ some p.data1)
      × (get_elem? xs 2 ≡ some p.data2)
      × (get_elem? xs 3 ≡ some p.data3)
      × (packets_of xs ≡ p ∷ packets_of (drop 4 xs))
packet_of_four [] h = absurd (omega arith)
packet_of_four (b0 ∷ []) h = absurd (omega arith)
packet_of_four (b0 ∷ b1 ∷ []) h = absurd (omega arith)
packet_of_four (b0 ∷ b1 ∷ b2 ∷ []) h = absurd (omega arith)
packet_of_four (b0 ∷ b1 ∷ b2 ∷ b3 ∷ xs) h =
    (record { data0 = b0; data1 = b1; data2 = b2; data3 = b3 }, refl, refl, refl, refl, refl)

-- Four bytes of the buffer are the next packet.
packet_at_lem :
    (i : ℕ) (recv_buf : List ℕ)
    → i * 4 + 4 ≤ length recv_buf
    → (p : UsbMidiEventPacket) × (packet_at recv_buf (i * 4) ≡ some p)
      × (packets_of (drop (i * 4) recv_buf) ≡ p ∷ packets_of (drop ((i + 1) * 4) recv_buf))
unfolding packet_at from_bytes
packet_at_lem i recv_buf h =
    let (p, at0, at1, at2, at3, parsed) =
      packet_of_four (drop (i * 4) recv_buf) (omega (arith, length-drop (i * 4) recv_buf)) in
    (
      p,
      rw
          (
            ap (get_elem? recv_buf) {x = i * 4} {y = i * 4 + 0} (omega arith)
                ∙ sym (get_elem?-drop (i * 4) 0 recv_buf)
                ∙ at0,
            sym (get_elem?-drop (i * 4) 1 recv_buf) ∙ at1,
            sym (get_elem?-drop (i * 4) 2 recv_buf) ∙ at2,
            sym (get_elem?-drop (i * 4) 3 recv_buf) ∙ at3,
          )
          refl,
      parsed
          ∙ ap (λ l. p ∷ packets_of l)
              (drop-drop 4 (i * 4) recv_buf ∙ ap (λ (n : ℕ). drop n recv_buf) (omega arith)),
    )

-- The loop reads the packets of the buffer one after the other.
read_loop_lem :
    (n i : ℕ) (recv_buf : List ℕ) (packet_buf : List UsbMidiEventPacket) (count : ℕ)
    → (i + n) * 4 ≤ length recv_buf
    → read_loop n i recv_buf packet_buf count
      ≡ some (store (take n (packets_of (drop (i * 4) recv_buf))) packet_buf count)
unfolding read_loop
read_loop_lem zero i recv_buf packet_buf count h = refl
read_loop_lem (suc n) i recv_buf packet_buf count h =
    let (p, read, parsed) = packet_at_lem i recv_buf (omega arith) in
    let keep : Bool = not (is_empty p) && ltb count (length packet_buf) in
    let rest =
      read_loop_lem n (i + 1) recv_buf (if keep then set packet_buf count p else packet_buf)
        (if keep then count + 1 else count) (omega arith) in
    rw (read, parsed) rest

few_bytes : (r : ℕ) (xs : List ℕ) → r < 4 → packets_of (take r xs) ≡ []
few_bytes zero xs h = refl
few_bytes (suc r) [] h = refl
few_bytes (suc zero) (b0 ∷ xs) h = refl
few_bytes (suc (suc r)) (b0 ∷ []) h = refl
few_bytes (suc (suc zero)) (b0 ∷ b1 ∷ xs) h = refl
few_bytes (suc (suc (suc r))) (b0 ∷ b1 ∷ []) h = refl
few_bytes (suc (suc (suc zero))) (b0 ∷ b1 ∷ b2 ∷ xs) h = refl
few_bytes (suc (suc (suc (suc r)))) (b0 ∷ b1 ∷ b2 ∷ xs) h = absurd (omega arith)

whole_packets :
    (m r : ℕ) (xs : List ℕ)
    → r < 4
    → m * 4 + r ≤ length xs
    → packets_of (take (m * 4 + r) xs) ≡ take m (packets_of xs)
whole_packets zero r xs h k =
    ap (λ (n : ℕ). packets_of (take n xs)) (omega arith) ∙ few_bytes r xs h
whole_packets (suc m) r [] h k = absurd (omega arith)
whole_packets (suc m) r (b0 ∷ []) h k = absurd (omega arith)
whole_packets (suc m) r (b0 ∷ b1 ∷ []) h k = absurd (omega arith)
whole_packets (suc m) r (b0 ∷ b1 ∷ b2 ∷ []) h k = absurd (omega arith)
whole_packets (suc m) r (b0 ∷ b1 ∷ b2 ∷ b3 ∷ xs) h k =
    ap (λ (n : ℕ). packets_of (take n (b0 ∷ b1 ∷ b2 ∷ b3 ∷ xs))) four
    ∙ ap (λ ps. first ∷ ps) (whole_packets m r xs h (omega arith))
  where
    first : UsbMidiEventPacket
    first = record { data0 = b0; data1 = b1; data2 = b2; data3 = b3 }

    four : suc m * 4 + r ≡ suc (suc (suc (suc (m * 4 + r))))
    four = omega arith

packets_of-take :
    (n : ℕ) (xs : List ℕ) → n ≤ length xs → take (n / 4) (packets_of xs) ≡ packets_of (take n xs)
packets_of-take n xs h =
    sym (whole_packets (n / 4) (n % 4) xs (omega arith) (omega arith))
    ∙ ap (λ (k : ℕ). packets_of (take k xs)) (omega arith)

read_all :
    (n : ℕ) (recv_buf : List ℕ) (packet_buf : List UsbMidiEventPacket)
    → n ≤ length recv_buf
    → let events = non_empty (packets_of (take n recv_buf)) in
      let k = min (length packet_buf) (length events) in
      read_loop (n / 4) 0 recv_buf packet_buf 0 ≡ some (take k events ++ drop k packet_buf, k)
read_all n recv_buf packet_buf h =
    read_loop_lem (n / 4) 0 recv_buf packet_buf 0 (omega arith)
    ∙ ap (λ ps. some (store ps packet_buf 0)) (packets_of-take n recv_buf h)
    ∙ ap (λ p. some p) (store_lem ps [] packet_buf)
    ∙ ap₂ (λ l (k : ℕ). some (l, k)) (overlay_lem (non_empty ps) packet_buf) (omega arith)
  where
    ps : List UsbMidiEventPacket
    ps = packets_of (take n recv_buf)

-- What is made of the outcome of the transfer: an error is passed on and the packet buffer kept, and
-- of `n` bytes the packets that are not padding are stored.
abbrev pub IsReceived :
    {State : Type 0}
    → Outcome ℕ
    → (recv_buf : List ℕ) → (packet_buf : List UsbMidiEventPacket) → Received State
    → Type 0
IsReceived (err e) recv_buf packet_buf w = (w.result ≡ err e) × (w.packet_buf ≡ packet_buf)
IsReceived (ok n) recv_buf packet_buf w =
    let events = non_empty (packets_of (take n recv_buf)) in
    let k = min (length packet_buf) (length events) in
    (w.result ≡ ok k) × (w.packet_buf ≡ take k events ++ drop k packet_buf)

-- If the bus never reports more bytes than the buffer holds, `read_packets` returns. It passes an
-- error of the transfer on and keeps the packet buffer; otherwise it returns how many packets it has
-- stored, which are the first that are not padding among the whole packets of the bytes received, as
-- many as the packet buffer has room for, and the rest of that buffer is kept.
pub read_packets_lem :
    (bus : Bus) (self : Midi bus) (recv_buf : List ℕ) (packet_buf : List UsbMidiEventPacket)
    (s : bus.State)
    → let (outcome, recv_buf', s') = bus.bulk_in_transfer self.bulk_in recv_buf variable_size s in
      ((n : ℕ) → outcome ≡ ok n → n ≤ length recv_buf')
      → (w : Received bus.State) × (read_packets bus self recv_buf packet_buf s ≡ some w)
        × IsReceived outcome recv_buf' packet_buf w
unfolding read_packets
read_packets_lem bus self recv_buf packet_buf s bounded =
    elim (Outcome-cases (bus.bulk_in_transfer self.bulk_in recv_buf variable_size s).0) [
      | inl (n, received) ↦
          let events : List UsbMidiEventPacket = non_empty (packets_of (take n recv_buf')) in
          let k : ℕ = min (length packet_buf) (length events) in
          rw (received, read_packets, read_all n recv_buf' packet_buf (bounded n received))
            (
              record {
                result = ok k;
                packet_buf = take k events ++ drop k packet_buf;
                recv_buf = recv_buf';
                bus_state = s';
              },
              refl,
              (refl, refl),
            )
      | inr (e, fails) ↦
          rw (fails, read_packets)
            (
              record {
                result = err e;
                packet_buf = packet_buf;
                recv_buf = recv_buf';
                bus_state = s';
              },
              refl,
              (refl, refl),
            )
    ]
  where
    recv_buf' : List ℕ
    recv_buf' = (bus.bulk_in_transfer self.bulk_in recv_buf variable_size s).1

    s' : bus.State
    s' = (bus.bulk_in_transfer self.bulk_in recv_buf variable_size s).2
