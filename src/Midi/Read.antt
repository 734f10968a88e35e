-- ===== src/Midi/Read.antt =====
-- midi.rs, `read_packets`.
pub mod Laws
use imxrt_usbh.Base.{
  ℕ, zero, suc, ◌+◌, ◌*◌, ◌/◌, Bool, not, ◌&&◌, Option, none, some, List, length, get_elem?, set,
  ltb, if◌then◌else◌,
}
use imxrt_usbh.Host.Error.{UsbError, Outcome, ok, err}
use imxrt_usbh.Midi.Driver.{Bus, Midi, TransferType, variable_size}
use imxrt_usbh.Midi.Packet.{UsbMidiEventPacket, from_bytes, is_empty}

-- What a call returns, and the two buffers and the bus afterwards.
pub record Received (State : Type 0) : Type 0 where
  pub result : Outcome ℕ
  pub packet_buf : List UsbMidiEventPacket
  pub recv_buf : List ℕ
  pub bus_state : State

infixl 5 ◌>>=◌
abbrev ◌>>=◌ {ℓ κ} : {A : Type ℓ} {B : Type κ} → Option A → (A → Option B) → Option B
none >>= f = none
some a >>= f = f a

-- The packet at `offset`; `none` is the panic of an index out of bounds.
unfoldable pub packet_at : (recv_buf : List ℕ) (offset : ℕ) → Option UsbMidiEventPacket
packet_at recv_buf offset = do
  b0 ← get_elem? recv_buf offset
  b1 ← get_elem? recv_buf (offset + 1)
  b2 ← get_elem? recv_buf (offset + 2)
  b3 ← get_elem? recv_buf (offset + 3)
  some (from_bytes b0 b1 b2 b3)

-- The loop from `i` on, with `n` packets to go: the packet buffer and `count`.
unfoldable pub read_loop :
    (n i : ℕ) (recv_buf : List ℕ) (packet_buf : List UsbMidiEventPacket) (count : ℕ)
    → Option (List UsbMidiEventPacket × ℕ)
read_loop zero i recv_buf packet_buf count = some (packet_buf, count)
read_loop (suc n) i recv_buf packet_buf count = do
  pkt ← packet_at recv_buf (i * 4)
  let keep = not (is_empty pkt) && ltb count (length packet_buf)
  let packet_buf' = if keep then set packet_buf count pkt else packet_buf
  let count' = if keep then count + 1 else count
  read_loop n (i + 1) recv_buf packet_buf' count'

module _ (bus : Bus) where
  unfoldable pub read_packets :
      (self : Midi bus) (recv_buf : List ℕ) (packet_buf : List UsbMidiEventPacket) (s : bus.State)
      → Option (Received bus.State)
  read_packets self recv_buf packet_buf s =
      let (outcome, recv_buf', s') = bus.bulk_in_transfer self.bulk_in recv_buf variable_size s in
      elim outcome [
        | err e ↦ some (record {
          result = err e;
          packet_buf = packet_buf;
          recv_buf = recv_buf';
          bus_state = s';
        })
        | ok bytes_read ↦ do
          (packet_buf', count) ← read_loop (bytes_read / 4) 0 recv_buf' packet_buf 0
          some (record {
            result = ok count;
            packet_buf = packet_buf';
            recv_buf = recv_buf';
            bus_state = s';
          })
      ]
