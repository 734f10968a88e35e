-- ===== src/Midi/Write.antt =====
-- midi.rs, `write_packets`.
pub mod Laws
use imxrt_usbh.Base.{
  ℕ, zero, suc, ◌+◌, ◌*◌, Bool, true, false, Option, none, some, List, [], ◌∷◌, ◌++◌, length, take,
  drop, ltb, if◌then◌else◌,
}
use imxrt_usbh.Host.Error.{UsbError, Outcome, ok, err}
use imxrt_usbh.Midi.Driver.{Bus, Midi, TransferType, fixed_size}
use imxrt_usbh.Midi.Packet.{UsbMidiEventPacket, pack}

-- What a call returns, the data of the transfers that the bus has accepted, in order, and the state
-- of the bus and of the buffer afterwards.
pub record Written (State : Type 0) : Type 0 where
  pub result : Outcome ℕ
  pub accepted : List (List ℕ)
  pub bus_state : State
  pub send_buf : List ℕ

module _ (bus : Bus) where
  -- The loop from `sent` on; `none` if it has used up its fuel.
  unfoldable pub write_loop :
      (fuel : ℕ) (bulk_out : bus.BulkOut) (packets : List UsbMidiEventPacket) (sent : ℕ)
      (send_buf : List ℕ) (accepted : List (List ℕ)) (s : bus.State)
      → Option (Written bus.State)
  write_loop zero bulk_out packets sent send_buf accepted s =
      if ltb sent (length packets)
      then none
      else some
          (record { result = ok sent; accepted = accepted; bus_state = s; send_buf = send_buf })
  write_loop (suc fuel) bulk_out packets sent send_buf accepted s =
      elim (ltb sent (length packets)) [
        | true ↦
            let (send_buf', count) = pack send_buf (drop sent packets) in
            let bytes = take (count * 4) send_buf' in
            let (outcome, s') = bus.bulk_out_transfer bulk_out bytes fixed_size s in
            elim outcome [
              | err e ↦ some (record {
                result = err e;
                accepted = accepted;
                bus_state = s';
                send_buf = send_buf';
              })
              | ok n ↦
                  write_loop fuel bulk_out packets (sent + count) send_buf' (accepted ++ bytes ∷ [])
                    s'
            ]
        | false ↦
            some
              (record { result = ok sent; accepted = accepted; bus_state = s; send_buf = send_buf })
      ]

  unfoldable pub write_packets :
      (fuel : ℕ) (self : Midi bus) (send_buf : List ℕ) (packets : List UsbMidiEventPacket)
      (s : bus.State)
      → Option (Written bus.State)
  write_packets fuel self send_buf packets s = elim self.bulk_out [
    | none ↦ some (record {
      result = err UsbError.no_such_endpoint;
      accepted = [];
      bus_state = s;
      send_buf = send_buf;
    })
    | some bulk_out ↦
        if ltb (length send_buf) 4
        then some (record {
          result = err UsbError.buffer_too_small;
          accepted = [];
          bus_state = s;
          send_buf = send_buf;
        })
        else write_loop fuel bulk_out packets 0 send_buf [] s
  ]
