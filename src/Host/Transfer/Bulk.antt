-- ===== src/Host/Transfer/Bulk.antt =====
-- transfer.rs, `do_bulk_transfer`: from the setup of the queue head and of the qTD chain to the byte
-- count.
use imxrt_usbh.Base.{
  ℕ, ◌+◌, ◌-◌, ◌%◌, ◌^◌, Bool, true, false, not, ◌&&◌, Option, none, some, bit_and, get_or, ltb,
  ◌==◌, ◌!=◌, if◌then◌else◌,
}
use imxrt_usbh.Ehci.Token.{qtd_token, qtd_token_bytes_remaining}
use imxrt_usbh.Ehci.Td
use imxrt_usbh.Ehci.Td.{TransferDescriptor}
use imxrt_usbh.Ehci.Qh.{
  speed_full, speed_low, speed_high, qh_characteristics, qh_capabilities, init_endpoint, attach_qtd,
  set_overlay_toggle,
}
use imxrt_usbh.Host.Error.{UsbError, Outcome, ok, err}
use imxrt_usbh.Host.Futures.{TransferComplete}
use imxrt_usbh.Host.InterruptPipe.{Pipe, or_panic}
use imxrt_usbh.Host.Port.{port_speed}
use imxrt_usbh.Host.Regs.{Ral}
use imxrt_usbh.Host.Run.{Run, ◌>>=◌}
use imxrt_usbh.Host.Schedule.Qtd.{alloc_qtd, drop_slot}
use imxrt_usbh.Host.Statics.{UsbStatics, Layout, qh_ptr, qtd_ptr, load_qh}
use imxrt_usbh.Host.Transfer.{
  Controller, init_qtd, set_next, modify_qh, await_transfer, link_and_start_async,
  unlink_and_stop_async,
}
use imxrt_usbh.Midi.Driver.{TransferType, fixed_size, variable_size}

-- `match self.port_speed() { .. }`
unfoldable pub bulk_speed : Ral → (portsc1 : ℕ) → ℕ
bulk_speed r portsc1 =
    if port_speed r portsc1 == 0
    then speed_full
    else if port_speed r portsc1 == 1
    then speed_low
    else if port_speed r portsc1 == 2
    then speed_high
    else speed_full

-- The packet size that the endpoint gets: 512 at least at high speed.
unfoldable pub actual_packet_size : (speed packet_size : ℕ) → ℕ
actual_packet_size speed packet_size =
    if (speed == speed_high) && ltb packet_size 512 then 512 else packet_size

abbrev is_variable_size : TransferType → Bool
is_variable_size fixed_size = false
is_variable_size variable_size = true

-- Whether a zero-length packet ends the transfer. `packet_size` is the actual one.
unfoldable pub need_zlp : (is_in : Bool) → TransferType → (data_len packet_size : ℕ) → Bool
need_zlp is_in transfer_type data_len packet_size =
    not is_in
    && is_variable_size transfer_type
    && ltb 0 data_len
    && ltb 0 packet_size
    && (data_len % packet_size == 0)

-- What a call is given, the state aside: `data` is the address of the buffer.
pub record BulkRequest : Type 0 where
  pub address : ℕ
  pub endpoint : ℕ
  pub packet_size : ℕ
  pub buffer : ℕ
  pub data_len : ℕ
  pub pid : ℕ
  pub is_in : Bool
  pub transfer_type : TransferType
  pub data_toggle : Bool

-- The slots of the qTDs of a transfer.
pub record Slots : Type 0 where
  pub data_slot : ℕ
  pub zlp_slot : Option ℕ

module _ {Pool : Type 0} where
  -- `self.alloc_qtd()` for the data, and for the zero-length packet if there is one; if the second
  -- fails, the drop of the first gives its slot back.
  unfoldable pub alloc_slots : (zlp : Bool) → UsbStatics Pool → Outcome Slots × UsbStatics Pool
  alloc_slots zlp s = elim (alloc_qtd s) [
    | none ↦ (err UsbError.all_pipes_in_use, s)
    | some (data_slot, s) ↦
        if zlp
        then elim (alloc_qtd s) [
          | none ↦ (err UsbError.all_pipes_in_use, drop_slot data_slot s)
          | some (zlp_slot, s) ↦
              (ok (record { data_slot = data_slot; zlp_slot = some zlp_slot }), s)
        ]
        else (ok (record { data_slot = data_slot; zlp_slot = none }), s)
  ]

  -- The drops at the end: the slot that was allocated last goes first.
  unfoldable pub drop_slots : Slots → UsbStatics Pool → UsbStatics Pool
  drop_slots slots s =
      drop_slot slots.data_slot
        (elim slots.zlp_slot [ none ↦ s | some zlp_slot ↦ drop_slot zlp_slot s ])

  -- The chain of the qTDs, of which the last one has IOC set.
  unfoldable pub write_chain :
      Layout → BulkRequest → (zlp : Bool) → Slots → UsbStatics Pool → Run (UsbStatics Pool)
  write_chain l req zlp slots s = do
    data_qtd ← or_panic (qtd_ptr l slots.data_slot)
    let data_token = qtd_token req.pid req.data_len false (not zlp)
    let s' = init_qtd slots.data_slot data_token req.buffer req.data_len s
    elim slots.zlp_slot [
      | none ↦ Run.ok s'
      | some zlp_slot ↦ do
        zlp_qtd ← or_panic (qtd_ptr l zlp_slot)
        Run.ok (
            set_next slots.data_slot zlp_qtd
              (init_qtd zlp_slot (qtd_token req.pid 0 false true) 0 0 s'))
    ]

-- What the future waits for: the last qTD of the chain, and the one before it.
unfoldable pub bulk_complete : Slots → (qh_index waker_index : ℕ) → TransferComplete
bulk_complete slots qh_index waker_index = record {
  status_qtd_index = elim slots.zlp_slot [ none ↦ slots.data_slot | some zlp_slot ↦ zlp_slot ];
  data_qtd_index = elim slots.zlp_slot [ none ↦ none | some _ ↦ some slots.data_slot ];
  qh_index = qh_index;
  waker_index = waker_index;
}

-- The byte count, by the token of the data qTD once the transfer has ended well.
unfoldable pub byte_result : BulkRequest → (token : ℕ) → Outcome (Unit {0}) → Outcome ℕ
byte_result req token (ok _) =
    ok (if req.is_in then req.data_len - qtd_token_bytes_remaining token else req.data_len)
byte_result req token (err e) = err e

-- What a transfer returns, and the pools, the toggle of the endpoint and USBCMD afterwards.
pub record Transferred (Pool : Type 0) : Type 0 where
  pub result : Outcome ℕ
  pub statics : UsbStatics Pool
  pub data_toggle : Bool
  pub usbcmd : ℕ

module _ {Pool : Type 0} (l : Layout) (r : Ral) (hardware : Controller Pool) where
  -- From the attachment of the chain to the queue head on; `qh` is its address.
  unfoldable pub run_chain :
      (fuel qh : ℕ)
      → Pipe
      → BulkRequest
      → Slots
      → (usbcmd : ℕ) → UsbStatics Pool
      → Run (Transferred Pool)
  run_chain fuel qh pipe req slots usbcmd s = do
    data_qtd ← or_panic (qtd_ptr l slots.data_slot)
    s ← modify_qh l qh (λ q. attach_qtd q data_qtd) s
    s ← if req.data_toggle then modify_qh l qh (λ q. set_overlay_toggle q true) s else Run.ok s
    (usbcmd, s) ← link_and_start_async l r qh usbcmd s
    (outcome, s) ←
        await_transfer r hardware (bulk_complete slots (pipe.which + 1) pipe.which) usbcmd s
    let token = (get_or s.qtd_pool slots.data_slot Td.new).token
    (usbcmd, s) ← unlink_and_stop_async l r hardware fuel qh usbcmd s
    q ← load_qh l s qh
    let new_toggle = bit_and q.overlay_token (2 ^ 31) != 0
    s ← modify_qh l qh (λ q. record q { sw_flags = 0 }) s
    Run.ok (record {
      result = byte_result req token outcome;
      statics = drop_slots slots s;
      data_toggle = new_toggle;
      usbcmd = usbcmd;
    })

  -- What is left to do once the slots are asked for: the outcome of that, and the pools.
  unfoldable pub transfer_with :
      (fuel qh : ℕ)
      → Pipe
      → BulkRequest
      → (zlp : Bool) (usbcmd : ℕ) → Outcome Slots × UsbStatics Pool
      → Run (Transferred Pool)
  transfer_with fuel qh pipe req zlp usbcmd (err e, s) =
      Run.ok
        (record { result = err e; statics = s; data_toggle = req.data_toggle; usbcmd = usbcmd })
  transfer_with fuel qh pipe req zlp usbcmd (ok slots, s) = do
    s ← write_chain l req zlp slots s
    run_chain fuel qh pipe req slots usbcmd s

  -- `pipe` is the pipe that the await of the bulk pool has given.
  unfoldable pub do_bulk_transfer :
      (fuel portsc1 : ℕ)
      → Pipe
      → BulkRequest
      → (usbcmd : ℕ) → UsbStatics Pool
      → Run (Transferred Pool)
  do_bulk_transfer fuel portsc1 pipe req usbcmd s = do
    let speed = bulk_speed r portsc1
    let packet_size = actual_packet_size speed req.packet_size
    qh ← or_panic (qh_ptr l (pipe.which + 1))
    s ←
        modify_qh l qh
          (λ q.
            init_endpoint q
              (qh_characteristics req.address req.endpoint speed packet_size false false)
              (qh_capabilities 0 0 0 0 1))
          s
    let zlp = need_zlp req.is_in req.transfer_type req.data_len packet_size
    transfer_with fuel qh pipe req zlp usbcmd (alloc_slots zlp s)
