-- ===== src/Host/Transfer/Control.antt =====
-- transfer.rs, `do_control_transfer`: the chain of a setup, a data and a status qTD on the queue head
-- at index 1.
use imxrt_usbh.Base.{
  ℕ, ◌-◌, Bool, true, false, ◌&&◌, Option, none, some, get_or, ltb, leb, if◌then◌else◌,
}
use mathlib.Core.Option
use imxrt_usbh.Ehci.Token.{pid_out, pid_in, pid_setup, qtd_token, qtd_token_bytes_remaining}
use imxrt_usbh.Ehci.Td
use imxrt_usbh.Ehci.Qh.{speed_low, qh_characteristics, qh_capabilities, init_endpoint, attach_qtd}
use imxrt_usbh.Host.Error.{UsbError, Outcome, ok, err}
use imxrt_usbh.Host.Futures.{TransferComplete}
use imxrt_usbh.Host.InterruptPipe.{TransferExtras, normal, with_preamble, or_panic}
use imxrt_usbh.Host.Regs.{Ral}
use imxrt_usbh.Host.Run.{Run, fault, ◌>>=◌}
use imxrt_usbh.Host.Schedule.Qtd.{alloc_qtd, drop_slot}
use imxrt_usbh.Host.Statics.{UsbStatics, Layout, qh_ptr, qtd_ptr}
use imxrt_usbh.Host.Transfer.{
  Controller, init_qtd, set_next, modify_qh, await_transfer, link_and_start_async,
  unlink_and_stop_async,
}
use imxrt_usbh.Host.Transfer.Bulk.{bulk_speed}

-- cotton-usb-host's `SetupPacket`: its address, and the field that the driver reads.
pub record SetupPacket : Type 0 where
  pub address : ℕ
  pub w_length : ℕ

-- cotton-usb-host's `DataPhase`: a buffer is its address and its length.
pub data DataPhase : Type 0 where
  data_in data_out : (buffer len : ℕ) → DataPhase
  no_data : DataPhase

pub record ControlRequest : Type 0 where
  pub address : ℕ
  pub transfer_extras : TransferExtras
  pub packet_size : ℕ
  pub setup : SetupPacket
  pub data_phase : DataPhase

unfoldable pub control_speed : Ral → (portsc1 : ℕ) → TransferExtras → ℕ
control_speed r portsc1 with_preamble = speed_low
control_speed r portsc1 normal = bulk_speed r portsc1

-- `data_len`: an IN transfer asks for no more than `wLength`, if that is set.
unfoldable pub control_data_len : SetupPacket → DataPhase → ℕ
control_data_len setup (data_in buffer len) =
    if ltb 0 setup.w_length && ltb setup.w_length len then setup.w_length else len
control_data_len setup (data_out buffer len) = len
control_data_len setup no_data = 0

-- `status_pid`: opposite to the data, or IN.
unfoldable pub status_pid : DataPhase → ℕ
status_pid (data_in buffer len) = pid_out
status_pid (data_out buffer len) = pid_in
status_pid no_data = pid_in

pub record ControlSlots : Type 0 where
  pub setup_slot : ℕ
  pub data_slot : Option ℕ
  pub status_slot : ℕ

abbrev pub has_data : DataPhase → Bool
has_data no_data = false
has_data _ = true

module _ {Pool : Type 0} where
  -- `self.alloc_qtd()` for the status; if it fails, the drops of the others give their slots back, the
  -- last one first.
  unfoldable pub alloc_status :
      (setup_slot : ℕ) (data_slot : Option ℕ)
      → UsbStatics Pool
      → Outcome ControlSlots × UsbStatics Pool
  alloc_status setup_slot data_slot s = elim (alloc_qtd s) [
    | none ↦ (
      err UsbError.all_pipes_in_use,
      drop_slot setup_slot (elim data_slot [ none ↦ s | some slot ↦ drop_slot slot s ]),
    )
    | some (status_slot, s) ↦ (
      ok (record { setup_slot = setup_slot; data_slot = data_slot; status_slot = status_slot }),
      s,
    )
  ]

  -- For the setup, for the data if there is a data phase, and for the status.
  unfoldable pub alloc_control :
      (data_phase : Bool) → UsbStatics Pool → Outcome ControlSlots × UsbStatics Pool
  alloc_control data_phase s = elim (alloc_qtd s) [
    | none ↦ (err UsbError.all_pipes_in_use, s)
    | some (setup_slot, s) ↦
        if data_phase
        then elim (alloc_qtd s) [
          | none ↦ (err UsbError.all_pipes_in_use, drop_slot setup_slot s)
          | some (data_slot, s) ↦ alloc_status setup_slot (some data_slot) s
        ]
        else alloc_status setup_slot none s
  ]

  -- The drops at the end, in the reverse order of the declarations.
  unfoldable pub drop_control : ControlSlots → UsbStatics Pool → UsbStatics Pool
  drop_control slots s =
      let s' = drop_slot slots.status_slot s in
      drop_slot slots.setup_slot
        (elim slots.data_slot [ none ↦ s' | some slot ↦ drop_slot slot s' ])

  -- The data qTD; `data_slot.unwrap()` panics without a slot.
  unfoldable pub write_data :
      Layout
      → DataPhase
      → (data_len : ℕ) → (data_slot : Option ℕ) → UsbStatics Pool
      → Run (UsbStatics Pool)
  write_data l (data_in buffer len) data_len data_slot s = do
    slot ← or_panic data_slot
    data_qtd ← or_panic (qtd_ptr l slot)
    Run.ok (init_qtd slot (qtd_token pid_in data_len true false) buffer data_len s)
  write_data l (data_out buffer len) data_len data_slot s = do
    slot ← or_panic data_slot
    data_qtd ← or_panic (qtd_ptr l slot)
    Run.ok (init_qtd slot (qtd_token pid_out data_len true false) buffer data_len s)
  write_data l no_data data_len data_slot s = Run.ok s

  -- The writes of `next`.
  unfoldable pub link_chain : Layout → ControlSlots → UsbStatics Pool → Run (UsbStatics Pool)
  link_chain l slots s = do
    status_qtd ← or_panic (qtd_ptr l slots.status_slot)
    elim slots.data_slot [
      | some slot ↦ do
        data_qtd ← or_panic (qtd_ptr l slot)
        Run.ok (set_next slot status_qtd (set_next slots.setup_slot data_qtd s))
      | none ↦ Run.ok (set_next slots.setup_slot status_qtd s)
    ]

  unfoldable pub write_control_chain :
      Layout → ControlRequest → ControlSlots → UsbStatics Pool → Run (UsbStatics Pool)
  write_control_chain l req slots s = do
    setup_qtd ← or_panic (qtd_ptr l slots.setup_slot)
    let setup_token = qtd_token pid_setup 8 false false
    s ←
        write_data l req.data_phase (control_data_len req.setup req.data_phase) slots.data_slot
          (init_qtd slots.setup_slot setup_token req.setup.address 8 s)
    status_qtd ← or_panic (qtd_ptr l slots.status_slot)
    let status_token = qtd_token (status_pid req.data_phase) 0 true true
    link_chain l slots (init_qtd slots.status_slot status_token 0 0 s)

-- What the future waits for; the control pipe has the first waker.
unfoldable pub control_complete : ControlSlots → TransferComplete
control_complete slots = record {
  status_qtd_index = slots.status_slot;
  data_qtd_index = slots.data_slot;
  qh_index = 1;
  waker_index = 0;
}

-- `data_len - remaining`, which panics below 0.
unfoldable pub bytes_transferred :
    DataPhase → (data_len : ℕ) → (remaining : Option ℕ) → Outcome (Unit {0}) → Run (Outcome ℕ)
bytes_transferred (data_in buffer len) data_len (some remaining) (ok _) =
    if leb remaining data_len then Run.ok (ok (data_len - remaining)) else fault
bytes_transferred (data_in buffer len) data_len none (ok _) = Run.ok (ok 0)
bytes_transferred (data_out buffer len) data_len remaining (ok _) = Run.ok (ok len)
bytes_transferred no_data data_len remaining (ok _) = Run.ok (ok 0)
bytes_transferred _ data_len remaining (err e) = Run.ok (err e)

pub record ControlDone (Pool : Type 0) : Type 0 where
  pub result : Outcome ℕ
  pub statics : UsbStatics Pool
  pub usbcmd : ℕ

module _ {Pool : Type 0} (l : Layout) (r : Ral) (hardware : Controller Pool) where
  -- From the attachment of the chain to the queue head on; `qh` is its address.
  unfoldable pub run_control :
      (fuel qh : ℕ)
      → ControlRequest
      → ControlSlots
      → (usbcmd : ℕ) → UsbStatics Pool
      → Run (ControlDone Pool)
  run_control fuel qh req slots usbcmd s = do
    setup_qtd ← or_panic (qtd_ptr l slots.setup_slot)
    s ← modify_qh l qh (λ q. attach_qtd q setup_qtd) s
    (usbcmd, s) ← link_and_start_async l r qh usbcmd s
    (outcome, s) ← await_transfer r hardware (control_complete slots) usbcmd s
    (usbcmd, s) ← unlink_and_stop_async l r hardware fuel qh usbcmd s
    let remaining =
        Option.map (λ slot. qtd_token_bytes_remaining (get_or s.qtd_pool slot Td.new).token)
          slots.data_slot
    result ←
        bytes_transferred req.data_phase (control_data_len req.setup req.data_phase) remaining
          outcome
    s ← modify_qh l qh (λ q. record q { sw_flags = 0 }) s
    Run.ok (record { result = result; statics = drop_control slots s; usbcmd = usbcmd })

  -- What is left to do once the slots are asked for: the outcome of that, and the pools.
  unfoldable pub control_with :
      (fuel qh : ℕ)
      → ControlRequest
      → (usbcmd : ℕ) → Outcome ControlSlots × UsbStatics Pool
      → Run (ControlDone Pool)
  control_with fuel qh req usbcmd (err e, s) =
      Run.ok (record { result = err e; statics = s; usbcmd = usbcmd })
  control_with fuel qh req usbcmd (ok slots, s) = do
    s ← write_control_chain l req slots s
    run_control fuel qh req slots usbcmd s

  unfoldable pub do_control_transfer :
      (fuel portsc1 : ℕ) → ControlRequest → (usbcmd : ℕ) → UsbStatics Pool → Run (ControlDone Pool)
  do_control_transfer fuel portsc1 req usbcmd s = do
    qh ← or_panic (qh_ptr l 1)
    let speed = control_speed r portsc1 req.transfer_extras
    s ←
        modify_qh l qh
          (λ q.
            init_endpoint q (qh_characteristics req.address 0 speed req.packet_size true false)
              (qh_capabilities 0 0 0 0 1))
          s
    control_with fuel qh req usbcmd (alloc_control (has_data req.data_phase) s)
