-- ===== src/Host/Transfer.antt =====
-- transfer.rs and schedule.rs, what bulk and control transfers share: the qTDs, the link into the
-- async schedule, the await of the completion and the unlink with the await of the doorbell.
pub mod Bulk
pub mod Control
pub mod ControlBalance
pub mod ControlChain
pub mod ControlRun
pub mod ControlCall
pub mod BulkRun
pub mod Stage
pub mod BulkCall
pub mod Keeps
pub mod Session
pub mod Balance
pub mod Chain
use imxrt_usbh.Base.{
  ℕ, ◌+◌, ◌-◌, ◌*◌, ◌%◌, ◌^◌, Bool, true, false, not, ◌&&◌, Option, none, some, bit_and, get_or,
  set, ltb, ◌==◌, ◌!=◌, if◌then◌else◌,
}
use mathlib.Core.Option
use imxrt_usbh.Base.Bits.{bit_mask}
use imxrt_usbh.Ehci.Token.{qtd_token, qtd_token_bytes_remaining}
use imxrt_usbh.Ehci.Td
use imxrt_usbh.Ehci.Td.{TransferDescriptor}
use imxrt_usbh.Ehci.Qh
use imxrt_usbh.Ehci.Qh.{
  QueueHead, speed_full, speed_low, speed_high, qh_characteristics, qh_capabilities, init_endpoint,
  attach_qtd, set_overlay_toggle,
}
use imxrt_usbh.Host.Error.{UsbError, Outcome, ready, pending}
use imxrt_usbh.Host.Futures.{TransferComplete, poll_transfer}
use imxrt_usbh.Host.InterruptPipe.{Pipe, or_panic}
use imxrt_usbh.Host.Port.{port_speed}
use imxrt_usbh.Host.Regs.{Ral, set_fields}
use imxrt_usbh.Host.Run.{Run, out_of_fuel, ◌>>=◌}
use imxrt_usbh.Host.Schedule.Async.{link_qh_to_async_schedule, unlink_qh_from_async_schedule}
use imxrt_usbh.Host.Schedule.Qtd.{alloc_qtd, drop_slot}
use imxrt_usbh.Host.Statics.{UsbStatics, Layout, qh_ptr, qtd_ptr, load_qh, store_qh}
use imxrt_usbh.Midi.Driver.{TransferType, fixed_size, variable_size}

module _ {Pool : Type 0} where
  -- `(*qtd).init(..)`
  abbrev pub init_qtd : (index token addr len : ℕ) → UsbStatics Pool → UsbStatics Pool
  init_qtd index token addr len s = record s {
    qtd_pool = set s.qtd_pool index (Td.init (get_or s.qtd_pool index Td.new) token addr len);
  }

  -- `(*qtd).next.write(next)`
  abbrev pub set_next : (index next : ℕ) → UsbStatics Pool → UsbStatics Pool
  set_next index next s = record s {
    qtd_pool = set s.qtd_pool index (record (get_or s.qtd_pool index Td.new) { next = next });
  }

module _ (r : Ral) where
  -- The new USBCMD.
  unfoldable pub enable_async_schedule : (usbcmd : ℕ) → ℕ
  enable_async_schedule usbcmd =
      if bit_and usbcmd (bit_mask r.ase) == 0 then set_fields usbcmd (bit_mask r.ase) else usbcmd

  -- What `wait_async_advance` writes to USBCMD before it waits.
  unfoldable pub ring_doorbell : (usbcmd : ℕ) → ℕ
  ring_doorbell usbcmd = set_fields usbcmd (bit_mask r.iaa)

-- What happens, with the given USBCMD, to the pools and to USBINTR until the poll of a transfer is ready,
-- or for good when it never is; and to USBCMD and the pools until the doorbell is answered.
pub record Controller (Pool : Type 0) : Type 0 where
  pub complete : (usbcmd : ℕ) → TransferComplete → UsbStatics Pool → UsbStatics Pool × ℕ
  pub advance : (usbcmd : ℕ) → UsbStatics Pool → ℕ × UsbStatics Pool

module _ {Pool : Type 0} (l : Layout) where
  -- A read of the fields of a queue head, and a write of some of them: `(*qh).attach_qtd(..)`.
  unfoldable pub modify_qh :
      (qh : ℕ) → (QueueHead → QueueHead) → UsbStatics Pool → Run (UsbStatics Pool)
  modify_qh qh change s = do q ← load_qh l s qh; store_qh l s qh (change q)

module _ {Pool : Type 0} (r : Ral) (hardware : Controller Pool) where
  -- `TransferComplete { .. }.await`, by the poll that is ready; if none is, the call does not return.
  unfoldable pub await_transfer :
      TransferComplete → (usbcmd : ℕ) → UsbStatics Pool → Run (Outcome (Unit {0}) × UsbStatics Pool)
  await_transfer future usbcmd s = do
    let (s', usbintr) = hardware.complete usbcmd future s
    polled ← or_panic (poll_transfer r future s' usbintr)
    elim polled.result [ ready outcome ↦ Run.ok (outcome, s') | pending ↦ out_of_fuel ]

module _ {Pool : Type 0} (l : Layout) (r : Ral) where
  -- The new USBCMD and the pools.
  unfoldable pub link_and_start_async :
      (qh usbcmd : ℕ) → UsbStatics Pool → Run (ℕ × UsbStatics Pool)
  link_and_start_async qh usbcmd s = do
    s ← link_qh_to_async_schedule l qh s
    Run.ok (enable_async_schedule r usbcmd, s)

  unfoldable pub unlink_and_stop_async :
      (hardware : Controller Pool) (fuel qh usbcmd : ℕ)
      → UsbStatics Pool
      → Run (ℕ × UsbStatics Pool)
  unlink_and_stop_async hardware fuel qh usbcmd s = do
    s ← unlink_qh_from_async_schedule l fuel qh s
    Run.ok (hardware.advance (ring_doorbell r usbcmd) s)
