-- ===== src/Host/Schedule/Async.antt =====
-- schedule.rs, the async schedule: a circular list of queue heads through the sentinel at index 0.
pub mod Ring
pub mod Insert
pub mod Remove
use imxrt_usbh.Base.{ℕ, zero, suc, bit_and, ◌==◌, if◌then◌else◌}
use imxrt_usbh.Base.Bits.{not32}
use imxrt_usbh.Ehci.Link.{qh as qh_type, link_pointer, link_address}
use imxrt_usbh.Host.Run.{Run, ok, out_of_fuel, ◌>>=◌}
use imxrt_usbh.Host.Statics.{UsbStatics, Layout, qh_addr, load_qh, store_qh}

module _ {Pool : Type 0} (l : Layout) where
  -- `link_qh_to_async_schedule`; `qh` is an address.
  unfoldable pub link_qh_to_async_schedule : (qh : ℕ) → UsbStatics Pool → Run (UsbStatics Pool)
  link_qh_to_async_schedule qh s = do
    let sentinel = qh_addr l 0
    q ← load_qh l s qh
    first ← load_qh l s sentinel
    s ← store_qh l s qh (record q { horizontal_link = first.horizontal_link })
    first ← load_qh l s sentinel
    store_qh l s sentinel (record first { horizontal_link = link_pointer qh qh_type })

  -- The loop of `unlink_qh_from_async_schedule`, from the predecessor `prev` on.
  unfoldable pub unlink_loop : (fuel qh prev : ℕ) → UsbStatics Pool → Run (UsbStatics Pool)
  unlink_loop zero qh prev s = out_of_fuel
  unlink_loop (suc fuel) qh prev s = do
    p ← load_qh l s prev
    let next_addr = link_address p.horizontal_link
    let rest = unlink_loop fuel qh next_addr s
    if next_addr == bit_and qh (not32 0x1f)
        then (do
          q ← load_qh l s qh
          store_qh l s prev (record p { horizontal_link = q.horizontal_link }))
        else if next_addr == qh_addr l 0
        then ok s
        else rest

  unfoldable pub unlink_qh_from_async_schedule :
      (fuel qh : ℕ) → UsbStatics Pool → Run (UsbStatics Pool)
  unlink_qh_from_async_schedule fuel qh s = unlink_loop fuel qh (qh_addr l 0) s
