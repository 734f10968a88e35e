-- ===== src/Host/Schedule/Periodic.antt =====
-- schedule.rs, the periodic schedule: a chain of queue heads from all entries of the frame list.
pub mod Chain
pub mod Insert
pub mod Walk
pub mod Remove
use imxrt_usbh.Base.{ℕ, zero, suc, ◌==◌, if◌then◌else◌, map, get_or}
use imxrt_usbh.Ehci.Link.{
  qh as qh_type, link_pointer, link_address, link_is_terminate, link_terminate,
}
use imxrt_usbh.Host.Run.{Run, ok, ◌>>=◌}
use imxrt_usbh.Host.Statics.{UsbStatics, Layout, num_qh, load_qh, store_qh}

module _ {Pool : Type 0} where
  -- The first entry of the frame list, which has 32.
  abbrev pub head_entry : UsbStatics Pool → ℕ
  head_entry s = get_or s.frame_list.entries 0 link_terminate

module _ {Pool : Type 0} (l : Layout) where
  unfoldable pub link_qh_to_periodic_schedule : (qh : ℕ) → UsbStatics Pool → Run (UsbStatics Pool)
  link_qh_to_periodic_schedule qh s = do
    q ← load_qh l s qh
    s ← store_qh l s qh (record q { horizontal_link = head_entry s })
    let new_link = link_pointer qh qh_type
    ok (record s { frame_list = record { entries = map (λ _. new_link) s.frame_list.entries } })

  -- The walk of at most `steps` rounds for the predecessor of the target.
  unfoldable pub unlink_walk :
      (steps target successor prev : ℕ) → UsbStatics Pool → Run (UsbStatics Pool)
  unlink_walk zero target successor prev s = ok s
  unlink_walk (suc steps) target successor prev s = do
    p ← load_qh l s prev
    let next_link = p.horizontal_link
    let rest = unlink_walk steps target successor (link_address next_link) s
    if link_is_terminate next_link
        then ok s
        else if link_address next_link == target
        then store_qh l s prev (record p { horizontal_link = successor })
        else rest

  unfoldable pub unlink_qh_from_periodic_schedule :
      (qh : ℕ) → UsbStatics Pool → Run (UsbStatics Pool)
  unlink_qh_from_periodic_schedule qh s = do
    let target_addr = link_address qh
    q ← load_qh l s qh
    let successor = q.horizontal_link
    let entries =
        map (λ entry. if link_address entry == target_addr then successor else entry)
          s.frame_list.entries
    let s' = record s { frame_list = record { entries = entries } }
    let head_link = head_entry s'
    if link_is_terminate head_link
        then ok s'
        else unlink_walk num_qh target_addr successor (link_address head_link) s'
