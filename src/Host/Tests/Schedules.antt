-- ===== src/Host/Tests/Schedules.antt =====
-- The schedules and the qTD pool, from the state that `init` leaves.
use imxrt_usbh.Base.{ℕ, ◌≡◌, refl, true, false, some, [], ◌∷◌, arith}
use imxrt_usbh.Base.Members.{has}
use imxrt_usbh.Host.Controller.{init}
use imxrt_usbh.Host.Controller.Laws.{init-IsScheduled}
use imxrt_usbh.Host.Diagnostics.{log_periodic_chain}
use imxrt_usbh.Host.Diagnostics.Laws.{log_periodic_chain-IsPeriodic}
use imxrt_usbh.Host.Run.{ok}
use imxrt_usbh.Host.Statics
use imxrt_usbh.Host.Statics.{UsbStatics, Layout, num_qh, qh_addr}
use imxrt_usbh.Host.Statics.Links.{SameRest, link_of, set_link}
use imxrt_usbh.Host.Schedule.Async.{link_qh_to_async_schedule, unlink_qh_from_async_schedule}
use imxrt_usbh.Host.Schedule.Async.Ring.{IsRing}
use imxrt_usbh.Host.Schedule.Async.Insert as AsyncInsert
use imxrt_usbh.Host.Schedule.Async.Insert.{link_qh_to_async_schedule-IsRing}
use imxrt_usbh.Host.Schedule.Async.Remove.{
  unlink_qh_from_async_schedule-IsRing, unlink_qh_from_async_schedule_absent,
}
use imxrt_usbh.Host.Schedule.Periodic.{
  link_qh_to_periodic_schedule, unlink_qh_from_periodic_schedule,
}
use imxrt_usbh.Host.Schedule.Periodic.Chain.{IsPeriodic}
use imxrt_usbh.Host.Schedule.Periodic.Insert as PeriodicInsert
use imxrt_usbh.Host.Schedule.Periodic.Insert.{link_qh_to_periodic_schedule-IsPeriodic}
use imxrt_usbh.Host.Schedule.Periodic.Remove.{unlink_qh_from_periodic_schedule-IsPeriodic}
use imxrt_usbh.Host.Schedule.Qtd.{alloc_qtd}
use imxrt_usbh.Host.Schedule.Qtd.Laws.{Allocates, alloc_qtd-Allocates}
use imxrt_usbh.Host.Schedule.Both.{IsScheduled, link_async, link_periodic}
use imxrt_usbh.Host.Schedule.Reachable.{
  Reached, initial, async_linked, periodic_linked, Reached-IsScheduled,
}
use imxrt_usbh.Host.Tests.{ral, layout, layout-IsAligned}

-- The pool that cotton-usb-host would give is its size.
abbrev pub pool_new : ℕ → ℕ
pool_new n = n

abbrev pub statics : UsbStatics ℕ
statics = (init ral layout 0x2020_3000 false 0x1000_1803 0 (Statics.new pool_new)).statics

init-IsScheduled_example :
    ((init ral layout 0x2020_3000 false 0x1000_1803 0 (Statics.new pool_new)).asynclistaddr
      ≡ 0x2020_0000)
    × IsScheduled layout statics [] []
init-IsScheduled_example = init-IsScheduled ral layout 0x2020_3000 false 0x1000_1803 0 pool_new

-- A control transfer and an interrupt pipe.
abbrev with_control : UsbStatics ℕ
with_control = AsyncInsert.linked layout statics 1

abbrev with_both : UsbStatics ℕ
with_both = PeriodicInsert.linked layout with_control 2

pub start-IsScheduled : IsScheduled layout statics [] []
start-IsScheduled = (init-IsScheduled ral layout 0x2020_3000 false 0x1000_1803 0 pool_new).1

control :
    (link_qh_to_async_schedule layout (qh_addr layout 1) statics ≡ ok with_control)
    × IsScheduled layout with_control (1 ∷ []) []
control = link_async layout statics 1 [] [] start-IsScheduled (omega arith) (omega arith) refl refl

both :
    (link_qh_to_periodic_schedule layout (qh_addr layout 2) with_control ≡ ok with_both)
    × IsScheduled layout with_both (1 ∷ []) (2 ∷ [])
both =
    link_periodic layout with_control 2 (1 ∷ []) [] control.1 (omega arith) (omega arith) refl refl

reached : Reached layout statics with_both (1 ∷ []) (2 ∷ [])
reached =
    periodic_linked 2 (async_linked 1 initial (omega arith) (omega arith) refl refl control.0)
      (omega arith) (omega arith) refl refl both.0

Reached-IsScheduled_example : IsScheduled layout with_both (1 ∷ []) (2 ∷ [])
Reached-IsScheduled_example = Reached-IsScheduled layout-IsAligned start-IsScheduled reached

unlink_qh_from_async_schedule-IsRing_example :
    (p : ℕ) × (unlink_qh_from_async_schedule layout 4 (qh_addr layout 1) with_both
      ≡ ok (set_link with_both p (link_of with_both 1)))
    × (has p (0 ∷ 1 ∷ []) ≡ true)
    × IsRing layout (set_link with_both p (link_of with_both 1)) []
unlink_qh_from_async_schedule-IsRing_example =
    unlink_qh_from_async_schedule-IsRing layout-IsAligned with_both 4 1 (1 ∷ []) both.1.ring
      (omega arith) refl (omega arith)

unlink_qh_from_async_schedule_absent_example :
    unlink_qh_from_async_schedule layout 5 (qh_addr layout 3) with_both ≡ ok with_both
unlink_qh_from_async_schedule_absent_example =
    unlink_qh_from_async_schedule_absent layout-IsAligned with_both 5 3 (1 ∷ []) both.1.ring
      (omega arith) (omega arith) refl (omega arith)

unlink_qh_from_periodic_schedule-IsPeriodic_example :
    (s' : UsbStatics ℕ) × (unlink_qh_from_periodic_schedule layout (qh_addr layout 2) with_both
      ≡ ok s')
    × IsPeriodic layout s' []
    × ((j : ℕ) → has j (2 ∷ []) ≡ false → link_of s' j ≡ link_of with_both j)
    × SameRest with_both s'
unlink_qh_from_periodic_schedule-IsPeriodic_example =
    unlink_qh_from_periodic_schedule-IsPeriodic layout-IsAligned with_both 2 (2 ∷ []) (omega arith)
      refl both.1.periodic

alloc_qtd-Allocates_example : Allocates statics (alloc_qtd statics)
alloc_qtd-Allocates_example = alloc_qtd-Allocates statics

-- `QH2`
log_periodic_chain-IsPeriodic_example :
    log_periodic_chain layout with_both ≡ ok (some (81 ∷ 72 ∷ 50 ∷ []))
log_periodic_chain-IsPeriodic_example =
    log_periodic_chain-IsPeriodic layout-IsAligned with_both (2 ∷ []) both.1.periodic
