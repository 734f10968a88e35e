-- ===== src/Host/Tests/Detect.antt =====
-- Device detection on concrete values of PORTSC1: those of device_detect.rs's tests.
use imxrt_usbh.Base.{
  List, ℕ, ◌==◌, ◌&&◌, not, if◌then◌else◌, true, ◌≡◌, refl, false, some, [], ◌∷◌, arith,
}
use imxrt_usbh.Base.Bits.{bit}
use imxrt_usbh.Host.DeviceDetect.{status_from_portsc, poll_next}
use imxrt_usbh.Host.DeviceDetect.Reports.{
  Registers, reports, Alternates, GoesOn, reports-Alternates, poll_next-bounce, IsGuarded,
  after_polls, after_polls-IsGuarded,
}
use imxrt_usbh.Host.Error.{ready}
use imxrt_usbh.Host.Port.Laws.{is_w1c}
use imxrt_usbh.Host.Port.{full12, present, absent}
use imxrt_usbh.Host.Tests.{ral, ral-IsRal}

-- A full-speed device attached, with the change latched; the same without; unplugged.
abbrev attached : Registers
attached = record { portsc = 0x1000_1803; usbintr = 0 }

abbrev steady : Registers
steady = record { portsc = 0x1000_1805; usbintr = 0 }

abbrev unplugged : Registers
unplugged = record { portsc = 0x1c00_100a; usbintr = 0 }

abbrev polls : List Registers
polls = attached ∷ steady ∷ unplugged ∷ []

reports-Alternates_example : Alternates false (reports ral absent polls) × GoesOn ral absent polls
reports-Alternates_example = reports-Alternates ral absent polls

-- Bit 12, the port power.
poll_next-bounce_example :
    let polled = poll_next ral (present full12) attached.portsc attached.usbintr in
    (polled.result ≡ ready (some absent))
    × ((written : ℕ) × (polled.portsc1_written ≡ some written)
        × (bit written ral.csc ≡ true)
        × (bit written 12
            ≡ (if ral.csc == 12 then true else bit attached.portsc 12 && not (is_w1c ral 12))))
    × ((poll_next ral polled.status steady.portsc steady.usbintr).result
        ≡ ready (some (status_from_portsc ral steady.portsc)))
unfolding bit
poll_next-bounce_example =
    poll_next-bounce ral-IsRal (present full12) attached steady 12 (omega arith) refl refl refl refl

after_polls-IsGuarded_example :
    IsGuarded
      (after_polls ral (attached ∷ unplugged ∷ []) (record { status = absent; detects = false }))
after_polls-IsGuarded_example =
    after_polls-IsGuarded ral (attached ∷ unplugged ∷ [])
      (record { status = absent; detects = false }) (λ h. refl, λ h. absurd (ground arith))
