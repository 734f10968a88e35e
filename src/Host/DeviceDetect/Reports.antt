-- ===== src/Host/DeviceDetect/Reports.antt =====
-- What the stream reports over a sequence of polls.
use mathlib.Core.Option.{some_inj}
use imxrt_usbh.Base.{
  ℕ, ◌≡◌, ◌<◌, ◌==◌, ◌&&◌, refl, sym, subst, ap, ◌∙◌, Bool, true, false, not, Option, none, some,
  List, [], ◌∷◌, if◌then◌else◌, Bool-cases, Option-cases, arith, inl, inr, ◌⊎◌,
}
use imxrt_usbh.Base.Bits.{bit}
use imxrt_usbh.Host.DeviceDetect.{
  Polled, PhyWrite, set_enhostdiscondetect, clear_enhostdiscondetect, is_present, is_high_speed,
  port_event, status_from_portsc, clear_connect_change, poll_next,
}
use imxrt_usbh.Host.DeviceDetect.Laws.{
  poll_next_event, poll_next_quiet, poll_next-portsc1_written, is_present-status_from_portsc,
  clear_connect_change_lem,
}
use imxrt_usbh.Host.Error.{Poll, ready, pending}
use imxrt_usbh.Host.Port.Laws.{is_w1c}
use imxrt_usbh.Host.Port.{low1_5, full12, high480, DeviceStatus, present, absent}
use imxrt_usbh.Host.Regs.{Ral, IsRal}

-- PORTSC1 and USBINTR as a poll reads them.
pub record Registers : Type 0 where
  pub portsc : ℕ
  pub usbintr : ℕ

-- The reports of a sequence of polls, from a stream with the given status.
abbrev pub reports : Ral → DeviceStatus → List Registers → List DeviceStatus
reports r status [] = []
reports r status (at ∷ later) =
    let polled = poll_next r status at.portsc at.usbintr in
    let rest = reports r polled.status later in
    elim polled.result [ ready (some report) ↦ report ∷ rest | ready none ↦ rest | pending ↦ rest ]

-- Arrivals and departures alternate, the first being an arrival unless a device is there.
abbrev pub Alternates : (connected : Bool) → List DeviceStatus → Type 0
Alternates connected [] = Unit
Alternates connected (report ∷ later) =
    (is_present report ≡ not connected) × Alternates (is_present report) later

port_event-some :
    (previous now : DeviceStatus) (changed : Bool) {report : DeviceStatus}
    → port_event previous now changed ≡ some report
    → (is_present report ≡ not (is_present previous)) × ((report ≡ now) ⊎ (report ≡ absent))
unfolding port_event
port_event-some (present s) (present t) true h =
    (sym (ap is_present (some_inj.0 h)), inr (sym (some_inj.0 h)))
port_event-some (present s) (present t) false h = absurd (ground arith)
port_event-some (present s) absent changed h =
    (sym (ap is_present (some_inj.0 h)), inl (sym (some_inj.0 h)))
port_event-some absent (present t) changed h =
    (sym (ap is_present (some_inj.0 h)), inl (sym (some_inj.0 h)))
port_event-some absent absent changed h = absurd (ground arith)

port_event-none :
    (previous now : DeviceStatus) (changed : Bool)
    → port_event previous now changed ≡ none
    → is_present now ≡ is_present previous
unfolding port_event
port_event-none (present s) (present t) changed h = refl
port_event-none (present s) absent changed h = absurd (ground arith)
port_event-none absent (present t) changed h = absurd (ground arith)
port_event-none absent absent changed h = refl

port_event_bounce :
    (previous now : DeviceStatus)
    → is_present previous ≡ true
    → is_present now ≡ true
    → port_event previous now true ≡ some absent
unfolding port_event
port_event_bounce previous now h k = rw (h, k)

port_event_arrival :
    (now : DeviceStatus) (changed : Bool)
    → is_present now ≡ true
    → port_event absent now changed ≡ some now
unfolding port_event
port_event_arrival now changed h = rw h

is_absent : (s : DeviceStatus) → is_present s ≡ false → s ≡ absent
is_absent (present speed) h = absurd (ground arith)
is_absent absent h = refl

-- No poll of the sequence ends the stream.
abbrev pub GoesOn : Ral → DeviceStatus → List Registers → Type 0
GoesOn r status [] = Unit
GoesOn r status (at ∷ later) =
    let polled = poll_next r status at.portsc at.usbintr in
    ¬ (polled.result ≡ ready none) × GoesOn r polled.status later

pending-ne : {result : Poll (Option DeviceStatus)} → result ≡ pending → ¬ (result ≡ ready none)
pending-ne h e = cc

report-ne :
    {result : Poll (Option DeviceStatus)} {report : DeviceStatus}
    → result ≡ ready (some report)
    → ¬ (result ≡ ready none)
report-ne h e = cc

reports-GoesOn : (r : Ral) (status : DeviceStatus) (polls : List Registers) → GoesOn r status polls
reports-GoesOn r status [] = tt
reports-GoesOn r status (at ∷ later) =
    let polled = poll_next r status at.portsc at.usbintr in
    let now = status_from_portsc r at.portsc in
    elim (Option-cases (port_event status now (bit at.portsc r.csc))) [
      | inl quiet ↦
          let quiet_poll = poll_next_quiet r status at.portsc at.usbintr quiet in
          (pending-ne quiet_poll.0, reports-GoesOn r polled.status later)
      | inr (report, event) ↦
          let event_poll = poll_next_event r status at.portsc at.usbintr report event in
          (report-ne event_poll.0, reports-GoesOn r polled.status later)
    ]

alternate :
    (r : Ral) (status : DeviceStatus) (polls : List Registers)
    → Alternates (is_present status) (reports r status polls)
alternate r status [] = tt
alternate r status (at ∷ later) =
    elim (Option-cases (port_event status now (bit at.portsc r.csc))) [
      | inl quiet ↦
          let quiet_poll = poll_next_quiet r status at.portsc at.usbintr quiet in
          rw (reports, quiet_poll.0)
            (subst (λ b. Alternates b (reports r polled.status later))
              (ap is_present quiet_poll.1 ∙ port_event-none status now (bit at.portsc r.csc) quiet)
              (alternate r polled.status later))
      | inr (report, event) ↦
          let (reported, recorded, phy) =
            poll_next_event r status at.portsc at.usbintr report event in
          rw (reports, reported)
            (
              (port_event-some status now (bit at.portsc r.csc) event).0,
              subst (λ b. Alternates b (reports r polled.status later)) (ap is_present recorded)
                  (alternate r polled.status later),
            )
    ]
  where
    now : DeviceStatus
    now = status_from_portsc r at.portsc

    polled : Polled
    polled = poll_next r status at.portsc at.usbintr

-- Over any sequence of polls the reports alternate: a device that is there is reported as gone
-- before one is reported as there again. No poll ends the stream.
pub reports-Alternates :
    (r : Ral) (status : DeviceStatus) (polls : List Registers)
    → Alternates (is_present status) (reports r status polls) × GoesOn r status polls
reports-Alternates r status polls = (alternate r status polls, reports-GoesOn r status polls)

-- A device that is known and connected, but with the connect change latched, is reported as gone, and
-- PORTSC1 is written with every bit as it was read but the flags that a written 1 clears, of which the
-- connect change is 1 and the others are 0; the next poll that finds a device connected reports it.
pub poll_next-bounce :
    {r : Ral} (spec : IsRal r) (status : DeviceStatus) (first second : Registers) (k : ℕ)
    → k < 32
    → is_present status ≡ true
    → bit first.portsc r.ccs ≡ true
    → bit first.portsc r.csc ≡ true
    → bit second.portsc r.ccs ≡ true
    → let polled = poll_next r status first.portsc first.usbintr in
      (polled.result ≡ ready (some absent))
      × ((written : ℕ) × (polled.portsc1_written ≡ some written)
          × (bit written r.csc ≡ true)
          × (bit written k ≡ (if r.csc == k then true else bit first.portsc k && not (is_w1c r k))))
      × ((poll_next r polled.status second.portsc second.usbintr).result
          ≡ ready (some (status_from_portsc r second.portsc)))
poll_next-bounce {r} spec status first second k small known connected latched again = (
  gone.0,
  (
    clear_connect_change r first.portsc,
    poll_next-portsc1_written r status first.portsc first.usbintr ∙ rw latched refl,
    clear_connect_change_lem spec first.portsc r.csc (omega (arith, spec.csc_at)) ∙ ground arith,
    clear_connect_change_lem spec first.portsc k small,
  ),
  rw gone.1 back.0,
)
  where
    gone :
        let polled = poll_next r status first.portsc first.usbintr in
        (polled.result ≡ ready (some absent))
        × (polled.status ≡ absent)
        × (polled.phy_written ≡ some clear_enhostdiscondetect)
    gone = poll_next_event r status first.portsc first.usbintr absent (
        rw latched (
          port_event_bounce status (status_from_portsc r first.portsc) known
            (is_present-status_from_portsc r first.portsc ∙ connected)))

    back :
        let now = status_from_portsc r second.portsc in
        let polled = poll_next r absent second.portsc second.usbintr in
        (polled.result ≡ ready (some now))
        × (polled.status ≡ now)
        × (polled.phy_written
            ≡ some (if is_high_speed now then set_enhostdiscondetect else clear_enhostdiscondetect))
    back =
        poll_next_event r absent second.portsc second.usbintr (status_from_portsc r second.portsc) (
          port_event_arrival (status_from_portsc r second.portsc) (bit second.portsc r.csc)
            (is_present-status_from_portsc r second.portsc ∙ again))

-- The state of the PHY's disconnect detector after a poll's write.
abbrev pub detector : (on : Bool) → Option PhyWrite → Bool
detector on none = on
detector on (some set_enhostdiscondetect) = true
detector on (some clear_enhostdiscondetect) = false

-- The stream's status and the detector.
pub record Port : Type 0 where
  pub status : DeviceStatus
  pub detects : Bool

-- The detector is off while no device is there, and on while a high-speed one is.
abbrev pub IsGuarded : Port → Type 0
IsGuarded p =
    (p.status ≡ absent → p.detects ≡ false) × (is_high_speed p.status ≡ true → p.detects ≡ true)

-- What a poll makes of the status and of the detector.
abbrev pub after_poll : Ral → Registers → Port → Port
after_poll r at p =
    let polled = poll_next r p.status at.portsc at.usbintr in
    record { status = polled.status; detects = detector p.detects polled.phy_written }

abbrev pub after_polls : Ral → List Registers → Port → Port
after_polls r [] p = p
after_polls r (at ∷ later) p = after_polls r later (after_poll r at p)

reported_guard :
    (on : Bool) (report : DeviceStatus)
    → IsGuarded (record {
      status = report;
      detects = detector on (
          some (if is_high_speed report then set_enhostdiscondetect else clear_enhostdiscondetect));
    })
reported_guard on (present low1_5) = (λ h. refl, λ h. absurd (ground arith))
reported_guard on (present full12) = (λ h. refl, λ h. absurd (ground arith))
reported_guard on (present high480) = (λ h. absurd (ground arith), λ h. refl)
reported_guard on absent = (λ h. refl, λ h. absurd (ground arith))

after_poll-IsGuarded :
    (r : Ral) (at : Registers) (p : Port) → IsGuarded p → IsGuarded (after_poll r at p)
after_poll-IsGuarded r at p guarded =
    elim (Option-cases (port_event p.status now (bit at.portsc r.csc))) [
      | inl quiet ↦
          let polled = poll_next_quiet r p.status at.portsc at.usbintr quiet in
          let connected = port_event-none p.status now (bit at.portsc r.csc) quiet in
          (
            λ gone.
                let here : now ≡ absent = sym polled.1 ∙ gone in
                rw (polled.4 (ap is_high_speed here))
                  (guarded.0 (is_absent p.status (sym connected ∙ ap is_present here))),
            λ high.
                let high_now : is_high_speed now ≡ true = sym (ap is_high_speed polled.1) ∙ high in
                elim (Bool-cases (is_high_speed p.status)) [
                  | inl known ↦ elim polled.3 [
                    | inl unwritten ↦ rw unwritten (guarded.1 known)
                    | inr set ↦ rw set refl
                  ]
                  | inr new ↦ rw (polled.2 high_now new) refl
                ],
          )
      | inr (report, event) ↦
          let (reported, recorded, phy) =
            poll_next_event r p.status at.portsc at.usbintr report event in
          rw (recorded, phy) (reported_guard p.detects report)
    ]
  where
    now : DeviceStatus
    now = status_from_portsc r at.portsc

-- Along every sequence of polls the disconnect detector is off while no device is there, and on
-- while the status is that of a high-speed device.
pub after_polls-IsGuarded :
    (r : Ral) (polls : List Registers) (p : Port) → IsGuarded p → IsGuarded (after_polls r polls p)
after_polls-IsGuarded r [] p guarded = guarded
after_polls-IsGuarded r (at ∷ later) p guarded =
    after_polls-IsGuarded r later (after_poll r at p) (after_poll-IsGuarded r at p guarded)
