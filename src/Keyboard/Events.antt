-- ===== src/Keyboard/Events.antt =====
-- The event loop of the task, its reads and its retries.
use imxrt_usbh.Base.{
  ℕ, ◌+◌, ◌*◌, ◌%◌, ◌^◌, ◌<◌, ◌≤◌, ◌≡◌, ◌⊎◌, inl, inr, refl, Bool, true, false, Bool-cases, Option,
  Option-cases, List, [], ◌∷◌, length, ltb, ◌==◌, if◌then◌else◌, arith,
}
use imxrt_usbh.Host.Error.{UsbError, Outcome, ok, err}
use imxrt_usbh.Host.Run.{Run, out_of_fuel}
use imxrt_usbh.Keyboard.{
  Task, Connection, DeviceEvent, connect, disconnect, enumeration_error, hub_connect, no_event,
  enum_attempts, read_device, start_midi, on_connect, on_event, on_events,
}
use imxrt_usbh.Keyboard.Packets.{last_note, show_packets_lem}
use imxrt_usbh.Midi.Driver as Driver
use imxrt_usbh.Midi.Driver.{Bus}
use imxrt_usbh.Midi.Identify.{identify}
use imxrt_usbh.Midi.Packet.{UsbMidiEventPacket}

-- The task waits for an event: no device is ready, and an attempt is left or was the last one.
pub record Waits (task : Task) : Type 0 where
  pub not_ready : task.midi_ready ≡ false
  pub attempt-lt : task.attempt < enum_attempts

-- A run that ends, as `P` says, or that has used up the reads, which it does not if `Fine` holds.
abbrev pub EndsAs {ℓ} : {A : Type ℓ} → Type 0 → (A → Type 0) → Run A → Type ℓ
EndsAs {A = A} Fine P run = ((run ≡ out_of_fuel) × ¬ Fine) ⊎ ((a : A) × (run ≡ Run.ok a) × P a)

-- Some read fails: the device is unplugged at last.
abbrev pub Fails : List (Outcome (List UsbMidiEventPacket)) → Type 0
Fails [] = ⊥
Fails (ok packets ∷ reads) = Fails reads
Fails (err e ∷ reads) = Unit

Outcome-cases {ℓ} :
    {A : Type ℓ} (o : Outcome A) → ((a : A) × (o ≡ ok a)) ⊎ ((e : UsbError) × (o ≡ err e))
Outcome-cases (ok a) = inl (a, refl)
Outcome-cases (err e) = inr (e, refl)

read_device-Waits :
    (reads : List (Outcome (List UsbMidiEventPacket))) (task : Task)
    → task.attempt < enum_attempts
    → EndsAs (Fails reads) Waits (read_device reads task)
unfolding read_device
read_device-Waits [] task h = inl (refl, λ fails. fails)
read_device-Waits (ok packets ∷ reads) task h = rw (show_packets_lem packets task.led) (
    read_device-Waits reads
      (record task {
        midi_messages = (task.midi_messages + length packets) % 2 ^ 32;
        led = last_note packets task.led;
      })
      h)
read_device-Waits (err e ∷ reads) task h =
    inr (record task { midi_ready = false }, refl, record { not_ready = refl; attempt-lt = h })

abbrev add_reset : Bool → ℕ → ℕ
add_reset again resets = if again then resets + 1 else resets

add_reset_zero : (again : Bool) (resets : ℕ) → add_reset again resets ≡ resets + add_reset again 0
add_reset_zero true resets = refl
add_reset_zero false resets = omega arith

module _ {bus : Bus} where
  start_midi-Waits :
      (c : Connection bus) (config_value in_ep : ℕ) (out_ep : Option ℕ) (task : Task)
      → Waits task
      → EndsAs (Fails c.reads) Waits (start_midi bus c config_value in_ep out_ep task)
  unfolding start_midi
  start_midi-Waits c config_value in_ep out_ep task w =
      elim (Outcome-cases (c.configure config_value)) [
        | inr (e, failed) ↦ rw (failed, start_midi) (inr (task, refl, w))
        | inl (device, done) ↦
            rw (done, start_midi)
              (elim (Outcome-cases (Driver.new bus device in_ep out_ep)) [
                | inr (e, failed) ↦ rw failed (inr (task, refl, w))
                | inl (midi, opened) ↦ rw opened (
                    read_device-Waits c.reads (record task { midi_messages = 0; midi_ready = true })
                      w.attempt-lt)
              ])
      ]

  on_connect-Waits :
      (c : Connection bus) (task : Task)
      → Waits task
      → EndsAs (Fails c.reads) Waits (on_connect bus c task)
  unfolding on_connect
  on_connect-Waits c task w =
      let task' : Task = record task { attempt = 0 } in
      let w' : Waits task' = record { not_ready = w.not_ready; attempt-lt = omega arith } in
      elim (Bool-cases (c.class == 9)) [
        | inl hub ↦ rw hub (inr (task', refl, w'))
        | inr other ↦ elim (Outcome-cases c.configuration) [
          | inr (e, failed) ↦ rw (other, failed) (inr (task', refl, w'))
          | inl (identifier, read) ↦ elim (Option-cases (identify identifier)) [
            | inl no_midi ↦ rw (other, read, no_midi) (inr (task', refl, w'))
            | inr (value, found) ↦ elim (Option-cases identifier.ep_in) [
              | inl no_in ↦ rw (other, read, found, no_in) (inr (task', refl, w'))
              | inr (in_ep, has_in) ↦
                  rw (other, read, found, has_in)
                    (start_midi-Waits c value in_ep identifier.ep_out task' w')
            ]
          ]
        ]
      ]

  -- Every device that connects is unplugged at last.
  abbrev pub Leaves : DeviceEvent bus → Type 0
  Leaves (connect c) = Fails c.reads
  Leaves disconnect = Unit
  Leaves enumeration_error = Unit
  Leaves hub_connect = Unit
  Leaves no_event = Unit

  abbrev pub AllLeave : List (DeviceEvent bus) → Type 0
  AllLeave [] = Unit
  AllLeave (event ∷ events) = Leaves event × AllLeave events

  -- The events that start the count of attempts again.
  abbrev pub clears : DeviceEvent bus → ℕ
  clears (connect c) = 1
  clears disconnect = 1
  clears enumeration_error = 0
  clears hub_connect = 0
  clears no_event = 0

  abbrev pub all_clears : List (DeviceEvent bus) → ℕ
  all_clears [] = 0
  all_clears (event ∷ events) = clears event + all_clears events

  on_event-Waits :
      (event : DeviceEvent bus) (task : Task)
      → Waits task
      → EndsAs
          (Leaves event)
          (λ (again, task').
            Waits task' × (add_reset again 0 + task.attempt ≤ task'.attempt + 4 * clears event))
          (on_event bus event task)
  unfolding on_event
  on_event-Waits (connect c) task w =
      let lt = w.attempt-lt in
      elim (on_connect-Waits c task w) [
        | inl (reading, stays) ↦ rw reading (inl (refl, stays))
        | inr (task', run, w') ↦ rw run (inr ((false, task'), refl, (w', omega arith)))
      ]
  on_event-Waits disconnect task w =
      let lt = w.attempt-lt in
      inr (
        (false, record task { midi_ready = false; attempt = 0 }),
        refl,
        (record { not_ready = refl; attempt-lt = omega arith }, omega arith),
      )
  on_event-Waits enumeration_error task w =
      elim (Bool-cases (ltb (task.attempt + 1) enum_attempts)) [
        | inl left ↦ rw left (
            inr (
              (true, record task { attempt = task.attempt + 1 }),
              refl,
              (record { not_ready = w.not_ready; attempt-lt = ground arith }, omega arith),
            ))
        | inr last ↦ rw last (inr ((false, task), refl, (w, omega arith)))
      ]
  on_event-Waits hub_connect task w = inr ((false, task), refl, (w, omega arith))
  on_event-Waits no_event task w = inr ((false, task), refl, (w, omega arith))

  -- Events that come to a task that waits for a device do not panic, whatever the devices answer and
  -- send. Either a device is still being read when the model's reads run out, and then not every device
  -- that connects is unplugged at last, that is, has a read that fails; or the task is through with the
  -- events: it waits again, its device marked as not ready and its counter of attempts below the limit,
  -- and the new attempts it has asked for are at most what the counter has grown by, and four for each
  -- device that has connected or disconnected.
  pub on_events-Waits :
      (events : List (DeviceEvent bus)) (resets : ℕ) (task : Task)
      → Waits task
      → EndsAs
          (AllLeave events)
          (λ (resets', task').
            Waits task' × (resets' + task.attempt ≤ resets + task'.attempt + 4 * all_clears events))
          (on_events bus events resets task)
  unfolding on_events
  on_events-Waits [] resets task w = inr ((resets, task), refl, (w, omega arith))
  on_events-Waits (event ∷ events) resets task w = elim (on_event-Waits event task w) [
    | inl (reading, stays) ↦ rw reading (inl (refl, λ (leaves, leave). stays leaves))
    | inr ((again, task'), run, (w', le)) ↦
        rw run (elim (on_events-Waits events (add_reset again resets) task' w') [
          | inl (reading, stays) ↦ inl (reading, λ (leaves, leave). stays leave)
          | inr ((resets', task''), runs, (w'', le')) ↦
              inr ((resets', task''), runs, (w'', omega (arith, add_reset_zero again resets)))
        ])
  ]
