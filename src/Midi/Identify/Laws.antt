-- ===== src/Midi/Identify/Laws.antt =====
-- Which endpoints and configuration the visitor finds.
use imxrt_usbh.Base.{
  ℕ, ◌%◌, ◌≡◌, refl, sym, ap, ap₂, ◌∙◌, Bool, true, false, not, ◌&&◌, Option, none, some, List, [],
  ◌∷◌, bit_and, ◌==◌, ◌!=◌, if◌then◌else◌, Bool-cases, arith, inl, inr,
}
use imxrt_usbh.Base.Bits.{bit, ne-bit_and-bit_mask}
use imxrt_usbh.Base.Fields.{bit_and_low}
use imxrt_usbh.Midi.Identify.{
  IdentifyMidi, default, Descriptor, configuration, interface, endpoint, other, on_configuration,
  on_interface, on_endpoint, on_descriptor, visit, identify, is_none,
}

-- A MIDI streaming interface: the class and subclass of the USB audio specification.
abbrev pub is_midi : (class subclass : ℕ) → Bool
is_midi class subclass = class == 1 && subclass == 3

abbrev pub is_bulk : (attributes : ℕ) → Bool
is_bulk attributes = attributes % 4 == 2

abbrev same_direction : Bool → Bool → Bool
same_direction true b = b
same_direction false b = not b

-- The numbers of the bulk endpoints of one direction on the MIDI streaming interfaces, in order;
-- `on` says whether the first descriptors belong to such an interface.
abbrev pub midi_endpoints : (is_in on : Bool) → List Descriptor → List ℕ
midi_endpoints is_in on [] = []
midi_endpoints is_in on (configuration value ∷ ds) = midi_endpoints is_in on ds
midi_endpoints is_in on (interface class subclass ∷ ds) =
    midi_endpoints is_in (is_midi class subclass) ds
midi_endpoints is_in on (endpoint address attributes ∷ ds) =
    let rest = midi_endpoints is_in on ds in
    if on && is_bulk attributes && same_direction is_in (bit address 7)
    then address % 16 ∷ rest
    else rest
midi_endpoints is_in on (other bytes ∷ ds) = midi_endpoints is_in on ds

-- The configuration of the last MIDI streaming interface, if there is one.
abbrev pub last_configuration : (current found : Option ℕ) → List Descriptor → Option ℕ
last_configuration current found [] = found
last_configuration current found (configuration value ∷ ds) =
    last_configuration (some value) found ds
last_configuration current found (interface class subclass ∷ ds) =
    last_configuration current (if is_midi class subclass then current else found) ds
last_configuration current found (endpoint address attributes ∷ ds) =
    last_configuration current found ds
last_configuration current found (other bytes ∷ ds) = last_configuration current found ds

abbrev pub or_first : Option ℕ → List ℕ → Option ℕ
or_first (some n) ns = some n
or_first none (n ∷ ns) = some n
or_first none [] = none

or_first-nil : (o : Option ℕ) → or_first o [] ≡ o
or_first-nil none = refl
or_first-nil (some n) = refl

-- `on_endpoint` by what its tests mean.
abbrev step : (inside bulk is_in : Bool) → (number : ℕ) → IdentifyMidi → IdentifyMidi
step false bulk is_in number self = self
step true false is_in number self = self
step true true true number self = record self { ep_in = or_first self.ep_in (number ∷ []) }
step true true false number self = record self { ep_out = or_first self.ep_out (number ∷ []) }

new_in :
    (o : Option ℕ) (self : IdentifyMidi) (n : ℕ)
    → (if is_none o then record self { ep_in = some n } else record self { ep_in = o })
      ≡ record self { ep_in = or_first o (n ∷ []) }
new_in none self n = refl
new_in (some m) self n = refl

new_out :
    (o : Option ℕ) (self : IdentifyMidi) (n : ℕ)
    → (if is_none o then record self { ep_out = some n } else record self { ep_out = o })
      ≡ record self { ep_out = or_first o (n ∷ []) }
new_out none self n = refl
new_out (some m) self n = refl

on_endpoint-step :
    (address attributes : ℕ) (self : IdentifyMidi)
    → on_endpoint address attributes self
      ≡ step self.midi_interface (is_bulk attributes) (bit address 7) (address % 16) self
unfolding on_endpoint
on_endpoint-step address attributes self =
    rw (bulk, is_in, number)
      (meaning self.midi_interface (is_bulk attributes) (bit address 7) (address % 16))
  where
    bulk : (bit_and attributes 0x03 != 0x02) ≡ not (is_bulk attributes)
    bulk = ground (arith, bit_and_low 2 attributes)

    is_in : (bit_and address 0x80 != 0) ≡ bit address 7
    is_in = ne-bit_and-bit_mask address 7

    number : bit_and address 0x0f ≡ address % 16
    number = bit_and_low 4 address

    meaning :
        (inside bulk is_in : Bool) (n : ℕ)
        → (if not inside
            then self
            else if not bulk
            then self
            else if is_in
            then if is_none self.ep_in then record self { ep_in = some n } else self
            else if is_none self.ep_out
            then record self { ep_out = some n }
            else self)
          ≡ step inside bulk is_in n self
    meaning false bulk is_in n = refl
    meaning true false is_in n = refl
    meaning true true true n = new_in self.ep_in self n
    meaning true true false n = new_out self.ep_out self n

or_first-or_first :
    (o : Option ℕ) (found : Bool) (n : ℕ) (rest : List ℕ)
    → or_first (or_first o (if found then n ∷ [] else [])) rest
      ≡ or_first o (if found then n ∷ rest else rest)
or_first-or_first (some m) found n rest = refl
or_first-or_first none true n rest = refl
or_first-or_first none false n rest = refl

-- What an endpoint changes.
step_lem :
    (inside bulk is_in : Bool) (n : ℕ) (self : IdentifyMidi)
    → let self' = step inside bulk is_in n self in
      (self'.current_configuration ≡ self.current_configuration)
      × (self'.midi_configuration ≡ self.midi_configuration)
      × (self'.midi_interface ≡ self.midi_interface)
      × (self'.ep_in
          ≡ or_first self.ep_in
              (if inside && bulk && same_direction true is_in then n ∷ [] else []))
      × (self'.ep_out
          ≡ or_first self.ep_out
              (if inside && bulk && same_direction false is_in then n ∷ [] else []))
step_lem false bulk is_in n self =
    (refl, refl, refl, sym (or_first-nil self.ep_in), sym (or_first-nil self.ep_out))
step_lem true false is_in n self =
    (refl, refl, refl, sym (or_first-nil self.ep_in), sym (or_first-nil self.ep_out))
step_lem true true true n self = (refl, refl, refl, refl, sym (or_first-nil self.ep_out))
step_lem true true false n self = (refl, refl, refl, sym (or_first-nil self.ep_in), refl)

on_interface_lem :
    (class subclass : ℕ) (self : IdentifyMidi)
    → let self' = on_interface class subclass self in
      (self'.ep_in ≡ self.ep_in)
      × (self'.ep_out ≡ self.ep_out)
      × (self'.midi_interface ≡ is_midi class subclass)
      × (self'.current_configuration ≡ self.current_configuration)
      × (self'.midi_configuration ≡ (
          if is_midi class subclass then self.current_configuration else self.midi_configuration))
unfolding on_interface
on_interface_lem class subclass self = elim (Bool-cases (is_midi class subclass)) [
  | inl midi ↦ rw midi (refl, refl, refl, refl, refl)
  | inr otherwise ↦ rw otherwise (refl, refl, refl, refl, refl)
]

-- The visitor ends with the first bulk endpoint of each direction on a MIDI streaming interface,
-- beyond what it had found, and with the configuration of the last such interface.
pub visit_lem :
    (ds : List Descriptor) (self : IdentifyMidi)
    → let found = visit ds self in
      (found.ep_in ≡ or_first self.ep_in (midi_endpoints true self.midi_interface ds))
      × (found.ep_out ≡ or_first self.ep_out (midi_endpoints false self.midi_interface ds))
      × (found.midi_configuration
          ≡ last_configuration self.current_configuration self.midi_configuration ds)
unfolding visit on_descriptor on_configuration
visit_lem [] self = (sym (or_first-nil self.ep_in), sym (or_first-nil self.ep_out), refl)
visit_lem (configuration value ∷ ds) self = visit_lem ds (on_configuration value self)
visit_lem (interface class subclass ∷ ds) self =
    let rest = visit_lem ds (on_interface class subclass self) in
    let now = on_interface_lem class subclass self in
    (
      rest.0 ∙ ap₂ (λ o on. or_first o (midi_endpoints true on ds)) now.0 now.2,
      rest.1 ∙ ap₂ (λ o on. or_first o (midi_endpoints false on ds)) now.1 now.2,
      rest.2 ∙ ap₂ (λ current found. last_configuration current found ds) now.3 now.4,
    )
visit_lem (endpoint address attributes ∷ ds) self =
    let rest = visit_lem ds (on_endpoint address attributes self) in
    let is_step = on_endpoint-step address attributes self in
    let now =
      step_lem self.midi_interface (is_bulk attributes) (bit address 7) (address % 16) self in
    let found : (is_in : Bool) → Bool =
      λ is_in. self.midi_interface && is_bulk attributes && same_direction is_in (bit address 7) in
    (
      rest.0
          ∙ ap₂ (λ o on. or_first o (midi_endpoints true on ds)) (ap (λ x. x.ep_in) is_step ∙ now.3)
              (ap (λ x. x.midi_interface) is_step ∙ now.2)
          ∙ or_first-or_first self.ep_in (found true) (address % 16)
              (midi_endpoints true self.midi_interface ds),
      rest.1
          ∙ ap₂ (λ o on. or_first o (midi_endpoints false on ds))
              (ap (λ x. x.ep_out) is_step ∙ now.4) (ap (λ x. x.midi_interface) is_step ∙ now.2)
          ∙ or_first-or_first self.ep_out (found false) (address % 16)
              (midi_endpoints false self.midi_interface ds),
      rest.2
          ∙ ap₂ (λ current last. last_configuration current last ds)
              (ap (λ x. x.current_configuration) is_step ∙ now.0)
              (ap (λ x. x.midi_configuration) is_step ∙ now.1),
    )
visit_lem (other bytes ∷ ds) self = visit_lem ds self

-- On the descriptors of a device, `identify` gives a configuration only if there is a bulk IN
-- endpoint on a MIDI streaming interface, and then that of the last such interface; the endpoint
-- numbers kept are those of the first bulk IN and bulk OUT endpoints on such interfaces.
pub identify-visit :
    (ds : List Descriptor)
    → let found = visit ds default in
      (found.ep_in ≡ or_first none (midi_endpoints true false ds))
      × (found.ep_out ≡ or_first none (midi_endpoints false false ds))
      × (identify found
          ≡ elim (midi_endpoints true false ds) [ [] ↦ none | _ ↦ last_configuration none none ds ])
unfolding identify
identify-visit ds =
    let found = visit_lem ds default in
    (
      found.0,
      found.1,
      ap₂ (λ o c. if is_none o then none else c) found.0 found.2
          ∙ first (midi_endpoints true false ds) _,
    )
  where
    first :
        (ns : List ℕ) (c : Option ℕ)
        → (if is_none (or_first none ns) then none else c) ≡ elim ns [ [] ↦ none | _ ↦ c ]
    first [] c = refl
    first (n ∷ ns) c = refl
