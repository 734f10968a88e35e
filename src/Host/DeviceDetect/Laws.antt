-- ===== src/Host/DeviceDetect/Laws.antt =====
-- What one poll of the root port decodes, reports and writes.
use native.Mathlib.Nat.{mul-div_cancel, one-le-pow}
use imxrt_usbh.Base.{
  ℕ, zero, suc, ◌*◌, ◌/◌, ◌%◌, ◌^◌, ◌<◌, ◌≡◌, refl, sym, ap, ◌∙◌, Bool, true, false, not, ◌&&◌,
  Option, none, some, bit_and, ◌==◌, ◌!=◌, if◌then◌else◌, Bool-cases, Option-cases, arith, inl, inr,
  ◌⊎◌,
}
use imxrt_usbh.Base.Bits.{
  bit, bit_mask, not32, bit-bit_or, bit-bit_mask, ne-bit_and-bit_mask, eq-bit_and-bit_mask,
}
use imxrt_usbh.Base.Fields.{bit_and_field}
use imxrt_usbh.Ehci.Token.{shr}
use imxrt_usbh.Host.DeviceDetect.{
  set_enhostdiscondetect, clear_enhostdiscondetect, is_present, is_high_speed, same_status,
  port_event, status_from_portsc, clear_connect_change, poll_next,
}
use imxrt_usbh.Host.Error.{ready, pending}
use imxrt_usbh.Host.Port.{
  UsbSpeed, low1_5, full12, high480, DeviceStatus, present, absent, device_status, portsc1_w1c_mask,
}
use imxrt_usbh.Host.Port.Laws.{is_w1c, bit-portsc1_read_safe}
use imxrt_usbh.Host.Regs.{Ral, IsRal, reenable_port_change_interrupt}

-- The speed that the two bits of PSPD stand for.
abbrev pub speed_of : ℕ → UsbSpeed
speed_of zero = full12
speed_of (suc zero) = low1_5
speed_of (suc (suc zero)) = high480
speed_of (suc (suc (suc n))) = full12

field_of_two : (a k : ℕ) → shr (bit_and a (3 * 2 ^ k)) k ≡ a / 2 ^ k % 4
field_of_two a k =
    rw (bit_and_field 2 k a) (mul-div_cancel (a / 2 ^ k % 4) (one-le-pow k 2 (omega arith)))

scaled : (m q : ℕ) → 0 < q → (m * q != 0) ≡ (m != 0)
scaled zero q h = ground arith
scaled (suc m) q h = ground arith

-- A one-bit field that is not 0 has its bit on.
field_of_one : (a k : ℕ) → (shr (bit_and a (bit_mask k)) k != 0) ≡ bit a k
field_of_one a k = sym same ∙ ne-bit_and-bit_mask a k
  where
    field : bit_and a (bit_mask k) ≡ a / 2 ^ k % 2 * 2 ^ k
    field = ap (λ (t : ℕ). bit_and a t) (omega arith) ∙ bit_and_field 1 k a

    same : (bit_and a (bit_mask k) != 0) ≡ (shr (bit_and a (bit_mask k)) k != 0)
    same =
        rw (field, mul-div_cancel (a / 2 ^ k % 2) (one-le-pow k 2 (omega arith)))
          (scaled (a / 2 ^ k % 2) (2 ^ k) (one-le-pow k 2 (omega arith)))

if-not : (b : Bool) (s t : DeviceStatus) → (if not b then s else t) ≡ (if b then t else s)
if-not true s t = refl
if-not false s t = refl

from_chain :
    (n : ℕ)
    → (if n == 1 then present low1_5 else if n == 2 then present high480 else present full12)
      ≡ present (speed_of n)
from_chain zero = refl
from_chain (suc zero) = refl
from_chain (suc (suc zero)) = refl
from_chain (suc (suc (suc n))) = ground arith

device_chain :
    (n : ℕ)
    → (if n == 0 then full12 else if n == 1 then low1_5 else if n == 2 then high480 else full12)
      ≡ speed_of n
device_chain zero = refl
device_chain (suc zero) = refl
device_chain (suc (suc zero)) = refl
device_chain (suc (suc (suc n))) = ground arith

module _ (r : Ral) (portsc : ℕ) where
  status_from_portsc_speed :
      status_from_portsc r portsc
      ≡ (if bit portsc r.ccs then present (speed_of (portsc / 2 ^ r.pspd % 4)) else absent)
  unfolding status_from_portsc
  status_from_portsc_speed =
      rw
        (
          field_of_two portsc r.pspd,
          eq-bit_and-bit_mask portsc r.ccs,
          from_chain (portsc / 2 ^ r.pspd % 4),
        )
        (if-not (bit portsc r.ccs) _ _)

  device_status_speed :
      device_status r portsc
      ≡ (if bit portsc r.ccs then present (speed_of (portsc / 2 ^ r.pspd % 4)) else absent)
  unfolding device_status
  device_status_speed = rw (
    field_of_two portsc r.pspd,
    field_of_one portsc r.ccs,
    device_chain (portsc / 2 ^ r.pspd % 4),
  )

  -- Both decoders read the port alike: absent if CCS is off, and otherwise at the speed that PSPD
  -- stands for, its reserved value read as full speed.
  pub status_from_portsc_lem :
      (status_from_portsc r portsc
        ≡ (if bit portsc r.ccs then present (speed_of (portsc / 2 ^ r.pspd % 4)) else absent))
      × (device_status r portsc ≡ status_from_portsc r portsc)
  status_from_portsc_lem =
      (status_from_portsc_speed, device_status_speed ∙ sym status_from_portsc_speed)

  -- Whether the status is a connected one.
  pub is_present-status_from_portsc : is_present (status_from_portsc r portsc) ≡ bit portsc r.ccs
  is_present-status_from_portsc = elim (Bool-cases (bit portsc r.ccs)) [
    | inl on ↦ rw (status_from_portsc_speed, on)
    | inr off ↦ rw (status_from_portsc_speed, off)
  ]

-- The write that acknowledges a connect change leaves every bit as it was read but the flags that a
-- written 1 clears, of which it acknowledges exactly CSC.
pub clear_connect_change_lem :
    {r : Ral} (spec : IsRal r) (portsc k : ℕ)
    → k < 32
    → bit (clear_connect_change r portsc) k
      ≡ (if r.csc == k then true else bit portsc k && not (is_w1c r k))
unfolding clear_connect_change
clear_connect_change_lem {r} spec portsc k h = ground (
  arith,
  bit-bit_or (bit_and portsc (not32 (portsc1_w1c_mask r))) (bit_mask r.csc) k,
  bit-bit_mask r.csc k,
  bit-portsc1_read_safe spec portsc k h,
)

tracked : (now status : DeviceStatus) → (if same_status now status then status else now) ≡ now
tracked (present low1_5) (present low1_5) = refl
tracked (present low1_5) (present full12) = refl
tracked (present low1_5) (present high480) = refl
tracked (present full12) (present low1_5) = refl
tracked (present full12) (present full12) = refl
tracked (present full12) (present high480) = refl
tracked (present high480) (present low1_5) = refl
tracked (present high480) (present full12) = refl
tracked (present high480) (present high480) = refl
tracked (present speed) absent = refl
tracked absent (present speed) = refl
tracked absent absent = refl

none_or_set :
    (b : Bool)
    → let written = if b then some set_enhostdiscondetect else none in
      (written ≡ none) ⊎ (written ≡ some set_enhostdiscondetect)
none_or_set true = inr refl
none_or_set false = inl refl

other_speed :
    (now status : DeviceStatus)
    → is_high_speed now ≡ true
    → is_high_speed status ≡ false
    → same_status now status ≡ false
other_speed (present high480) (present low1_5) h k = refl
other_speed (present high480) (present full12) h k = refl
other_speed (present high480) (present high480) h k = absurd (ground arith)
other_speed (present high480) absent h k = refl
other_speed (present low1_5) status h k = absurd (ground arith)
other_speed (present full12) status h k = absurd (ground arith)
other_speed absent status h k = absurd (ground arith)

module _ (r : Ral) (status : DeviceStatus) (portsc usbintr : ℕ) where
  read_event :
      {event : Option DeviceStatus}
      → port_event status (status_from_portsc r portsc) (bit portsc r.csc) ≡ event
      → port_event status (status_from_portsc r portsc) (bit_and portsc (bit_mask r.csc) != 0)
        ≡ event
  read_event h =
      ap (port_event status (status_from_portsc r portsc)) (ne-bit_and-bit_mask portsc r.csc) ∙ h

  pub poll_next_event :
      (report : DeviceStatus)
      → port_event status (status_from_portsc r portsc) (bit portsc r.csc) ≡ some report
      → let polled = poll_next r status portsc usbintr in
        (polled.result ≡ ready (some report))
        × (polled.status ≡ report)
        × (polled.phy_written
            ≡ some
                (if is_high_speed report then set_enhostdiscondetect else clear_enhostdiscondetect))
  unfolding poll_next
  poll_next_event report h = rw (read_event h, poll_next) (refl, refl, refl)

  pub poll_next_quiet :
      port_event status (status_from_portsc r portsc) (bit portsc r.csc) ≡ none
      → let now = status_from_portsc r portsc in
        let polled = poll_next r status portsc usbintr in
        (polled.result ≡ pending)
        × (polled.status ≡ now)
        × (is_high_speed now ≡ true
            → is_high_speed status ≡ false
            → polled.phy_written ≡ some set_enhostdiscondetect)
        × ((polled.phy_written ≡ none) ⊎ (polled.phy_written ≡ some set_enhostdiscondetect))
        × (is_high_speed now ≡ false → polled.phy_written ≡ none)
  unfolding poll_next
  poll_next_quiet h =
      rw (read_event h, poll_next)
        (
          refl,
          tracked (status_from_portsc r portsc) status,
          λ high low. ground (arith, other_speed (status_from_portsc r portsc) status high low),
          none_or_set (
              not (same_status (status_from_portsc r portsc) status)
              && is_high_speed (status_from_portsc r portsc)),
          λ low. ground arith,
        )

  -- A poll acknowledges a connect change exactly if it has read one.
  pub poll_next-portsc1_written :
      (poll_next r status portsc usbintr).portsc1_written
      ≡ (if bit portsc r.csc then some (clear_connect_change r portsc) else none)
  unfolding poll_next
  poll_next-portsc1_written =
      elim (Option-cases
        (port_event status (status_from_portsc r portsc) (bit_and portsc (bit_mask r.csc) != 0))) [
          | inl quiet ↦ rw (quiet, poll_next, ne-bit_and-bit_mask portsc r.csc)
          | inr (report, event) ↦ rw (event, poll_next, ne-bit_and-bit_mask portsc r.csc)
        ]

  pub poll_next-usbintr :
      (poll_next r status portsc usbintr).usbintr ≡ reenable_port_change_interrupt r usbintr
  unfolding poll_next
  poll_next-usbintr =
      elim (Option-cases
        (port_event status (status_from_portsc r portsc) (bit_and portsc (bit_mask r.csc) != 0))) [
          | inl quiet ↦ rw (quiet, poll_next)
          | inr (report, event) ↦ rw (event, poll_next)
        ]
