-- ===== src/Midi/Driver.antt =====
-- midi.rs: the driver's handle, and what it uses of cotton-usb-host's bus.
use imxrt_usbh.Base.{ℕ, Bool, true, false, Option, none, some, List}
use imxrt_usbh.Host.Error.{Outcome, ok, err}

-- cotton-usb-host's `TransferType`.
pub data TransferType : Type 0 where
  fixed_size variable_size : TransferType

-- cotton-usb-host's `UsbBus` and `UsbDevice`: its endpoint handles, the state of the bus and of the
-- device, and the calls of the driver. A transfer in takes the buffer and gives back what it has
-- made of it.
pub record Bus : Type 1 where
  pub BulkIn : Type 0
  pub BulkOut : Type 0
  pub State : Type 0
  pub Device : Type 0
  pub open_in_endpoint : Device → (number : ℕ) → Outcome BulkIn × Device
  pub open_out_endpoint : Device → (number : ℕ) → Outcome BulkOut × Device
  pub bulk_in_transfer : BulkIn → (buf : List ℕ) → TransferType → State → Outcome ℕ × List ℕ × State
  pub bulk_out_transfer : BulkOut → (bytes : List ℕ) → TransferType → State → Outcome ℕ × State

pub record Midi (bus : Bus) : Type 0 where
  pub bulk_in : bus.BulkIn
  pub bulk_out : Option bus.BulkOut

module _ (bus : Bus) where
  unfoldable pub new : (device : bus.Device) (in_ep : ℕ) (out_ep : Option ℕ) → Outcome (Midi bus)
  new device in_ep out_ep =
      let (opened, device') = bus.open_in_endpoint device in_ep in
      elim opened [
        | err e ↦ err e
        | ok bulk_in ↦ elim out_ep [
          | none ↦ ok (record { bulk_in = bulk_in; bulk_out = none })
          | some ep ↦
              let (opened_out, device'') = bus.open_out_endpoint device' ep in
              elim opened_out [
                | err e ↦ err e
                | ok bulk_out ↦ ok (record { bulk_in = bulk_in; bulk_out = some bulk_out })
              ]
        ]
      ]

  unfoldable pub has_out_endpoint : Midi bus → Bool
  has_out_endpoint self = elim self.bulk_out [ none ↦ false | some out ↦ true ]
