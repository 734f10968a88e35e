-- ===== src/Host/Port.antt =====
-- controller.rs and trait_impl.rs: what is read from and written to PORTSC1.
pub mod Laws
use imxrt_usbh.Base.{ℕ, ◌*◌, ◌^◌, Bool, true, false, bit_and, bit_or, ◌==◌, ◌!=◌, if◌then◌else◌}
use imxrt_usbh.Base.Bits.{bit_mask, not32}
use imxrt_usbh.Ehci.Token.{shr}
use imxrt_usbh.Host.Regs.{Ral}

-- cotton-usb-host's `UsbSpeed` and `DeviceStatus`, with the variants that the driver names.
pub data UsbSpeed : Type 0 where
  low1_5 full12 high480 : UsbSpeed

pub data DeviceStatus : Type 0 where
  present : UsbSpeed → DeviceStatus
  absent : DeviceStatus

module _ (r : Ral) where
  unfoldable pub portsc1_w1c_mask : ℕ
  portsc1_w1c_mask =
      bit_or (bit_or (bit_or (bit_mask r.csc) (bit_mask r.pec)) (bit_mask r.occ)) (bit_mask r.fpr)

  unfoldable pub portsc1_read_safe : (portsc1 : ℕ) → ℕ
  portsc1_read_safe portsc1 = bit_and portsc1 (not32 portsc1_w1c_mask)

  -- The value written to PORTSC1.
  unfoldable pub reset_root_port : (rst : Bool) → (portsc1 : ℕ) → ℕ
  reset_root_port rst portsc1 =
      let portsc = portsc1_read_safe portsc1 in
      if rst
      then bit_or portsc (bit_mask r.pr)
      else bit_or (bit_and portsc (not32 (bit_mask r.pr))) (bit_mask r.csc)

  unfoldable pub port_speed : (portsc1 : ℕ) → ℕ
  port_speed portsc1 = shr (bit_and portsc1 (3 * 2 ^ r.pspd)) r.pspd

  unfoldable pub device_status : (portsc1 : ℕ) → DeviceStatus
  device_status portsc1 =
      let connected = shr (bit_and portsc1 (bit_mask r.ccs)) r.ccs in
      let pspd = shr (bit_and portsc1 (3 * 2 ^ r.pspd)) r.pspd in
      if connected != 0
      then present (
          if pspd == 0
          then UsbSpeed.full12
          else if pspd == 1
          then UsbSpeed.low1_5
          else if pspd == 2
          then UsbSpeed.high480
          else UsbSpeed.full12)
      else absent
