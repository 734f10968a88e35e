-- ===== src/Host/DeviceDetect.antt =====
-- device_detect.rs: the stream of device statuses of the root port.
pub mod Laws
pub mod Reports
use imxrt_usbh.Base.{
  ℕ, ◌*◌, ◌^◌, Bool, true, false, not, ◌&&◌, Option, none, some, bit_and, bit_or, ◌==◌, ◌!=◌,
  if◌then◌else◌,
}
use imxrt_usbh.Base.Bits.{bit_mask, not32}
use imxrt_usbh.Ehci.Token.{shr}
use imxrt_usbh.Host.Error.{Poll, ready, pending}
use imxrt_usbh.Host.Port.{
  UsbSpeed, low1_5, full12, high480, DeviceStatus, present, absent, portsc1_w1c_mask,
}
use imxrt_usbh.Host.Regs.{Ral, reenable_port_change_interrupt}

-- A write of ENHOSTDISCONDETECT to CTRL_SET or CTRL_CLR.
pub data PhyWrite : Type 0 where
  set_enhostdiscondetect clear_enhostdiscondetect : PhyWrite

-- What a poll does: its result, the status that it leaves in the stream, and what it writes to
-- PORTSC1, to the PHY and to USBINTR.
pub record Polled : Type 0 where
  pub result : Poll (Option DeviceStatus)
  pub status : DeviceStatus
  pub portsc1_written : Option ℕ
  pub phy_written : Option PhyWrite
  pub usbintr : ℕ

abbrev pub is_present : DeviceStatus → Bool
is_present (present speed) = true
is_present absent = false

abbrev same_speed : UsbSpeed → UsbSpeed → Bool
same_speed low1_5 low1_5 = true
same_speed full12 full12 = true
same_speed high480 high480 = true
same_speed _ _ = false

-- `==` on statuses.
abbrev pub same_status : DeviceStatus → DeviceStatus → Bool
same_status (present s) (present t) = same_speed s t
same_status absent absent = true
same_status _ _ = false

abbrev pub is_high_speed : DeviceStatus → Bool
is_high_speed (present high480) = true
is_high_speed _ = false

abbrev same_bool : Bool → Bool → Bool
same_bool true b = b
same_bool false b = not b

unfoldable pub port_event : (previous now : DeviceStatus) → (changed : Bool) → Option DeviceStatus
port_event previous now changed =
    let was_connected = is_present previous in
    let is_connected = is_present now in
    if not (same_bool was_connected is_connected)
    then some now
    else if is_connected && changed
    then some absent
    else none

module _ (r : Ral) where
  unfoldable pub status_from_portsc : (portsc : ℕ) → DeviceStatus
  status_from_portsc portsc =
      if bit_and portsc (bit_mask r.ccs) == 0
      then absent
      else let speed = shr (bit_and portsc (3 * 2 ^ r.pspd)) r.pspd in
        if speed == 1
        then present low1_5
        else if speed == 2
        then present high480
        else present full12

  -- The value written to PORTSC1.
  unfoldable pub clear_connect_change : (portsc : ℕ) → ℕ
  clear_connect_change portsc =
      bit_or (bit_and portsc (not32 (portsc1_w1c_mask r))) (bit_mask r.csc)

  unfoldable pub poll_next : (status : DeviceStatus) → (portsc usbintr : ℕ) → Polled
  poll_next status portsc usbintr =
      let device_status = status_from_portsc portsc in
      let changed = bit_and portsc (bit_mask r.csc) != 0 in
      let portsc1_written = if changed then some (clear_connect_change portsc) else none in
      let usbintr' = reenable_port_change_interrupt r usbintr in
      elim (port_event status device_status changed) [
        | some report ↦ record {
          result = ready (some report);
          status = report;
          portsc1_written = portsc1_written;
          phy_written =
              some
                (if is_high_speed report then set_enhostdiscondetect else clear_enhostdiscondetect);
          usbintr = usbintr';
        }
        | none ↦ record {
          result = pending;
          status = if same_status device_status status then status else device_status;
          portsc1_written = portsc1_written;
          phy_written =
              if not (same_status device_status status) && is_high_speed device_status
              then some set_enhostdiscondetect
              else none;
          usbintr = usbintr';
        }
      ]
