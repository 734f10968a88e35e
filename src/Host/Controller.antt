-- ===== src/Host/Controller.antt =====
-- controller.rs, `init`: the schedules, and the registers that hold what the driver relies on.
pub mod Laws
pub mod Reset
use imxrt_usbh.Base.{ℕ, ◌*◌, ◌^◌, Bool, get_or, set, bit_or, if◌then◌else◌}
use imxrt_usbh.Base.Bits.{bit_mask}
use imxrt_usbh.Ehci.Qh
use imxrt_usbh.Ehci.Qh.{init_sentinel}
use imxrt_usbh.Host.Port.{portsc1_read_safe}
use imxrt_usbh.Host.Regs.{Ral}
use imxrt_usbh.Host.Statics.{UsbStatics, Layout, qh_addr}

-- The statics afterwards, and what is written to ASYNCLISTADDR, DEVICEADDR (the base of the periodic
-- list), FRINDEX, USBSTS, USBCMD, PORTSC1 and, first and last, USBINTR.
pub record Initialised (Pool : Type 0) : Type 0 where
  pub statics : UsbStatics Pool
  pub asynclistaddr : ℕ
  pub deviceaddr : ℕ
  pub frindex : ℕ
  pub usbintr_first : ℕ
  pub usbsts : ℕ
  pub usbcmd : ℕ
  pub portsc1 : ℕ
  pub usbintr : ℕ

module _ (r : Ral) where
  unfoldable pub enabled_interrupts : ℕ
  enabled_interrupts =
      bit_or
        (bit_or
          (bit_or
            (bit_or (bit_or (bit_or (bit_mask r.ue) (bit_mask r.uee)) (bit_mask r.pce))
              (bit_mask r.see))
            (bit_mask r.aae))
          (bit_mask r.uaie))
        (bit_mask r.upie)

  -- RS, FS_1 = 1, PSE, ASP = 3, ASPE, FS_2, ITC = 1.
  unfoldable pub started_command : ℕ
  started_command =
      bit_or
        (bit_or
          (bit_or
            (bit_or (bit_or (bit_or (1 * 2 ^ r.rs) (1 * 2 ^ r.fs_1)) (1 * 2 ^ r.pse))
              (3 * 2 ^ r.asp))
            (1 * 2 ^ r.aspe))
          (1 * 2 ^ r.fs_2))
        (1 * 2 ^ r.itc)

  -- From the async schedule on; `portsc1` and `usbsts` are the registers as they are read,
  -- `frame_list` is the address of the frame list.
  unfoldable pub init :
      {Pool : Type 0}
      → Layout
      → (frame_list : ℕ) (hub_support : Bool) (portsc1 usbsts : ℕ) → UsbStatics Pool
      → Initialised Pool
  init l frame_list hub_support portsc1 usbsts s =
      let sentinel = qh_addr l 0 in
      let portsc = portsc1_read_safe r portsc1 in
      let powered = bit_or portsc (bit_mask r.pp) in
      record {
        statics = record s {
          qh_pool = set s.qh_pool 0 (init_sentinel sentinel (get_or s.qh_pool 0 Qh.new));
        };
        asynclistaddr = sentinel;
        deviceaddr = frame_list;
        frindex = 0;
        usbintr_first = 0;
        usbsts = usbsts;
        usbcmd = started_command;
        portsc1 = if hub_support then bit_or powered (bit_mask r.pfsc) else powered;
        usbintr = enabled_interrupts;
      }
