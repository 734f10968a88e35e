-- ===== src/Host/Controller/Laws.antt =====
-- What `init` leaves in the schedules and the registers.
use mathlib.Core.Bool.{or_assoc}
use imxrt_usbh.Base.{
  ℕ, ◌<◌, ◌+◌, ◌*◌, ◌^◌, ◌≡◌, refl, Bool, true, false, not, ◌&&◌, ◌||◌, [], bit_and, bit_or, ◌==◌,
  if◌then◌else◌, arith,
}
use imxrt_usbh.Base.Bits.{bit, bit_mask, bit-bit_or, bit-bit_mask, not32}
use imxrt_usbh.Ehci.Qh
use imxrt_usbh.Ehci.Link.{link_is_terminate}
use imxrt_usbh.Host.Controller.{init, enabled_interrupts, started_command}
use imxrt_usbh.Host.Port.{portsc1_read_safe, portsc1_w1c_mask}
use imxrt_usbh.Host.Port.Laws.{is_w1c, bit-portsc1_read_safe}
use imxrt_usbh.Host.Regs.{Ral, IsRal}
use imxrt_usbh.Host.Schedule.Both.{IsScheduled}
use imxrt_usbh.Host.Statics
use imxrt_usbh.Host.Statics.{UsbStatics, Layout, num_qh, qh_addr}

module _ {Pool : Type 0} (r : Ral) (l : Layout) (frame_list : ℕ) (hub_support : Bool)
    (portsc1 usbsts : ℕ) (pool_new : ℕ → Pool) where
  -- From the statics as they are built, `init` leaves both schedules empty, the async schedule with the
  -- sentinel alone, whose address the controller is given.
  pub init-IsScheduled :
      let started = init r l frame_list hub_support portsc1 usbsts (Statics.new pool_new) in
      (started.asynclistaddr ≡ qh_addr l 0) × IsScheduled l started.statics [] []
  unfolding init Statics.new Qh.init_sentinel link_is_terminate
  init-IsScheduled = (
    refl,
    record {
      ring = record { path = refl; distinct = (refl, tt); in_pool = tt; size = refl };
      periodic = record { in_sync = refl; chain = refl; distinct = tt; in_pool = tt; size = refl };
      apart = λ x h. absurd (ground arith);
    },
  )

-- `init` runs the controller with the periodic schedule and a frame list of 32 entries; it enables exactly the interrupts for transfers, port changes, async advances and system
-- errors, and its write to PORTSC1 sets port power, and PFSC if hubs are to be supported, keeps the
-- other bits as read and acknowledges no flag that a written 1 clears.
pub init-registers :
    {r : Ral} (spec : IsRal r) {Pool : Type 0} (l : Layout) (frame_list : ℕ) (hub_support : Bool)
    (portsc1 usbsts k : ℕ) (s : UsbStatics Pool)
    → k < 32
    → let started = init r l frame_list hub_support portsc1 usbsts s in
      (started.usbcmd ≡ 2 ^ 0 + 2 ^ 2 + 2 ^ 4 + 3 * 2 ^ 8 + 2 ^ 11 + 2 ^ 15 + 2 ^ 16)
      × (bit started.usbintr k ≡ (
          r.ue == k
          || r.uee == k
          || r.pce == k
          || r.see == k
          || r.aae == k
          || r.uaie == k
          || r.upie == k))
      × (bit started.portsc1 k
          ≡ (r.pp == k || (hub_support && r.pfsc == k) || (bit portsc1 k && not (is_w1c r k))))
unfolding init portsc1_read_safe enabled_interrupts
init-registers {r} spec l frame_list hub_support portsc1 usbsts k s h =
    (command, simp (bit-bit_or, bit-bit_mask, or_assoc), power hub_support)
  where
    safe : ℕ
    safe = bit_and portsc1 (not32 (portsc1_w1c_mask r))

    command : started_command r ≡ 0x18b15
    command =
        unfold started_command in
        rw
          (
            spec.rs_at, spec.fs_1_at, spec.pse_at, spec.asp_at, spec.aspe_at, spec.fs_2_at,
            spec.itc_at,
          )
          refl

    power :
        (hub : Bool)
        → bit
            (if hub
              then bit_or (bit_or safe (bit_mask r.pp)) (bit_mask r.pfsc)
              else bit_or safe (bit_mask r.pp))
            k
          ≡ (r.pp == k || (hub && r.pfsc == k) || (bit portsc1 k && not (is_w1c r k)))
    power true = ground (
      arith,
      bit-bit_or (bit_or safe (bit_mask r.pp)) (bit_mask r.pfsc) k,
      bit-bit_or safe (bit_mask r.pp) k,
      bit-bit_mask r.pp k,
      bit-bit_mask r.pfsc k,
      bit-portsc1_read_safe spec portsc1 k h,
    )
    power false = ground (
      arith,
      bit-bit_or safe (bit_mask r.pp) k,
      bit-bit_mask r.pp k,
      bit-portsc1_read_safe spec portsc1 k h,
    )
