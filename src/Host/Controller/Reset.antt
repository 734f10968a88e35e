-- ===== src/Host/Controller/Reset.antt =====
-- controller.rs, `init` as the sequence of its register writes, with the reset of the PHY and the
-- controller before the schedules.
use imxrt_usbh.Base.{
  ℕ, ◌*◌, ◌^◌, ◌≡◌, refl, Bool, true, false, inl, inr, Bool-cases, List, [], ◌∷◌, ◌++◌, bit_or,
  bit_and, ◌!=◌, if◌then◌else◌,
}
use imxrt_usbh.Base.Bits.{bit, bit_mask, ne-bit_and-bit_mask}
use imxrt_usbh.Host.Controller.{init}
use imxrt_usbh.Host.Regs.{Ral, set_fields}
use imxrt_usbh.Host.Run.{Run, ok, out_of_fuel, ◌>>=◌}
use imxrt_usbh.Host.Statics.{UsbStatics, Layout}

-- The positions in the registers of the PHY, in USBCMD, USBMODE and SBUSCFG.
pub record ResetRal : Type 0 where
  pub sftrst : ℕ
  pub clkgate : ℕ
  pub enutmilevel2 : ℕ
  pub enutmilevel3 : ℕ
  pub rst : ℕ
  pub cm : ℕ
  pub ahbbrst : ℕ

-- A write, by its register.
pub data RegisterWrite : Type 0 where
  ctrl_set ctrl_clr pwd : ℕ → RegisterWrite
  usbcmd usbmode sbuscfg asynclistaddr deviceaddr frindex usbintr usbsts portsc1 : ℕ → RegisterWrite

module _ (q : ResetRal) where
  -- PHY: soft reset, its end with the clocks on, UTMI+ levels 2 and 3, all powered up.
  unfoldable pub phy_writes : List RegisterWrite
  phy_writes =
      ctrl_set (bit_mask q.sftrst)
      ∷ ctrl_clr (bit_or (bit_mask q.sftrst) (bit_mask q.clkgate))
      ∷ ctrl_set (bit_or (bit_mask q.enutmilevel2) (bit_mask q.enutmilevel3))
      ∷ pwd 0
      ∷ []

  -- `while RST == 1 {}` over the values of USBCMD as they are read, which are left over.
  unfoldable pub await_reset : (reads : List ℕ) → Run (List ℕ)
  await_reset [] = out_of_fuel
  await_reset (reg ∷ reads) =
      let rest = await_reset reads in if bit_and reg (bit_mask q.rst) != 0 then rest else ok reads

  module _ (r : Ral) {Pool : Type 0} (l : Layout) (frame_list : ℕ) (hub_support : Bool) where
    -- What is written once the reset is over: host mode first.
    unfoldable pub setup_writes :
        (portsc1_read usbsts_read : ℕ) → UsbStatics Pool → List RegisterWrite
    setup_writes portsc1_read usbsts_read s =
        let started = init r l frame_list hub_support portsc1_read usbsts_read s in
        usbmode (3 * 2 ^ q.cm)
        ∷ sbuscfg (1 * 2 ^ q.ahbbrst)
        ∷ asynclistaddr started.asynclistaddr
        ∷ deviceaddr started.deviceaddr
        ∷ frindex started.frindex
        ∷ usbintr started.usbintr_first
        ∷ usbsts started.usbsts
        ∷ usbcmd started.usbcmd
        ∷ portsc1 started.portsc1
        ∷ usbintr started.usbintr
        ∷ []

    -- `usbcmd_read` is what is read for the write of RST.
    unfoldable pub init_writes :
        (usbcmd_read : ℕ) (reads : List ℕ) (portsc1_read usbsts_read : ℕ)
        → UsbStatics Pool
        → Run (List RegisterWrite)
    init_writes usbcmd_read reads portsc1_read usbsts_read s = do
      _ ← await_reset reads
      ok (
          phy_writes
          ++ (usbcmd (set_fields usbcmd_read (bit_mask q.rst))
              ∷ setup_writes portsc1_read usbsts_read s))

-- Some read has the bit off.
abbrev pub some_off : (k : ℕ) → List ℕ → Bool
some_off k [] = false
some_off k (x ∷ xs) = if bit x k then some_off k xs else true

module _ (q : ResetRal) where
  await_reset-cases :
      (reads : List ℕ)
      → (some_off q.rst reads ≡ true → (rest : List ℕ) × (await_reset q reads ≡ ok rest))
        × (some_off q.rst reads ≡ false → await_reset q reads ≡ out_of_fuel)
  unfolding await_reset
  await_reset-cases [] = (λ h. cc, λ h. refl)
  await_reset-cases (x ∷ reads) = elim (Bool-cases (bit x q.rst)) [
    | inl on ↦ rw (ne-bit_and-bit_mask x q.rst, on) (await_reset-cases reads)
    | inr off ↦ rw (ne-bit_and-bit_mask x q.rst, off) (λ h. (reads, refl), λ h. cc)
  ]

  -- `init` ends if a read of USBCMD shows the reset done, with the same writes whatever the reads before
  -- it, and waits for ever if none does.
  init_writes-cases :
      (r : Ral) {Pool : Type 0} (l : Layout) (frame_list : ℕ) (hub_support : Bool) (usbcmd_read : ℕ)
      (reads : List ℕ) (portsc1_read usbsts_read : ℕ) (s : UsbStatics Pool)
      → (some_off q.rst reads ≡ true
          → init_writes q r l frame_list hub_support usbcmd_read reads portsc1_read usbsts_read s
            ≡ ok (
                phy_writes q
                ++ (usbcmd (set_fields usbcmd_read (bit_mask q.rst))
                    ∷ setup_writes q r l frame_list hub_support portsc1_read usbsts_read s)))
        × (some_off q.rst reads ≡ false
            → init_writes q r l frame_list hub_support usbcmd_read reads portsc1_read usbsts_read s
              ≡ out_of_fuel)
  unfolding init_writes
  init_writes-cases r l frame_list hub_support usbcmd_read reads portsc1_read usbsts_read s = (
    λ h. let (rest, run) = (await_reset-cases reads).0 h in rw run,
    λ h. rw ((await_reset-cases reads).1 h),
  )
