-- ===== src/Host/Regs.antt =====
-- ral.rs: the registers that the driver reads and writes. The register definitions are imxrt-ral's,
-- which is not part of the repository, so the bit positions are a parameter.
pub mod Laws
use imxrt_usbh.Base.{ℕ, ◌≡◌, ◌<◌, bit_and, bit_or}
use imxrt_usbh.Base.Bits.{not32, bit_mask}

-- The positions of the one-bit fields that the driver names, and the lowest bit of a wider field.
pub record Ral : Type 0 where
  -- USBSTS
  pub ui : ℕ
  pub uei : ℕ
  pub pci : ℕ
  pub aai : ℕ
  -- USBINTR
  pub ue : ℕ
  pub uee : ℕ
  pub pce : ℕ
  pub see : ℕ
  pub aae : ℕ
  pub uaie : ℕ
  pub upie : ℕ
  -- USBCMD
  pub rs : ℕ
  pub fs_1 : ℕ
  pub pse : ℕ
  pub asp : ℕ
  pub aspe : ℕ
  pub fs_2 : ℕ
  pub itc : ℕ
  pub ase : ℕ
  pub iaa : ℕ
  -- PORTSC1
  pub ccs : ℕ
  pub csc : ℕ
  pub pec : ℕ
  pub occ : ℕ
  pub fpr : ℕ
  pub pr : ℕ
  pub pp : ℕ
  pub pfsc : ℕ
  pub pspd : ℕ

-- The positions that the EHCI specification and the i.MX RT 1060 reference manual give.
pub record IsRal (r : Ral) : Type 0 where
  pub ui_at : r.ui ≡ 0
  pub uei_at : r.uei ≡ 1
  pub pci_at : r.pci ≡ 2
  pub aai_at : r.aai ≡ 5
  pub ue_at : r.ue ≡ 0
  pub uee_at : r.uee ≡ 1
  pub pce_at : r.pce ≡ 2
  pub see_at : r.see ≡ 4
  pub aae_at : r.aae ≡ 5
  pub uaie_at : r.uaie ≡ 18
  pub upie_at : r.upie ≡ 19
  pub rs_at : r.rs ≡ 0
  pub fs_1_at : r.fs_1 ≡ 2
  pub pse_at : r.pse ≡ 4
  pub asp_at : r.asp ≡ 8
  pub aspe_at : r.aspe ≡ 11
  pub fs_2_at : r.fs_2 ≡ 15
  pub itc_at : r.itc ≡ 16
  pub ase_at : r.ase ≡ 5
  pub iaa_at : r.iaa ≡ 6
  pub ccs_at : r.ccs ≡ 0
  pub csc_at : r.csc ≡ 1
  pub pec_at : r.pec ≡ 3
  pub occ_at : r.occ ≡ 5
  pub fpr_at : r.fpr ≡ 6
  pub pr_at : r.pr ≡ 8
  pub pp_at : r.pp ≡ 12
  pub pfsc_at : r.pfsc ≡ 24
  pub pspd_at : r.pspd ≡ 26

-- `modify_reg!` that writes 1 to the fields of `mask`.
unfoldable pub set_fields : (reg mask : ℕ) → ℕ
set_fields reg mask = bit_or (bit_and reg (not32 mask)) mask

module _ (r : Ral) where
  -- `UE: 1, UEE: 1, UAIE: 1, UPIE: 1`
  unfoldable pub transfer_enables : ℕ
  transfer_enables =
      bit_or (bit_or (bit_or (bit_mask r.ue) (bit_mask r.uee)) (bit_mask r.uaie)) (bit_mask r.upie)

  -- controller.rs, `reenable_transfer_interrupts`: the new value of USBINTR.
  unfoldable pub reenable_transfer_interrupts : (usbintr : ℕ) → ℕ
  reenable_transfer_interrupts usbintr = set_fields usbintr transfer_enables

  -- controller.rs, `reenable_port_change_interrupt`
  unfoldable pub reenable_port_change_interrupt : (usbintr : ℕ) → ℕ
  reenable_port_change_interrupt usbintr = set_fields usbintr (bit_mask r.pce)

  -- controller.rs, `reenable_async_advance_interrupt`
  unfoldable pub reenable_async_advance_interrupt : (usbintr : ℕ) → ℕ
  reenable_async_advance_interrupt usbintr = set_fields usbintr (bit_mask r.aae)
