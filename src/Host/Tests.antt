-- ===== src/Host/Tests.antt =====
-- The driver on concrete states and register values.
pub mod Schedules
pub mod Interrupts
pub mod Detect
pub mod Pipes
pub mod Transfers
pub mod Calls
pub mod Driver
use imxrt_usbh.Base.{ℕ, ◌+◌, ◌*◌, ◌%◌, ◌^◌, ◌<◌, ◌≤◌, ◌≡◌, refl, arith}
use imxrt_usbh.Host.Regs.{Ral, IsRal}
use imxrt_usbh.Host.Statics.{Layout, IsAligned}

-- The bit positions of the i.MX RT 1060.
abbrev pub ral : Ral
ral = record {
  ui = 0;
  uei = 1;
  pci = 2;
  aai = 5;
  ue = 0;
  uee = 1;
  pce = 2;
  see = 4;
  aae = 5;
  uaie = 18;
  upie = 19;
  rs = 0;
  fs_1 = 2;
  pse = 4;
  asp = 8;
  aspe = 11;
  fs_2 = 15;
  itc = 16;
  ase = 5;
  iaa = 6;
  ccs = 0;
  csc = 1;
  pec = 3;
  occ = 5;
  fpr = 6;
  pr = 8;
  pp = 12;
  pfsc = 24;
  pspd = 26;
}

pub ral-IsRal : IsRal ral
ral-IsRal = record {
  ui_at = refl;
  uei_at = refl;
  pci_at = refl;
  aai_at = refl;
  ue_at = refl;
  uee_at = refl;
  pce_at = refl;
  see_at = refl;
  aae_at = refl;
  uaie_at = refl;
  upie_at = refl;
  rs_at = refl;
  fs_1_at = refl;
  pse_at = refl;
  asp_at = refl;
  aspe_at = refl;
  fs_2_at = refl;
  itc_at = refl;
  ase_at = refl;
  iaa_at = refl;
  ccs_at = refl;
  csc_at = refl;
  pec_at = refl;
  occ_at = refl;
  fpr_at = refl;
  pr_at = refl;
  pp_at = refl;
  pfsc_at = refl;
  pspd_at = refl;
}

abbrev pub layout : Layout
layout = record { qh_base = 0x2020_0000; qtd_base = 0x2020_1000; recv_base = 0x2020_2000 }

pub layout-IsAligned : IsAligned layout
layout-IsAligned = record {
  qh_aligned = refl;
  qh_not_null = omega arith;
  qh_fits = omega arith;
  qtd_aligned = refl;
  qtd_not_null = omega arith;
  qtd_fits = omega arith;
  recv_fits = omega arith;
}
