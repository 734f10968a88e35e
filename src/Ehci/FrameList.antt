-- ===== src/Ehci/FrameList.antt =====
-- ehci.rs, the periodic frame list.
use imxrt_usbh.Base.{ℕ, List, replicate}
use imxrt_usbh.Ehci.Link.{link_terminate}

abbrev pub frame_list_len : ℕ
frame_list_len = 32

pub record FrameList : Type 0 where
  pub entries : List ℕ

unfoldable pub new : FrameList
new = record { entries = replicate frame_list_len link_terminate }
