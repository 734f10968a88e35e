-- ===== src/Ehci/Qh.antt =====
-- ehci.rs, `QueueHead` and the words that describe its endpoint.
pub mod Laws
use imxrt_usbh.Base.{
  ℕ, ◌*◌, ◌%◌, ◌^◌, Bool, true, false, not, ◌&&◌, List, bit_and, bit_or, ◌==◌, ◌!=◌, if◌then◌else◌,
}
use imxrt_usbh.Base.Bits.{not32}
use imxrt_usbh.Ehci.Link
use imxrt_usbh.Ehci.Link.{link_terminate, link_pointer}
use imxrt_usbh.Ehci.Token.{shl32, qtd_token_halted}
use imxrt_usbh.Ehci.Td.{no_buffer}

abbrev pub speed_full : ℕ
speed_full = 0

abbrev pub speed_low : ℕ
speed_low = 1

abbrev pub speed_high : ℕ
speed_high = 2

-- The software fields `sw_flags`, `sw_pid` and `sw_interval_ms` are bytes; `_pad` is left out.
pub record QueueHead : Type 0 where
  pub horizontal_link : ℕ
  pub characteristics : ℕ
  pub capabilities : ℕ
  pub current_qtd : ℕ
  pub overlay_next : ℕ
  pub overlay_alt_next : ℕ
  pub overlay_token : ℕ
  pub overlay_buffer : List ℕ
  pub attached_qtd : ℕ
  pub attached_buffer : ℕ
  pub sw_flags : ℕ
  pub sw_pid : ℕ
  pub sw_interval_ms : ℕ

abbrev pub qh_flag_used : ℕ
qh_flag_used = 1

unfoldable pub qh_characteristics :
    (address endpoint speed max_packet_size : ℕ) (is_control is_head : Bool) → ℕ
qh_characteristics address endpoint speed max_packet_size is_control is_head =
    let dtc : ℕ = if is_control then 1 else 0 in
    let ctrl_ep : ℕ = if is_control && (speed != speed_high) then 1 else 0 in
    let head : ℕ = if is_head then 1 else 0 in
    bit_or
      (bit_or
        (bit_or
          (bit_or
            (bit_or (bit_or (bit_or (shl32 address 0) (shl32 endpoint 8)) (shl32 speed 12))
              (shl32 dtc 14))
            (shl32 head 15))
          (shl32 max_packet_size 16))
        (shl32 ctrl_ep 27))
      (shl32 15 28)

unfoldable pub qh_capabilities : (smask cmask hub_addr hub_port mult : ℕ) → ℕ
qh_capabilities smask cmask hub_addr hub_port mult =
    bit_or
      (bit_or (bit_or (bit_or (shl32 smask 0) (shl32 cmask 8)) (shl32 hub_addr 16))
        (shl32 hub_port 23))
      (shl32 mult 30)

unfoldable pub new : QueueHead
new = record {
  horizontal_link = link_terminate;
  characteristics = 0;
  capabilities = 0;
  current_qtd = 0;
  overlay_next = link_terminate;
  overlay_alt_next = link_terminate;
  overlay_token = 0;
  overlay_buffer = no_buffer;
  attached_qtd = 0;
  attached_buffer = 0;
  sw_flags = 0;
  sw_pid = 0;
  sw_interval_ms = 0;
}

-- `self_addr` is the address of the queue head itself.
unfoldable pub init_sentinel : (self_addr : ℕ) → QueueHead → QueueHead
unfolding qh_characteristics qh_capabilities link_pointer
init_sentinel self_addr self = record self {
  horizontal_link = link_pointer self_addr Link.qh;
  characteristics = qh_characteristics 0 0 speed_high 0 false true;
  capabilities = qh_capabilities 0 0 0 0 1;
  current_qtd = 0;
  overlay_token = qtd_token_halted;
  overlay_next = link_terminate;
  overlay_alt_next = link_terminate;
}

-- Every field is written.
unfoldable pub init_endpoint : QueueHead → (characteristics capabilities : ℕ) → QueueHead
init_endpoint self characteristics capabilities = record {
  horizontal_link = link_terminate;
  characteristics = characteristics;
  capabilities = capabilities;
  current_qtd = 0;
  overlay_next = link_terminate;
  overlay_alt_next = link_terminate;
  overlay_token = qtd_token_halted;
  overlay_buffer = no_buffer;
  attached_qtd = 0;
  attached_buffer = 0;
  sw_flags = qh_flag_used;
  sw_pid = 0;
  sw_interval_ms = 0;
}

unfoldable pub attach_qtd : QueueHead → (qtd_addr : ℕ) → QueueHead
attach_qtd self qtd_addr = record self {
  attached_qtd = qtd_addr;
  overlay_next = qtd_addr;
  overlay_token = 0;
}

unfoldable pub reattach_qtd_preserve_toggle : QueueHead → (qtd_addr : ℕ) → QueueHead
reattach_qtd_preserve_toggle self qtd_addr = record self { overlay_next = qtd_addr }

unfoldable pub set_overlay_toggle : QueueHead → Bool → QueueHead
set_overlay_toggle self toggle =
    let t = self.overlay_token in
    record self { overlay_token = if toggle then bit_or t (2 ^ 31) else bit_and t (not32 (2 ^ 31)) }

-- Both queue heads, `self` first.
unfoldable pub link_after : (self_addr : ℕ) → (self prev : QueueHead) → QueueHead × QueueHead
unfolding link_pointer
link_after self_addr self prev = (
  record self { horizontal_link = prev.horizontal_link },
  record prev { horizontal_link = link_pointer self_addr Link.qh },
)
