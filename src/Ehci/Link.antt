-- ===== src/Ehci/Link.antt =====
-- ehci.rs, link pointers: a 32-byte-aligned address with a type and a terminate bit.
pub mod Laws
use imxrt_usbh.Base.{ℕ, Bool, bit_and, bit_or, ◌!=◌}
use imxrt_usbh.Base.Bits.{not32}

abbrev pub link_terminate : ℕ
link_terminate = 1

-- `link_type`
abbrev pub itd : ℕ
itd = 0

abbrev pub qh : ℕ
qh = 2

abbrev pub sitd : ℕ
sitd = 4

abbrev pub fstn : ℕ
fstn = 6

unfoldable pub link_pointer : (addr typ : ℕ) → ℕ
link_pointer addr typ = bit_or (bit_and addr (not32 0x1f)) typ

unfoldable pub link_address : (link : ℕ) → ℕ
link_address link = bit_and link (not32 0x1f)

unfoldable pub link_is_terminate : (link : ℕ) → Bool
link_is_terminate link = bit_and link link_terminate != 0
