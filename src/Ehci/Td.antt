-- ===== src/Ehci/Td.antt =====
-- ehci.rs, `TransferDescriptor`. A `VCell` is its contents.
pub mod Laws
use imxrt_usbh.Base.{ℕ, ◌+◌, ◌*◌, ◌%◌, ◌^◌, Bool, not, List, [], ◌∷◌, bit_and}
use imxrt_usbh.Base.Bits.{not32}
use imxrt_usbh.Ehci.Link.{link_terminate}
use imxrt_usbh.Ehci.Token.{qtd_token_bytes_remaining, is_inactive, has_error_bits}

-- `buffer` has five entries.
pub record TransferDescriptor : Type 0 where
  pub next : ℕ
  pub alt_next : ℕ
  pub token : ℕ
  pub buffer : List ℕ

abbrev pub no_buffer : List ℕ
no_buffer = 0 ∷ 0 ∷ 0 ∷ 0 ∷ 0 ∷ []

unfoldable pub new : TransferDescriptor
new = record { next = link_terminate; alt_next = link_terminate; token = 0; buffer = no_buffer }

-- `(addr & !0xFFF) + (i as u32) * 4096`, which wraps at the end of the address space.
abbrev pub page : (addr i : ℕ) → ℕ
page addr i = (bit_and addr (not32 0xfff) + i * 4096) % 2 ^ 32

-- Every field is written, so the old contents do not matter; `_len` is not used.
unfoldable pub init : TransferDescriptor → (token addr len : ℕ) → TransferDescriptor
init qtd token addr len = record {
  next = link_terminate;
  alt_next = link_terminate;
  token = token;
  buffer = addr ∷ page addr 1 ∷ page addr 2 ∷ page addr 3 ∷ page addr 4 ∷ [];
}

unfoldable pub is_complete : TransferDescriptor → Bool
unfolding is_inactive
is_complete qtd = is_inactive qtd.token

unfoldable pub has_error : TransferDescriptor → Bool
unfolding has_error_bits
has_error qtd = has_error_bits qtd.token

unfoldable pub bytes_remaining : TransferDescriptor → ℕ
unfolding qtd_token_bytes_remaining
bytes_remaining qtd = qtd_token_bytes_remaining qtd.token
