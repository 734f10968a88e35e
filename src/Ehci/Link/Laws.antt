-- ===== src/Ehci/Link/Laws.antt =====
-- Link pointers give back the address and the flags that they are built from.
use imxrt_usbh.Base.{ℕ, ◌+◌, ◌*◌, ◌/◌, ◌%◌, ◌^◌, ◌<◌, ◌≡◌, ap, bit_or, ◌==◌, arith}
use imxrt_usbh.Base.Fields.{bit_and_field, bit_or_high, bit_and_low}
use imxrt_usbh.Ehci.Link.{link_pointer, link_address, link_is_terminate}

-- The address bits of a `u32`.
pub link_address_lem : (a : ℕ) → a < 2 ^ 32 → link_address a ≡ a / 32 * 32
unfolding link_address
link_address_lem a small = omega (arith, bit_and_field 27 5 a)

pub link_pointer-sum :
    (addr typ : ℕ) → addr < 2 ^ 32 → typ < 32 → link_pointer addr typ ≡ addr / 32 * 32 + typ
unfolding link_pointer
link_pointer-sum addr typ small h = omega (
  arith,
  ap (λ (t : ℕ). bit_or t typ) (bit_and_field 27 5 addr),
  ap (λ (t : ℕ). bit_or (t * 32) typ) fits,
  bit_or_high 5 (addr / 32) typ h,
)
  where
    fits : addr / 32 % 2 ^ 27 ≡ addr / 32
    fits = omega arith

pub link_is_terminate_lem : (a : ℕ) → link_is_terminate a ≡ (a % 2 == 1)
unfolding link_is_terminate
link_is_terminate_lem a = ground (arith, bit_and_low 1 a)

-- An address that is a multiple of 32 comes back from a link, whatever the link's type, the low
-- bits of the link are the type, and the link terminates exactly if the type has its lowest bit set.
pub link_address-link_pointer :
    (addr typ : ℕ)
    → addr < 2 ^ 32
    → typ < 32
    → (link_address (link_pointer addr typ) ≡ addr / 32 * 32)
      × (link_pointer addr typ % 32 ≡ typ)
      × (link_is_terminate (link_pointer addr typ) ≡ (typ % 2 == 1))
link_address-link_pointer addr typ small h = rw (link_pointer-sum addr typ small h) (
  omega (arith, link_address_lem (addr / 32 * 32 + typ)),
  omega arith,
  rw link_is_terminate_lem (ap (λ (t : ℕ). t == 1) (omega arith)),
)
