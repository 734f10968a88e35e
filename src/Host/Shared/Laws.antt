-- ===== src/Host/Shared/Laws.antt =====
-- What the interrupt handler acknowledges, wakes and masks.
use Prim.Native.Nat.{bit_and-bitwise, ◌/◌}
use native.Mathlib.Nat.{pow-suc}
use imxrt_usbh.Base.Digits.{bit_and_digit}
use imxrt_usbh.Base.{
  ℕ, zero, suc, ◌<◌, ◌^◌, ◌≡◌, refl, sym, subst, ap, ◌∙◌, Bool, true, false, not, ◌&&◌, ◌||◌, List,
  [], ◌∷◌, ◌++◌, bit_and, bit_or, ltb, leb, ◌==◌, ◌!=◌, if◌then◌else◌, arith,
}
use imxrt_usbh.Base.Bits.{
  bit, bit_mask, not32, bit-bit_and, bit-bit_or, bit-bit_mask, bit-not32, ne-bit_and-bit_mask,
  bit-zero, test-bit_or,
}
use imxrt_usbh.Base.Members.{has}
use imxrt_usbh.Host.Futures.{Waker, device, pipe, async_advance}
use imxrt_usbh.Host.Regs.{Ral, IsRal}
use imxrt_usbh.Host.Regs.Laws.{bit_mask-lt}
use imxrt_usbh.Host.Shared.{nxp_uai, nxp_upi, on_irq, transfer_status, all_pipes}

abbrev pub same : Waker → Waker → Bool
same device device = true
same (pipe i) (pipe j) = i == j
same async_advance async_advance = true
same _ _ = false

-- The waker is among those woken.
abbrev pub is_woken : Waker → List Waker → Bool
is_woken w [] = false
is_woken w (v ∷ l) = same w v || is_woken w l

is_woken-append :
    (w : Waker) (l m : List Waker) → is_woken w (l ++ m) ≡ (is_woken w l || is_woken w m)
is_woken-append w [] m = refl
is_woken-append w (v ∷ l) m = ground (arith, is_woken-append w l m)

-- The bits of USBINTR that the handler masks if their status is on: 0 to 5 and 16 to 19.
abbrev pub is_serviced : ℕ → Bool
is_serviced k = ltb k 6 || (leb 16 k && ltb k 20)

-- The status has a transfer bit: UI, UEI, or NXP's UAI or UPI.
abbrev pub has_transfer : Ral → ℕ → Bool
has_transfer r status = bit status r.ui || bit status r.uei || bit status 18 || bit status 19

-- The word with the bits of a list.
abbrev mask_of : List ℕ → ℕ
mask_of [] = 0
mask_of (p ∷ l) = bit_or (bit_mask p) (mask_of l)

bit-mask_of : (l : List ℕ) (k : ℕ) → bit (mask_of l) k ≡ has k l
bit-mask_of [] k = bit-zero k
bit-mask_of (p ∷ l) k =
    ground (arith, bit-bit_or (bit_mask p) (mask_of l) k, bit-bit_mask p k, bit-mask_of l k)

serviced_bits : (k : ℕ) → bit 0x000f_003f k ≡ is_serviced k
serviced_bits k = bit-mask_of (0 ∷ 1 ∷ 2 ∷ 3 ∷ 4 ∷ 5 ∷ 16 ∷ 17 ∷ 18 ∷ 19 ∷ []) k ∙ ground arith

bit_and-lt : (w a b : ℕ) → a < 2 ^ w → bit_and a b < 2 ^ w
bit_and-lt zero a b h =
    omega
      (arith, bit_and_digit a b, ap (λ (t : ℕ). bit_and t (b / 2)) half, bit_and-bitwise 0 (b / 2))
  where
    half : a / 2 ≡ 0
    half = omega arith
bit_and-lt (suc w) a b h = omega (
  arith,
  bit_and_digit a b,
  pow-suc 2 w,
  bit_and-lt w (a / 2) (b / 2) (omega (arith, pow-suc 2 w)),
)

pub transfer_test :
    (r : Ral) (status : ℕ) → (bit_and status (transfer_status r) != 0) ≡ has_transfer r status
transfer_test r status = ground (
  arith,
  test-bit_or status (bit_or (bit_or (bit_mask r.ui) (bit_mask r.uei)) nxp_uai) nxp_upi,
  test-bit_or status (bit_or (bit_mask r.ui) (bit_mask r.uei)) nxp_uai,
  test-bit_or status (bit_mask r.ui) (bit_mask r.uei),
  ne-bit_and-bit_mask status r.ui,
  ne-bit_and-bit_mask status r.uei,
  ne-bit_and-bit_mask status 18,
  ne-bit_and-bit_mask status 19,
)

-- The wakers that are woken for a port change, a transfer and an async advance.
abbrev woken_for : (port transfer advance : Bool) → List Waker
woken_for port transfer advance =
    (if port then device ∷ [] else [])
    ++ (if transfer then all_pipes else [])
    ++ (if advance then async_advance ∷ [] else [])

woken_for_lem :
    (port transfer advance : Bool)
    → (is_woken device (woken_for port transfer advance) ≡ port)
      × ((i : ℕ) → i < 5 → is_woken (pipe i) (woken_for port transfer advance) ≡ transfer)
      × (is_woken async_advance (woken_for port transfer advance) ≡ advance)
woken_for_lem true true true = (refl, λ i h. ground arith, refl)
woken_for_lem true true false = (refl, λ i h. ground arith, refl)
woken_for_lem true false true = (refl, λ i h. refl, refl)
woken_for_lem true false false = (refl, λ i h. refl, refl)
woken_for_lem false true true = (refl, λ i h. ground arith, refl)
woken_for_lem false true false = (refl, λ i h. ground arith, refl)
woken_for_lem false false true = (refl, λ i h. refl, refl)
woken_for_lem false false false = (refl, λ i h. refl, refl)

module _ (r : Ral) (status usbintr : ℕ) where
  on_irq_woken :
      (on_irq r status usbintr).woken
      ≡ woken_for (bit status r.pci) (has_transfer r status) (bit status r.aai)
  unfolding on_irq
  on_irq_woken =
      rw
        (ne-bit_and-bit_mask status r.pci, ne-bit_and-bit_mask status r.aai, transfer_test r status)

-- The handler acknowledges every status bit that is on but AAI, wakes the device's waker exactly for
-- PCI, each pipe's waker exactly for a transfer bit (UI, UEI, or NXP's UAI and UPI), the async
-- advance waker exactly for AAI, and clears in USBINTR exactly the bits 0 to 5 and 16 to 19 whose
-- status is on.
pub on_irq_lem :
    {r : Ral} (spec : IsRal r) (status usbintr : ℕ)
    → status < 2 ^ 32
    → let handled = on_irq r status usbintr in
      ((k : ℕ) → k < 32 → bit handled.usbsts_written k ≡ (bit status k && not (r.aai == k)))
      × (is_woken device handled.woken ≡ bit status r.pci)
      × ((i : ℕ) → i < 5 → is_woken (pipe i) handled.woken ≡ has_transfer r status)
      × (is_woken async_advance handled.woken ≡ bit status r.aai)
      × ((k : ℕ)
          → k < 32
          → bit handled.usbintr k ≡ (bit usbintr k && not (bit status k && is_serviced k)))
unfolding on_irq
on_irq_lem {r} spec status usbintr small = (
  λ k h. ground (
    arith,
    bit-bit_and status (not32 (bit_mask r.aai)) k,
    bit-not32 (bit_mask r.aai) k (bit_mask-lt r.aai 32 (omega arith)) h,
    bit-bit_mask r.aai k,
  ),
  subst (λ l. is_woken device l ≡ bit status r.pci) (sym woken) lists.0,
  λ i h. subst (λ l. is_woken (pipe i) l ≡ has_transfer r status) (sym woken) (lists.1 i h),
  subst (λ l. is_woken async_advance l ≡ bit status r.aai) (sym woken) lists.2,
  λ k h. ground (
    arith,
    bit-bit_and usbintr (not32 (bit_and status 0x000f_003f)) k,
    bit-not32 (bit_and status 0x000f_003f) k (bit_and-lt 32 status 0x000f_003f small) h,
    bit-bit_and status 0x000f_003f k,
    serviced_bits k,
  ),
)
  where
    woken :
        (on_irq r status usbintr).woken
        ≡ woken_for (bit status r.pci) (has_transfer r status) (bit status r.aai)
    woken = on_irq_woken r status usbintr

    lists :
        let l : List Waker =
          woken_for (bit status r.pci) (has_transfer r status) (bit status r.aai) in
        (is_woken device l ≡ bit status r.pci)
        × ((i : ℕ) → i < 5 → is_woken (pipe i) l ≡ has_transfer r status)
        × (is_woken async_advance l ≡ bit status r.aai)
    lists = woken_for_lem (bit status r.pci) (has_transfer r status) (bit status r.aai)

-- What the write to USBSTS leaves on: AAI alone.
pub on_irq_kept :
    {r : Ral} (spec : IsRal r) (status usbintr k : ℕ)
    → status < 2 ^ 32
    → k < 32
    → bit (bit_and status (not32 (on_irq r status usbintr).usbsts_written)) k
      ≡ (bit status k && r.aai == k)
unfolding on_irq
on_irq_kept {r} spec status usbintr k small h = ground (
  arith,
  bit-bit_and status (not32 written) k,
  bit-not32 written k (bit_and-lt 32 status (not32 (bit_mask r.aai)) small) h,
  (on_irq_lem spec status usbintr small).0 k h,
)
  where
    written : ℕ
    written = bit_and status (not32 (bit_mask r.aai))
