-- ===== src/Ehci/Token/Laws.antt =====
-- A token word holds the fields that it is built from.
use imxrt_usbh.Base.{
  ℕ, ◌+◌, ◌*◌, ◌/◌, ◌%◌, ◌^◌, ◌<◌, ◌≡◌, refl, Bool, true, false, ap, bit_or, zero, suc, max, ◌==◌,
  ==_false, ◌!=◌, arith, if◌then◌else◌,
}
use imxrt_usbh.Base.Fields.{
  bit_and_field, bit_or_above, bit_or_aligned, bit_or_shifted, bit_and_low,
}
use imxrt_usbh.Ehci.Token.{
  qtd_token, qtd_token_bytes_remaining, qtd_token_active, qtd_token_ioc, shl32, is_active,
  is_inactive, is_halted, has_error_bits,
}

-- The word as a sum, where the fields fit their places.
abbrev fields : (pid total_bytes dt ioc : ℕ) → ℕ
fields pid total_bytes dt ioc =
    128 + pid * 2 ^ 8 + 3 * 2 ^ 10 + total_bytes * 2 ^ 16 + dt * 2 ^ 31 + ioc * 2 ^ 15

low_part :
    (pid : ℕ)
    → pid < 4
    → bit_or (bit_or qtd_token_active (shl32 pid 8)) (shl32 3 10) ≡ 128 + pid * 2 ^ 8 + 3 * 2 ^ 10
low_part pid h = omega (
  arith,
  ap (λ (t : ℕ). bit_or qtd_token_active t) fits,
  ap (λ (t : ℕ). bit_or t (3 * 2 ^ 10)) (bit_or_shifted 8 pid 128 (omega arith)),
  ap (λ (t : ℕ). bit_or (bit_or qtd_token_active t) (3 * 2 ^ 10)) fits,
  bit_or_shifted 10 3 (128 + pid * 2 ^ 8) (omega arith),
)
  where
    fits : shl32 pid 8 ≡ pid * 2 ^ 8
    fits = omega arith

pub bit_or_bits : (a b : ℕ) → a < 2 → b < 2 → bit_or a b ≡ max a b
bit_or_bits zero zero ha hb = refl
bit_or_bits zero (suc zero) ha hb = refl
bit_or_bits (suc zero) zero ha hb = refl
bit_or_bits (suc zero) (suc zero) ha hb = refl
bit_or_bits zero (suc (suc b)) ha hb = absurd (omega arith)
bit_or_bits (suc zero) (suc (suc b)) ha hb = absurd (omega arith)
bit_or_bits (suc (suc a)) b ha hb = absurd (omega arith)

-- A byte count of 16 bits, whose highest bit falls on the toggle.
high_part :
    (low n dt : ℕ)
    → low < 2 ^ 15
    → dt < 2
    → bit_or (bit_or low (shl32 n 16)) (shl32 dt 31)
      ≡ low + n % 2 ^ 15 * 2 ^ 16 + max (n / 2 ^ 15 % 2) dt * 2 ^ 31
high_part low n dt hl hd = omega (
  arith,
  ap (λ (t : ℕ). bit_or (bit_or low t) (shl32 dt 31)) count_kept,
  ap (λ (t : ℕ). bit_or (bit_or low (n % 2 ^ 16 * 2 ^ 16)) t) toggle_fits,
  ap (λ (t : ℕ). bit_or t (dt * 2 ^ 31)) (bit_or_shifted 16 (n % 2 ^ 16) low (omega arith)),
  ap (λ (t : ℕ). bit_or t (dt * 2 ^ 31)) regroup,
  bit_or_aligned 31 (n / 2 ^ 15 % 2) (n % 2 ^ 15 * 2 ^ 16 + low) dt (omega arith),
  bit_or_bits (n / 2 ^ 15 % 2) dt (omega arith) hd,
)
  where
    count_kept : shl32 n 16 ≡ n % 2 ^ 16 * 2 ^ 16
    count_kept = omega arith

    toggle_fits : shl32 dt 31 ≡ dt * 2 ^ 31
    toggle_fits = omega arith

    regroup : low + n % 2 ^ 16 * 2 ^ 16 ≡ n / 2 ^ 15 % 2 * 2 ^ 31 + (n % 2 ^ 15 * 2 ^ 16 + low)
    regroup = omega arith

ioc_part :
    (low n dt ioc : ℕ)
    → low < 2 ^ 15
    → ioc < 2
    → bit_or (low + n * 2 ^ 16 + dt * 2 ^ 31) (ioc * 2 ^ 15)
      ≡ low + n * 2 ^ 16 + dt * 2 ^ 31 + ioc * 2 ^ 15
ioc_part low n dt ioc hl hi = omega (
  arith,
  ap (λ (t : ℕ). bit_or t (ioc * 2 ^ 15)) regroup,
  bit_or_above 16 (n + dt * 2 ^ 15) low (ioc * 2 ^ 15) (omega arith) (omega arith),
  bit_or_shifted 15 ioc low hl,
)
  where
    regroup : low + n * 2 ^ 16 + dt * 2 ^ 31 ≡ (n + dt * 2 ^ 15) * 2 ^ 16 + low
    regroup = omega arith

-- The bit that a flag sets.
abbrev pub flag : Bool → ℕ
flag b = if b then 1 else 0

ioc_bit : Bool → ℕ
ioc_bit b = if b then qtd_token_ioc else 0

pub flag-lt : (b : Bool) → flag b < 2
flag-lt true = omega arith
flag-lt false = omega arith

ioc_shifted : (b : Bool) → ioc_bit b ≡ flag b * 2 ^ 15
unfolding ioc_bit
ioc_shifted true = refl
ioc_shifted false = refl

pub qtd_token-fields :
    (pid n : ℕ) (dt ioc : Bool)
    → pid < 4
    → qtd_token pid n dt ioc ≡ fields pid (n % 2 ^ 15) (max (n / 2 ^ 15 % 2) (flag dt)) (flag ioc)
unfolding qtd_token ioc_bit
qtd_token-fields pid n dt ioc hp = omega (
  arith,
  ap (λ (t : ℕ). bit_or (bit_or (bit_or t (shl32 n 16)) (shl32 (flag dt) 31)) (ioc_bit ioc))
      (low_part pid hp),
  ap (λ (t : ℕ). bit_or t (ioc_bit ioc)) (high_part low n (flag dt) (omega arith) (flag-lt dt)),
  ap (λ (t : ℕ). bit_or (low + n % 2 ^ 15 * 2 ^ 16 + toggle * 2 ^ 31) t) (ioc_shifted ioc),
  ioc_part low (n % 2 ^ 15) toggle (flag ioc) (omega arith) (flag-lt ioc),
)
  where
    low : ℕ
    low = 128 + pid * 2 ^ 8 + 3 * 2 ^ 10

    toggle : ℕ
    toggle = max (n / 2 ^ 15 % 2) (flag dt)

pub qtd_token_bytes_remaining_lem : (t : ℕ) → qtd_token_bytes_remaining t ≡ t / 2 ^ 16 % 2 ^ 15
unfolding qtd_token_bytes_remaining
qtd_token_bytes_remaining_lem t = bit_and_low 15 (t / 2 ^ 16)

pub is_inactive_lem : (t : ℕ) → is_inactive t ≡ (t / 2 ^ 7 % 2 == 0)
unfolding is_inactive
is_inactive_lem t = ground (arith, bit_and_field 1 7 t)

pub is_active_lem : (t : ℕ) → is_active t ≡ (t / 2 ^ 7 % 2 == 1)
unfolding is_active
is_active_lem t = ground (arith, bit_and_field 1 7 t)

pub is_halted_lem : (t : ℕ) → is_halted t ≡ (t / 2 ^ 6 % 2 == 1)
unfolding is_halted
is_halted_lem t = ground (arith, bit_and_field 1 6 t)

pub has_error_bits_lem : (t : ℕ) → has_error_bits t ≡ (t / 2 ^ 2 % 2 ^ 5 != 0)
unfolding has_error_bits
has_error_bits_lem t = ground (arith, bit_and_field 5 2 t)

-- A halted token has an error.
pub has_error_bits_of_is_halted : (t : ℕ) → is_halted t ≡ true → has_error_bits t ≡ true
has_error_bits_of_is_halted t h = ground (arith, is_halted_lem t, has_error_bits_lem t)

-- The token that `qtd_token` builds decodes to its arguments: the PID, three retries, the byte
-- count modulo 2^15, the IOC bit; it is active and has no error bit. The toggle bit is the
-- requested toggle, or bit 15 of the byte count.
pub qtd_token_decodes :
    (pid n : ℕ) (dt ioc : Bool)
    → pid < 4
    → let t = qtd_token pid n dt ioc in
      (t / 2 ^ 8 % 4 ≡ pid)
      × (t / 2 ^ 10 % 4 ≡ 3)
      × (qtd_token_bytes_remaining t ≡ n % 2 ^ 15)
      × (t / 2 ^ 15 % 2 ≡ flag ioc)
      × (t / 2 ^ 31 ≡ max (n / 2 ^ 15 % 2) (flag dt))
      × (is_inactive t ≡ false)
      × (has_error_bits t ≡ false)
qtd_token_decodes pid n dt ioc hp = (
  omega (arith, word, flag-lt dt, flag-lt ioc),
  omega (arith, word, flag-lt dt, flag-lt ioc),
  omega (arith, qtd_token_bytes_remaining_lem t, word, flag-lt dt, flag-lt ioc),
  omega (arith, word, flag-lt dt, flag-lt ioc),
  omega (arith, word, flag-lt dt, flag-lt ioc),
  rw is_inactive_lem (==_false (t / 2 ^ 7 % 2) 0 (omega (arith, word, flag-lt dt, flag-lt ioc))),
  rw has_error_bits_lem
      (ap (λ (e : ℕ). e != 0) {y = 0} (omega (arith, word, flag-lt dt, flag-lt ioc))),
)
  where
    t : ℕ
    t = qtd_token pid n dt ioc

    word : t ≡ fields pid (n % 2 ^ 15) (max (n / 2 ^ 15 % 2) (flag dt)) (flag ioc)
    word = qtd_token-fields pid n dt ioc hp
