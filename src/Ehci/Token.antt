-- ===== src/Ehci/Token.antt =====
-- ehci.rs, the qTD token word: status, PID, error counter, byte count, data toggle, IOC.
pub mod Laws
use imxrt_usbh.Base.{ℕ, ◌*◌, ◌/◌, ◌%◌, ◌^◌, Bool, bit_and, bit_or, ◌!=◌, ◌==◌, if◌then◌else◌}

-- `x << k` on a `u32`: bits that leave the word are lost.
abbrev pub shl32 : ℕ → ℕ → ℕ
shl32 x k = x * 2 ^ k % 2 ^ 32

abbrev pub shr : ℕ → ℕ → ℕ
shr x k = x / 2 ^ k

abbrev pub pid_out : ℕ
pid_out = 0

abbrev pub pid_in : ℕ
pid_in = 1

abbrev pub pid_setup : ℕ
pid_setup = 2

abbrev pub qtd_token_active : ℕ
qtd_token_active = 2 ^ 7

abbrev pub qtd_token_halted : ℕ
qtd_token_halted = 2 ^ 6

abbrev pub qtd_token_buffer_err : ℕ
qtd_token_buffer_err = 2 ^ 5

abbrev pub qtd_token_babble : ℕ
qtd_token_babble = 2 ^ 4

abbrev pub qtd_token_xact_err : ℕ
qtd_token_xact_err = 2 ^ 3

abbrev pub qtd_token_missed_uframe : ℕ
qtd_token_missed_uframe = 2 ^ 2

abbrev pub qtd_token_ioc : ℕ
qtd_token_ioc = 2 ^ 15

abbrev pub qtd_token_error_mask : ℕ
qtd_token_error_mask =
    bit_or
      (bit_or (bit_or (bit_or qtd_token_halted qtd_token_buffer_err) qtd_token_babble)
        qtd_token_xact_err)
      qtd_token_missed_uframe

abbrev pub qtd_max_transfer_size : ℕ
qtd_max_transfer_size = 0x4fff

unfoldable pub qtd_token : (pid total_bytes : ℕ) (data_toggle ioc : Bool) → ℕ
qtd_token pid total_bytes data_toggle ioc =
    let dt : ℕ = if data_toggle then 1 else 0 in
    let ioc_bit : ℕ = if ioc then qtd_token_ioc else 0 in
    bit_or
      (bit_or
        (bit_or (bit_or (bit_or qtd_token_active (shl32 pid 8)) (shl32 3 10))
          (shl32 total_bytes 16))
        (shl32 dt 31))
      ioc_bit

unfoldable pub qtd_token_bytes_remaining : (token : ℕ) → ℕ
qtd_token_bytes_remaining token = bit_and (shr token 16) 0x7fff

-- `token & QTD_TOKEN_ACTIVE == 0`
unfoldable pub is_inactive : (token : ℕ) → Bool
is_inactive token = bit_and token qtd_token_active == 0

-- `token & QTD_TOKEN_ERROR_MASK != 0`
unfoldable pub has_error_bits : (token : ℕ) → Bool
has_error_bits token = bit_and token qtd_token_error_mask != 0

-- `token & QTD_TOKEN_HALTED != 0`
unfoldable pub is_halted : (token : ℕ) → Bool
is_halted token = bit_and token qtd_token_halted != 0

-- `token & QTD_TOKEN_ACTIVE != 0`
unfoldable pub is_active : (token : ℕ) → Bool
is_active token = bit_and token qtd_token_active != 0
