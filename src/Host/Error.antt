-- ===== src/Host/Error.antt =====
-- cotton-usb-host's `UsbError`, with the variants that the driver names, and its EHCI mapping.
pub mod Laws
use Prim.Native.String.{String}
use imxrt_usbh.Base.{ℕ, Bool, bit_and, ◌!=◌, if◌then◌else◌}
use imxrt_usbh.Ehci.Token.{
  qtd_token_halted, qtd_token_babble, qtd_token_buffer_err, qtd_token_xact_err,
  qtd_token_missed_uframe,
}

pub data UsbError : Type 0 where
  stall timeout overflow bit_stuff_error crc_error data_seq_error buffer_too_small : UsbError
  all_pipes_in_use protocol_error too_many_devices no_such_endpoint other : UsbError

unfoldable pub usb_error_str : UsbError → String
usb_error_str UsbError.stall = "Stall"
usb_error_str UsbError.timeout = "Timeout"
usb_error_str UsbError.overflow = "Overflow"
usb_error_str UsbError.bit_stuff_error = "BitStuffError"
usb_error_str UsbError.crc_error = "CrcError"
usb_error_str UsbError.data_seq_error = "DataSeqError"
usb_error_str UsbError.buffer_too_small = "BufferTooSmall"
usb_error_str UsbError.all_pipes_in_use = "AllPipesInUse"
usb_error_str UsbError.protocol_error = "ProtocolError"
usb_error_str UsbError.too_many_devices = "TooManyDevices"
usb_error_str UsbError.no_such_endpoint = "NoSuchEndpoint"
usb_error_str UsbError.other = "Unknown"

unfoldable pub map_qtd_error : (token : ℕ) → UsbError
map_qtd_error token =
    if bit_and token qtd_token_halted != 0
    then if bit_and token qtd_token_babble != 0
      then UsbError.overflow
      else if bit_and token qtd_token_buffer_err != 0
      then UsbError.overflow
      else if bit_and token qtd_token_xact_err != 0
      then UsbError.protocol_error
      else UsbError.stall
    else if bit_and token qtd_token_missed_uframe != 0
    then UsbError.timeout
    else UsbError.protocol_error

-- Rust's `Result<T, UsbError>`.
pub data Outcome {ℓ} (A : Type ℓ) : Type ℓ where
  ok : A → Outcome A
  err : UsbError → Outcome A

-- Rust's `Poll<T>`.
pub data Poll {ℓ} (A : Type ℓ) : Type ℓ where
  ready : A → Poll A
  pending : Poll A
