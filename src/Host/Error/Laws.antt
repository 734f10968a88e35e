-- ===== src/Host/Error/Laws.antt =====
-- How the bits of a token decide the error.
use imxrt_usbh.Base.{◌≤◌, ◌⊎◌, inl, inr, refl, ℕ, ◌≡◌, Bool, true, false, arith, if◌then◌else◌}
use imxrt_usbh.Base.Bits.{bit, ne-bit_and-bit_mask}
use imxrt_usbh.Host.Error.{Outcome, ok, err, UsbError, map_qtd_error}

-- The error by the status bits: halted, babble, buffer error, transaction error, missed micro-frame.
abbrev pub error_of_bits : (halted babble buffer xact missed : Bool) → UsbError
error_of_bits true true _ _ _ = UsbError.overflow
error_of_bits true false true _ _ = UsbError.overflow
error_of_bits true false false true _ = UsbError.protocol_error
error_of_bits true false false false _ = UsbError.stall
error_of_bits false _ _ _ true = UsbError.timeout
error_of_bits false _ _ _ false = UsbError.protocol_error

-- The error of a token by its status bits: halted with babble or a buffer error is an overflow, halted
-- with a transaction error a protocol error, halted alone a stall; not halted, a missed micro-frame is
-- a timeout, and anything else a protocol error.
pub map_qtd_error-bits :
    (token : ℕ)
    → map_qtd_error token
      ≡ error_of_bits (bit token 6) (bit token 4) (bit token 5) (bit token 3) (bit token 2)
unfolding map_qtd_error
map_qtd_error-bits token =
    rw
      (
        ne-bit_and-bit_mask token 6,
        ne-bit_and-bit_mask token 4,
        ne-bit_and-bit_mask token 5,
        ne-bit_and-bit_mask token 3,
        ne-bit_and-bit_mask token 2,
      )
      (table (bit token 6) (bit token 4) (bit token 5) (bit token 3) (bit token 2))
  where
    table :
        (a b c d e : Bool)
        → (if a
            then if b
              then UsbError.overflow
              else if c
              then UsbError.overflow
              else if d
              then UsbError.protocol_error
              else UsbError.stall
            else if e
            then UsbError.timeout
            else UsbError.protocol_error)
          ≡ error_of_bits a b c d e
    table a b c d e = ground arith

-- To split on a computed outcome and keep the equation.
pub Outcome-cases {ℓ} :
    {A : Type ℓ} (o : Outcome A) → ((a : A) × (o ≡ ok a)) ⊎ ((e : UsbError) × (o ≡ err e))
Outcome-cases (ok a) = inl (a, refl)
Outcome-cases (err e) = inr (e, refl)

-- A byte count, if there is one, is at most `n`.
abbrev pub AtMost : ℕ → Outcome ℕ → Type 0
AtMost n (ok m) = m ≤ n
AtMost n (err e) = Unit
