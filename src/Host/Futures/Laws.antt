-- ===== src/Host/Futures/Laws.antt =====
-- When a transfer is pending, complete or failed.
use mathlib.Core.Bool.{or-false}
use imxrt_usbh.Base.{
  ℕ, sym, ◌<◌, ◌≡◌, ◌⊎◌, inl, inr, refl, Option-cases, Bool-cases, ap, ◌↔◌, Bool, true, false, not,
  ◌&&◌, ◌||◌, Option, none, some, arith,
}
use imxrt_usbh.Base.Bits.{bit}
use imxrt_usbh.Ehci.Token.Laws.{has_error_bits_of_is_halted}
use imxrt_usbh.Ehci.Token.{is_active, is_halted, has_error_bits}
use imxrt_usbh.Host.Error.{UsbError, map_qtd_error, ok, err, ready, pending}
use imxrt_usbh.Host.Regs.{Ral, IsRal, reenable_transfer_interrupts}
use imxrt_usbh.Host.Regs.Laws.{is_transfer_enable, bit-reenable_transfer_interrupts}
use imxrt_usbh.Host.Futures.{Tokens, poll_tokens}

-- A test of the data qTD's token, which fails where there is none.
abbrev pub on_data : (ℕ → Bool) → Option ℕ → Bool
on_data test none = false
on_data test (some token) = test token

-- The transfer is still running: the last qTD is active, and neither the overlay nor the data qTD
-- has halted.
abbrev pub is_running : Tokens → Bool
is_running t =
    is_active t.status && not (is_halted t.overlay) && not (on_data is_halted t.data_token)

-- The last qTD has ended, and neither it nor the data qTD shows an error.
abbrev pub is_done : Tokens → Bool
is_done t =
    not (is_active t.status)
    && not (has_error_bits t.status)
    && not (on_data has_error_bits t.data_token)

-- One of the tokens that were read.
abbrev pub IsRead : Tokens → ℕ → Type 0
IsRead t token = (token ≡ t.status) ⊎ ((token ≡ t.overlay) ⊎ (t.data_token ≡ some token))

module _ (r : Ral) (t : Tokens) (usbintr : ℕ) where
  pub poll_tokens_pending :
      ((poll_tokens r t usbintr).0 ≡ pending → is_running t ≡ true)
      × (is_running t ≡ true
          → poll_tokens r t usbintr ≡ (pending, reenable_transfer_interrupts r usbintr))
  unfolding poll_tokens
  poll_tokens_pending = elim (Option-cases t.data_token) [
    | inl no_data ↦ (λ h. ground arith, λ h. ground arith)
    | inr (token, has_data) ↦ (λ h. ground arith, λ h. ground arith)
  ]

  pub poll_tokens_done :
      ((poll_tokens r t usbintr).0 ≡ ready (ok tt) → is_done t ≡ true)
      × (is_done t ≡ true → poll_tokens r t usbintr ≡ (ready (ok tt), usbintr))
  unfolding poll_tokens
  poll_tokens_done = elim (Option-cases t.data_token) [
    | inl no_data ↦ (λ h. ground arith, λ h. ground arith)
    | inr (token, has_data) ↦ (λ h. ground arith, λ h. ground arith)
  ]

  -- A transfer that is not running leaves USBINTR alone.
  poll_tokens_kept : is_running t ≡ false → (poll_tokens r t usbintr).1 ≡ usbintr
  unfolding poll_tokens
  poll_tokens_kept stopped = elim (Option-cases t.data_token) [
    | inl no_data ↦ ground arith
    | inr (token, has_data) ↦ ground arith
  ]

  poll_tokens_enables :
      IsRal r
      → (k : ℕ) → k < 32
      → bit (poll_tokens r t usbintr).1 k
        ≡ (bit usbintr k || (is_running t && is_transfer_enable r k))
  poll_tokens_enables spec k h = elim (Bool-cases (is_running t)) [
    | inl running ↦
        rw (poll_tokens_pending.1 running, running)
          (bit-reenable_transfer_interrupts spec usbintr k h)
    | inr stopped ↦ rw (poll_tokens_kept stopped, stopped) (sym (or-false (bit usbintr k)))
  ]

  -- A failure is reported from a token that was read and that has an error bit.
  pub poll_tokens_failed :
      {e : UsbError}
      → (poll_tokens r t usbintr).0 ≡ ready (err e)
      → (token : ℕ) × IsRead t token × (has_error_bits token ≡ true) × (e ≡ map_qtd_error token)
  unfolding poll_tokens
  poll_tokens_failed {e} h = elim (Bool-cases (is_active t.status)) [
    | inl active ↦ elim (Bool-cases (is_halted t.overlay)) [
      | inl halted ↦
          (t.overlay, inr (inl refl), has_error_bits_of_is_halted t.overlay halted, ground arith)
      | inr running ↦ elim (Option-cases t.data_token) [
        | inl no_data ↦ absurd (ground arith)
        | inr (token, has_data) ↦ (
          token,
          inr (inr has_data),
          has_error_bits_of_is_halted token (ground arith),
          ground arith,
        )
      ]
    ]
    | inr ended ↦ elim (Bool-cases (has_error_bits t.status)) [
      | inl error ↦ (t.status, inl refl, error, ground arith)
      | inr clean ↦ elim (Option-cases t.data_token) [
        | inl no_data ↦ absurd (ground arith)
        | inr (token, has_data) ↦ (token, inr (inr has_data), ground arith, ground arith)
      ]
    ]
  ]

-- A poll of a transfer is pending exactly while the transfer is running, and then all four transfer
-- interrupts are enabled; it reports success exactly if the transfer is done; a failure it reports
-- is that of a token which it has read and which has an error bit. Unless it is pending USBINTR is
-- left alone.
pub poll_tokens_lem :
    {r : Ral} (spec : IsRal r) (t : Tokens) (usbintr : ℕ)
    → let (result, usbintr') = poll_tokens r t usbintr in
      ((result ≡ pending) ↔ (is_running t ≡ true))
      × ((result ≡ ready (ok tt)) ↔ (is_done t ≡ true))
      × ((e : UsbError)
          → result ≡ ready (err e)
          → (token : ℕ) × IsRead t token
            × (has_error_bits token ≡ true)
            × (e ≡ map_qtd_error token))
      × ((k : ℕ)
          → k < 32
          → bit usbintr' k ≡ (bit usbintr k || (is_running t && is_transfer_enable r k)))
poll_tokens_lem {r} spec t usbintr = (
  (waits.0, λ h. ap (λ p. p.0) (waits.1 h)),
  (done.0, λ h. ap (λ p. p.0) (done.1 h)),
  λ e h. poll_tokens_failed r t usbintr h,
  λ k h. poll_tokens_enables r t usbintr spec k h,
)
  where
    waits :
        ((poll_tokens r t usbintr).0 ≡ pending → is_running t ≡ true)
        × (is_running t ≡ true
            → poll_tokens r t usbintr ≡ (pending, reenable_transfer_interrupts r usbintr))
    waits = poll_tokens_pending r t usbintr

    done :
        ((poll_tokens r t usbintr).0 ≡ ready (ok tt) → is_done t ≡ true)
        × (is_done t ≡ true → poll_tokens r t usbintr ≡ (ready (ok tt), usbintr))
    done = poll_tokens_done r t usbintr
