-- ===== src/Host/Futures.antt =====
-- futures.rs: polling a transfer and the async advance doorbell.
pub mod Laws
use imxrt_usbh.Base.{ℕ, Option, none, some, bit_and, get_elem?, ltb, ◌!=◌, if◌then◌else◌}
use mathlib.Core.Option
use imxrt_usbh.Base.Bits.{bit_mask}
use imxrt_usbh.Ehci.Token.{is_active, is_halted, has_error_bits}
use imxrt_usbh.Host.Error.{UsbError, map_qtd_error, Outcome, ok, err, Poll, ready, pending}
use imxrt_usbh.Host.Regs.{Ral, reenable_transfer_interrupts, reenable_async_advance_interrupt}
use imxrt_usbh.Host.Statics.{UsbStatics, num_pipe_wakers}

-- The wakers of `UsbShared`, which a poll registers with and the interrupt handler wakes.
pub data Waker : Type 0 where
  device : Waker
  pipe : ℕ → Waker
  async_advance : Waker

-- What a poll has registered with, its result, and USBINTR after it.
pub record Polled {ℓ} (A : Type ℓ) : Type ℓ where
  pub registered : Waker
  pub result : Poll A
  pub usbintr : ℕ

pub record TransferComplete : Type 0 where
  pub status_qtd_index : ℕ
  pub data_qtd_index : Option ℕ
  pub qh_index : ℕ
  pub waker_index : ℕ

-- The tokens that a poll reads: of the status qTD, of the data qTD if there is one, of the overlay.
pub record Tokens : Type 0 where
  pub status : ℕ
  pub data_token : Option ℕ
  pub overlay : ℕ

-- `usb_shared.pipe_waker(index)`; `none` is the panic of an index out of bounds.
unfoldable pub pipe_waker : (index : ℕ) → Option Waker
pipe_waker index = if ltb index num_pipe_wakers then some (pipe index) else none

infixl 5 ◌>>=◌
abbrev pub ◌>>=◌ {ℓ κ} : {A : Type ℓ} {B : Type κ} → Option A → (A → Option B) → Option B
none >>= f = none
some a >>= f = f a

-- The reads of a poll; an index out of bounds panics.
unfoldable pub read_tokens : {Pool : Type 0} → TransferComplete → UsbStatics Pool → Option Tokens
read_tokens self s = do
  status ← get_elem? s.qtd_pool self.status_qtd_index
  data_token ← elim self.data_qtd_index [
    | none ↦ some none
    | some i ↦ Option.map (λ qtd. some qtd.token) (get_elem? s.qtd_pool i)
  ]
  qh ← get_elem? s.qh_pool self.qh_index
  some (record { status = status.token; data_token = data_token; overlay = qh.overlay_token })

module _ (r : Ral) where
  -- What is left to do once the tokens are read: the result, and the new USBINTR.
  unfoldable pub poll_tokens : Tokens → (usbintr : ℕ) → Poll (Outcome (Unit {0})) × ℕ
  poll_tokens t usbintr =
      let wait : Poll (Outcome (Unit {0})) × ℕ =
        (pending, reenable_transfer_interrupts r usbintr) in
      let fail : ℕ → Poll (Outcome (Unit {0})) × ℕ =
        λ token. (ready (err (map_qtd_error token)), usbintr) in
      if is_active t.status
      then if is_halted t.overlay then fail t.overlay else elim t.data_token [
        | some data_token ↦ if is_halted data_token then fail data_token else wait
        | none ↦ wait
      ]
      else if has_error_bits t.status
      then fail t.status
      else elim t.data_token [
        | some data_token ↦
            if has_error_bits data_token then fail data_token else (ready (ok tt), usbintr)
        | none ↦ (ready (ok tt), usbintr)
      ]

  -- `TransferComplete::poll`
  unfoldable pub poll_transfer :
      {Pool : Type 0}
      → TransferComplete
      → UsbStatics Pool
      → (usbintr : ℕ) → Option (Polled (Outcome (Unit {0})))
  poll_transfer self s usbintr = do
    waker ← pipe_waker self.waker_index
    t ← read_tokens self s
    let (result, usbintr') = poll_tokens t usbintr
    some (record { registered = waker; result = result; usbintr = usbintr' })

  -- `AsyncAdvanceWait::poll`, and the value that it writes to USBSTS, if it does.
  unfoldable pub poll_async_advance : (usbsts usbintr : ℕ) → Polled (Unit {0}) × Option ℕ
  poll_async_advance usbsts usbintr =
      if bit_and usbsts (bit_mask r.aai) != 0
      then (
        record { registered = async_advance; result = ready tt; usbintr = usbintr },
        some (bit_mask r.aai),
      )
      else (
        record {
          registered = async_advance;
          result = pending;
          usbintr = reenable_async_advance_interrupt r usbintr;
        },
        none,
      )
