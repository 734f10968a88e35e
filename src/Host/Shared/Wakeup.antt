-- ===== src/Host/Shared/Wakeup.antt =====
-- A pending poll and the interrupt that ends its wait.
use imxrt_usbh.Base.{
  ℕ, ◌<◌, ◌^◌, ◌≡◌, refl, sym, subst, ap, ◌∙◌, true, false, none, some, bit_and, Bool-cases,
  Option-cases, arith, inl, inr, ◌↔◌,
}
use mathlib.Core.Option.{some_inj}
use imxrt_usbh.Base.Bits.{bit, bit_mask, not32, ne-bit_and-bit_mask}
use imxrt_usbh.Host.Error.{Outcome, ready, pending}
use imxrt_usbh.Host.Futures.{
  Waker, pipe, async_advance, Polled, Tokens, TransferComplete, read_tokens, poll_tokens,
  poll_transfer, poll_async_advance, pipe_waker,
}
use imxrt_usbh.Host.Futures.Laws.{poll_tokens_lem, is_running}
use imxrt_usbh.Host.Regs.{Ral, IsRal, reenable_async_advance_interrupt}
use imxrt_usbh.Host.Regs.Laws.{is_transfer_enable, bit-reenable_async_advance_interrupt}
use imxrt_usbh.Host.Shared.{on_irq}
use imxrt_usbh.Host.Shared.Laws.{on_irq_kept, on_irq_lem, is_woken, has_transfer}
use imxrt_usbh.Host.Statics.{UsbStatics}

-- The interrupt is raised: a status bit is on that USBINTR enables.
abbrev pub IsRaised : (status usbintr : ℕ) → Type 0
IsRaised status usbintr = (k : ℕ) × (bit status k ≡ true) × (bit usbintr k ≡ true)

pipe_waker-some : (i : ℕ) {w : Waker} → pipe_waker i ≡ some w → (i < 5) × (w ≡ pipe i)
unfolding pipe_waker
pipe_waker-some i h = ground arith

poll_transfer_parts :
    (r : Ral) {Pool : Type 0} (self : TransferComplete) (s : UsbStatics Pool) (usbintr : ℕ)
    {polled : Polled (Outcome (Unit {0}))}
    → poll_transfer r self s usbintr ≡ some polled
    → (t : Tokens) × (pipe_waker self.waker_index ≡ some polled.registered)
      × ((polled.result, polled.usbintr) ≡ poll_tokens r t usbintr)
unfolding poll_transfer
poll_transfer_parts r self s usbintr h = elim (Option-cases (pipe_waker self.waker_index)) [
  | inl out ↦ absurd (ground arith)
  | inr (w, has_waker) ↦ elim (Option-cases (read_tokens self s)) [
    | inl out ↦ absurd (ground arith)
    | inr (t, read) ↦
        let polled_is = some_inj.0 (simp (has_waker, read) at h) in
        (
          t,
          has_waker ∙ ap (λ p. some p.registered) polled_is,
          sym (ap (λ p. (p.result, p.usbintr)) polled_is),
        )
  ]
]

-- Each transfer bit of the status has its enable.
bit_of_has_transfer :
    {r : Ral} (spec : IsRal r) (status : ℕ)
    → has_transfer r status ≡ true
    → (k : ℕ) × (k < 32) × (bit status k ≡ true) × (is_transfer_enable r k ≡ true)
bit_of_has_transfer {r} spec status h = elim (Bool-cases (bit status r.ui)) [
  | inl on ↦ (r.ui, omega arith, on, ground arith)
  | inr no_ui ↦ elim (Bool-cases (bit status r.uei)) [
    | inl on ↦ (r.uei, omega arith, on, ground arith)
    | inr no_uei ↦ elim (Bool-cases (bit status 18)) [
      | inl on ↦ (18, omega arith, on, ground arith)
      | inr no_uai ↦ (19, omega arith, ground arith, ground arith)
    ]
  ]
]

-- A transfer that is pending has enabled each transfer interrupt, so that a status with a transfer
-- bit raises the interrupt, and then the handler wakes the waker that the poll has registered with.
pub poll_transfer-on_irq :
    {r : Ral} (spec : IsRal r) {Pool : Type 0} (self : TransferComplete) (s : UsbStatics Pool)
    (usbintr status : ℕ) {polled : Polled (Outcome (Unit {0}))}
    → poll_transfer r self s usbintr ≡ some polled
    → polled.result ≡ pending
    → status < 2 ^ 32
    → has_transfer r status ≡ true
    → IsRaised status polled.usbintr
      × (is_woken polled.registered (on_irq r status polled.usbintr).woken ≡ true)
poll_transfer-on_irq {r} spec self s usbintr status {polled} h waits small transfer =
    let on = bit_of_has_transfer spec status transfer in
    let (t, waker, tokens) = poll_transfer_parts r self s usbintr h in
    let laws = poll_tokens_lem spec t usbintr in
    let running : is_running t ≡ true = laws.0.0 (sym (ap (λ p. p.0) tokens) ∙ waits) in
    let (i_small, waker_is) = pipe_waker-some self.waker_index waker in
    let enabled : (k : ℕ) → k < 32 → is_transfer_enable r k ≡ true → bit polled.usbintr k ≡ true =
      λ k k_small transfer_enable.
        ground (arith, laws.3 k k_small, ap (λ p. p.1) tokens, running, transfer_enable) in
    (
      (on.0, on.2, enabled on.0 on.1 on.3),
      subst (λ w. is_woken w (on_irq r status polled.usbintr).woken ≡ true) (sym waker_is)
          ((on_irq_lem spec status polled.usbintr small).2 self.waker_index i_small ∙ transfer),
    )

module _ (r : Ral) (usbsts usbintr : ℕ) where
  pub advance_ready :
      bit usbsts r.aai ≡ true
      → poll_async_advance r usbsts usbintr ≡ (
        record { registered = async_advance; result = ready tt; usbintr = usbintr },
        some (bit_mask r.aai),
      )
  unfolding poll_async_advance
  advance_ready on = rw (ne-bit_and-bit_mask usbsts r.aai, on)

  pub advance_pending :
      bit usbsts r.aai ≡ false
      → poll_async_advance r usbsts usbintr ≡ (
        record {
          registered = async_advance;
          result = pending;
          usbintr = reenable_async_advance_interrupt r usbintr;
        },
        none,
      )
  unfolding poll_async_advance
  advance_pending off = rw (ne-bit_and-bit_mask usbsts r.aai, off)

-- `poll_async_advance` is ready exactly if AAI is on, which it then acknowledges; otherwise it has
-- enabled AAE. The handler keeps AAI for it: when the interrupt comes, the handler wakes the waiting
-- task, and the next poll is ready.
pub poll_async_advance-on_irq :
    {r : Ral} (spec : IsRal r) (usbsts usbintr : ℕ)
    → let (polled, acknowledged) = poll_async_advance r usbsts usbintr in
      (polled.registered ≡ async_advance)
      × ((polled.result ≡ ready tt) ↔ (bit usbsts r.aai ≡ true))
      × ((polled.result ≡ ready tt) ↔ (acknowledged ≡ some (bit_mask r.aai)))
      × ((status : ℕ)
          → polled.result ≡ pending
          → status < 2 ^ 32
          → bit status r.aai ≡ true
          → let handled = on_irq r status polled.usbintr in
            IsRaised status polled.usbintr
            × (is_woken async_advance handled.woken ≡ true)
            × ((later : ℕ)
                → (poll_async_advance r
                    (bit_and status (not32 handled.usbsts_written))
                    later).0.result
                  ≡ ready tt))
poll_async_advance-on_irq {r} spec usbsts usbintr = elim (Bool-cases (bit usbsts r.aai)) [
  | inl on ↦
      rw (advance_ready r usbsts usbintr on, on)
        (
          refl,
          (λ h. refl, λ h. refl),
          (λ h. refl, λ h. refl),
          λ status waits small on. absurd (ground arith),
        )
  | inr off ↦
      rw (advance_pending r usbsts usbintr off, off)
        (
          refl,
          (λ h. absurd (ground arith), λ h. absurd (ground arith)),
          (λ h. absurd (ground arith), λ h. absurd (ground arith)),
          λ status waits small on.
              let enabled : ℕ = reenable_async_advance_interrupt r usbintr in
              let handled = on_irq_lem spec status enabled small in
              (
                (
                  r.aai,
                  on,
                  ground (
                    arith,
                    bit-reenable_async_advance_interrupt spec usbintr r.aai (omega arith),
                  ),
                ),
                handled.3 ∙ on,
                λ later.
                    ap (λ p. p.0.result)
                      (advance_ready r
                        (bit_and status (not32 (on_irq r status enabled).usbsts_written)) later
                        (on_irq_kept spec status enabled r.aai small (omega arith) ∙ ground arith)),
              ),
        )
]
