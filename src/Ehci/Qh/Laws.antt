-- ===== src/Ehci/Qh/Laws.antt =====
-- The endpoint words hold the fields that they are built from; what the overlay writes change.
use imxrt_usbh.Base.{
  ℕ, ◌+◌, ◌*◌, ◌/◌, ◌%◌, ◌^◌, ◌<◌, ◌≡◌, Bool, true, false, ◌&&◌, ap, sym, bit_or, ◌!=◌, arith,
}
use native.Mathlib.Nat.{mod-eq_of_lt, div-add-mod'}
use imxrt_usbh.Base.Fields.{bit_or_shifted, bit_or_aligned, bit_and_low}
use imxrt_usbh.Ehci.Token.{shl32}
use imxrt_usbh.Ehci.Token.Laws.{flag, flag-lt, bit_or_bits}
use imxrt_usbh.Ehci.Qh.{
  QueueHead, qh_characteristics, qh_capabilities, speed_high, set_overlay_toggle,
}

-- One more field on top of the fields below `k`.
add_field :
    (k f : ℕ) {word low : ℕ}
    → word ≡ low
    → low < 2 ^ k
    → f * 2 ^ k < 2 ^ 32
    → bit_or word (shl32 f k) ≡ low + f * 2 ^ k
add_field k f e hl hf = rw (e, mod-eq_of_lt hf) (bit_or_shifted k f _ hl)

-- Whether `qh_characteristics` sets the control endpoint flag.
abbrev pub needs_control_flag : Bool → ℕ → Bool
needs_control_flag is_control speed = is_control && (speed != speed_high)

abbrev characteristics_sum : (address endpoint speed mps dtc head ctrl : ℕ) → ℕ
characteristics_sum address endpoint speed mps dtc head ctrl =
    address
    + endpoint * 2 ^ 8
    + speed * 2 ^ 12
    + dtc * 2 ^ 14
    + head * 2 ^ 15
    + mps * 2 ^ 16
    + ctrl * 2 ^ 27
    + 15 * 2 ^ 28

module _ (address endpoint speed mps : ℕ) (is_control is_head : Bool) (ha : address < 2 ^ 8)
    (he : endpoint < 2 ^ 4) (hs : speed < 4) (hm : mps < 2 ^ 11) where
  qh_characteristics-sum :
      qh_characteristics address endpoint speed mps is_control is_head
      ≡ characteristics_sum address endpoint speed mps
          (flag is_control)
          (flag is_head)
          (flag (needs_control_flag is_control speed))
  unfolding qh_characteristics
  qh_characteristics-sum =
      add_field 28 15
        (add_field 27 ctrl
          (add_field 16 mps
            (add_field 15 head
              (add_field 14 dtc
                (add_field 12 speed (add_field 8 endpoint lowest (omega arith) (omega arith))
                  (omega arith) (omega arith))
                (omega arith) (omega (arith, flag-lt is_control)))
              (omega (arith, flag-lt is_control)) (omega (arith, flag-lt is_head)))
            (omega (arith, flag-lt is_control, flag-lt is_head)) (omega arith))
          (omega (arith, flag-lt is_control, flag-lt is_head)) (omega (arith, flag-lt needed)))
        (omega (arith, flag-lt is_control, flag-lt is_head, flag-lt needed)) (omega arith)
    where
      needed : Bool
      needed = needs_control_flag is_control speed

      ctrl : ℕ
      ctrl = flag needed

      dtc : ℕ
      dtc = flag is_control

      head : ℕ
      head = flag is_head

      lowest : shl32 address 0 ≡ address
      lowest = omega arith

  -- The characteristics word decodes to its arguments, the control endpoint flag is set exactly for
  -- a control endpoint that is not high speed, and the NAK reload count is 15.
  pub qh_characteristics_decodes :
      let w = qh_characteristics address endpoint speed mps is_control is_head in
      (w % 2 ^ 8 ≡ address)
      × (w / 2 ^ 8 % 2 ^ 4 ≡ endpoint)
      × (w / 2 ^ 12 % 4 ≡ speed)
      × (w / 2 ^ 14 % 2 ≡ flag is_control)
      × (w / 2 ^ 15 % 2 ≡ flag is_head)
      × (w / 2 ^ 16 % 2 ^ 11 ≡ mps)
      × (w / 2 ^ 27 % 2 ≡ flag (needs_control_flag is_control speed))
      × (w / 2 ^ 28 ≡ 15)
  qh_characteristics_decodes = omega (
    arith,
    qh_characteristics-sum,
    flag-lt is_control,
    flag-lt is_head,
    flag-lt (needs_control_flag is_control speed),
  )

-- The capabilities word decodes to its arguments.
pub qh_capabilities_decodes :
    (smask cmask hub_addr hub_port mult : ℕ)
    → smask < 2 ^ 8
    → cmask < 2 ^ 8
    → hub_addr < 2 ^ 7
    → hub_port < 2 ^ 7
    → mult < 4
    → let w = qh_capabilities smask cmask hub_addr hub_port mult in
      (w % 2 ^ 8 ≡ smask)
      × (w / 2 ^ 8 % 2 ^ 8 ≡ cmask)
      × (w / 2 ^ 16 % 2 ^ 7 ≡ hub_addr)
      × (w / 2 ^ 23 % 2 ^ 7 ≡ hub_port)
      × (w / 2 ^ 30 ≡ mult)
qh_capabilities_decodes smask cmask hub_addr hub_port mult hs hc ha hp hm = omega (arith, word)
  where
    word :
        qh_capabilities smask cmask hub_addr hub_port mult
        ≡ smask + cmask * 2 ^ 8 + hub_addr * 2 ^ 16 + hub_port * 2 ^ 23 + mult * 2 ^ 30
    word =
        unfold qh_capabilities in
        add_field 30 mult
          (add_field 23 hub_port
            (add_field 16 hub_addr
              (add_field 8 cmask {word = shl32 smask 0} {low = smask} (omega arith) (omega arith)
                (omega arith))
              (omega arith) (omega arith))
            (omega arith) (omega arith))
          (omega arith) (omega arith)

-- `set_overlay_toggle` sets bit 31 of the overlay token to the toggle, and keeps the other 31 bits
-- and every other field.
pub set_overlay_toggle_lem :
    (self : QueueHead) (toggle : Bool)
    → self.overlay_token < 2 ^ 32
    → set_overlay_toggle self toggle
      ≡ record self { overlay_token = self.overlay_token % 2 ^ 31 + flag toggle * 2 ^ 31 }
unfolding set_overlay_toggle
set_overlay_toggle_lem self true h = ap (λ t. record self { overlay_token = t }) word
  where
    token : ℕ
    token = self.overlay_token

    word : bit_or token (2 ^ 31) ≡ token % 2 ^ 31 + 2 ^ 31
    word = omega (
      arith,
      ap (λ (t : ℕ). bit_or t (1 * 2 ^ 31)) (sym (div-add-mod' token (2 ^ 31))),
      bit_or_aligned 31 (token / 2 ^ 31) (token % 2 ^ 31) 1 (omega arith),
      bit_or_bits (token / 2 ^ 31) 1 (omega arith) (omega arith),
    )
set_overlay_toggle_lem self false h =
    ap (λ t. record self { overlay_token = t }) (omega (arith, bit_and_low 31 self.overlay_token))
