-- ===== src/Host/Transfer/Stage.antt =====
-- What a qTD of a control transfer asks for.
use imxrt_usbh.Base.{
  ℕ, ◌/◌, ◌%◌, ◌^◌, ◌<◌, ◌≡◌, ◌≢◌, refl, Bool, false, length, max, get_or-set_self, get_or-set_ne,
}
use imxrt_usbh.Ehci.Token.{qtd_token, qtd_token_bytes_remaining, is_inactive}
use imxrt_usbh.Ehci.Token.Laws.{flag, qtd_token_decodes}
use imxrt_usbh.Ehci.Td
use imxrt_usbh.Ehci.Td.{TransferDescriptor}
use imxrt_usbh.Host.InterruptPipe.Laws.{qtd_at}
use imxrt_usbh.Host.Statics.{UsbStatics}
use imxrt_usbh.Host.Transfer.{init_qtd, set_next}

-- A qTD that is active, with its PID, its `n` bytes to go, the data toggle that it starts with (bit 15
-- of the byte count spills into it), whether it raises an interrupt at its end, and what follows it.
pub record Stage (qtd : TransferDescriptor) (pid n next : ℕ) (toggle ioc : Bool) : Type 0 where
  pub active : is_inactive qtd.token ≡ false
  pub pid_is : qtd.token / 2 ^ 8 % 4 ≡ pid
  pub bytes : qtd_token_bytes_remaining qtd.token ≡ n % 2 ^ 15
  pub toggle_is : qtd.token / 2 ^ 31 ≡ max (n / 2 ^ 15 % 2) (flag toggle)
  pub interrupt : qtd.token / 2 ^ 15 % 2 ≡ flag ioc
  pub next_is : qtd.next ≡ next

abbrev pub stage : (pid n addr next : ℕ) (toggle ioc : Bool) → TransferDescriptor
stage pid n addr next toggle ioc = record (Td.init Td.new (qtd_token pid n toggle ioc) addr n) {
  next = next;
}

pub stage-Stage :
    (pid n addr next : ℕ) (toggle ioc : Bool)
    → pid < 4
    → Stage (stage pid n addr next toggle ioc) pid n next toggle ioc
unfolding Td.init
stage-Stage pid n addr next toggle ioc small =
    let (pid_is, _, bytes, interrupt, toggle_is, active, _) =
      qtd_token_decodes pid n toggle ioc small in
    record {
      active = active;
      pid_is = pid_is;
      bytes = bytes;
      toggle_is = toggle_is;
      interrupt = interrupt;
      next_is = refl;
    }

module _ {Pool : Type 0} (s : UsbStatics Pool) (i : ℕ) (h : i < length s.qtd_pool) where
  pub at-init_qtd :
      (token addr n : ℕ) → qtd_at (init_qtd i token addr n s) i ≡ Td.init Td.new token addr n
  unfolding Td.init
  at-init_qtd token addr n = get_or-set_self s.qtd_pool i _ Td.new h

  pub at-set_next : (next : ℕ) → qtd_at (set_next i next s) i ≡ record (qtd_at s i) { next = next }
  at-set_next next = get_or-set_self s.qtd_pool i _ Td.new h

module _ {Pool : Type 0} (s : UsbStatics Pool) (i j : ℕ) (ne : i ≢ j) where
  pub at-init_qtd_ne : (token addr n : ℕ) → qtd_at (init_qtd i token addr n s) j ≡ qtd_at s j
  at-init_qtd_ne token addr n = get_or-set_ne s.qtd_pool i j _ Td.new ne

  pub at-set_next_ne : (next : ℕ) → qtd_at (set_next i next s) j ≡ qtd_at s j
  at-set_next_ne next = get_or-set_ne s.qtd_pool i j _ Td.new ne
