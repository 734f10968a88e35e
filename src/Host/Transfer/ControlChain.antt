-- ===== src/Host/Transfer/ControlChain.antt =====
-- The chain of qTDs of a control transfer: setup, data, status.
use imxrt_usbh.Base.{
  ℕ, ◌<◌, ◌≡◌, ◌≢◌, refl, sym, ap, ◌∙◌, true, false, some, none, length, length-set, arith,
}
use imxrt_usbh.Ehci.Link.{link_terminate}
use imxrt_usbh.Ehci.Token.{pid_out, pid_in, pid_setup, qtd_token}
use imxrt_usbh.Ehci.Td
use imxrt_usbh.Ehci.Td.{TransferDescriptor}
use imxrt_usbh.Host.InterruptPipe.Laws.{qtd_at}
use imxrt_usbh.Host.Run.{ok}
use imxrt_usbh.Host.Statics.{UsbStatics, Layout, num_qtd, qtd_addr}
use imxrt_usbh.Host.Transfer.{init_qtd, set_next}
use imxrt_usbh.Host.Transfer.Control.{
  has_data, DataPhase, data_in, data_out, no_data, ControlRequest, control_data_len, status_pid,
  write_data, link_chain, write_control_chain,
}
use imxrt_usbh.Host.Transfer.Keeps.{Keeps, qtd_ptr-some}
use imxrt_usbh.Host.Transfer.Stage.{
  Stage, stage, stage-Stage, at-init_qtd, at-set_next, at-init_qtd_ne, at-set_next_ne,
}

-- The PID and the buffer of the data.
abbrev pub data_pid : DataPhase → ℕ
data_pid (data_in buffer len) = pid_in
data_pid (data_out buffer len) = pid_out
data_pid no_data = pid_out

abbrev buffer_of : DataPhase → ℕ
buffer_of (data_in buffer len) = buffer
buffer_of (data_out buffer len) = buffer
buffer_of no_data = 0

status_pid-lt : (p : DataPhase) → status_pid p < 4
unfolding status_pid
status_pid-lt (data_in buffer len) = omega arith
status_pid-lt (data_out buffer len) = omega arith
status_pid-lt no_data = omega arith

data_pid-lt : (p : DataPhase) → data_pid p < 4
data_pid-lt (data_in buffer len) = omega arith
data_pid-lt (data_out buffer len) = omega arith
data_pid-lt no_data = omega arith

module _ {Pool : Type 0} (l : Layout) (n : ℕ) (s : UsbStatics Pool) where
  write_data-none : (p : DataPhase) → has_data p ≡ false → write_data l p n none s ≡ ok s
  unfolding write_data
  write_data-none (data_in buffer len) h = cc
  write_data-none (data_out buffer len) h = cc
  write_data-none no_data h = refl

  write_data-some :
      (p : DataPhase) (d : ℕ)
      → d < num_qtd
      → has_data p ≡ true
      → write_data l p n (some d) s
        ≡ ok (init_qtd d (qtd_token (data_pid p) n true false) (buffer_of p) n s)
  unfolding write_data
  write_data-some (data_in buffer len) d lt h = rw (qtd_ptr-some l d lt)
  write_data-some (data_out buffer len) d lt h = rw (qtd_ptr-some l d lt)
  write_data-some no_data d lt h = cc

module _ {Pool : Type 0} (l : Layout) (req : ControlRequest) (s : UsbStatics Pool) (a c : ℕ)
    (setup-lt : a < num_qtd) (status-lt : c < num_qtd) (apart : a ≢ c)
    (size : length s.qtd_pool ≡ num_qtd) where
  abbrev data_len : ℕ
  data_len = control_data_len req.setup req.data_phase

  abbrev with_setup : UsbStatics Pool
  with_setup = init_qtd a (qtd_token pid_setup 8 false false) req.setup.address 8 s

  abbrev with_status : UsbStatics Pool → UsbStatics Pool
  with_status t = init_qtd c (qtd_token (status_pid req.data_phase) 0 true true) 0 0 t

  setup_size : length with_setup.qtd_pool ≡ num_qtd
  setup_size = length-set s.qtd_pool a _ ∙ size

  -- Without a data phase.
  abbrev short_chain : UsbStatics Pool
  short_chain = set_next a (qtd_addr l c) (with_status with_setup)

  -- Without a data phase the setup qTD leads to the status qTD, which is an IN of no bytes, starts with
  -- data toggle 1, alone raises the interrupt and ends the chain. The schedules and the bitmap are as
  -- before. The two slots are different and lie within the pool.
  pub write_control_chain-status :
      has_data req.data_phase ≡ false
      → (t : UsbStatics Pool) × (write_control_chain l req
            (record { setup_slot = a; data_slot = none; status_slot = c })
            s
          ≡ ok t)
        × Stage (qtd_at t a) pid_setup 8 (qtd_addr l c) false false
        × Stage (qtd_at t c) (status_pid req.data_phase) 0 link_terminate true true
        × Keeps s t
  unfolding write_control_chain link_chain Td.init
  write_control_chain-status absent = (
    short_chain,
    rw (
      qtd_ptr-some l a setup-lt,
      write_data-none l data_len with_setup req.data_phase absent,
      qtd_ptr-some l c status-lt,
    ),
    rw at_setup
        (stage-Stage pid_setup 8 req.setup.address (qtd_addr l c) false false (omega arith)),
    rw at_status (
        stage-Stage (status_pid req.data_phase) 0 0 link_terminate true true
          (status_pid-lt req.data_phase)),
    record {
      links = λ x. refl;
      size = refl;
      frames = refl;
      slots = refl;
      rests = record {
        qtd_size = length-set _ a _ ∙ length-set _ c _ ∙ length-set s.qtd_pool a _;
        buffers = refl;
        control = refl;
        bulk = refl;
      };
    },
  )
    where
      grown : length (with_status with_setup).qtd_pool ≡ num_qtd
      grown = length-set _ c _ ∙ length-set s.qtd_pool a _ ∙ size

      at_setup :
          qtd_at short_chain a ≡ stage pid_setup 8 req.setup.address (qtd_addr l c) false false
      at_setup =
          at-set_next (with_status with_setup) a (omega (arith, grown)) (qtd_addr l c)
          ∙ ap (λ (qtd : TransferDescriptor). record qtd { next = qtd_addr l c })
              (at-init_qtd_ne with_setup c a (λ e. apart (sym e)) _ 0 0
                ∙ at-init_qtd s a (omega (arith, size)) _ req.setup.address 8)

      at_status :
          qtd_at short_chain c ≡ stage (status_pid req.data_phase) 0 0 link_terminate true true
      at_status =
          at-set_next_ne (with_status with_setup) a c apart (qtd_addr l c)
          ∙ at-init_qtd with_setup c (omega (arith, setup_size)) _ 0 0

  module _ (d : ℕ) (data-lt : d < num_qtd) (setup_data : a ≢ d) (data_status : d ≢ c) where
    abbrev with_data : UsbStatics Pool
    with_data =
        init_qtd d (qtd_token (data_pid req.data_phase) data_len true false)
          (buffer_of req.data_phase) data_len with_setup

    abbrev initialised : UsbStatics Pool
    initialised = with_status with_data

    abbrev long_chain : UsbStatics Pool
    long_chain = set_next d (qtd_addr l c) (set_next a (qtd_addr l d) initialised)

    data_size : length with_data.qtd_pool ≡ num_qtd
    data_size = length-set _ d _ ∙ setup_size

    all_size : length initialised.qtd_pool ≡ num_qtd
    all_size = length-set with_data.qtd_pool c _ ∙ data_size

    at_setup : qtd_at long_chain a ≡ stage pid_setup 8 req.setup.address (qtd_addr l d) false false
    at_setup =
        at-set_next_ne (set_next a (qtd_addr l d) initialised) d a (λ e. setup_data (sym e))
          (qtd_addr l c)
        ∙ at-set_next initialised a (omega (arith, all_size)) (qtd_addr l d)
        ∙ ap (λ (qtd : TransferDescriptor). record qtd { next = qtd_addr l d })
            (at-init_qtd_ne with_data c a (λ e. apart (sym e)) _ 0 0
              ∙ at-init_qtd_ne with_setup d a (λ e. setup_data (sym e)) _ _ _
              ∙ at-init_qtd s a (omega (arith, size)) _ req.setup.address 8)

    at_data :
        qtd_at long_chain d
        ≡ stage
            (data_pid req.data_phase)
            data_len
            (buffer_of req.data_phase)
            (qtd_addr l c)
            true
            false
    at_data =
        at-set_next (set_next a (qtd_addr l d) initialised) d
          (omega (
            arith,
            length-set initialised.qtd_pool a
                (record (qtd_at initialised a) { next = qtd_addr l d }),
            all_size,
          ))
          (qtd_addr l c)
        ∙ ap (λ (qtd : TransferDescriptor). record qtd { next = qtd_addr l c })
            (at-set_next_ne initialised a d setup_data (qtd_addr l d)
              ∙ at-init_qtd_ne with_data c d (λ e. data_status (sym e)) _ 0 0
              ∙ at-init_qtd with_setup d (omega (arith, setup_size)) _ _ _)

    at_status : qtd_at long_chain c ≡ stage (status_pid req.data_phase) 0 0 link_terminate true true
    unfolding Td.init
    at_status =
        at-set_next_ne (set_next a (qtd_addr l d) initialised) d c data_status (qtd_addr l c)
        ∙ at-set_next_ne initialised a c apart (qtd_addr l d)
        ∙ at-init_qtd with_data c (omega (arith, data_size)) _ 0 0

    -- With a data phase the setup qTD leads to the data qTD and that to the status qTD. The data qTD
    -- has the direction of the phase, asks for `data_len` modulo 2^15 bytes, which is all that the field of
    -- the token holds, and starts with data toggle 1; the status qTD has no byte and starts with data toggle 1, it alone raises the interrupt, and it ends
    -- the chain. The schedules and the bitmap are as before. The three slots are different and lie within
    -- the pool.
    pub write_control_chain-data :
        has_data req.data_phase ≡ true
        → (t : UsbStatics Pool) × (write_control_chain l req
              (record { setup_slot = a; data_slot = some d; status_slot = c })
              s
            ≡ ok t)
          × Stage (qtd_at t a) pid_setup 8 (qtd_addr l d) false false
          × Stage (qtd_at t d) (data_pid req.data_phase) data_len (qtd_addr l c) true false
          × Stage (qtd_at t c) (status_pid req.data_phase) 0 link_terminate true true
          × Keeps s t
    unfolding write_control_chain link_chain Td.init
    write_control_chain-data present = (
      long_chain,
      rw (
        qtd_ptr-some l a setup-lt,
        write_data-some l data_len with_setup req.data_phase d data-lt present,
        qtd_ptr-some l c status-lt,
        qtd_ptr-some l d data-lt,
      ),
      rw at_setup
          (stage-Stage pid_setup 8 req.setup.address (qtd_addr l d) false false (omega arith)),
      rw at_data (
          stage-Stage (data_pid req.data_phase) data_len (buffer_of req.data_phase) (qtd_addr l c)
            true false (data_pid-lt req.data_phase)),
      rw at_status (
          stage-Stage (status_pid req.data_phase) 0 0 link_terminate true true
            (status_pid-lt req.data_phase)),
      record {
        links = λ x. refl;
        size = refl;
        frames = refl;
        slots = refl;
        rests = record {
          qtd_size =
              length-set _ d _
              ∙ length-set _ a _
              ∙ length-set _ c _
              ∙ length-set _ d _
              ∙ length-set s.qtd_pool a _;
          buffers = refl;
          control = refl;
          bulk = refl;
        };
      },
    )
