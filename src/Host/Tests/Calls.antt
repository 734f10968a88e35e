-- ===== src/Host/Tests/Calls.antt =====
-- Whole transfers, with a controller that retires every qTD with no byte to go.
use imxrt_usbh.Base.{
  ℕ, ◌≤◌, ◌==◌, ◌≡◌, ◌≢◌, refl, ap, true, false, some, List, [], ◌∷◌, zero, suc, length, length-map,
  map, get_or, arith,
}
use imxrt_usbh.Ehci.Link.{link_terminate}
use imxrt_usbh.Ehci.Td
use imxrt_usbh.Ehci.Td.{TransferDescriptor}
use imxrt_usbh.Ehci.Token.{qtd_token_bytes_remaining, pid_setup}
use imxrt_usbh.Host.Error.Laws.{AtMost}
use imxrt_usbh.Host.InterruptPipe.{normal}
use imxrt_usbh.Host.InterruptPipe.Laws.{qtd_at}
use imxrt_usbh.Host.Run as Run
use imxrt_usbh.Host.Schedule.Both.{IsScheduled}
use imxrt_usbh.Host.Statics
use imxrt_usbh.Host.Statics.{UsbStatics, qtd_addr, num_qtd}
use imxrt_usbh.Host.Controller.{init}
use imxrt_usbh.Host.Tests.{ral, layout, layout-IsAligned}
use imxrt_usbh.Host.Tests.Schedules.{statics, start-IsScheduled}
use imxrt_usbh.Host.Transfer.{Controller}
use imxrt_usbh.Host.Transfer.Bulk.{BulkRequest, Transferred, do_bulk_transfer}
use imxrt_usbh.Host.Transfer.BulkCall.{do_bulk_transfer-IsScheduled}
use imxrt_usbh.Host.Transfer.Control.{
  ControlRequest, ControlDone, data_in, no_data, alloc_control, control_data_len, status_pid,
  write_control_chain, do_control_transfer,
}
use imxrt_usbh.Host.Transfer.ControlBalance.{Allocates, alloc_control-Allocates}
use imxrt_usbh.Host.Transfer.Stage.{Stage}
use imxrt_usbh.Host.Transfer.ControlChain.{data_pid, write_control_chain-data}
use imxrt_usbh.Host.Transfer.ControlCall.{do_control_transfer-IsScheduled}
use imxrt_usbh.Host.Transfer.Keeps.{Keeps, Rests, Rests-refl}
use imxrt_usbh.Host.Transfer.Session.{IsController, Unless, to_go}
use imxrt_usbh.Midi.Driver.{variable_size}

abbrev retired : TransferDescriptor → TransferDescriptor
retired qtd = record qtd { token = 0 }

retired_or : (xs : List TransferDescriptor) (i : ℕ) → (get_or (map retired xs) i Td.new).token ≡ 0
unfolding Td.new
retired_or [] i = refl
retired_or (x ∷ xs) zero = refl
retired_or (x ∷ xs) (suc i) = retired_or xs i

none_left : qtd_token_bytes_remaining 0 ≡ 0
unfolding qtd_token_bytes_remaining
none_left = refl

module _ {Pool : Type 0} where
  abbrev pub retire : UsbStatics Pool → UsbStatics Pool
  retire s = record s { qtd_pool = map retired s.qtd_pool }

  abbrev pub hardware : Controller Pool
  hardware = record {
    complete = λ usbcmd future s. (retire s, 0);
    advance = λ usbcmd s. (usbcmd, s);
  }

  pub retire-Keeps : (s : UsbStatics Pool) → Keeps s (retire s)
  retire-Keeps s = record {
    links = λ x. refl;
    size = refl;
    frames = refl;
    slots = refl;
    rests = record {
      qtd_size = length-map s.qtd_pool retired;
      buffers = refl;
      control = refl;
      bulk = refl;
    };
  }

  pub same-Keeps : (s : UsbStatics Pool) → Keeps s s
  same-Keeps s = record {
    links = λ x. refl;
    size = refl;
    frames = refl;
    slots = refl;
    rests = Rests-refl s;
  }

  retire_counts : (s : UsbStatics Pool) (i : ℕ) → to_go (retire s) i ≤ to_go s i
  retire_counts s i =
      omega (arith, ap qtd_token_bytes_remaining (retired_or s.qtd_pool i), none_left)

  pub hardware-IsController : IsController hardware
  hardware-IsController = record {
    complete-Keeps = λ usbcmd future s. retire-Keeps s;
    complete_counts = λ usbcmd future s i. retire_counts s i;
    advance-Keeps = λ usbcmd s. same-Keeps s;
    advance_counts = λ usbcmd s i. omega arith;
  }

statics_sizes : (length statics.qtd_pool ≡ num_qtd) × (length statics.qtd_allocated ≡ num_qtd)
unfolding init Statics.new
statics_sizes = (refl, refl)

-- An OUT transfer of two full packets on the second pipe of the bulk pool.
abbrev out : BulkRequest
out = record {
  address = 5;
  endpoint = 2;
  packet_size = 64;
  buffer = 0x2020_4000;
  data_len = 128;
  pid = 0;
  is_in = false;
  transfer_type = variable_size;
  data_toggle = true;
}

do_bulk_transfer-IsScheduled_example :
    Unless {Pool = ℕ} layout ral hardware 2 [] []
      (do_bulk_transfer layout ral hardware 4 0 (record { which = 1 }) out 0 statics)
      ((done : Transferred ℕ) × (do_bulk_transfer layout ral hardware 4 0
            (record { which = 1 })
            out
            0
            statics
          ≡ Run.ok done)
        × IsScheduled layout done.statics [] []
        × (done.statics.qtd_allocated ≡ statics.qtd_allocated)
        × Rests statics done.statics
        × AtMost 128 done.result)
do_bulk_transfer-IsScheduled_example =
    do_bulk_transfer-IsScheduled layout-IsAligned ral hardware-IsController 4 0
      (record { which = 1 }) out 0 statics [] [] start-IsScheduled statics_sizes.0 statics_sizes.1
      (omega arith) refl refl (omega arith)

-- The first 18 bytes of a descriptor, by GET_DESCRIPTOR with a buffer of 64 bytes.
abbrev pub get_descriptor : ControlRequest
get_descriptor = record {
  address = 5;
  transfer_extras = normal;
  packet_size = 64;
  setup = record { address = 0x2020_5000; w_length = 18 };
  data_phase = data_in 0x2020_6000 64;
}

do_control_transfer-IsScheduled_example :
    Unless {Pool = ℕ} layout ral hardware 1 [] []
      (do_control_transfer layout ral hardware 4 0 get_descriptor 0 statics)
      ((done : ControlDone ℕ) × (do_control_transfer layout ral hardware 4 0 get_descriptor 0
            statics
          ≡ Run.ok done)
        × IsScheduled layout done.statics [] []
        × (done.statics.qtd_allocated ≡ statics.qtd_allocated)
        × Rests statics done.statics
        × AtMost (control_data_len get_descriptor.setup get_descriptor.data_phase) done.result)
do_control_transfer-IsScheduled_example =
    do_control_transfer-IsScheduled layout-IsAligned ral hardware-IsController 4 0 get_descriptor 0
      statics [] [] start-IsScheduled statics_sizes.0 statics_sizes.1 refl refl (omega arith)

asks_for_18 : control_data_len get_descriptor.setup get_descriptor.data_phase ≡ 18
unfolding control_data_len
asks_for_18 = refl

alloc_control-Allocates_example : Allocates true statics (alloc_control true statics)
alloc_control-Allocates_example = alloc_control-Allocates true statics statics_sizes.1

apart : (i j : ℕ) → (i == j) ≡ false → i ≢ j
apart i j h e = absurd (ground (arith, h, e))

write_control_chain-data_example :
    (t : UsbStatics ℕ) × (write_control_chain layout get_descriptor
        (record { setup_slot = 0; data_slot = some 1; status_slot = 2 })
        statics
      ≡ Run.ok t)
    × Stage (qtd_at t 0) pid_setup 8 (qtd_addr layout 1) false false
    × Stage
        (qtd_at t 1)
        (data_pid get_descriptor.data_phase)
        (control_data_len get_descriptor.setup get_descriptor.data_phase)
        (qtd_addr layout 2)
        true
        false
    × Stage (qtd_at t 2) (status_pid get_descriptor.data_phase) 0 link_terminate true true
    × Keeps statics t
write_control_chain-data_example =
    write_control_chain-data layout get_descriptor statics 0 2 (omega arith) (omega arith)
      (apart 0 2 refl) statics_sizes.0 1 (omega arith) (apart 0 1 refl) (apart 1 2 refl) refl

-- SET_ADDRESS, which has no data.
abbrev set_address : ControlRequest
set_address = record get_descriptor { data_phase = no_data }
