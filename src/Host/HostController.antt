-- ===== src/Host/HostController.antt =====
-- trait_impl.rs: the calls of the `HostController` trait, over the pools of cotton-usb-host.
pub mod Invariant
pub mod Placed
pub mod Opening
pub mod Closing
pub mod Polling
pub mod Reachable
pub mod Transfers
use imxrt_usbh.Base.{ℕ, ◌-◌, Bool, true, false, Option, none, some}
use imxrt_usbh.Ehci.Token.{pid_out, pid_in}
use imxrt_usbh.Host.Error.{UsbError, Outcome, ok, err}
use imxrt_usbh.Host.InterruptPipe as InterruptPipe
use imxrt_usbh.Host.InterruptPipe.{
  TransferExtras, Pipe, ImxrtInterruptPipe, drop_pipe, do_alloc_interrupt_pipe,
}
use imxrt_usbh.Host.Regs.{Ral}
use imxrt_usbh.Host.Run.{Run, out_of_fuel, ◌>>=◌}
use imxrt_usbh.Host.Statics.{UsbStatics, Layout}
use imxrt_usbh.Host.Transfer.{Controller}
use imxrt_usbh.Host.Transfer.Bulk.{BulkRequest, Transferred, do_bulk_transfer}
use imxrt_usbh.Host.Transfer.Control.{ControlRequest, ControlDone, do_control_transfer}
use imxrt_usbh.Midi.Driver.{TransferType}

-- The operations of cotton-usb-host's `Pool`: a `Pooled` is its number, `free` is its drop.
pub record PoolOps (Pool : Type 0) : Type 0 where
  pub new : (total : ℕ) → Pool
  pub try_alloc : Pool → Option (ℕ × Pool)
  pub free : (which : ℕ) → Pool → Pool

-- What `alloc_interrupt_pipe` is asked for.
pub record InterruptRequest : Type 0 where
  pub address : ℕ
  pub transfer_extras : TransferExtras
  pub endpoint : ℕ
  pub max_packet_size : ℕ

module _ {Pool : Type 0} (pool : PoolOps Pool) (l : Layout) (r : Ral) where
  module _ (hardware : Controller Pool) (fuel portsc1 : ℕ) where
    -- The call with what the await of the pool has given; without a token it waits for one. The drop of
    -- `_pipe` gives the token back.
    unfoldable pub control_on :
        ControlRequest
        → (usbcmd : ℕ) → UsbStatics Pool
        → (pooled : Option (ℕ × Pool)) → Run (ControlDone Pool)
    control_on req usbcmd s none = out_of_fuel
    control_on req usbcmd s (some (token, control_pipes)) = do
      done ←
          do_control_transfer l r hardware fuel portsc1 req usbcmd
            (record s { control_pipes = control_pipes })
      Run.ok (record done {
        statics = record done.statics {
          control_pipes = pool.free token done.statics.control_pipes;
        };
      })

    unfoldable pub control_transfer :
        ControlRequest → (usbcmd : ℕ) → UsbStatics Pool → Run (ControlDone Pool)
    control_transfer req usbcmd s = control_on req usbcmd s (pool.try_alloc s.control_pipes)

    -- The pipe of a bulk transfer, from its first line to the drop at its end.
    unfoldable pub bulk_on :
        BulkRequest
        → (usbcmd : ℕ) → UsbStatics Pool
        → (pooled : Option (ℕ × Pool)) → Run (Transferred Pool)
    bulk_on req usbcmd s none = out_of_fuel
    bulk_on req usbcmd s (some (token, bulk_pipes)) = do
      done ←
          do_bulk_transfer l r hardware fuel portsc1 (InterruptPipe.new token 1) req usbcmd
            (record s { bulk_pipes = bulk_pipes })
      Run.ok (record done {
        statics = record done.statics { bulk_pipes = pool.free token done.statics.bulk_pipes };
      })

    unfoldable pub bulk_in_transfer :
        (address endpoint packet_size buffer data_len : ℕ)
        → TransferType
        → (data_toggle : Bool) (usbcmd : ℕ) → UsbStatics Pool
        → Run (Transferred Pool)
    bulk_in_transfer address endpoint packet_size buffer data_len transfer_type data_toggle usbcmd
          s =
        bulk_on
          (record {
            address = address;
            endpoint = endpoint;
            packet_size = packet_size;
            buffer = buffer;
            data_len = data_len;
            pid = pid_in;
            is_in = true;
            transfer_type = transfer_type;
            data_toggle = data_toggle;
          })
          usbcmd s (pool.try_alloc s.bulk_pipes)

    unfoldable pub bulk_out_transfer :
        (address endpoint packet_size buffer data_len : ℕ)
        → TransferType
        → (data_toggle : Bool) (usbcmd : ℕ) → UsbStatics Pool
        → Run (Transferred Pool)
    bulk_out_transfer address endpoint packet_size buffer data_len transfer_type data_toggle usbcmd
          s =
        bulk_on
          (record {
            address = address;
            endpoint = endpoint;
            packet_size = packet_size;
            buffer = buffer;
            data_len = data_len;
            pid = pid_out;
            is_in = false;
            transfer_type = transfer_type;
            data_toggle = data_toggle;
          })
          usbcmd s (pool.try_alloc s.bulk_pipes)

  module _ (portsc1 : ℕ) where
    -- `do_alloc_interrupt_pipe(Pipe::new(pooled, 1), ..)`
    unfoldable pub open_pipe :
        InterruptRequest
        → (token : ℕ) → UsbStatics Pool
        → Run (ImxrtInterruptPipe × UsbStatics Pool)
    open_pipe req token s =
        do_alloc_interrupt_pipe l r portsc1 (InterruptPipe.new token 1) req.address
          req.transfer_extras req.endpoint req.max_packet_size s

    unfoldable pub alloc_on :
        InterruptRequest
        → UsbStatics Pool
        → (pooled : Option (ℕ × Pool)) → Run (ImxrtInterruptPipe × UsbStatics Pool)
    alloc_on req s none = out_of_fuel
    alloc_on req s (some (token, bulk_pipes)) =
        open_pipe req token (record s { bulk_pipes = bulk_pipes })

    unfoldable pub alloc_interrupt_pipe :
        InterruptRequest → UsbStatics Pool → Run (ImxrtInterruptPipe × UsbStatics Pool)
    alloc_interrupt_pipe req s = alloc_on req s (pool.try_alloc s.bulk_pipes)

    unfoldable pub try_alloc_on :
        InterruptRequest
        → UsbStatics Pool
        → (pooled : Option (ℕ × Pool)) → Run (Outcome ImxrtInterruptPipe × UsbStatics Pool)
    try_alloc_on req s none = Run.ok (err UsbError.all_pipes_in_use, s)
    try_alloc_on req s (some (token, bulk_pipes)) = do
      (pipe, s) ← open_pipe req token (record s { bulk_pipes = bulk_pipes })
      Run.ok (ok pipe, s)

    unfoldable pub try_alloc_interrupt_pipe :
        InterruptRequest → UsbStatics Pool → Run (Outcome ImxrtInterruptPipe × UsbStatics Pool)
    try_alloc_interrupt_pipe req s = try_alloc_on req s (pool.try_alloc s.bulk_pipes)

  -- The drop of a pipe, with that of the `Pooled` in it.
  unfoldable pub close_pipe : ImxrtInterruptPipe → UsbStatics Pool → Run (UsbStatics Pool)
  close_pipe self s = do
    s ← drop_pipe l self s
    Run.ok (record s { bulk_pipes = pool.free (self.pipe.which - 1) s.bulk_pipes })
