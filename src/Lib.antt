-- ===== src/Lib.antt =====
-- Verification of imxrt-usbh, an EHCI USB host driver for the i.MX RT 1062 that implements the
-- host controller trait of cotton-usb-host, and of cotton-usb-host-midi, a USB MIDI class driver.
--
-- Parts, and the files that model them (paths from the repository's root):
--
-- * src/ehci.rs, the memory structures that the controller reads by DMA. Ehci/Link is the link
--   pointers (`link_pointer`, `link_address`), Ehci/Token the qTD token (`qtd_token`,
--   `qtd_token_bytes_remaining`), Ehci/Td the `TransferDescriptor`, Ehci/Qh the `QueueHead` and its
--   endpoint words, Ehci/FrameList the periodic frame list. A `VCell` is its contents.
-- * src/host/statics.rs, the pools (Host/Statics): `UsbStatics` is a record of lists. A `Layout`
--   says at which addresses the arrays stand; a pointer is such an address, and a load or store
--   where no queue head starts is a fault (Host/Run).
-- * src/host/schedule.rs (Host/Schedule): Qtd is `alloc_qtd` and the drop of a slot, Async and
--   Periodic link and unlink queue heads in the two schedules. Async/Ring and Periodic/Chain say
--   what it means for a schedule to hold a list of queue heads; Both puts the two
--   schedules, which share the pool, together; Reachable is the states that links and unlinks lead to.
-- * src/host/futures.rs (Host/Futures): a poll is a function from the tokens and registers it reads
--   to its result, the waker it has registered with and the new USBINTR.
-- * src/host/shared.rs (Host/Shared): `on_irq` is a function from USBSTS and USBINTR to what it
--   writes and whom it wakes. Shared/Wakeup puts polls and the handler together, Shared/Doorbell several
--   waits for the doorbell.
-- * src/host/device_detect.rs (Host/DeviceDetect): one poll of the root port, and in Reports the
--   sequence of polls. src/host/controller.rs and `reset_root_port` are Host/Port (PORTSC1),
--   Host/Regs (updates of USBINTR) and Host/Controller (`init`: what it leaves, and in Reset the
--   sequence of its register writes, with the wait for the reset over the reads of USBCMD).
-- * src/host/transfer.rs. Host/Error is the mapping of tokens to errors. Host/Transfer is what the
--   transfers share: what the controller does during the two awaits as a parameter (`Controller`),
--   the await of a transfer, and the starting and stopping of schedule.rs (`link_and_start_async`,
--   `unlink_and_stop_async`). Its children Bulk and Control are `do_bulk_transfer` and
--   `do_control_transfer`; Chain, Stage and ControlChain are about their qTD chains, Balance and
--   ControlBalance about their qTD slots. Keeps says what leaves the schedules alone, Session is the
--   time in the async schedule with what EHCI says of the controller (`IsController`) and a transfer that is never
--   retired, as when the device answers NAK for ever (`Waits`), and BulkRun,
--   BulkCall, ControlRun and ControlCall put the whole calls together. Host/Diagnostics is
--   `log_periodic_chain`, the one log call with a loop and a buffer.
-- * src/host/interrupt_pipe.rs, with `do_alloc_interrupt_pipe` of transfer.rs (Host/InterruptPipe):
--   a poll is a function of the pools and USBINTR. Preparing and Opening are about a new pipe,
--   Polling about its polls, Closing about its drop. A panic is a fault.
-- * src/host/trait_impl.rs (Host/HostController): the calls of the `HostController` trait, over the
--   operations of cotton-usb-host's pool (`PoolOps`, with what its documentation says in `IsPool`).
--   Invariant says what the schedules, the pools and the bitmap hold between two calls; Transfers,
--   Opening, Polling and Closing are about the calls that keep it, Placed about the bitmap, and
--   Reachable puts the calls, in any order, together.
-- * src/gpt.rs (Gpt): the two timers as functions of the registers that they read and write.
-- * cotton-usb-host-midi/src/midi.rs (Midi): Packet, Identify (the descriptor visitor), Driver (the
--   handle), Read and Write.
-- * examples/rtic_usb_midi_keyboard.rs (Keyboard): the event loop of the task that reads a keyboard, over
--   the sequence of events and of what the calls of the bus return for each device. A list of reads
--   that runs out before one fails is out of fuel.
--
-- Numbers are natural numbers; a u32 operation that can wrap has its `% 2 ^ 32` written out, and a
-- complement is `not32`. Base has the tests, the lists and the laws of bits and packed fields.
--
-- What is not in the repository is a parameter. The register definitions are imxrt-ral's: `Ral` in
-- Host/Regs holds the bit positions, and `IsRal` says that they are those of the EHCI specification
-- and the reference manual. cotton-usb-host's pool is a type with operations, its bus is `Bus` in Midi/Driver, and
-- of its enumerations the variants are those that the driver names. The reads of hardware registers
-- and of tokens that the controller has written are arguments.
--
-- Loops: `unlink_qh_from_async_schedule` and `write_packets` run on fuel, one round for each queue
-- head of the pool and one for each packet, and it is shown that this is enough. The walk of
-- `unlink_qh_from_periodic_schedule` has the bound of the source, `NUM_QH` rounds.
--
-- Calls are modelled one after the other: an await is what the controller does until the future is
-- ready. A call whose transfer is never retired, and one that waits for a pipe that no other call gives
-- back, does not return, which is `out_of_fuel` too.
--
-- Not modelled: futures that are dropped before they are ready, the wait of 1 ms in the drop of a
-- pipe, logging (src/log.rs and the log calls), volatile cells and register macros (src/vcell.rs,
-- src/ral.rs), the set-up of the board in the example, and the bus beyond the controller.
pub mod Base
pub mod Ehci
pub mod Host
pub mod Gpt
pub mod Midi
pub mod Keyboard
