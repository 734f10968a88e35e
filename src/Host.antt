-- ===== src/Host.antt =====
-- The host controller driver, src/host.
pub mod Run
pub mod Statics
pub mod Schedule
pub mod Regs
pub mod Error
pub mod Futures
pub mod Shared
pub mod Port
pub mod DeviceDetect
pub mod Controller
pub mod InterruptPipe
pub mod Transfer
pub mod Diagnostics
pub mod HostController
mod Tests
