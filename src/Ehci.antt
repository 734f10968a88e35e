-- ===== src/Ehci.antt =====
-- ehci.rs: the structures that the controller's DMA engine reads and writes.
pub mod Link
pub mod Token
pub mod Td
pub mod Qh
pub mod FrameList
mod Tests
