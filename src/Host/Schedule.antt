-- ===== src/Host/Schedule.antt =====
-- schedule.rs: qTD allocation and the two schedules.
pub mod Qtd
pub mod Async
pub mod Periodic
pub mod Both
pub mod Reachable
