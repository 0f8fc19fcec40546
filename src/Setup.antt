-- ===== src/Setup.antt =====
-- src/setup.rs: the four-flight exchange that pre-signs the refund and the settlement.
pub mod Refund
pub mod Value
pub mod Graph
pub mod Drivers
