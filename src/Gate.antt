-- ===== src/Gate.antt =====
-- The gate on a plan: crates/core/src/gate.
pub mod Delta
pub mod Snapshot
pub mod Compare
pub mod Evaluate
pub mod Parity
