-- ===== src/Engine.antt =====
-- The commands (crates/core/src/engine) and the advisory lock (crates/core/src/lock).
pub mod Lock
pub mod Filter
pub mod Run
pub mod Merge
pub mod Databases
