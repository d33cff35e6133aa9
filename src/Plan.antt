-- ===== src/Plan.antt =====
-- Planning (crates/core/src/plan): scenarios and the diff.
pub mod Scenario
pub mod Resolve
pub mod Diff
pub mod Prepare
