-- ===== src/Export.antt =====
-- The plan document (crates/core/src/export).
pub mod PlanRow
pub mod PlanJson
pub mod Materialize
pub mod Filter
