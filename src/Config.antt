-- ===== src/Config.antt =====
-- Configuration (crates/core/src/config): its validation.
pub mod Booleans
pub mod Validate
