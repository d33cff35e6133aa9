-- ===== src/Tests.antt =====
-- Concrete runs of the planner, the executor and the name handling.
pub mod Data
pub mod Names
pub mod Planning
pub mod Applying
pub mod Gating
pub mod Scanning
pub mod Exporting
pub mod Commands
pub mod Serving
pub mod Configured
