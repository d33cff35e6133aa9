-- ===== src/Domain.antt =====
-- The domain model (crates/core/src/domain): kinds, actions, dense rows and the workspace.
pub mod Store
pub mod PathCache
pub mod Kind
pub mod Action
pub mod Workspace
pub mod Paths
pub mod Layout
pub mod Ingest
