-- ===== src/Session.antt =====
-- The session daemon (crates/core/src/session).
pub mod Auth
pub mod Protocol
pub mod Endpoint
pub mod Serve
