-- ===== src/Apply.antt =====
-- Execution of a plan (crates/core/src/apply): the connection, transactions, scripts, objects,
-- module batches, transitions, schemas and the whole run.
pub mod Conn
pub mod Tx
pub mod Script
pub mod Modules
pub mod Order
pub mod Schemas
pub mod Transitions
pub mod Objects
pub mod Execute
