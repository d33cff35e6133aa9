-- ===== src/Session/Endpoint/Identity.antt =====
-- The SQL Server identity of a connection (crates/core/src/session/daemon/endpoint.rs).
use mssql_migrator.Prelude.{Bool, Text}

pub record Endpoint : Type 0 where
  pub server : Text
  pub port : Text
  pub user : Text
  pub encrypt : Bool
  pub trust_server_certificate : Bool
