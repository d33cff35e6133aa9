-- ===== src/Session/Protocol.antt =====
-- crates/core/src/session/protocol.rs and limits.rs: the requests and responses of the daemon, and
-- driver/row.rs's rows. JSON is a third-party crate's, so the text of a line is parsed elsewhere.
use mssql_migrator.Prelude.{ℕ, Bool, true, false, Option, some, List, [], ◌*◌, if◌then◌else◌, Text}
use mssql_migrator.Error.{sql, Result, ok, err}
use mssql_migrator.Session.Endpoint.Identity.{Endpoint}

pub data Cell : Type 0 where
  null : Cell
  str bytes : List ℕ → Cell

pub record RowData : Type 0 where
  pub cells : List Cell

-- The endpoint that a `Ping` declares; empty and absent fields are a legacy client's.
pub record Declared : Type 0 where
  pub server : Text
  pub port : Text
  pub user : Text
  pub encrypt : Option Bool
  pub trust_server_certificate : Option Bool

pub data Request : Type 0 where
  auth : Text → Request
  ping : Declared → Request
  exec : Text → Request
  query : Text → List Text → Request
  stats : Request

-- The client's ping for its configured endpoint.
unfoldable pub ping_of : Endpoint → Request
ping_of cfg = ping (record {
  server = cfg.server;
  port = cfg.port;
  user = cfg.user;
  encrypt = some cfg.encrypt;
  trust_server_certificate = some cfg.trust_server_certificate;
})

pub record Response : Type 0 where
  pub success : Bool
  pub error : Text
  pub rows : List RowData
  pub stats_json : Text

unfoldable pub ok_empty : Response
ok_empty = record { success = true; error = []; rows = []; stats_json = [] }

unfoldable pub err_response : Text → Response
err_response msg = record { success = false; error = msg; rows = []; stats_json = [] }

unfoldable pub stats_response : Text → Response
stats_response json = record { success = true; error = []; rows = []; stats_json = json }

unfoldable pub into_result : Response → Result (List RowData)
into_result r = if r.success then ok r.rows else err (sql r.error)

-- `MAX_SESSION_LINE_BYTES`
abbrev pub max_session_line_bytes : ℕ
max_session_line_bytes = 4 * 1024 * 1024
