-- ===== src/Apply/Conn.antt =====
-- The connection as the executor sees it (crates/core/src/driver, sql/apply, audit/history.rs), and
-- the result of a run (apply/result.rs). The server, the file system, the hash and UTF-8 decoding
-- are not the crate's: they are the fields of a `World`, which may answer differently as time goes
-- on, so the log of what was sent so far is an argument of each.
use mssql_migrator.Prelude.{ℕ, ◌+◌, Bool, false, Option, List, [], ◌∷◌, ◌++◌, Text}
use mssql_migrator.Domain.Workspace.{Digest}

-- The checksum is the digest, which the code writes in hex.
pub record HistoryRecord : Type 0 where
  pub normalized_key : Text
  pub kind : Text
  pub checksum : Digest
  pub git_hash : Text
  pub git_author : Text
  pub git_date : Text
  pub event : Text
  pub error_text : Text

-- The statements that the executor and the lock send; the fixed ones are the files under sql/.
pub data Stmt : Type 0 where
  bootstrap_tables bootstrap_drift bootstrap_index : Stmt
  begin_tx assert_open_tx commit_tx rollback_tx : Stmt
  cache_invalidate : Stmt
  acquire_lock : Text → Stmt
  release_lock : Stmt
  batch : Text → Stmt
  insert_history : List HistoryRecord → Stmt

-- The statements sent, the latest first, each with the server's error if it failed.
abbrev pub Log : Type 0
Log = List (Stmt × Option Text)

pub data FileRead : Type 0 where
  contents : Text → FileRead
  read_failed : Text → FileRead

pub record World : Type 0 where
  pub reply : Log → Stmt → Option Text
  pub read_file : Log → Text → FileRead
  pub sha256 : Text → Digest
  pub from_utf8 : Text → Option Text
  pub to_lowercase : Text → Text

pub record ApplyResult : Type 0 where
  pub applied : ℕ
  pub skipped : ℕ
  pub failed : ℕ
  pub errors : List Text
  pub wrote_history : Bool

-- The connection and the result that the functions thread through.
pub record Run : Type 0 where
  pub log : Log
  pub result : ApplyResult

abbrev pub empty_result : ApplyResult
empty_result = record { applied = 0; skipped = 0; failed = 0; errors = []; wrote_history = false }

unfoldable pub push_error : Text → Run → Run
push_error msg st = record st {
  result = record st.result {
    failed = st.result.failed + 1;
    errors = st.result.errors ++ (msg ∷ []);
  };
}

-- One object was applied, or skipped.
unfoldable pub count_applied : Run → Run
count_applied st = record st { result = record st.result { applied = st.result.applied + 1 } }

unfoldable pub count_skipped : Run → Run
count_skipped st = record st { result = record st.result { skipped = st.result.skipped + 1 } }

-- The state behind a statement that the server answered.
unfoldable pub sent : Stmt → Option Text → Run → Run
sent q answer st = record st { log = (q, answer) ∷ st.log }

-- `audit::record_event`
unfoldable pub record_event : Text → Digest → Text → Text → Text → Text → Text → HistoryRecord
record_event key checksum hash author date kind event = record {
  normalized_key = key;
  kind = kind;
  checksum = checksum;
  git_hash = hash;
  git_author = author;
  git_date = date;
  event = event;
  error_text = [];
}
