-- ===== src/Session/Serve.antt =====
-- crates/core/src/session/daemon/serve_loop.rs, serve.rs and session/daemon_rpc.rs: one client of the
-- daemon. The socket's lines come as a list; JSON, the socket's writes, SQL Server and the text of the
-- metrics are fields of a `Daemon`, which may answer differently as the log of events grows.
pub mod Authenticated
pub mod Cleaned
use mssql_migrator.Prelude.{
  ℕ, Bool, true, false, not, ◌&&◌, Option, none, some, List, [], ◌∷◌, ◌++◌, ltb, if◌then◌else◌,
  is_empty, Text, codes,
}
use mssql_migrator.Error.{Error, config, display}
use mssql_migrator.Session.Auth.{token_required, verify_token}
use mssql_migrator.Session.Endpoint.{refusal_for}
use mssql_migrator.Session.Endpoint.Identity.{Endpoint}
use mssql_migrator.Session.Protocol.{
  Request, auth, ping, exec, query, stats, Response, ok_empty, err_response, stats_response,
  max_session_line_bytes,
}

-- What the daemon did, the latest first: a response, a connection to SQL Server, a request that was
-- handed to it, and the two statements of the cleanup with the server's error, if there was one.
pub data Event : Type 0 where
  wrote : Response → Event
  connected : Event
  reached : Request → Event
  rolled_back released : Option Error → Event

abbrev pub Trace : Type 0
Trace = List Event

-- What a read of the socket gives: a line with its length in bytes, the end, no line for the idle
-- time, or an error.
pub data Incoming : Type 0 where
  line : ℕ → Text → Incoming
  closed idle : Incoming
  broken : Error → Incoming

-- A line that is a request, or serde's message.
pub data Parsed : Type 0 where
  request : Request → Parsed
  malformed : Text → Parsed

pub record Daemon : Type 0 where
  pub token : Text
  pub endpoint : Endpoint
  pub utf8 : Text → List ℕ
  pub parse : Text → Parsed
  pub write : Trace → Response → Option Error
  pub connect : Trace → Option Error
  pub handle : Trace → Request → Option Response
  pub metrics : Trace → Text
  pub cleanup : Trace → Option Error

-- The client's state: whether it authenticated and holds the warm session, whether there is a warm
-- connection, and the events.
pub record Client : Type 0 where
  pub authenticated : Bool
  pub holds_session : Bool
  pub warm : Bool
  pub trace : Trace

-- The loop goes on, or ends with the result of the client.
pub data Flow : Type 0 where
  next : Client → Flow
  stop : Client → Option Error → Flow

unfoldable pub log_event : Event → Client → Client
log_event e c = record c { trace = e ∷ c.trace }

module _ (d : Daemon) where
  -- `write_response(..).await?` and then `continue`, or `break`.
  unfoldable pub reply_next : Response → Client → Flow
  unfolding log_event
  reply_next r c = elim (d.write c.trace r) [
    | some e ↦ stop c (some e)
    | none ↦ next (log_event (wrote r) c)
  ]

  unfoldable pub reply_stop : Response → Client → Flow
  unfolding log_event
  reply_stop r c = elim (d.write c.trace r) [
    | some e ↦ stop c (some e)
    | none ↦ stop (log_event (wrote r) c) none
  ]

  unfoldable pub on_auth : Text → Client → Flow
  unfolding reply_next reply_stop verify_token
  on_auth token c = elim (verify_token d.utf8 d.token token) [
    | none ↦ reply_next ok_empty (record c { authenticated = true })
    | some e ↦ reply_stop (err_response (display e)) c
  ]

  -- `dispatch`, on the session that the client holds; a request that timed out drops the connection.
  unfoldable pub dispatch : Request → Client → Flow
  unfolding reply_next reply_stop log_event
  dispatch req c =
      if c.warm
      then elim (d.handle c.trace req) [
        | some r ↦ reply_next r (log_event (reached req) c)
        | none ↦
            reply_stop (err_response (codes "rmigd: request timed out"))
              (record (log_event (reached req) c) { warm = false })
      ]
      else stop c (some (config (codes "rmigd: missing database session")))

  -- The request behind a try to connect.
  unfoldable pub reconnected : Option Error → Request → Client → Flow
  unfolding dispatch reply_stop log_event
  reconnected (some e) req c =
      reply_stop (err_response (codes "rmigd: database reconnect failed: " ++ display e)) c
  reconnected none req c =
      dispatch req (record (log_event connected c) { warm = true; holds_session = true })

  -- `acquire_session`, which reconnects if there is no warm connection, and then `dispatch`.
  unfoldable pub with_session : Request → Client → Flow
  unfolding dispatch reconnected
  with_session req c =
      if c.holds_session
      then dispatch req c
      else if c.warm
      then dispatch req (record c { holds_session = true })
      else reconnected (d.connect c.trace) req c

  unfoldable pub on_sql : Request → Client → Flow
  unfolding refusal_for with_session reply_stop
  on_sql req c = elim (refusal_for req d.endpoint) [
    | some r ↦ reply_stop r c
    | none ↦ with_session req c
  ]

  unfoldable pub auth_required : Client → Flow
  unfolding reply_stop
  auth_required c =
      reply_stop (err_response (codes "rmigd: auth required (send Auth with RMIG_SESSION_TOKEN)")) c

  unfoldable pub on_request : Request → Client → Flow
  unfolding on_auth auth_required reply_next on_sql
  on_request (auth token) c = on_auth token c
  on_request stats c =
      if c.authenticated then reply_next (stats_response (d.metrics c.trace)) c else auth_required c
  on_request (ping p) c = if c.authenticated then on_sql (ping p) c else auth_required c
  on_request (exec t) c = if c.authenticated then on_sql (exec t) c else auth_required c
  on_request (query t params) c =
      if c.authenticated then on_sql (query t params) c else auth_required c

  unfoldable pub on_parsed : Parsed → Client → Flow
  unfolding on_request reply_next
  on_parsed (malformed msg) c = reply_next (err_response msg) c
  on_parsed (request req) c = on_request req c

  -- One round of the loop.
  unfoldable pub on_incoming : Incoming → Client → Flow
  unfolding on_parsed reply_stop
  on_incoming closed c = stop c none
  on_incoming idle c = stop c none
  on_incoming (broken e) c = stop c (some e)
  on_incoming (line n text) c =
      if ltb max_session_line_bytes n
      then reply_stop (err_response (codes "request line exceeds size limit")) c
      else on_parsed (d.parse text) c

  -- What follows a round.
  unfoldable pub serve_after : Flow → (Client → Client × Option Error) → Client × Option Error
  serve_after (stop c e) loop = (c, e)
  serve_after (next c) loop = loop c

  -- The socket's end comes behind its last line.
  unfoldable pub serve_loop : List Incoming → Client → Client × Option Error
  unfolding on_incoming serve_after
  serve_loop [] c = (c, none)
  serve_loop (i ∷ r) c = serve_after (on_incoming i c) (serve_loop r)

  -- `cleanup_session`: the lock is released if the rollback went well.
  unfoldable pub cleanup_session : Client → Client × Option Error
  unfolding log_event
  cleanup_session c =
      let failure = d.cleanup c.trace in
      let rolled = log_event (rolled_back failure) c in
      let failure' = d.cleanup rolled.trace in
      elim failure [
        | some e ↦ (rolled, some e)
        | none ↦ (log_event (released failure') rolled, failure')
      ]

  -- The connection is dropped if it could not be cleaned.
  unfoldable pub end_session : Client → Client
  unfolding cleanup_session
  end_session c =
      if c.holds_session && c.warm
      then (let (c', failure) = cleanup_session c in
          elim failure [ none ↦ c' | some e ↦ record c' { warm = false } ])
      else c

  -- A new client of a daemon whose connection is warm or not.
  unfoldable pub new_client : Bool → Client
  new_client warm = record {
    authenticated = not (token_required d.token);
    holds_session = false;
    warm = warm;
    trace = [];
  }

  unfoldable pub serve : Bool → List Incoming → Client × Option Error
  unfolding serve_loop end_session new_client
  serve warm incoming =
      let (c, result) = serve_loop incoming (new_client warm) in (end_session c, result)
