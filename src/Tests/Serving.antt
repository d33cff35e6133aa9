-- ===== src/Tests/Serving.antt =====
-- The daemon with concrete clients.
use mssql_migrator.Prelude.{
  ℕ, ◌≡◌, refl, ◌↔◌, ◌⊎◌, true, false, none, some, List, [], ◌∷◌, ◌==◌, if◌then◌else◌, any, Text,
  codes,
}
use mssql_migrator.Session.Auth.{verify_token, constant_time_eq, fold_diff, token_required}
use mssql_migrator.Session.Auth.Compare.{constant_time_eq_iff}
use mssql_migrator.Session.Endpoint.{refusal_for}
use mssql_migrator.Session.Endpoint.Identity.{Endpoint}
use mssql_migrator.Session.Protocol.{Declared, auth, exec, ok_empty}
use mssql_migrator.Session.Serve.{
  Event, released, rolled_back, Incoming, line, Parsed, request, Daemon, serve, serve_loop,
  serve_after, on_incoming, on_parsed, on_request, on_auth, on_sql, with_session, dispatch,
  reply_next, log_event, end_session, cleanup_session, new_client,
}
use mssql_migrator.Session.Serve.Authenticated.{Presented, is_sql, serve_authenticated}
use mssql_migrator.Session.Serve.Cleaned.{is_reached, serve_cleaned}

abbrev given_bytes : List ℕ
given_bytes = 1 ∷ 255 ∷ []

abbrev token_bytes : List ℕ
token_bytes = 1 ∷ 254 ∷ []

constant_time_eq_example :
    (constant_time_eq given_bytes token_bytes ≡ true) ↔ (given_bytes ≡ token_bytes)
constant_time_eq_example = constant_time_eq_iff given_bytes token_bytes

abbrev endpoint : Endpoint
endpoint = record {
  server = codes "db";
  port = codes "1433";
  user = codes "sa";
  encrypt = true;
  trust_server_certificate = false;
}

-- Another server, and nothing else.
abbrev declared : Declared
declared = record {
  server = codes "other";
  port = [];
  user = [];
  encrypt = none;
  trust_server_certificate = none;
}

-- A line that starts with `A` authenticates with the rest of it, another is a statement.
pub parse_line : Text → Parsed
parse_line [] = request (exec [])
parse_line (c ∷ s) = if c == b'A' then request (auth s) else request (exec (c ∷ s))

abbrev daemon : Daemon
daemon = record {
  token = codes "T";
  endpoint = endpoint;
  utf8 = λ s. s;
  parse = parse_line;
  write = λ trace r. none;
  connect = λ trace. none;
  handle = λ trace req. some ok_empty;
  metrics = λ trace. [];
  cleanup = λ trace. none;
}

abbrev lines : List Incoming
lines = line 3 (codes "AT") ∷ line 9 (codes "SELECT 1") ∷ []

lines-used : any is_sql (serve daemon true lines).0.trace ≡ true
unfolding serve serve_loop serve_after on_incoming on_parsed on_request on_auth on_sql with_session
    dispatch reply_next log_event end_session cleanup_session new_client refusal_for verify_token
    constant_time_eq fold_diff token_required parse_line
lines-used = refl

serve_authenticated_example : Presented daemon lines
serve_authenticated_example = serve_authenticated daemon true lines refl lines-used

serve_cleaned_example :
    (any is_reached (serve daemon true lines).0.trace ≡ false)
    ⊎ ((serve daemon true lines).0.warm ≡ false)
    ⊎ ((older : List Event) × ((serve daemon true lines).0.trace
          ≡ released none ∷ rolled_back none ∷ older))
serve_cleaned_example = serve_cleaned daemon true lines
