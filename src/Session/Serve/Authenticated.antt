-- ===== src/Session/Serve/Authenticated.antt =====
-- Who reaches SQL Server through the daemon (crates/core/src/session/daemon/serve_loop.rs).
use mssql_migrator.Prelude.{
  ℕ, ◌≡◌, refl, ap, ◌∙◌, ◌⊎◌, inl, inr, Bool, true, false, none, List, [], ◌∷◌, arith, ltb,
  Bool-cases, Option-cases, is_empty, any, Text,
}
use mssql_migrator.Error.{display}
use mssql_migrator.Session.Auth.{verify_token, token_required}
use mssql_migrator.Session.Auth.Compare.{constant_time_eq_iff}
use mssql_migrator.Session.Protocol.{
  Request, auth, ping, exec, query, stats, Response, err_response, max_session_line_bytes,
}
use mssql_migrator.Session.Serve.{
  Event, wrote, connected, reached, rolled_back, released, Incoming, line, closed, idle, broken,
  Parsed, request, malformed, Daemon, Client, Flow, next, stop, log_event, reply_next, reply_stop,
  on_auth, auth_required, on_request, on_parsed, on_incoming, serve_loop, serve_after, end_session,
  new_client, serve,
}

-- SQL Server was connected to, or given a statement.
abbrev pub is_sql : Event → Bool
is_sql (wrote r) = false
is_sql connected = true
is_sql (reached r) = true
is_sql (rolled_back e) = true
is_sql (released e) = true

-- The line is a request to authenticate with the daemon's token.
abbrev pub Presents : Daemon → Incoming → Type 0
Presents d (line n text) =
    (t : Text) × (d.parse text ≡ request (auth t)) × (d.utf8 t ≡ d.utf8 d.token)
Presents d closed = ⊥
Presents d idle = ⊥
Presents d (broken e) = ⊥

-- One of the lines is.
abbrev pub Presented : Daemon → List Incoming → Type 0
Presented d [] = ⊥
Presented d (i ∷ r) = Presents d i ⊎ Presented d r

-- The client has not authenticated, and nothing was done for it at SQL Server.
abbrev Quiet : Client → Type 0
Quiet c = (c.authenticated ≡ false) × (c.holds_session ≡ false) × (any is_sql c.trace ≡ false)

abbrev QuietFlow : Flow → Type 0
QuietFlow (next c) = Quiet c
QuietFlow (stop c e) = Quiet c

module _ (d : Daemon) (secret : is_empty d.token ≡ false) where
  reply_next-Quiet : (r : Response) (c : Client) → Quiet c → QuietFlow (reply_next d r c)
  unfolding reply_next log_event
  reply_next-Quiet r c q = elim (Option-cases (d.write c.trace r)) [
    | inl n ↦ rw (n, reply_next) q
    | inr (e, n) ↦ rw (n, reply_next) q
  ]

  reply_stop-Quiet : (r : Response) (c : Client) → Quiet c → QuietFlow (reply_stop d r c)
  unfolding reply_stop log_event
  reply_stop-Quiet r c q = elim (Option-cases (d.write c.trace r)) [
    | inl n ↦ rw (n, reply_stop) q
    | inr (e, n) ↦ rw (n, reply_stop) q
  ]

  verify_token-same : (t : Text) → verify_token d.utf8 d.token t ≡ none → d.utf8 t ≡ d.utf8 d.token
  unfolding verify_token
  verify_token-same t h = ground (arith, constant_time_eq_iff (d.utf8 t) (d.utf8 d.token))

  on_auth-Quiet :
      (t : Text) (c : Client) → Quiet c → (d.utf8 t ≡ d.utf8 d.token) ⊎ QuietFlow (on_auth d t c)
  unfolding on_auth
  on_auth-Quiet t c q = elim (Option-cases (verify_token d.utf8 d.token t)) [
    | inl n ↦ inl (verify_token-same t n)
    | inr (e, n) ↦ inr (rw (n, on_auth) (reply_stop-Quiet (err_response (display e)) c q))
  ]

  -- Without authentication any other request is refused.
  on_request-Quiet :
      (req : Request) (c : Client)
      → Quiet c
      → ((t : Text) × (req ≡ auth t) × (d.utf8 t ≡ d.utf8 d.token)) ⊎ QuietFlow (on_request d req c)
  unfolding on_request auth_required
  on_request-Quiet (auth t) c q = elim (on_auth-Quiet t c q) [
    | inl same ↦ inl (t, refl, same)
    | inr f ↦ inr f
  ]
  on_request-Quiet (ping p) c q = inr (simp q.0 (reply_stop-Quiet _ c q))
  on_request-Quiet (exec t) c q = inr (simp q.0 (reply_stop-Quiet _ c q))
  on_request-Quiet (query t ps) c q = inr (simp q.0 (reply_stop-Quiet _ c q))
  on_request-Quiet stats c q = inr (simp q.0 (reply_stop-Quiet _ c q))

  parsed-Quiet :
      (n : ℕ) (text : Text) (c : Client) (p : Parsed)
      → d.parse text ≡ p
      → Quiet c
      → Presents d (line n text) ⊎ QuietFlow (on_parsed d p c)
  unfolding on_parsed
  parsed-Quiet n text c (malformed msg) e q = inr (reply_next-Quiet (err_response msg) c q)
  parsed-Quiet n text c (request req) e q = elim (on_request-Quiet req c q) [
    | inl (t, r, same) ↦ inl (t, e ∙ ap request r, same)
    | inr f ↦ inr f
  ]

  on_incoming-Quiet :
      (i : Incoming) (c : Client) → Quiet c → Presents d i ⊎ QuietFlow (on_incoming d i c)
  unfolding on_incoming
  on_incoming-Quiet closed c q = inr q
  on_incoming-Quiet idle c q = inr q
  on_incoming-Quiet (broken e) c q = inr q
  on_incoming-Quiet (line n text) c q = elim (Bool-cases (ltb max_session_line_bytes n)) [
    | inl long ↦ inr (rw long (reply_stop-Quiet _ c q))
    | inr short ↦ rw short (parsed-Quiet n text c (d.parse text) refl q)
  ]

  serve_after-Quiet :
      (f : Flow) (i : Incoming) (r : List Incoming)
      → QuietFlow f
      → ((c : Client) → Quiet c → Presented d r ⊎ Quiet (serve_loop d r c).0)
      → Presented d (i ∷ r) ⊎ Quiet (serve_after d f (serve_loop d r)).0
  unfolding serve_after
  serve_after-Quiet (stop c e) i r q loop = inr q
  serve_after-Quiet (next c) i r q loop = elim (loop c q) [ inl p ↦ inl (inr p) | inr q' ↦ inr q' ]

  serve_loop-Quiet :
      (incoming : List Incoming) (c : Client)
      → Quiet c
      → Presented d incoming ⊎ Quiet (serve_loop d incoming c).0
  unfolding serve_loop
  serve_loop-Quiet [] c q = inr q
  serve_loop-Quiet (i ∷ r) c q = elim (on_incoming-Quiet i c q) [
    | inl p ↦ inl (inl p)
    | inr f ↦ serve_after-Quiet (on_incoming d i c) i r f (serve_loop-Quiet r)
  ]

pub unused-end_session : (d : Daemon) (c : Client) → c.holds_session ≡ false → end_session d c ≡ c
unfolding end_session
unused-end_session d c h = simp h refl

-- With a token set, the daemon connects to SQL Server for a client, or sends it anything, only if one
-- of the client's lines is a request to authenticate with exactly that token, whatever the others
-- are. Cutting the lines off behind any one shows that the request comes first.
pub serve_authenticated :
    (d : Daemon) (warm : Bool) (incoming : List Incoming)
    → is_empty d.token ≡ false
    → any is_sql (serve d warm incoming).0.trace ≡ true
    → Presented d incoming
unfolding serve new_client token_required
serve_authenticated d warm incoming secret used =
    elim (serve_loop-Quiet d secret incoming (new_client d warm) (ground arith, refl, refl)) [
      | inl p ↦ p
      | inr q ↦
          let same = unused-end_session d (serve_loop d incoming (new_client d warm)).0 q.1 in
          absurd (ground (arith, ap (λ c. any is_sql (Client.trace c)) same))
    ]
