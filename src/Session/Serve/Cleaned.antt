-- ===== src/Session/Serve/Cleaned.antt =====
-- What a client leaves behind for the next one (crates/core/src/session/daemon/serve.rs).
use mssql_migrator.Prelude.{
  ◌≡◌, refl, ap, ◌∙◌, ◌⊎◌, inl, inr, Bool, true, false, Option, none, some, List, [], ◌∷◌, arith,
  ltb, if◌then◌else◌, Bool-cases, Option-cases, any, Text,
}
use mssql_migrator.Error.{Error, display}
use mssql_migrator.Session.Auth.{verify_token}
use mssql_migrator.Session.Endpoint.{refusal_for}
use mssql_migrator.Session.Protocol.{
  Request, auth, ping, exec, query, stats, Response, err_response, max_session_line_bytes,
}
use mssql_migrator.Session.Serve.{
  Event, wrote, connected, reached, rolled_back, released, Incoming, line, closed, idle, broken,
  Parsed, request, malformed, Daemon, Client, Flow, next, stop, log_event, reply_next, reply_stop,
  on_auth, auth_required, on_request, on_parsed, on_incoming, on_sql, dispatch, reconnected,
  with_session, serve_loop, serve_after, cleanup_session, end_session, new_client, serve,
}
use mssql_migrator.Session.Serve.Authenticated.{unused-end_session}

-- A request was handed to SQL Server.
abbrev pub is_reached : Event → Bool
is_reached (reached r) = true
is_reached (wrote r) = false
is_reached connected = false
is_reached (rolled_back e) = false
is_reached (released e) = false

-- Whoever used the connection holds it.
abbrev Held : Client → Type 0
Held c = (c.holds_session ≡ true) ⊎ (any is_reached c.trace ≡ false)

abbrev HeldFlow : Flow → Type 0
HeldFlow (next c) = Held c
HeldFlow (stop c e) = Held c

module _ (d : Daemon) where
  reply_next-Held : (r : Response) (c : Client) → Held c → HeldFlow (reply_next d r c)
  unfolding reply_next log_event
  reply_next-Held r c q = elim (Option-cases (d.write c.trace r)) [
    | inl n ↦ rw (n, reply_next) q
    | inr (e, n) ↦ rw (n, reply_next) q
  ]

  reply_stop-Held : (r : Response) (c : Client) → Held c → HeldFlow (reply_stop d r c)
  unfolding reply_stop log_event
  reply_stop-Held r c q = elim (Option-cases (d.write c.trace r)) [
    | inl n ↦ rw (n, reply_stop) q
    | inr (e, n) ↦ rw (n, reply_stop) q
  ]

  on_auth-Held : (t : Text) (c : Client) → Held c → HeldFlow (on_auth d t c)
  unfolding on_auth
  on_auth-Held t c q = elim (Option-cases (verify_token d.utf8 d.token t)) [
    | inl n ↦ rw (n, on_auth) (reply_next-Held _ _ q)
    | inr (e, n) ↦ rw (n, on_auth) (reply_stop-Held (err_response (display e)) c q)
  ]

  gated-Held :
      (b : Bool) (f g : Flow)
      → (b ≡ true → HeldFlow f)
      → (b ≡ false → HeldFlow g)
      → HeldFlow (if b then f else g)
  gated-Held true f g hf hg = hf refl
  gated-Held false f g hf hg = hg refl

  dispatch-Held :
      (req : Request) (c : Client) → c.holds_session ≡ true → HeldFlow (dispatch d req c)
  unfolding dispatch log_event
  dispatch-Held req c h = elim (Bool-cases c.warm) [
    | inr cold ↦ simp cold (inl h)
    | inl warm ↦ elim (Option-cases (d.handle c.trace req)) [
      | inl n ↦ simp (warm, n) (reply_stop-Held _ _ (inl h))
      | inr (r, n) ↦ simp (warm, n) (reply_next-Held _ _ (inl h))
    ]
  ]

  reconnected-Held :
      (o : Option Error) (req : Request) (c : Client) → Held c → HeldFlow (reconnected d o req c)
  unfolding reconnected
  reconnected-Held (some e) req c q = reply_stop-Held _ c q
  reconnected-Held none req c q =
      dispatch-Held req (record (log_event connected c) { warm = true; holds_session = true }) refl

  with_session-Held : (req : Request) (c : Client) → Held c → HeldFlow (with_session d req c)
  unfolding with_session
  with_session-Held req c q = gated-Held c.holds_session _ _ (dispatch-Held req c) (λ h.
      gated-Held c.warm _ _ (λ w. dispatch-Held req (record c { holds_session = true }) refl)
        (λ w. reconnected-Held (d.connect c.trace) req c q))

  on_sql-Held : (req : Request) (c : Client) → Held c → HeldFlow (on_sql d req c)
  unfolding on_sql
  on_sql-Held req c q = elim (Option-cases (refusal_for req d.endpoint)) [
    | inl n ↦ rw (n, on_sql) (with_session-Held req c q)
    | inr (r, n) ↦ rw (n, on_sql) (reply_stop-Held r c q)
  ]

  auth_required-Held : (c : Client) → Held c → HeldFlow (auth_required d c)
  unfolding auth_required
  auth_required-Held c q = reply_stop-Held _ c q

  on_request-Held : (req : Request) (c : Client) → Held c → HeldFlow (on_request d req c)
  unfolding on_request
  on_request-Held (auth t) c q = on_auth-Held t c q
  on_request-Held (ping p) c q =
      gated-Held c.authenticated _ _ (λ h. on_sql-Held (ping p) c q) (λ h. auth_required-Held c q)
  on_request-Held (exec t) c q =
      gated-Held c.authenticated _ _ (λ h. on_sql-Held (exec t) c q) (λ h. auth_required-Held c q)
  on_request-Held (query t ps) c q =
      gated-Held c.authenticated _ _ (λ h. on_sql-Held (query t ps) c q)
        (λ h. auth_required-Held c q)
  on_request-Held stats c q =
      gated-Held c.authenticated _ _ (λ h. reply_next-Held _ c q) (λ h. auth_required-Held c q)

  on_parsed-Held : (p : Parsed) (c : Client) → Held c → HeldFlow (on_parsed d p c)
  unfolding on_parsed
  on_parsed-Held (malformed msg) c q = reply_next-Held _ c q
  on_parsed-Held (request req) c q = on_request-Held req c q

  on_incoming-Held : (i : Incoming) (c : Client) → Held c → HeldFlow (on_incoming d i c)
  unfolding on_incoming
  on_incoming-Held closed c q = q
  on_incoming-Held idle c q = q
  on_incoming-Held (broken e) c q = q
  on_incoming-Held (line n text) c q =
      gated-Held (ltb max_session_line_bytes n) _ _ (λ h. reply_stop-Held _ c q)
        (λ h. on_parsed-Held (d.parse text) c q)

  serve_after-Held :
      (f : Flow) (r : List Incoming)
      → HeldFlow f
      → ((c : Client) → Held c → Held (serve_loop d r c).0)
      → Held (serve_after d f (serve_loop d r)).0
  unfolding serve_after
  serve_after-Held (stop c e) r q loop = q
  serve_after-Held (next c) r q loop = loop c q

  serve_loop-Held :
      (incoming : List Incoming) (c : Client) → Held c → Held (serve_loop d incoming c).0
  unfolding serve_loop
  serve_loop-Held [] c q = q
  serve_loop-Held (i ∷ r) c q =
      serve_after-Held (on_incoming d i c) r (on_incoming-Held i c q) (serve_loop-Held r)

  end_session-clean :
      (c : Client)
      → c.holds_session ≡ true
      → ((end_session d c).warm ≡ false)
        ⊎ ((older : List Event) × ((end_session d c).trace
              ≡ released none ∷ rolled_back none ∷ older))
  unfolding end_session cleanup_session log_event
  end_session-clean c h = elim (Bool-cases c.warm) [
    | inr cold ↦ inl (ground arith)
    | inl warm ↦ elim (Option-cases (d.cleanup c.trace)) [
      | inr (e, n) ↦ inl (ground arith)
      | inl n ↦ elim (Option-cases (d.cleanup (rolled_back (d.cleanup c.trace) ∷ c.trace))) [
        | inr (e, n') ↦ inl (ground arith)
        | inl n' ↦ inr (c.trace, ground arith)
      ]
    ]
  ]

-- Whatever a client sends and however its session ends, the connection that the next client is given
-- was not used by this one, or was dropped, or the last that was done on it is a rollback of any open
-- transaction and then a release of the lock, both with success.
pub serve_cleaned :
    (d : Daemon) (warm : Bool) (incoming : List Incoming)
    → (any is_reached (serve d warm incoming).0.trace ≡ false)
      ⊎ ((serve d warm incoming).0.warm ≡ false)
      ⊎ ((older : List Event) × ((serve d warm incoming).0.trace
            ≡ released none ∷ rolled_back none ∷ older))
unfolding serve new_client
serve_cleaned d warm incoming =
    let c = (serve_loop d incoming (new_client d warm)).0 in
    elim (Bool-cases c.holds_session) [
      | inl h ↦ inr (end_session-clean d c h)
      | inr h ↦ elim (serve_loop-Held d incoming (new_client d warm) (inr refl)) [
        | inl h' ↦ absurd (ground arith)
        | inr unused ↦
            inl (ap (λ x. any is_reached (Client.trace x)) (unused-end_session d c h) ∙ unused)
      ]
    ]
