-- ===== src/Session/Endpoint/Matches.antt =====
-- When a client's ping is not refused (crates/core/src/session/daemon/endpoint.rs).
use mssql_migrator.Prelude.{
  ◌≡◌, ◌↔◌, ◌⊎◌, inl, inr, Bool, true, false, Option, none, some, [], ◌++◌, arith, Bool-cases,
  is_empty, is_empty_iff, Text, codes, eq_text_iff,
}
use mssql_migrator.Session.Protocol.{Declared, ping}
use mssql_migrator.Session.Endpoint.{
  differs, text_differs, when_mismatched, mismatched, endpoint_mismatch, refusal_for,
}
use mssql_migrator.Session.Endpoint.Identity.{Endpoint}

five_flags :
    (a b c d e : Bool) (m n o p q : Text)
    → (is_empty (
          when_mismatched a m
          ++ (when_mismatched b n
              ++ (when_mismatched c o ++ (when_mismatched d p ++ when_mismatched e q))))
        ≡ true)
      ↔ ((a ≡ false) × (b ≡ false) × (c ≡ false) × (d ≡ false) × (e ≡ false))
unfolding when_mismatched
five_flags true b c d e m n o p q = ground arith
five_flags false true c d e m n o p q = ground arith
five_flags false false true d e m n o p q = ground arith
five_flags false false false true e m n o p q = ground arith
five_flags false false false false true m n o p q = ground arith
five_flags false false false false false m n o p q = ground arith

refusal-empty :
    (ep : Endpoint) (d : Declared)
    → (refusal_for (ping d) ep ≡ none) ↔ (is_empty (mismatched ep d) ≡ true)
unfolding refusal_for endpoint_mismatch
refusal-empty ep d = elim (Bool-cases (is_empty (mismatched ep d))) [
  | inl e ↦ (λ h. e, λ h. ground arith)
  | inr e ↦ (λ h. absurd (ground arith), λ h. absurd (ground arith))
]

text_differs_iff : (got want : Text) → (text_differs got want ≡ false) ↔ ((got ≡ []) ⊎ (got ≡ want))
unfolding text_differs
text_differs_iff got want = ground (arith, is_empty_iff got, eq_text_iff got want)

differs_iff :
    (got : Option Bool) (want : Bool)
    → (differs got want ≡ false) ↔ ((got ≡ none) ⊎ (got ≡ some want))
unfolding differs
differs_iff got want = ground arith

-- A ping is not refused exactly when each field that it declares is the daemon's own.
pub refusal_for_iff :
    (ep : Endpoint) (d : Declared)
    → (refusal_for (ping d) ep ≡ none) ↔ (
        ((d.server ≡ []) ⊎ (d.server ≡ ep.server))
        × ((d.port ≡ []) ⊎ (d.port ≡ ep.port))
        × ((d.user ≡ []) ⊎ (d.user ≡ ep.user))
        × ((d.encrypt ≡ none) ⊎ (d.encrypt ≡ some ep.encrypt))
        × ((d.trust_server_certificate ≡ none)
            ⊎ (d.trust_server_certificate ≡ some ep.trust_server_certificate)))
unfolding mismatched
refusal_for_iff ep d = ground (
  arith,
  refusal-empty ep d,
  five_flags (text_differs d.server ep.server) (text_differs d.port ep.port)
      (text_differs d.user ep.user) (differs d.encrypt ep.encrypt)
      (differs d.trust_server_certificate ep.trust_server_certificate) (codes "server")
      (codes "port") (codes "user") (codes "encrypt") (codes "trust_server_certificate"),
  text_differs_iff d.server ep.server,
  text_differs_iff d.port ep.port,
  text_differs_iff d.user ep.user,
  differs_iff d.encrypt ep.encrypt,
  differs_iff d.trust_server_certificate ep.trust_server_certificate,
)
