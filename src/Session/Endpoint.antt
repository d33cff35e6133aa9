-- ===== src/Session/Endpoint.antt =====
-- crates/core/src/session/daemon/endpoint.rs: a client may only use a daemon of its own endpoint.
pub mod Identity
pub mod Matches
use mssql_migrator.Prelude.{
  Bool, true, false, not, ◌&&◌, ◌||◌, Option, none, some, List, [], ◌∷◌, ◌++◌, if◌then◌else◌,
  is_empty, Text, codes, eq_text,
}
use mssql_migrator.Engine.Filter.{join_paths}
use mssql_migrator.Session.Endpoint.Identity.{Endpoint}
use mssql_migrator.Session.Protocol.{
  Declared, Request, auth, ping, exec, query, stats, Response, err_response,
}

unfoldable pub differs : Option Bool → Bool → Bool
differs none own = false
differs (some value) own = if value then not own else own

unfoldable pub text_differs : Text → Text → Bool
text_differs got want = not (is_empty got) && not (eq_text got want)

unfoldable pub when_mismatched : Bool → Text → List Text
when_mismatched b name = if b then name ∷ [] else []

-- The names of the declared fields that differ.
unfoldable pub mismatched : Endpoint → Declared → List Text
unfolding differs text_differs when_mismatched
mismatched ep d =
    when_mismatched (text_differs d.server ep.server) (codes "server")
    ++ (when_mismatched (text_differs d.port ep.port) (codes "port")
        ++ (when_mismatched (text_differs d.user ep.user) (codes "user")
            ++ (when_mismatched (differs d.encrypt ep.encrypt) (codes "encrypt")
                ++ when_mismatched (differs d.trust_server_certificate ep.trust_server_certificate)
                    (codes "trust_server_certificate"))))

unfoldable pub endpoint_mismatch : Endpoint → Declared → Option Text
unfolding mismatched
endpoint_mismatch ep d =
    if is_empty (mismatched ep d)
    then none
    else some (
        codes "rmigd endpoint mismatch ("
        ++ (join_paths (mismatched ep d)
            ++ (codes "): daemon serves "
                ++ (ep.server
                    ++ (codes ":"
                        ++ (ep.port
                            ++ (codes " as "
                                ++ (ep.user
                                    ++ codes
                                        "; reconnect directly or point RMIG_SESSION at a matching daemon"))))))))

unfoldable pub refusal_for : Request → Endpoint → Option Response
unfolding endpoint_mismatch
refusal_for (ping d) ep = elim (endpoint_mismatch ep d) [
  | none ↦ none
  | some msg ↦ some (err_response msg)
]
refusal_for (auth t) ep = none
refusal_for (exec t) ep = none
refusal_for (query t params) ep = none
refusal_for stats ep = none
