-- ===== src/Config/Validate/Accepts.antt =====
-- Which configurations crates/core/src/config/validate.rs accepts.
use mssql_migrator.Prelude.{
  ℕ, ◌<◌, ◌≡◌, refl, ◌↔◌, ◌⊎◌, inl, inr, Bool, true, false, not, ◌&&◌, Option, none, some, List,
  arith, is_empty, any, Text,
}
use mssql_migrator.Error.{Result, ok, err}
use mssql_migrator.Config.Booleans.{boolean_names, validate_boolean_envs}
use mssql_migrator.Prelude.{All}
use mssql_migrator.Config.Validate.Words.{
  IsBoolean, boolean_variables, boolean_variables_iff, seq-ok,
}
use mssql_migrator.Config.Validate.{
  Config, Outside, missing_of, missing_secrets_of, name_if_empty, refuse_if, reject_control_chars,
  is_port, check_port, check_fields, with_sql_base, with_databases, normalize_catalog_paths,
  after_checks, validate_config,
}

-- What a configuration needs to be accepted.
pub record IsValid (outside : Outside) (cfg : Config) : Type 0 where
  pub booleans :
      All (λ name. IsBoolean outside.envs.trim (outside.envs.var_os name)) boolean_variables
  pub user : is_empty cfg.user ≡ false
  pub password : is_empty cfg.password ≡ false
  pub token : (is_empty cfg.session_socket ≡ true) ⊎ (is_empty cfg.session_token ≡ false)
  pub server : is_empty cfg.server ≡ false
  pub root : is_empty cfg.sql_root ≡ false
  pub server_text : any outside.is_control cfg.server ≡ false
  pub database_text : any outside.is_control cfg.database ≡ false
  pub port :
      (is_empty cfg.port ≡ true) ⊎ ((n : ℕ) × (outside.parse_u16 cfg.port ≡ some n) × (0 < n))

refuse_if-ok : (bad : Bool) (m : Text) → (refuse_if bad m ≡ ok tt) ↔ (bad ≡ false)
unfolding refuse_if
refuse_if-ok true m = (λ h. absurd (ground arith), λ h. absurd (ground arith))
refuse_if-ok false m = (λ h. refl, λ h. refl)

secrets_iff :
    (cfg : Config)
    → (not (is_empty (missing_secrets_of cfg)) ≡ false)
      ↔ ((is_empty cfg.user ≡ false) × (is_empty cfg.password ≡ false))
unfolding missing_secrets_of name_if_empty
secrets_iff cfg = ground arith

missing_iff :
    (cfg : Config)
    → (not (is_empty (missing_of cfg)) ≡ false)
      ↔ ((is_empty cfg.server ≡ false) × (is_empty cfg.sql_root ≡ false))
unfolding missing_of name_if_empty
missing_iff cfg = ground arith

port_cases :
    (b : Bool) (o : Option ℕ)
    → (not b && not (is_port o) ≡ false) ↔ ((b ≡ true) ⊎ ((n : ℕ) × (o ≡ some n) × (0 < n)))
unfolding is_port
port_cases true o = (λ h. inl refl, λ h. refl)
port_cases false none = (
  λ h. absurd (ground arith),
  λ h. elim h [ inl e ↦ absurd (ground arith) | inr (n, e, pos) ↦ absurd (ground arith) ],
)
port_cases false (some n) = (
  λ h. inr (n, refl, ground arith),
  λ h. elim h [ inl e ↦ absurd (ground arith) | inr (m, e, pos) ↦ ground arith ],
)

token_iff :
    (cfg : Config)
    → (not (is_empty cfg.session_socket) && is_empty cfg.session_token ≡ false)
      ↔ ((is_empty cfg.session_socket ≡ true) ⊎ (is_empty cfg.session_token ≡ false))
token_iff cfg = ground arith

module _ (outside : Outside) (cfg : Config)
    (trims : (s : Text) → outside.envs.trim (outside.envs.trim s) ≡ outside.envs.trim s) where
  abbrev words :
      (validate_boolean_envs outside.envs boolean_names ≡ ok tt)
      ↔ All (λ name. IsBoolean outside.envs.trim (outside.envs.var_os name)) boolean_variables
  words = boolean_variables_iff outside.envs trims

  check_fields_iff : (check_fields outside cfg ≡ ok tt) ↔ IsValid outside cfg
  unfolding check_fields reject_control_chars check_port
  check_fields_iff = (
    λ h.
        let (booleans, h1) = (seq-ok _ _).0 h in
        let (secrets, h2) = (seq-ok _ _).0 h1 in
        let (token, h3) = (seq-ok _ _).0 h2 in
        let (missing, h4) = (seq-ok _ _).0 h3 in
        let (server_text, h5) = (seq-ok _ _).0 h4 in
        let (database_text, port) = (seq-ok _ _).0 h5 in
        let (user, password) = (secrets_iff cfg).0 ((refuse_if-ok _ _).0 secrets) in
        let (server, root) = (missing_iff cfg).0 ((refuse_if-ok _ _).0 missing) in
        record {
          booleans = words.0 booleans;
          user = user;
          password = password;
          token = (token_iff cfg).0 ((refuse_if-ok _ _).0 token);
          server = server;
          root = root;
          server_text = (refuse_if-ok _ _).0 server_text;
          database_text = (refuse_if-ok _ _).0 database_text;
          port = (port_cases _ _).0 ((refuse_if-ok _ _).0 port);
        },
    λ v. (seq-ok _ _).1 (
      words.1 v.booleans,
      (seq-ok _ _).1 (
        (refuse_if-ok _ _).1 ((secrets_iff cfg).1 (v.user, v.password)),
        (seq-ok _ _).1 (
          (refuse_if-ok _ _).1 ((token_iff cfg).1 v.token),
          (seq-ok _ _).1 (
            (refuse_if-ok _ _).1 ((missing_iff cfg).1 (v.server, v.root)),
            (seq-ok _ _).1 (
              (refuse_if-ok _ _).1 v.server_text,
              (seq-ok _ _).1 (
                (refuse_if-ok _ _).1 v.database_text,
                (refuse_if-ok _ _).1 ((port_cases _ _).1 v.port),
              ),
            ),
          ),
        ),
      ),
    ),
  )

with_databases_iff :
    (cfg : Config) (r : Result {0} (List Text))
    → ((with_databases cfg r).1 ≡ ok tt) ↔ ((dbs : List Text) × (r ≡ ok dbs))
unfolding with_databases
with_databases_iff cfg (ok dbs) = (λ h. (dbs, refl), λ h. refl)
with_databases_iff cfg (err e) = (λ h. absurd (ground arith), λ (dbs, h). absurd (ground arith))

after_checks_iff :
    (outside : Outside) (cfg : Config) (r : Result {0} Unit)
    → ((after_checks outside cfg r).1 ≡ ok tt)
      ↔ ((r ≡ ok tt) × ((dbs : List Text) × (outside.databases cfg.sql_root ≡ ok dbs)))
unfolding after_checks normalize_catalog_paths
after_checks_iff outside cfg (ok u) =
    let found = with_databases_iff (with_sql_base cfg) (outside.databases cfg.sql_root) in
    (λ h. (refl, found.0 h), λ h. found.1 h.1)
after_checks_iff outside cfg (err e) =
    (λ h. absurd (ground arith), λ h. absurd (ground (arith, h.0)))

-- A configuration is accepted exactly when each of the seven Boolean variables is unset or one of the
-- Boolean words in any case, there are credentials, a server and a root, a socket comes with a
-- token, the server and the database hold no control character, the port is the default or a
-- positive number, and the databases of the root are found. Trimming a trimmed text is assumed to
-- change nothing.
pub validate_config_iff :
    (outside : Outside) (cfg : Config)
    → ((s : Text) → outside.envs.trim (outside.envs.trim s) ≡ outside.envs.trim s)
    → ((validate_config outside cfg).1 ≡ ok tt)
      ↔ (IsValid outside cfg × ((dbs : List Text) × (outside.databases cfg.sql_root ≡ ok dbs)))
unfolding validate_config
validate_config_iff outside cfg trims =
    let whole = after_checks_iff outside cfg (check_fields outside cfg) in
    let fields = check_fields_iff outside cfg trims in
    (λ h. (fields.0 (whole.0 h).0, (whole.0 h).1), λ h. whole.1 (fields.1 h.0, h.1))
