-- ===== src/Config/Validate.antt =====
-- The checks on a configuration: crates/core/src/config/validate.rs. `cfg` is passed and given back.
pub mod Accepts
pub mod Words
use mssql_migrator.Prelude.{
  ℕ, zero, suc, ◌+◌, ◌-◌, ◌*◌, ◌/◌, ◌%◌, ◌^◌, ◌≤◌, ◌<◌, ◌≡◌, refl, sym, ap, ◌∙◌, ◌≢◌, ◌↔◌, ◌⊎◌, inl,
  inr, Bool, true, false, not, ◌&&◌, ◌||◌, Option, none, some, List, [], ◌∷◌, ◌++◌, map, reverse,
  arith, String, ltb, leb, ◌==◌, if◌then◌else◌, ==_iff, ==_refl, Bool-cases, Option-cases, length,
  get_elem?, set, replicate, resize, is_empty, is_empty_iff, all, any, length-append, length-set,
  length-resize, get_elem?-set_self, get_elem?-some, get_elem?-set_ne, get_elem?-lt, All,
  length-map, length_pos, lookup, without, insert, lookup-without, lookup-insert, Text, codes,
  eq_text, starts_with, strip_prefix, ends_with, contains, split, push_front, join, split_once,
  replace, lookup_text, mem_text, mem_text-all, show, eq_text_iff, eq_text_refl, contains-append,
  contains-starts_with, join-split, starts_with-append, split-ne-nil,
}
use mssql_migrator.Config.Booleans.{BooleanEnvs, boolean_names, validate_boolean_envs}
use mssql_migrator.Error.{Result, ok, err, config, ◌>>=◌, ◌>>◌}

-- The fields that the checks read and write.
pub record Config : Type 0 where
  pub server : Text
  pub port : Text
  pub database : Text
  pub user : Text
  pub password : Text
  pub sql_root : Text
  pub sql_base : Text
  pub session_socket : Text
  pub session_token : Text

-- What the checks ask outside: the environment, the databases found under a root,
-- `char::is_control`, and `str::parse::<u16>`.
pub record Outside : Type 0 where
  pub envs : BooleanEnvs
  pub databases : Text → Result {0} (List Text)
  pub is_control : ℕ → Bool
  pub parse_u16 : Text → Option ℕ

-- A variable's name if its field is empty.
unfoldable pub name_if_empty : Text → Text → List Text
name_if_empty value name = if is_empty value then name ∷ [] else []

unfoldable pub missing_of : Config → List Text
unfolding name_if_empty
missing_of cfg =
    name_if_empty cfg.server (codes "RM_DB_SERVER")
    ++ name_if_empty cfg.sql_root (codes "RM_SQL_ROOT")

unfoldable pub missing_secrets_of : Config → List Text
unfolding name_if_empty
missing_secrets_of cfg =
    name_if_empty cfg.user (codes "RM_DB_USER")
    ++ name_if_empty cfg.password (codes "RM_DB_PASSWORD")

-- `join(", ")`
unfoldable pub join_names : List Text → Text
join_names [] = []
join_names (s ∷ []) = s
join_names (s ∷ t ∷ r) = s ++ (codes ", " ++ join_names (t ∷ r))

unfoldable pub refuse_if : Bool → Text → Result {0} Unit
refuse_if bad message = if bad then err (config message) else ok tt

unfoldable pub reject_control_chars : Outside → Text → Text → Result {0} Unit
unfolding refuse_if
reject_control_chars outside field value =
    refuse_if (any outside.is_control value) (field ++ codes " contains control characters")

-- `Ok(1..)`
unfoldable pub is_port : Option ℕ → Bool
is_port none = false
is_port (some n) = ltb 0 n

unfoldable pub check_port : Outside → Text → Result {0} Unit
unfolding refuse_if is_port
check_port outside port =
    refuse_if (not (is_empty port) && not (is_port (outside.parse_u16 port)))
      (codes "RM_DB_PORT is not a valid TCP port (1-65535): " ++ port)

-- The guards, in their order.
unfoldable pub check_fields : Outside → Config → Result {0} Unit
unfolding validate_boolean_envs missing_of missing_secrets_of join_names refuse_if
    reject_control_chars check_port
check_fields outside cfg = do
  validate_boolean_envs outside.envs boolean_names
  refuse_if (not (is_empty (missing_secrets_of cfg))) (
      codes "missing required process environment variable(s): "
      ++ (join_names (missing_secrets_of cfg)
          ++ codes "; SQL credentials are not read from config.toml"))
  refuse_if (not (is_empty cfg.session_socket) && is_empty cfg.session_token) (
      codes
        "RMIG_SESSION_TOKEN is required in the process environment when using rmigd; the token is not read from config.toml")
  refuse_if (not (is_empty (missing_of cfg)))
      (codes "missing required variables: " ++ join_names (missing_of cfg))
  reject_control_chars outside (codes "RM_DB_SERVER") cfg.server
  reject_control_chars outside (codes "database name") cfg.database
  check_port outside cfg.port

-- The database where the root has one and none is configured.
unfoldable pub only_database : Text → List Text → Text
only_database [] (db ∷ []) = db
only_database database dbs = database

unfoldable pub with_sql_base : Config → Config
with_sql_base cfg = record cfg {
  sql_base = if is_empty cfg.sql_base then cfg.sql_root else cfg.sql_base;
}

unfoldable pub with_databases : Config → Result {0} (List Text) → Config × Result {0} Unit
unfolding only_database
with_databases cfg (ok dbs) = (record cfg { database = only_database cfg.database dbs }, ok tt)
with_databases cfg (err e) = (cfg, err e)

unfoldable pub normalize_catalog_paths : Outside → Config → Config × Result {0} Unit
unfolding with_sql_base with_databases
normalize_catalog_paths outside cfg =
    with_databases (with_sql_base cfg) (outside.databases cfg.sql_root)

unfoldable pub after_checks : Outside → Config → Result {0} Unit → Config × Result {0} Unit
unfolding normalize_catalog_paths
after_checks outside cfg (ok u) = normalize_catalog_paths outside cfg
after_checks outside cfg (err e) = (cfg, err e)

unfoldable pub validate_config : Outside → Config → Config × Result {0} Unit
unfolding check_fields after_checks
validate_config outside cfg = after_checks outside cfg (check_fields outside cfg)

unfoldable pub require_token : Config × Result {0} Unit → Config × Result {0} Unit
unfolding refuse_if
require_token (cfg, ok u) = (
  cfg,
  refuse_if (is_empty cfg.session_token) (
      codes
        "RMIG_SESSION_TOKEN is required in the process environment for rmigd; the token is not read from config.toml"),
)
require_token (cfg, err e) = (cfg, err e)

unfoldable pub validate_daemon_config : Outside → Config → Config × Result {0} Unit
unfolding validate_config require_token
validate_daemon_config outside cfg = require_token (validate_config outside cfg)
