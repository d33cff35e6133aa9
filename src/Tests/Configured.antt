-- ===== src/Tests/Configured.antt =====
-- The checks on a concrete configuration.
use mssql_migrator.Prelude.{◌≡◌, ◌↔◌, none, some, List, [], ◌∷◌, ltb, length, Text, codes}
use mssql_migrator.Prelude.{refl, if◌then◌else◌, some, eq_text}
use mssql_migrator.Error.{ok}
use mssql_migrator.Config.Validate.{Config, Outside, validate_config}
use mssql_migrator.Config.Validate.Accepts.{IsValid, validate_config_iff}

abbrev outside : Outside
outside = record {
  envs = record {
    var_os = λ name. if eq_text name (codes "RM_SKIP_GIT") then some (some (codes "Yes")) else none;
    trim = λ s. s;
    debug = λ s. s;
  };
  databases = λ root. ok (codes "main" ∷ []);
  is_control = λ c. ltb c 32;
  parse_u16 = λ s. some (length s);
}

abbrev configured : Config
configured = record {
  server = codes "localhost";
  port = codes "1433";
  database = [];
  user = codes "sa";
  password = codes "secret";
  sql_root = codes "/sql";
  sql_base = [];
  session_socket = [];
  session_token = [];
}

validate_config_example : ((validate_config outside configured).1 ≡ ok tt) ↔ (
    IsValid outside configured
    × ((dbs : List Text) × (outside.databases configured.sql_root ≡ ok dbs)))
validate_config_example = validate_config_iff outside configured (λ s. refl)
