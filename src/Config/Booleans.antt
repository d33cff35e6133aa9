-- ===== src/Config/Booleans.antt =====
-- The Boolean environment variables: crates/core/src/config/env_parse.rs.
use mssql_migrator.Prelude.{
  Bool, ◌||◌, Option, none, some, List, [], ◌∷◌, ◌++◌, if◌then◌else◌, any, Text, codes, eq_text,
}
use mssql_migrator.Domain.Ingest.{eq_ignore_ascii_case}
use mssql_migrator.Error.{Result, ok, err, config, ◌>>◌}

-- The environment, of which a value that is no UTF-8 is `some none`; `str::trim`; and the debug form
-- of a text.
pub record BooleanEnvs : Type 0 where
  pub var_os : Text → Option (Option Text)
  pub trim : Text → Text
  pub debug : Text → Text

abbrev pub true_words : List Text
true_words = codes "true" ∷ codes "yes" ∷ codes "on" ∷ codes "y" ∷ codes "enabled" ∷ []

abbrev pub false_words : List Text
false_words = codes "false" ∷ codes "no" ∷ codes "off" ∷ codes "n" ∷ codes "disabled" ∷ []

unfoldable pub parse_bool : (Text → Text) → Text → Bool
unfolding eq_ignore_ascii_case
parse_bool trim s =
    eq_text (trim s) (codes "1") || any (λ word. eq_ignore_ascii_case (trim s) word) true_words

unfoldable pub recognized_bool : (Text → Text) → Text → Bool
unfolding parse_bool
recognized_bool trim s =
    parse_bool trim (trim s)
    || eq_text (trim s) (codes "0")
    || any (λ word. eq_ignore_ascii_case (trim s) word) false_words

unfoldable pub validate_boolean_value : BooleanEnvs → Text → Text → Result {0} Unit
unfolding recognized_bool
validate_boolean_value envs name value =
    if recognized_bool envs.trim value
    then ok tt
    else err (
        config (
          name
          ++ (codes " has invalid boolean value "
              ++ (envs.debug value ++ codes "; use true or false"))))

-- One round of the loop, for the value of a variable.
unfoldable pub validate_boolean_var : BooleanEnvs → Text → Option (Option Text) → Result {0} Unit
unfolding validate_boolean_value
validate_boolean_var envs name none = ok tt
validate_boolean_var envs name (some none) =
    err (config (name ++ codes " must be a UTF-8 boolean value"))
validate_boolean_var envs name (some (some value)) = validate_boolean_value envs name value

abbrev pub boolean_names : List Text
boolean_names =
    codes "RM_REPORT_SYNC"
    ∷ codes "RM_SKIP_GIT"
    ∷ codes "RMIG_INSPECT_FULL"
    ∷ codes "RMIG_CATALOG_CACHE"
    ∷ codes "RMIG_ALLOW_ADOPT"
    ∷ codes "RM_DB_ENCRYPT"
    ∷ codes "RM_DB_TRUST_SERVER_CERTIFICATE"
    ∷ []

unfoldable pub validate_boolean_envs : BooleanEnvs → List Text → Result {0} Unit
unfolding validate_boolean_var
validate_boolean_envs envs [] = ok tt
validate_boolean_envs envs (name ∷ names) = do
  validate_boolean_var envs name (envs.var_os name)
  validate_boolean_envs envs names
