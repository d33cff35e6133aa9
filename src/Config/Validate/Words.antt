-- ===== src/Config/Validate/Words.antt =====
-- The Boolean variables of crates/core/src/config/env_parse.rs described by their words.
use mssql_migrator.Prelude.{
  ℕ, ◌<◌, ◌≡◌, refl, ◌↔◌, true, Option, none, some, List, [], ◌∷◌, map, arith, All, Text, codes,
  eq_text, mem_text,
}
use mssql_migrator.Domain.Ingest.{ascii_lower, eq_ignore_ascii_case}
use mssql_migrator.Error.{Result, ok, err, ◌>>◌}
use mssql_migrator.Config.Booleans.{
  BooleanEnvs, boolean_names, parse_bool, recognized_bool, validate_boolean_value,
  validate_boolean_var, validate_boolean_envs,
}

-- The variables that hold a Boolean.
abbrev pub boolean_variables : List Text
boolean_variables =
    codes "RM_REPORT_SYNC"
    ∷ codes "RM_SKIP_GIT"
    ∷ codes "RM_DB_ENCRYPT"
    ∷ codes "RM_DB_TRUST_SERVER_CERTIFICATE"
    ∷ codes "RMIG_INSPECT_FULL"
    ∷ codes "RMIG_CATALOG_CACHE"
    ∷ codes "RMIG_ALLOW_ADOPT"
    ∷ []

-- The words of a Boolean, in lower case.
abbrev pub boolean_words : List Text
boolean_words =
    codes "1"
    ∷ codes "true"
    ∷ codes "yes"
    ∷ codes "on"
    ∷ codes "y"
    ∷ codes "enabled"
    ∷ codes "0"
    ∷ codes "false"
    ∷ codes "no"
    ∷ codes "off"
    ∷ codes "n"
    ∷ codes "disabled"
    ∷ []

-- An unset variable, or UTF-8 text that is one of the words in any case, with space around it.
abbrev pub IsBoolean : (Text → Text) → Option (Option Text) → Type 0
IsBoolean trim none = Unit
IsBoolean trim (some none) = ⊥
IsBoolean trim (some (some value)) = mem_text (map ascii_lower (trim value)) boolean_words ≡ true

ignore_case-lower :
    (s w : Text) → eq_ignore_ascii_case s w ≡ eq_text (map ascii_lower w) (map ascii_lower s)
unfolding eq_ignore_ascii_case eq_text
ignore_case-lower [] [] = refl
ignore_case-lower [] (d ∷ t) = refl
ignore_case-lower (c ∷ s) [] = refl
ignore_case-lower (c ∷ s) (d ∷ t) = ground (arith, ignore_case-lower s t)

lower-digit :
    (d : ℕ) (s : Text) → d < 65 → eq_text s (d ∷ []) ≡ eq_text (d ∷ []) (map ascii_lower s)
unfolding eq_text ascii_lower
lower-digit d [] lt = refl
lower-digit d (c ∷ []) lt = ground arith
lower-digit d (c ∷ e ∷ s) lt = ground arith

module _ (trim : Text → Text) (trims : (s : Text) → trim (trim s) ≡ trim s) where
  recognized_bool-words :
      (s : Text) → recognized_bool trim s ≡ mem_text (map ascii_lower (trim s)) boolean_words
  unfolding recognized_bool parse_bool mem_text ascii_lower
  recognized_bool-words s =
      let low = trim s in
      rw (trims s) (
        ground (
          arith,
          lower-digit b'1' low (omega arith),
          lower-digit b'0' low (omega arith),
          ignore_case-lower low (codes "true"),
          ignore_case-lower low (codes "yes"),
          ignore_case-lower low (codes "on"),
          ignore_case-lower low (codes "y"),
          ignore_case-lower low (codes "enabled"),
          ignore_case-lower low (codes "false"),
          ignore_case-lower low (codes "no"),
          ignore_case-lower low (codes "off"),
          ignore_case-lower low (codes "n"),
          ignore_case-lower low (codes "disabled"),
        ))

pub seq-ok : (r s : Result {0} Unit) → ((r >> s) ≡ ok tt) ↔ ((r ≡ ok tt) × (s ≡ ok tt))
seq-ok (ok u) s = (λ h. (refl, h), λ h. h.1)
seq-ok (err e) s = (λ h. absurd (ground arith), λ h. absurd (ground arith))

module _ (envs : BooleanEnvs) (trims : (s : Text) → envs.trim (envs.trim s) ≡ envs.trim s) where
  boolean_var_iff :
      (name : Text) (o : Option (Option Text))
      → (validate_boolean_var envs name o ≡ ok tt) ↔ IsBoolean envs.trim o
  unfolding validate_boolean_var validate_boolean_value
  boolean_var_iff name none = (λ h. tt, λ h. refl)
  boolean_var_iff name (some none) = (λ h. absurd (ground arith), λ h. absurd h)
  boolean_var_iff name (some (some value)) =
      ground (arith, recognized_bool-words envs.trim trims value)

  boolean_envs_iff :
      (names : List Text)
      → (validate_boolean_envs envs names ≡ ok tt)
        ↔ All (λ name. IsBoolean envs.trim (envs.var_os name)) names
  unfolding validate_boolean_envs
  boolean_envs_iff [] = (λ h. tt, λ h. refl)
  boolean_envs_iff (name ∷ names) =
      let own = boolean_var_iff name (envs.var_os name) in
      let rest = boolean_envs_iff names in
      let both = seq-ok _ _ in
      (λ h. (own.0 (both.0 h).0, rest.0 (both.0 h).1), λ h. both.1 (own.1 h.0, rest.1 h.1))

  -- The check passes exactly when each variable that holds a Boolean is unset or one of the words.
  pub boolean_variables_iff :
      (validate_boolean_envs envs boolean_names ≡ ok tt)
      ↔ All (λ name. IsBoolean envs.trim (envs.var_os name)) boolean_variables
  boolean_variables_iff =
      let all = boolean_envs_iff boolean_names in
      (
        λ h.
            let (sync, (git, (inspect, (cache, (adopt, (encrypt, (trust, end))))))) = all.0 h in
            (sync, (git, (encrypt, (trust, (inspect, (cache, (adopt, end))))))),
        λ (sync, (git, (encrypt, (trust, (inspect, (cache, (adopt, end))))))).
            all.1 (sync, (git, (inspect, (cache, (adopt, (encrypt, (trust, end))))))),
      )
