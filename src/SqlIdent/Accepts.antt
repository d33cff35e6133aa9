-- ===== src/SqlIdent/Accepts.antt =====
-- Which names the validations of crates/core/src/sql_ident.rs accept.
use mssql_migrator.Error.{ok, is_ok}
use mssql_migrator.SqlIdent.{
  is_separator, check_chars, validate_path_component, bracket_ident, max_ident,
}
use mssql_migrator.Prelude.{
  ◌≤◌, ◌≡◌, refl, ◌≢◌, ◌↔◌, inl, inr, true, [], ◌∷◌, arith, Bool-cases, length, is_empty_iff, All,
  Text, codes, eq_text_iff,
}

-- No character of the text is a path separator or NUL.
abbrev pub LacksSeparators : Text → Type 0
LacksSeparators = All (λ c. (c ≢ b'/') × (c ≢ b'\\') × (c ≢ 0))

-- A single directory or file name.
abbrev pub IsComponent : Text → Type 0
IsComponent name = (name ≢ []) × (name ≢ codes ".") × (name ≢ codes "..") × LacksSeparators name

check_chars_sound : (name s : Text) → is_ok (check_chars name s) ≡ true → LacksSeparators s
unfolding check_chars
check_chars_sound name [] h = tt
check_chars_sound name (c ∷ s) h = elim (Bool-cases (is_separator c)) [
  | inl e ↦ ground arith
  | inr e ↦ ground (arith, check_chars_sound name s)
]

check_chars_complete : (name s : Text) → LacksSeparators s → check_chars name s ≡ ok tt
unfolding check_chars
check_chars_complete name [] h = refl
check_chars_complete name (c ∷ s) h = ground (arith, check_chars_complete name s h.1)

module _ (name : Text) where
  validate_sound : is_ok (validate_path_component name) ≡ true → IsComponent name
  unfolding validate_path_component
  validate_sound h = ground (
    arith,
    is_empty_iff name,
    eq_text_iff name (codes "."),
    eq_text_iff name (codes ".."),
    check_chars_sound name name,
  )

  pub validate_complete : IsComponent name → validate_path_component name ≡ ok tt
  unfolding validate_path_component
  validate_complete h = ground (
    arith,
    is_empty_iff name,
    eq_text_iff name (codes "."),
    eq_text_iff name (codes ".."),
    check_chars_complete name name h.3,
  )

-- A path component is accepted exactly when it is not empty, `.` or `..`, and holds no `/`, `\`
-- or NUL.
pub validate_path_component_iff :
    (name : Text) → (is_ok (validate_path_component name) ≡ true) ↔ IsComponent name
validate_path_component_iff name = (validate_sound name, λ h. rw (validate_complete name h) refl)

-- An identifier is quoted exactly when it is a path component of at most 128 characters.
pub bracket_ident_iff :
    (name : Text)
    → (is_ok (bracket_ident name) ≡ true) ↔ (IsComponent name × (length name ≤ max_ident))
unfolding bracket_ident
bracket_ident_iff name =
    (λ h. ground (arith, validate_sound name), λ h. ground (arith, validate_complete name h.0))
