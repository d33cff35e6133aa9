-- ===== src/Domain/Paths.antt =====
-- Object keys and catalog-relative paths: crates/core/src/domain/key.rs and layout_path.rs.
-- Lowercasing is Unicode's, of the standard library: an argument.
use mssql_migrator.Prelude.{
  ℕ, zero, suc, Option, none, some, List, [], ◌∷◌, ◌++◌, reverse, ◌==◌, if◌then◌else◌, length,
  is_empty, Text, codes, eq_text, starts_with, strip_prefix, split, replace,
}

abbrev pub slash : ℕ
slash = b'/'

-- `ObjectKey::new`
unfoldable pub object_key : (Text → Text) → Text → Text → Text → Text
object_key lower schema kind name = lower schema ++ (slash ∷ (lower kind ++ (slash ∷ lower name)))

-- `trim_end_matches(".sql")`, on the reversed text; each round takes four characters.
trim_reversed : ℕ → Text → Text
trim_reversed zero s = s
trim_reversed (suc fuel) s = elim (strip_prefix (codes "lqs.") s) [
  | none ↦ s
  | some rest ↦ trim_reversed fuel rest
]

unfoldable pub trim_end_sql : Text → Text
unfolding trim_reversed
trim_end_sql path = reverse (trim_reversed (length path) (reverse path))

-- The last three of at least four segments.
unfoldable pub last_three : List Text → Option (Text × Text × Text)
last_three (a ∷ b ∷ c ∷ d ∷ []) = some (b, c, d)
last_three (a ∷ b ∷ c ∷ d ∷ e ∷ r) = last_three (b ∷ c ∷ d ∷ e ∷ r)
last_three _ = none

-- `ObjectKey::parse`
unfoldable pub parse_key : (Text → Text) → Text → Option Text
unfolding trim_end_sql
parse_key lower path = elim (last_three (split slash (trim_end_sql path))) [
  | none ↦ none
  | some (schema, kind, name) ↦ some (object_key lower schema kind name)
]

-- `ScriptKey::from_path`
unfoldable pub script_key : Text → Text
script_key path = replace b'\\' (codes "/") path

unfoldable pub trim_start_slash : Text → Text
trim_start_slash [] = []
trim_start_slash (c ∷ s) = if c == slash then trim_start_slash s else c ∷ s

unfoldable pub object_path_for_entry : Text → Text → Text
object_path_for_entry database path =
    if is_empty database
    then path
    else if starts_with (database ++ codes "/") path
    then path
    else database ++ (slash ∷ trim_start_slash path)

unfoldable pub with_database_prefix : Text → Text → Text
unfolding object_path_for_entry
with_database_prefix database path = object_path_for_entry database (replace b'\\' (codes "/") path)

-- The path without the prefix, as a list of one; `strip_prefix` is the slice of the source.
unfoldable pub unprefixed : Text → Text → List Text
unprefixed database path = elim (strip_prefix (database ++ codes "/") path) [
  | none ↦ []
  | some rest ↦ rest ∷ []
]

unfoldable pub path_lookup_candidates : Text → Text → List Text
unfolding unprefixed with_database_prefix
path_lookup_candidates database path =
    if is_empty database
    then path ∷ []
    else path
      ∷ ((if eq_text (with_database_prefix database path) path
            then []
            else with_database_prefix database path ∷ [])
          ++ unprefixed database path)
