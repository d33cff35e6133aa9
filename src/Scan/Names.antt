-- ===== src/Scan/Names.antt =====
-- Names that the scanner reads: `strip_sql_ext` of crates/core/src/scan/parse_object.rs,
-- `parse_filename` of transition.rs, and `is_check_path` of parse.rs.
pub mod Migration
use mssql_migrator.Prelude.{
  ℕ, zero, suc, ◌+◌, ◌-◌, ◌*◌, ◌/◌, ◌%◌, ◌^◌, ◌≤◌, ◌<◌, ◌≡◌, refl, sym, ap, ◌∙◌, ◌≢◌, ◌↔◌, ◌⊎◌, inl,
  inr, Bool, true, false, not, ◌&&◌, ◌||◌, Option, none, some, List, [], ◌∷◌, ◌++◌, map, reverse,
  arith, String, ltb, leb, ◌==◌, if◌then◌else◌, ==_iff, ==_refl, Bool-cases, Option-cases, length,
  get_elem?, set, replicate, resize, is_empty, is_empty_iff, all, any, length-append, length-set,
  length-resize, get_elem?-set_self, get_elem?-some, get_elem?-set_ne, get_elem?-lt, All,
  length-map, lookup, without, insert, lookup-without, lookup-insert, Text, codes, eq_text,
  starts_with, strip_prefix, ends_with, contains, split, push_front, join, split_once, replace,
  lookup_text, mem_text, mem_text-all, show, eq_text_iff, eq_text_refl, contains-append,
  contains-starts_with, join-split, starts_with-append, split-ne-nil,
}
use mssql_migrator.SqlIdent.{is_ascii_digit}
use mssql_migrator.Domain.Paths.{slash}

-- `to_ascii_lowercase` of a character
unfoldable pub lower_ascii : ℕ → ℕ
lower_ascii c = if leb b'A' c && leb c b'Z' then c + 32 else c

-- `eq_ignore_ascii_case(".sql")`
unfoldable pub is_dot_sql : Text → Bool
unfolding lower_ascii
is_dot_sql s = eq_text (map lower_ascii s) (codes ".sql")

-- Drops the last four characters if they are `.sql` in any case.
unfoldable pub strip_sql_ext : Text → Text
unfolding is_dot_sql
strip_sql_ext [] = []
strip_sql_ext (c ∷ s) = let rest = strip_sql_ext s in if is_dot_sql (c ∷ s) then [] else c ∷ rest

unfoldable pub is_ascii_hexdigit : ℕ → Bool
unfolding is_ascii_digit
is_ascii_hexdigit c = is_ascii_digit c || (leb b'a' c && leb c b'f') || (leb b'A' c && leb c b'F')

-- The commit and the slug behind the ordinal.
unfoldable pub parse_commit : Text → Option (Text × Text) → Option Text
unfolding is_ascii_hexdigit
parse_commit ordinal none = none
parse_commit ordinal (some (commit, slug)) =
    if ltb (length commit) 7 || not (all is_ascii_hexdigit commit)
    then none
    else if is_empty slug
    then none
    else some ordinal

unfoldable pub parse_ordinal : Option (Text × Text) → Option Text
unfolding parse_commit
parse_ordinal none = none
parse_ordinal (some (ordinal, rest)) =
    if not (length ordinal == 3) || not (all is_ascii_digit ordinal)
    then none
    else parse_commit ordinal (split_once b'_' rest)

unfoldable pub parse_filename : Text → Option Text
unfolding parse_ordinal strip_sql_ext
parse_filename file =
    let stripped = strip_sql_ext file in
    if length stripped == length file then none else parse_ordinal (split_once b'_' stripped)

-- `[_, "checks", f] | [_, _, "checks", f] if !f.is_empty()`
unfoldable pub is_checks : List Text → Bool
is_checks (db ∷ folder ∷ file ∷ []) = eq_text folder (codes "checks") && not (is_empty file)
is_checks (db ∷ schema ∷ folder ∷ file ∷ []) =
    eq_text folder (codes "checks") && not (is_empty file)
is_checks _ = false

unfoldable pub is_check_path : Text → Bool
unfolding is_checks
is_check_path rel = is_checks (split slash rel)
