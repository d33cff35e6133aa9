-- ===== src/SqlIdent/Quoting.antt =====
-- How T-SQL reads quoted identifiers (crates/core/src/sql_ident.rs).
use mathlib.Core.List.{append_assoc}
use mssql_migrator.Error.{ok, Result-cases}
use mssql_migrator.SqlIdent.{validate_path_component, bracketed, bracket_ident}
use mssql_migrator.SqlIdent.Lexer.{read_delimited, read_delimited-replace, EndsToken}
use mssql_migrator.Prelude.{
  ◌≡◌, inl, inr, Option, none, some, [], ◌∷◌, ◌++◌, arith, ◌==◌, if◌then◌else◌, Text, codes,
  replace,
}

-- How T-SQL reads a bracketed identifier: its name and what follows it.
pub read_bracketed : Text → Option (Text × Text)
read_bracketed [] = none
read_bracketed (c ∷ s) = if c == b'[' then read_delimited b']' s else none

-- A successful quoting is the bracketed name.
pub bracket_ident-eq :
    (name : Text) {out : Text} → bracket_ident name ≡ ok out → out ≡ bracketed name
unfolding bracket_ident
bracket_ident-eq name h = elim (Result-cases (validate_path_component name)) [
  | inl (u, v) ↦ ground arith
  | inr (e, v) ↦ ground arith
]

read-bracketed_name :
    (name rest : Text)
    → EndsToken b']' rest
    → read_bracketed (bracketed name ++ rest) ≡ some (name, rest)
unfolding read_bracketed bracketed
read-bracketed_name name rest h =
    rw (append_assoc (replace b']' (codes "]]") name) (codes "]") rest)
      (read_delimited-replace b']' name rest h)

-- Whatever the name, a quoted identifier followed by any text that does not start with `]` is
-- read by T-SQL as exactly that name, and the text after it is left untouched.
pub bracket_ident_injection_safe :
    (name rest : Text) {out : Text}
    → bracket_ident name ≡ ok out
    → EndsToken b']' rest
    → read_bracketed (out ++ rest) ≡ some (name, rest)
bracket_ident_injection_safe name rest h e =
    rw (bracket_ident-eq name h) (read-bracketed_name name rest e)
