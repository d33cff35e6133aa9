-- ===== src/Apply/Schemas/Quoted.antt =====
-- How T-SQL reads the statement that creates a schema (crates/core/src/apply/schemas.rs).
use mathlib.Core.List.{append-nil}
use mathlib.Core.Path.{subst}
use mssql_migrator.Error.{ok, Result-cases}
use mssql_migrator.SqlIdent.{bracket_ident}
use mssql_migrator.SqlIdent.Lexer.{read_delimited, read_delimited-replace}
use mssql_migrator.SqlIdent.Quoting.{bracket_ident_injection_safe, read_bracketed}
use mssql_migrator.Apply.Schemas.{double_quotes, create_schema_sql, build_create_schema_sql}
use mssql_migrator.Prelude.{
  ◌≡◌, refl, inl, inr, true, Option, none, some, [], ◌++◌, arith, if◌then◌else◌, Text, codes,
  eq_text, strip_prefix, replace,
}

-- The probed name and the executed text of a statement `IF SCHEMA_ID(N'…') IS NULL EXEC('…')`, as
-- T-SQL reads the two string literals.
read_exec : Option (Text × Text) → Option (Text × Text)
read_exec none = none
read_exec (some (name, rest)) = elim (strip_prefix (codes ") IS NULL EXEC('") rest) [
  | none ↦ none
  | some body ↦ elim (read_delimited 39 body) [
    | none ↦ none
    | some (executed, tail) ↦ if eq_text tail (codes ")") then some (name, executed) else none
  ]
]

pub read_create_schema : Text → Option (Text × Text)
unfolding read_exec
read_create_schema q = elim (strip_prefix (codes "IF SCHEMA_ID(N'") q) [
  | none ↦ none
  | some body ↦ read_exec (read_delimited 39 body)
]

read_exec-eq :
    (name rest body executed tail : Text)
    → strip_prefix (codes ") IS NULL EXEC('") rest ≡ some body
    → read_delimited 39 body ≡ some (executed, tail)
    → eq_text tail (codes ")") ≡ true
    → read_exec (some (name, rest)) ≡ some (name, executed)
unfolding read_exec
read_exec-eq name rest body executed tail p q r = ground arith

create_schema_sql-read :
    (name bracket : Text)
    → read_create_schema (create_schema_sql name bracket)
      ≡ some (name, codes "CREATE SCHEMA " ++ bracket)
unfolding read_create_schema create_schema_sql strip_prefix double_quotes replace read_exec eq_text
create_schema_sql-read name bracket =
    rw
      (read_delimited-replace 39 name
        (codes ") IS NULL EXEC('CREATE SCHEMA " ++ (double_quotes bracket ++ codes "')"))
        (omega arith))
      (read_exec-eq name
        (codes ") IS NULL EXEC('CREATE SCHEMA " ++ (double_quotes bracket ++ codes "')"))
        (codes "CREATE SCHEMA " ++ (double_quotes bracket ++ codes "')"))
        (codes "CREATE SCHEMA " ++ bracket) (codes ")") refl
        (read_delimited-replace 39 (codes "CREATE SCHEMA " ++ bracket) (codes ")") (omega arith))
        refl)

-- The statement built for a schema probes exactly the schema's name, and executes exactly
-- `CREATE SCHEMA` with an identifier that T-SQL reads as that name: no name can add to it.
pub create_schema_injection_safe :
    (name : Text) {q : Text}
    → build_create_schema_sql name ≡ ok q
    → (bracket : Text) × (read_create_schema q ≡ some (name, codes "CREATE SCHEMA " ++ bracket))
      × (read_bracketed bracket ≡ some (name, []))
unfolding build_create_schema_sql
create_schema_injection_safe name h = elim (Result-cases (bracket_ident name)) [
  | inr (e, p) ↦ absurd (ground arith)
  | inl (bracket, p) ↦ (
    bracket,
    subst (λ q. read_create_schema q ≡ some (name, codes "CREATE SCHEMA " ++ bracket))
        {x = create_schema_sql name bracket} (ground arith) (create_schema_sql-read name bracket),
    rw (← append-nil bracket) (bracket_ident_injection_safe name [] p tt),
  )
]
