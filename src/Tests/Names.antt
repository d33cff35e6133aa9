-- ===== src/Tests/Names.antt =====
-- Errors, kinds, actions, rows, identifiers and checksums at concrete inputs.
use mssql_migrator.Prelude.{
  ◌≤◌, ◌≡◌, refl, ◌↔◌, true, some, [], ◌∷◌, ◌++◌, arith, length, Text, codes, eq_text, replace,
}
use mssql_migrator.Error.{is_ok}
use mssql_migrator.SqlIdent.{max_ident, bracketed, validate_path_component, bracket_ident}
use mssql_migrator.SqlIdent.Quoting.{read_bracketed, bracket_ident_injection_safe}
use mssql_migrator.SqlIdent.Accepts.{IsComponent, bracket_ident_iff}
use mssql_migrator.Scan.Checksum.{
  cr, lf, content_checksum, fold_crlf, content_checksum-eq, content_checksum_line_endings,
}
use mssql_migrator.Apply.Schemas.{build_create_schema_sql, create_schema_sql}
use mssql_migrator.Apply.Schemas.Quoted.{read_create_schema, create_schema_injection_safe}

bracket_ident_example :
    (is_ok (bracket_ident (codes "a]b")) ≡ true)
    ↔ (IsComponent (codes "a]b") × (length (codes "a]b") ≤ max_ident))
bracket_ident_example = bracket_ident_iff (codes "a]b")

bracket_ident_injection_example :
    read_bracketed (codes "[a]]b]" ++ codes " X") ≡ some (codes "a]b", codes " X")
unfolding bracket_ident validate_path_component eq_text replace
bracket_ident_injection_example =
    bracket_ident_injection_safe (codes "a]b") (codes " X") {out = codes "[a]]b]"} refl
      (λ e. ground arith)

create_schema_injection_example :
    (bracket : Text) × (read_create_schema
        (create_schema_sql (codes "o'b") (bracketed (codes "o'b")))
      ≡ some (codes "o'b", codes "CREATE SCHEMA " ++ bracket))
    × (read_bracketed bracket ≡ some (codes "o'b", []))
unfolding build_create_schema_sql bracket_ident validate_path_component eq_text
create_schema_injection_example = create_schema_injection_safe (codes "o'b") refl

content_checksum_example :
    content_checksum (λ b. b) (b'a' ∷ cr ∷ lf ∷ cr ∷ []) ≡ fold_crlf (b'a' ∷ cr ∷ lf ∷ cr ∷ [])
content_checksum_example = content_checksum-eq (λ b. b) (b'a' ∷ cr ∷ lf ∷ cr ∷ [])

line_endings_example :
    content_checksum (λ b. b) (replace lf (cr ∷ lf ∷ []) (b'a' ∷ lf ∷ []))
    ≡ content_checksum (λ b. b) (b'a' ∷ lf ∷ [])
line_endings_example =
    content_checksum_line_endings (λ b. b) (b'a' ∷ lf ∷ [])
      (λ e. ground arith, (λ e. ground arith, tt))
