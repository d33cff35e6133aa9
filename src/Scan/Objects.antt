-- ===== src/Scan/Objects.antt =====
-- `parse_object` of crates/core/src/scan/parse_object.rs. What reading the file gives, lower-casing
-- and SHA-256 are arguments; the warning about an unknown folder is left out.
pub mod Placed
use mssql_migrator.Prelude.{
  ℕ, zero, suc, ◌+◌, ◌-◌, ◌*◌, ◌/◌, ◌%◌, ◌^◌, ◌≤◌, ◌<◌, ◌≡◌, refl, sym, ap, ◌∙◌, ◌≢◌, ◌↔◌, ◌⊎◌, inl,
  inr, Bool, true, false, not, ◌&&◌, ◌||◌, Option, none, some, List, [], ◌∷◌, ◌++◌, map, reverse,
  arith, String, ltb, leb, ◌==◌, if◌then◌else◌, ==_iff, ==_refl, Bool-cases, Option-cases, length,
  get_elem?, set, replicate, resize, is_empty, is_empty_iff, all, any, length-append, length-set,
  length-resize, get_elem?-set_self, get_elem?-some, get_elem?-set_ne, get_elem?-lt, All,
  length-map, lookup, without, insert, lookup-without, lookup-insert, Text, codes, eq_text,
  starts_with, strip_prefix, ends_with, contains, split, push_front, join, split_once, replace,
  lookup_text, mem_text, mem_text-all, show, eq_text_iff, eq_text_refl, contains-append,
  contains-starts_with, join-split, starts_with-append, split-ne-nil,
}
use mssql_migrator.Error.{Error, invalid_input, io, Result, ok, err, ◌>>=◌, ◌>>◌}
use mssql_migrator.SqlIdent.{validate_path_component}
use mssql_migrator.Domain.Kind.{kinds}
use mssql_migrator.Domain.Workspace.{Digest, ObjectEntry}
use mssql_migrator.Domain.Paths.{slash, object_key, script_key}
use mssql_migrator.Domain.Layout.{Script, object_script}
use mssql_migrator.Scan.Checksum.{content_checksum}
use mssql_migrator.Scan.Names.{strip_sql_ext}
use mssql_migrator.Apply.Conn.{FileRead, contents, read_failed}

pub record ParsedObject : Type 0 where
  pub key : Text
  pub entry : ObjectEntry
  pub script : Script

-- `parts[parts.len() - 2]`
unfoldable pub second_last : List Text → Text
second_last (a ∷ b ∷ c ∷ r) = second_last (b ∷ c ∷ r)
second_last (a ∷ b ∷ []) = a
second_last _ = []

module _ (lower : Text → Text) (sha256 : Text → Digest) (read : FileRead) (rel abs : Text) where
  unfoldable pub file_checksum : FileRead → Result Digest
  file_checksum (read_failed e) = err (io e)
  file_checksum (contents bytes) = ok (content_checksum sha256 bytes)

  unfoldable pub parsed : Text → Text → Text → Digest → ParsedObject
  parsed schema kind name cs = record {
    key = object_key lower schema kind name;
    entry = record { checksum = cs; key_off = (0, 0); script_id = 0; db_id = 0; flags = 0 };
    script = record {
      path = script_key rel;
      abs_path = abs;
      kind = object_script;
      checksum = some cs;
      git_hash = [];
      git_author = [];
      git_date = [];
    };
  }

  -- A path of exactly four segments.
  unfoldable pub parse_four : Text → Text → Text → Text → Result (Option ParsedObject)
  unfolding file_checksum parsed
  parse_four database schema kind file =
      let name = strip_sql_ext file in
      if not (mem_text kind kinds) then ok none else do
        validate_path_component database
        validate_path_component schema
        validate_path_component name
        cs ← file_checksum read
        ok (some (parsed schema kind name cs))

  unfoldable pub parse_parts : List Text → Result (Option ParsedObject)
  unfolding parse_four
  parse_parts (database ∷ schema ∷ kind ∷ file ∷ []) = parse_four database schema kind file
  parse_parts parts =
      if ltb (length parts) 4
      then ok none
      else if mem_text (second_last parts) kinds
      then err (
          invalid_input (
            codes
              "object scripts must sit exactly at <database>/<schema>/<kind>/<name>.sql; nested path is not deployable: "
            ++ rel))
      else ok none

  unfoldable pub parse_object : Result (Option ParsedObject)
  unfolding parse_parts
  parse_object = parse_parts (split slash rel)
