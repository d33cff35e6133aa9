-- ===== src/Tests/Scanning.antt =====
-- The scanner at concrete paths.
use mssql_migrator.Prelude.{
  ◌≡◌, refl, ◌↔◌, ◌⊎◌, ◌<◌, arith, length, none, some, [], Text, codes, eq_text, split, split_once,
  mem_text,
}
use mathlib.Core.List.{Perm}
use mssql_migrator.Prelude.{ℕ, List, ◌∷◌, get_elem?, lookup_text, ◌-◌}
use mssql_migrator.Domain.Kind.{kind_code}
use mssql_migrator.Domain.Store.{
  FinalizeSortedResult, finalize_sorted_entries, zip, columns_of, sort_pairs, text_le,
}
use mssql_migrator.Domain.Store.Sorted.{Ascending, finalize_sorted}
use mssql_migrator.Domain.Store.Found.{finalize_sorted_found}
use mssql_migrator.Apply.Order.{compare_text}
use mssql_migrator.Error.{Error, ok, err}
use mssql_migrator.Domain.Workspace.{Workspace, ObjectEntry, ObjectRow, zero_digest, key_part}
use mssql_migrator.Domain.Ingest.{push_object}
use mssql_migrator.Domain.Ingest.FiniteMap.{
  ObjectMap, Implements, add_new, empty_map, start-Implements, push_object_refines,
}
use mssql_migrator.SqlIdent.{validate_path_component}
use mssql_migrator.Domain.Paths.{slash}
use mssql_migrator.Apply.Conn.{contents}
use mssql_migrator.Scan.Names.{strip_sql_ext, parse_filename}
use mssql_migrator.Scan.Checksum.{content_checksum}
use mssql_migrator.Scan.Names.Migration.{MigrationName, parse_filename_iff}
use mssql_migrator.Scan.Objects.{ParsedObject, parsed, parse_object}
use mssql_migrator.Scan.Objects.Placed.{PlacedAt, parse_object_placed}
use mssql_migrator.Tests.Data.{body_text, workspace}

parse_filename_example :
    (parse_filename (codes "001_abcdef0_add.SQL") ≡ some (codes "001"))
    ↔ MigrationName (codes "001_abcdef0_add.SQL") (codes "001")
parse_filename_example = parse_filename_iff (codes "001_abcdef0_add.SQL") (codes "001")

abbrev rel : Text
rel = codes "main/dbo/views/v.sql"

abbrev scanned : ParsedObject
scanned =
    parsed (λ s. s) (λ bytes. bytes) (contents body_text) rel rel (codes "dbo") (codes "views")
      (codes "v") body_text

parse_object_example :
    PlacedAt (λ s. s) (λ bytes. bytes) (contents body_text) (split slash rel) scanned
unfolding parse_object split mem_text eq_text validate_path_component strip_sql_ext content_checksum
    split_once
parse_object_example =
    parse_object_placed (λ s. s) (λ bytes. bytes) (contents body_text) rel rel {p = scanned} refl

abbrev unstaged : Workspace
unstaged = record workspace { object_entries = []; ingest_keys = []; ingest_key_index = [] }

abbrev table_t : ObjectEntry
table_t = record { checksum = zero_digest; key_off = (0, 0); script_id = 1; db_id = 0; flags = 0 }

push_object_example :
    ((add_new (0, codes "dbo/tables/t") table_t empty_map ≡ none)
      × ((e : Error) × (push_object (λ s. s) (codes "dbo/tables/t") table_t unstaged ≡ err e)))
    ⊎ ((m' : ObjectMap) × (ws' : Workspace) × (add_new (0, codes "dbo/tables/t") table_t empty_map
          ≡ some m')
        × (push_object (λ s. s) (codes "dbo/tables/t") table_t unstaged ≡ ok ws')
        × Implements ws' m')
push_object_example =
    push_object_refines (λ s. s) (codes "dbo/tables/t") table_t unstaged empty_map
      (start-Implements unstaged refl refl refl) (omega arith)

-- A view and a table, staged in this order.
abbrev staged_keys : List Text
staged_keys = codes "dbo/views/v" ∷ codes "dbo/tables/t" ∷ []

abbrev staged_entries : List ObjectEntry
staged_entries = table_t ∷ table_t ∷ []

abbrev length_fingerprint : Text → ℕ
length_fingerprint key = length key

finalize_sorted_example :
    (f : FinalizeSortedResult) × (finalize_sorted_entries length_fingerprint staged_entries
        staged_keys
      ≡ some f)
    × Perm (zip f.keys f.entries) (zip staged_keys staged_entries)
    × Ascending (zip f.keys f.entries)
finalize_sorted_example = finalize_sorted length_fingerprint staged_entries staged_keys refl

abbrev laid_out : FinalizeSortedResult
laid_out = columns_of length_fingerprint (sort_pairs (zip staged_keys staged_entries))

finalize_sorted_found_example :
    ((r : ObjectRow) × (get_elem? laid_out.layout.rows 0 ≡ some r)
      × (r.kind_code ≡ kind_code (key_part (codes "dbo/tables/t") 1)))
    × ((id : ℕ) × (lookup_text (codes "dbo/tables/t") laid_out.layout.key_index ≡ some id)
        × (0 < id)
        × (get_elem? laid_out.keys (id - 1) ≡ some (codes "dbo/tables/t")))
unfolding finalize_sorted_entries columns_of sort_pairs text_le compare_text zip
finalize_sorted_found_example =
    finalize_sorted_found length_fingerprint staged_entries staged_keys laid_out 0
      (codes "dbo/tables/t") refl (omega arith) refl
