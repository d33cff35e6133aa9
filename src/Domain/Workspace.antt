-- ===== src/Domain/Workspace.antt =====
-- The workspace and its dense columns: crates/core/src/domain/workspace (mod.rs, catalog.rs,
-- cold.rs, objects/access.rs), object/mod.rs, object/parent.rs, store.rs and str_off.rs.
-- A read out of a column's range panics in the source and is `none` here.
use mssql_migrator.Prelude.{
  ℕ, ◌+◌, ◌-◌, ◌/◌, ◌%◌, ◌≡◌, Bool, false, not, Option, none, some, List, [], arith, ltb, ◌==◌,
  if◌then◌else◌, length, get_elem?, replicate, lookup, Text, split, lookup_text,
}

abbrev pub Digest : Type 0
Digest = List ℕ

-- `[0; 32]`
abbrev pub zero_digest : Digest
zero_digest = replicate 32 0

-- Offset and length in the layout arena.
abbrev pub StrOff : Type 0
StrOff = ℕ × ℕ

abbrev pub u32_mod : ℕ
u32_mod = 4294967296

pub record ObjectEntry : Type 0 where
  pub checksum : Digest
  pub key_off : StrOff
  pub script_id : ℕ
  pub db_id : ℕ
  pub flags : ℕ

-- `OBJECT_FLAG_DB_EXISTS` is the lowest bit.
unfoldable pub db_exists : ObjectEntry → Bool
db_exists e = e.flags % 2 == 1

unfoldable pub set_db_exists : Bool → ObjectEntry → ObjectEntry
set_db_exists exists e = record e {
  flags =
      if exists then (if e.flags % 2 == 1 then e.flags else e.flags + 1) else e.flags - e.flags % 2;
}

pub record ObjectRow : Type 0 where
  pub schema_id : ℕ
  pub kind_code : ℕ

pub record ScriptGit : Type 0 where
  pub hash_off : StrOff
  pub author_off : StrOff
  pub date_off : StrOff

pub record SchemaEntry : Type 0 where
  pub database : Text
  pub name : Text
  pub normalized : Text

-- The fields that the scan and planning read and write; parents and indices are 1-based row ids.
pub record Workspace : Type 0 where
  pub object_entries : List ObjectEntry
  pub object_keys : List Text
  pub object_rows : List ObjectRow
  pub catalog_flags : ℕ
  pub key_index : List (Text × ℕ)
  pub parent_by_row : List (ℕ × ℕ)
  pub prior_by_row : List (Option Digest)
  pub catalog_row : List ℕ
  pub has_transition_paths_row : List ℕ
  pub transition_path_cache : Option (List (ℕ × List StrOff))
  pub object_path_cache : Option (List StrOff)
  pub script_git : List (ℕ × ScriptGit)
  pub schemas : List SchemaEntry
  pub database_names : List Text
  pub ingest_keys : List Text
  pub ingest_key_index : List ((ℕ × Text) × ℕ)

unfoldable pub row_id_at : ℕ → ℕ
row_id_at i = (i + 1) % u32_mod

unfoldable pub object_count : Workspace → ℕ
object_count ws = length ws.object_entries

unfoldable pub entry : Workspace → ℕ → Option ObjectEntry
entry ws i = get_elem? ws.object_entries i

unfoldable pub row : Workspace → ℕ → Option ObjectRow
row ws i = get_elem? ws.object_rows i

unfoldable pub entry_key : Workspace → ℕ → Option Text
entry_key ws i =
    if ltb i (length ws.object_keys) then get_elem? ws.object_keys i else get_elem? ws.ingest_keys i

unfoldable pub key_index : Workspace → Text → ℕ
key_index ws key = elim (lookup_text key ws.key_index) [ none ↦ 0 | some id ↦ id ]

-- `v.get(i).copied().unwrap_or(0) != 0`
unfoldable pub flag_at : List ℕ → ℕ → Bool
flag_at flags i = elim (get_elem? flags i) [ none ↦ false | some f ↦ not (f == 0) ]

unfoldable pub catalog_has_row : Workspace → ℕ → Bool
unfolding flag_at
catalog_has_row ws i = flag_at ws.catalog_row i

unfoldable pub row_has_transition_paths : Workspace → ℕ → Bool
unfolding flag_at
row_has_transition_paths ws i = flag_at ws.has_transition_paths_row i

unfoldable pub parent_ref_for_row : Workspace → ℕ → Option ℕ
parent_ref_for_row ws child_row_id = lookup child_row_id ws.parent_by_row

-- `database_names.get(db_id).unwrap_or_else(empty_str)`
unfoldable pub database_name : Workspace → ℕ → Text
database_name ws db_id = elim (get_elem? ws.database_names db_id) [ none ↦ [] | some d ↦ d ]

-- `split('/').nth(index).unwrap_or("")`
unfoldable pub key_part : Text → ℕ → Text
key_part key index = elim (get_elem? (split b'/' key) index) [ none ↦ [] | some p ↦ p ]

-- Setting the flag makes it read back, and changes no other flag.
pub set_db_exists_lem :
    (b : Bool) (e : ObjectEntry)
    → (db_exists (set_db_exists b e) ≡ b) × ((set_db_exists b e).flags / 2 ≡ e.flags / 2)
unfolding db_exists set_db_exists
set_db_exists_lem b e = ground arith
