-- ===== src/Domain/Store.antt =====
-- The finalized layout: crates/core/src/domain/store.rs, and the columns that
-- workspace/objects/layout.rs (apply_finalized_entries), workspace/cold.rs and workspace/catalog.rs
-- write. The fingerprint of a key is an argument; a map's newest entry comes first.
pub mod Sorted
pub mod Indexed
pub mod Found
use Prim.Native.Nat.{Ordering}
use Prim.Native.Nat.Ordering.{lt, eq, gt}
use mssql_migrator.Prelude.{
  ℕ, zero, suc, ◌+◌, ◌-◌, ◌*◌, ◌/◌, ◌%◌, ◌^◌, ◌≤◌, ◌<◌, ◌≡◌, refl, sym, ap, ◌∙◌, ◌≢◌, ◌↔◌, ◌⊎◌, inl,
  inr, Bool, true, false, not, ◌&&◌, ◌||◌, Option, none, some, List, [], ◌∷◌, ◌++◌, map, reverse,
  arith, String, ltb, leb, ◌==◌, if◌then◌else◌, ==_iff, ==_refl, Bool-cases, Option-cases, length,
  get_elem?, set, replicate, resize, is_empty, is_empty_iff, all, any, length-append, length-set,
  length-resize, get_elem?-set_self, get_elem?-some, get_elem?-set_ne, get_elem?-lt, All,
  length-map, length_pos, lookup, without, insert, lookup-without, lookup-insert, Text, codes,
  eq_text, starts_with, strip_prefix, ends_with, contains, split, push_front, join, split_once,
  replace, lookup_text, mem_text, mem_text-all, show, eq_text_iff, eq_text_refl, contains-append,
  contains-starts_with, join-split, starts_with-append, split-ne-nil,
}
use mssql_migrator.Domain.Kind.{kind_code}
use mssql_migrator.Domain.Workspace.{
  Workspace, ObjectEntry, ObjectRow, u32_mod, key_part, set_db_exists,
}
use mssql_migrator.Apply.Order.{compare_text}

unfoldable pub text_le : Text → Text → Bool
text_le s t = elim (compare_text s t) [ gt ↦ false | _ ↦ true ]

-- The standard library's stable sort by key, as an insertion sort.
unfoldable pub insert_pair :
    Text × ObjectEntry → List (Text × ObjectEntry) → List (Text × ObjectEntry)
unfolding text_le
insert_pair a [] = a ∷ []
insert_pair a (b ∷ r) = if text_le a.0 b.0 then a ∷ b ∷ r else b ∷ insert_pair a r

unfoldable pub sort_pairs : List (Text × ObjectEntry) → List (Text × ObjectEntry)
unfolding insert_pair
sort_pairs [] = []
sort_pairs (a ∷ r) = insert_pair a (sort_pairs r)

unfoldable pub zip : List Text → List ObjectEntry → List (Text × ObjectEntry)
zip [] es = []
zip (k ∷ ks) [] = []
zip (k ∷ ks) (e ∷ es) = (k, e) ∷ zip ks es

-- What the loop has so far.
pub record Layout : Type 0 where
  pub schema_ids : List (Text × ℕ)
  pub rows : List ObjectRow
  pub key_index : List (Text × ℕ)
  pub fp_index : List (ℕ × ℕ)

-- The id of a schema, which is new if the schema is; `0` stands for no schema.
unfoldable pub schema_id_of : Text → List (Text × ℕ) → ℕ × List (Text × ℕ)
schema_id_of schema ids = if is_empty schema then (0, ids) else elim (lookup_text schema ids) [
  | some id ↦ (id, ids)
  | none ↦ ((length ids + 1) % 65536, (schema, (length ids + 1) % 65536) ∷ ids)
]

-- One round, for the key of the row with index `i`.
unfoldable pub lay_out_key : (Text → ℕ) → ℕ → Text → Layout → Layout
unfolding schema_id_of
lay_out_key fingerprint i key l = record {
  schema_ids = (schema_id_of (key_part key 0) l.schema_ids).1;
  rows =
      l.rows
      ++ (record {
        schema_id = (schema_id_of (key_part key 0) l.schema_ids).0;
        kind_code = kind_code (key_part key 1);
      }
          ∷ []);
  key_index = (key, (i + 1) % u32_mod) ∷ l.key_index;
  fp_index = (fingerprint key, (i + 1) % u32_mod) ∷ l.fp_index;
}

unfoldable pub lay_out : (Text → ℕ) → ℕ → List Text → Layout → Layout
unfolding lay_out_key
lay_out fingerprint i [] l = l
lay_out fingerprint i (key ∷ keys) l =
    lay_out fingerprint (suc i) keys (lay_out_key fingerprint i key l)

abbrev pub empty_layout : Layout
empty_layout = record { schema_ids = []; rows = []; key_index = []; fp_index = [] }

pub record FinalizeSortedResult : Type 0 where
  pub layout : Layout
  pub entries : List ObjectEntry
  pub keys : List Text

-- The columns of sorted pairs.
unfoldable pub columns_of : (Text → ℕ) → List (Text × ObjectEntry) → FinalizeSortedResult
unfolding lay_out
columns_of fingerprint pairs = record {
  layout = lay_out fingerprint 0 (map (λ p. p.0) pairs) empty_layout;
  entries = map (λ p. p.1) pairs;
  keys = map (λ p. p.0) pairs;
}

-- `none` where the assertion on the lengths fails.
unfoldable pub finalize_sorted_entries :
    (Text → ℕ) → List ObjectEntry → List Text → Option FinalizeSortedResult
unfolding columns_of zip sort_pairs
finalize_sorted_entries fingerprint entries keys =
    if length entries == length keys
    then some (columns_of fingerprint (sort_pairs (zip keys entries)))
    else none

-- The columns that `apply_finalized_entries` writes first; the workspace here has no `fp_index`.
unfoldable pub set_columns : FinalizeSortedResult → Workspace → Workspace
set_columns f ws = record ws {
  object_rows = f.layout.rows;
  key_index = f.layout.key_index;
  object_entries = f.entries;
  object_keys = f.keys;
}

unfoldable pub clear_object_staging : Workspace → Workspace
clear_object_staging ws = record ws { ingest_keys = []; ingest_key_index = [] }

-- Clears the two lowest flags.
unfoldable pub invalidate_catalog_facts : Workspace → Workspace
invalidate_catalog_facts ws = record ws {
  catalog_flags = ws.catalog_flags - ws.catalog_flags % 4;
  parent_by_row = [];
  prior_by_row = [];
  catalog_row = [];
  object_entries = map (set_db_exists false) ws.object_entries;
}
