-- ===== src/Plan/Prepare.antt =====
-- The workspace before the diff: crates/core/src/plan/scope.rs (apply_catalog, apply_checksums) and
-- domain/workspace/catalog.rs. A panicking read is `none`.
pub mod Aligned
pub mod Kept
pub mod Total
use mssql_migrator.Prelude.{
  ℕ, zero, suc, ◌+◌, ◌-◌, ◌*◌, ◌/◌, ◌%◌, ◌^◌, ◌≤◌, ◌<◌, ◌≡◌, refl, sym, ap, ◌∙◌, ◌≢◌, ◌↔◌, ◌⊎◌, inl,
  inr, Bool, true, false, not, ◌&&◌, ◌||◌, Option, none, some, List, [], ◌∷◌, ◌++◌, map, reverse,
  arith, String, ltb, leb, ◌==◌, if◌then◌else◌, ==_iff, ==_refl, Bool-cases, Option-cases, length,
  get_elem?, set, replicate, resize, is_empty, is_empty_iff, all, any, length-append, length-set,
  length-resize, get_elem?-set_self, get_elem?-some, get_elem?-set_ne, get_elem?-lt, All,
  length-map, length_pos, lookup, without, insert, lookup-without, lookup-insert, Text, codes,
  eq_text, starts_with, strip_prefix, ends_with, contains, split, push_front, join, split_once,
  replace, lookup_text, mem_text, mem_text-all, show, eq_text_iff, eq_text_refl, contains-append,
  contains-starts_with, join-split, starts_with-append, split-ne-nil,
}
use mssql_migrator.Domain.Workspace.{
  Workspace, ObjectEntry, Digest, object_count, row_id_at, entry, entry_key, key_index, key_part,
  set_db_exists,
}
use mssql_migrator.Domain.PathCache.{Scanned, ensure_path_caches}
use mssql_migrator.Domain.Paths.{object_key}
use mssql_migrator.Export.PlanJson.{MigrationPlan}
use mssql_migrator.Plan.Diff.{ChecksumMap, ◌>>=◌, compute_diff_into}

-- db/state.rs: the live schemas, and the live objects with the parent of each, if it has one.
pub record CatalogState : Type 0 where
  pub schemas : List Text
  pub objects : List (Text × Option Text)

-- `CATALOG_APPLIED` is the lowest bit, `CHECKSUMS_APPLIED` the next.
unfoldable pub catalog_applied : Workspace → Bool
catalog_applied ws = ws.catalog_flags % 2 == 1

unfoldable pub mark_catalog_applied : Workspace → Workspace
unfolding catalog_applied
mark_catalog_applied ws = record ws {
  catalog_flags = if catalog_applied ws then ws.catalog_flags else ws.catalog_flags + 1;
}

unfoldable pub checksums_applied : Workspace → Bool
checksums_applied ws = ws.catalog_flags / 2 % 2 == 1

unfoldable pub mark_checksums_applied : Workspace → Workspace
unfolding checksums_applied
mark_checksums_applied ws = record ws {
  catalog_flags = if checksums_applied ws then ws.catalog_flags else ws.catalog_flags + 2;
}

-- `ChecksumMap::get_key`
unfoldable pub get_key : ChecksumMap → Text → Option Digest
get_key cs key = lookup (cs.fingerprint key) cs.by_fp

-- One round of the loop over the objects.
unfoldable pub apply_prior : ChecksumMap → ℕ → Workspace → Option Workspace
unfolding get_key
apply_prior cs i ws = do
  key ← entry_key ws i
  some (elim (get_key cs key) [
    | none ↦ ws
    | some digest ↦ record ws { prior_by_row = set ws.prior_by_row i (some digest) }
  ])

unfoldable pub apply_priors : ChecksumMap → ℕ → ℕ → Workspace → Option Workspace
unfolding apply_prior
apply_priors cs zero i ws = some ws
apply_priors cs (suc k) i ws = do ws' ← apply_prior cs i ws; apply_priors cs k (suc i) ws'

unfoldable pub apply_checksums_if_needed : ChecksumMap → Workspace → Option Workspace
unfolding apply_priors checksums_applied mark_checksums_applied
apply_checksums_if_needed cs ws = if checksums_applied ws then some ws else (do
  ws' ←
      apply_priors cs (object_count ws) 0
        (record ws { prior_by_row = resize ws.prior_by_row (object_count ws) none })
  some (mark_checksums_applied ws'))

-- Whether the key's fingerprint is that of a live object.
unfoldable pub in_catalog : ChecksumMap → CatalogState → Text → Bool
in_catalog cs catalog key = any (λ o. cs.fingerprint o.0 == cs.fingerprint key) catalog.objects

-- The parent that the catalog records for an object, if any.
unfoldable pub catalog_parent : CatalogState → Text → Option Text
catalog_parent catalog key = elim (lookup_text key catalog.objects) [ none ↦ none | some p ↦ p ]

unfoldable pub record_parent : (Text → Text) → CatalogState → Text → ℕ → Workspace → Workspace
unfolding catalog_parent
record_parent lower catalog key i ws = elim (catalog_parent catalog key) [
  | none ↦ ws
  | some parent ↦ record ws {
    parent_by_row =
        insert (row_id_at i)
          (key_index ws (object_key lower (key_part key 0) (codes "tables") parent))
          ws.parent_by_row;
  }
]

unfoldable pub mark_live : Bool → ℕ → ObjectEntry → Workspace → Workspace
mark_live live i e ws = record ws {
  object_entries = set ws.object_entries i (set_db_exists live e);
  catalog_row = if live then set ws.catalog_row i 1 else ws.catalog_row;
}

unfoldable pub apply_catalog_row :
    (Text → Text) → ChecksumMap → CatalogState → ℕ → Workspace → Option Workspace
unfolding in_catalog record_parent mark_live
apply_catalog_row lower cs catalog i ws = do
  key ← entry_key ws i
  e ← entry ws i
  some (record_parent lower catalog key i (mark_live (in_catalog cs catalog key) i e ws))

unfoldable pub apply_catalog_rows :
    (Text → Text) → ChecksumMap → CatalogState → ℕ → ℕ → Workspace → Option Workspace
unfolding apply_catalog_row
apply_catalog_rows lower cs catalog zero i ws = some ws
apply_catalog_rows lower cs catalog (suc k) i ws = do
  ws' ← apply_catalog_row lower cs catalog i ws
  apply_catalog_rows lower cs catalog k (suc i) ws'

unfoldable pub apply_catalog_if_needed :
    (Text → Text) → ChecksumMap → CatalogState → Workspace → Option Workspace
unfolding apply_catalog_rows catalog_applied mark_catalog_applied
apply_catalog_if_needed lower cs catalog ws = if catalog_applied ws then some ws else (do
  ws' ←
      apply_catalog_rows lower cs catalog (object_count ws) 0
        (record ws { catalog_row = resize ws.catalog_row (object_count ws) 0 })
  some (mark_catalog_applied ws'))

unfoldable pub at_workspace : Scanned → Workspace → Scanned
at_workspace s ws = record s { layout = record s.layout { ws = ws } }

-- `compute_diff_into` from the catalog on: the workspace is changed too.
unfoldable pub prepare_and_diff :
    (Text → Text)
    → ChecksumMap
    → CatalogState
    → Scanned
    → MigrationPlan
    → Option (Workspace × MigrationPlan)
unfolding apply_catalog_if_needed apply_checksums_if_needed at_workspace
prepare_and_diff lower cs catalog s plan = do
  ws1 ← apply_catalog_if_needed lower cs catalog s.layout.ws
  ws2 ← apply_checksums_if_needed cs ws1
  ws3 ← ensure_path_caches (at_workspace s ws2)
  p ← compute_diff_into ws3 catalog.schemas cs plan
  some (ws3, p)
