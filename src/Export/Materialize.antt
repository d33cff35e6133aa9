-- ===== src/Export/Materialize.antt =====
-- The objects of a plan from its rows: crates/core/src/export/materialize/object.rs and wire.rs,
-- plan_side.rs, and the workspace reads behind them (domain/workspace/views/paths.rs,
-- object/parent.rs, object/access.rs, script_resolve). A panicking read is `none`.
pub mod Mirrors
use mssql_migrator.Prelude.{
  ℕ, zero, suc, ◌+◌, ◌-◌, ◌*◌, ◌/◌, ◌%◌, ◌^◌, ◌≤◌, ◌<◌, ◌≡◌, refl, sym, ap, ◌∙◌, ◌≢◌, ◌↔◌, ◌⊎◌, inl,
  inr, Bool, true, false, not, ◌&&◌, ◌||◌, Option, none, some, List, [], ◌∷◌, ◌++◌, map, reverse,
  arith, String, ltb, leb, ◌==◌, if◌then◌else◌, ==_iff, ==_refl, Bool-cases, Option-cases, length,
  get_elem?, set, replicate, resize, is_empty, is_empty_iff, all, any, length-append, length-set,
  length-resize, get_elem?-set_self, get_elem?-some, get_elem?-set_ne, get_elem?-lt, All,
  length-map, lookup, without, insert, lookup-without, lookup-insert, Text, codes, eq_text,
  starts_with, strip_prefix, ends_with, contains, split, push_front, join, split_once, replace,
  lookup_text, mem_text, mem_text-all, show, eq_text_iff, eq_text_refl, contains-append,
  contains-starts_with, join-split, starts_with-append, split-ne-nil,
}
use mssql_migrator.Domain.Workspace.{
  Workspace, ObjectEntry, StrOff, u32_mod, row_id_at, entry, entry_key, parent_ref_for_row,
  key_part, database_name,
}
use mssql_migrator.Domain.Paths.{with_database_prefix}
use mssql_migrator.Domain.Layout.{Layout, Script, str_at}
use mssql_migrator.Export.PlanRow
use mssql_migrator.Export.PlanRow.{PlanRow, PlanGitOff}
use mssql_migrator.Export.PlanJson.{MigrationPlan, PlannedObject, PlannedGit}
use mssql_migrator.Plan.Diff.{◌>>=◌}

unfoldable pub materialize_planned_git : Layout → PlanGitOff → PlannedGit
materialize_planned_git layout off = record {
  hash = str_at layout off.hash_off;
  author = str_at layout off.author_off;
  date = str_at layout off.date_off;
}

unfoldable pub materialize_transition_paths : Layout → List StrOff → List Text
materialize_transition_paths layout offs = map (str_at layout) offs

-- `ws.script(script_id)`; the ids start at 1.
unfoldable pub script_at : Layout → ℕ → Option Script
script_at layout script_id =
    if script_id == 0 then none else get_elem? layout.scripts (script_id - 1)

-- `object_path_cache.as_ref()?.get(i)`
unfoldable pub cached_path : Workspace → ℕ → Option StrOff
cached_path ws i = elim ws.object_path_cache [ none ↦ none | some paths ↦ get_elem? paths i ]

unfoldable pub object_path_at : Layout → ℕ → Option Text
unfolding cached_path script_at
object_path_at layout i = elim (cached_path layout.ws i) [
  | some p ↦ some (str_at layout p)
  | none ↦ (do
    e ← entry layout.ws i
    s ← script_at layout e.script_id
    some (with_database_prefix (database_name layout.ws e.db_id) s.path))
]

unfoldable pub parent_name : Workspace → ℕ → Option Text
parent_name ws child_row_id = elim (parent_ref_for_row ws child_row_id) [
  | none ↦ some []
  | some p ↦
      if p == 0
      then some []
      else (do e ← entry ws (p - 1); key ← entry_key ws (p - 1); some (key_part key 2))
]

-- The object, its workspace reads done: the entry, its key, its path and its parent's name.
unfoldable pub planned_object :
    Layout
    → ℕ
    → PlanRow
    → List (ℕ × PlanGitOff)
    → List (ℕ × List StrOff)
    → ObjectEntry
    → Text
    → Text
    → Text
    → PlannedObject
unfolding materialize_planned_git materialize_transition_paths
planned_object layout i r plan_git plan_transitions obj key path parent = record {
  normalized_key = key;
  object_path = path;
  schema_name = key_part key 0;
  kind = key_part key 1;
  object_name = key_part key 2;
  database_name = database_name layout.ws obj.db_id;
  parent_name = parent;
  transition_paths = elim (lookup (i % u32_mod) plan_transitions) [
    | none ↦ []
    | some offs ↦ materialize_transition_paths layout offs
  ];
  git = elim (lookup (i % u32_mod) plan_git) [
    | none ↦ none
    | some off ↦ some (materialize_planned_git layout off)
  ];
  checksum = r.checksum;
  planned_action = PlanRow.planned_action r;
  exists = PlanRow.exists r;
}

unfoldable pub materialize_planned_object :
    Layout → ℕ → PlanRow → List (ℕ × PlanGitOff) → List (ℕ × List StrOff) → Option PlannedObject
unfolding object_path_at parent_name planned_object
materialize_planned_object layout i r plan_git plan_transitions = do
  obj ← entry layout.ws i
  key ← entry_key layout.ws i
  path ← object_path_at layout i
  parent ← parent_name layout.ws (row_id_at i)
  some (planned_object layout i r plan_git plan_transitions obj key path parent)

-- The loop over the rows, from row `i` on.
unfoldable pub materialize_from :
    Layout
    → List (ℕ × PlanGitOff)
    → List (ℕ × List StrOff)
    → ℕ
    → List PlanRow
    → Option (List PlannedObject)
unfolding materialize_planned_object
materialize_from layout git transitions i [] = some []
materialize_from layout git transitions i (r ∷ rs) = do
  obj ← materialize_planned_object layout i r git transitions
  rest ← materialize_from layout git transitions (suc i) rs
  some (obj ∷ rest)

unfoldable pub ensure_objects_materialized : Layout → MigrationPlan → Option MigrationPlan
unfolding materialize_from
ensure_objects_materialized layout plan =
    if is_empty plan.rows
    then some plan
    else if length plan.objects == length plan.rows
    then some plan
    else (do
      objects ← materialize_from layout plan.plan_git plan.plan_transitions 0 plan.rows
      some (record plan { objects = objects }))

unfoldable pub uses_slim_rows : MigrationPlan → Bool
uses_slim_rows plan = not (is_empty plan.rows)

-- The objects that `WireMigrationPlan::new` writes to JSON.
unfoldable pub wire_objects : Layout → MigrationPlan → Option (List PlannedObject)
unfolding materialize_from
wire_objects layout plan =
    if is_empty plan.rows
    then some plan.objects
    else materialize_from layout plan.plan_git plan.plan_transitions 0 plan.rows
