-- ===== src/Apply/Execute.antt =====
-- crates/core/src/apply/mod.rs and metadata.rs: the whole run. The plan's objects are materialized.
-- The process-local audit cache and the on-disk cache, which the epilogue drops, are not modelled.
pub mod Complete
pub mod Classified
pub mod Phases
pub mod Metadata
use mssql_migrator.Prelude.{
  ℕ, zero, suc, ◌+◌, ◌-◌, ◌*◌, ◌/◌, ◌%◌, ◌^◌, ◌≤◌, ◌<◌, ◌≡◌, refl, sym, ap, ◌∙◌, ◌≢◌, ◌↔◌, ◌⊎◌, inl,
  inr, Bool, true, false, not, ◌&&◌, ◌||◌, Option, none, some, List, [], ◌∷◌, ◌++◌, map, reverse,
  arith, String, ltb, leb, ◌==◌, if◌then◌else◌, ==_iff, ==_refl, Bool-cases, Option-cases, length,
  get_elem?, set, replicate, resize, is_empty, is_empty_iff, all, any, length-append, length-set,
  length-resize, get_elem?-set_self, get_elem?-some, get_elem?-set_ne, get_elem?-lt, All,
  length-map, lookup, without, insert, lookup-without, lookup-insert, Text, codes, eq_text,
  starts_with, strip_prefix, ends_with, contains, split, push_front, join, split_once, replace,
  lookup_text, mem_text, mem_text-all, show, eq_text_iff, eq_text_refl, contains-append,
  contains-starts_with, join-split, starts_with-append, split-ne-nil,
}
use mssql_migrator.Error.{Error, plan_blocked, sql, Result, ok, err}
use mssql_migrator.Domain.Action.{
  Action, create_object, adopt_existing, skip_unchanged, update_existing_module, reprocess_changed,
  reprocess_changed_blocked, fail,
}
use mssql_migrator.Domain.Layout.{Layout}
use mssql_migrator.Export.PlanJson.{MigrationPlan, PlannedObject}
use mssql_migrator.Apply.Conn.{
  HistoryRecord, Stmt, bootstrap_tables, bootstrap_drift, bootstrap_index, cache_invalidate, Log,
  World, ApplyResult, empty_result, Run, count_skipped,
}
use mssql_migrator.Apply.Tx.{commit_history}
use mssql_migrator.Apply.Script.{object_record}
use mssql_migrator.Apply.Schemas.{apply_schemas}
use mssql_migrator.Apply.Transitions.{apply_transitions}
use mssql_migrator.Apply.Objects.{apply_objects}

-- `errors.join("; ")`
unfoldable pub join_errors : List Text → Text
join_errors [] = []
join_errors (m ∷ []) = m
join_errors (m ∷ n ∷ r) = m ++ (codes "; " ++ join_errors (n ∷ r))

-- What a command gives back: the connection's log and the result or error.
abbrev pub Outcome : Type 0
Outcome = Log × Result ApplyResult

-- `ensure_tables` and `ensure_history_index`
abbrev pub bootstraps : List Stmt
bootstraps = bootstrap_tables ∷ bootstrap_drift ∷ bootstrap_index ∷ []

module _ (world : World) (catalog_cache : Bool) where
  -- A failed cache invalidation is only a warning.
  unfoldable pub finish : Run → Outcome
  finish st =
      let log =
        if ltb 0 st.result.applied && catalog_cache
        then (cache_invalidate, world.reply st.log cache_invalidate) ∷ st.log
        else st.log in
      (
        log,
        if ltb 0 st.result.failed then err (sql (join_errors st.result.errors)) else ok st.result,
      )

  unfoldable pub finish_run : Option Run → Option Outcome
  unfolding finish
  finish_run none = none
  finish_run (some st) = some (finish st)

  -- Sends the bootstrap statements; the first failure is the command's error.
  unfoldable pub bootstrap : List Stmt → Log → Log × Option Error
  bootstrap [] log = (log, none)
  bootstrap (q ∷ r) log =
      let answer = world.reply log q in
      let rest = bootstrap r ((q, answer) ∷ log) in
      elim answer [ none ↦ rest | some e ↦ ((q, some e) ∷ log, some (sql e)) ]

  -- Schemas, then transitions, then objects; a failed phase goes straight to the epilogue.
  unfoldable pub run_phases : Layout → MigrationPlan → Run → Option Run
  run_phases layout plan st =
      let s1 = apply_schemas world plan.schemas st in
      let s2 = apply_transitions world layout plan.objects s1 in
      let s3 = apply_objects world layout plan.objects s2 in
      if ltb 0 s1.result.failed then some s1 else if ltb 0 s2.result.failed then some s2 else s3

  unfoldable pub execute_plan : Layout → MigrationPlan → Log → Option Outcome
  unfolding finish_run run_phases bootstrap
  execute_plan layout plan log =
      let (log', failure) = bootstrap bootstraps log in
      let run =
        finish_run (run_phases layout plan (record { log = log'; result = empty_result })) in
      if plan.blocked
      then some (log, err plan_blocked)
      else elim failure [ none ↦ run | some e ↦ some (log', err e) ]

-- Which audit-metadata command runs.
pub data MetadataMode : Type 0 where
  baseline repair_checksum : MetadataMode

unfoldable pub is_repair : MetadataMode → Bool
is_repair baseline = false
is_repair repair_checksum = true

-- The actions whose checksum a repair records again.
unfoldable pub is_repairable : Action → Bool
is_repairable update_existing_module = true
is_repairable reprocess_changed = true
is_repairable reprocess_changed_blocked = true
is_repairable fail = true
is_repairable _ = false

unfoldable pub is_adopted : Action → Bool
is_adopted adopt_existing = true
is_adopted _ = false

unfoldable pub metadata_records : MetadataMode → List PlannedObject → List HistoryRecord
metadata_records mode [] = []
metadata_records mode (obj ∷ r) =
    let rest = metadata_records mode r in
    if is_adopted obj.planned_action
    then object_record (codes "adopted") obj ∷ rest
    else if is_repair mode && is_repairable obj.planned_action
    then object_record (codes "applied") obj ∷ rest
    else rest

unfoldable pub skip_all : List PlannedObject → Run → Run
skip_all [] st = st
skip_all (obj ∷ r) st = skip_all r (count_skipped st)

-- `baseline` and `repair-checksum`: audit rows only.
unfoldable pub execute_metadata_plan : World → Bool → MigrationPlan → MetadataMode → Log → Outcome
unfolding finish bootstrap metadata_records skip_all
execute_metadata_plan world catalog_cache plan mode log =
    let (log', failure) = bootstrap world catalog_cache bootstraps log in
    let st = skip_all plan.objects (record { log = log'; result = empty_result }) in
    let run =
      finish world catalog_cache (commit_history world (metadata_records mode plan.objects) st).0 in
    if plan.blocked && not (is_repair mode)
    then (log, err plan_blocked)
    else elim failure [ none ↦ run | some e ↦ (log', err e) ]
