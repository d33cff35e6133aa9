-- ===== src/Apply/Objects.antt =====
-- crates/core/src/apply/objects.rs: adoption, the transactional batch and the module batch.
use mssql_migrator.Prelude.{
  Bool, true, false, not, ◌&&◌, Option, some, List, [], ◌∷◌, ◌++◌, ltb, if◌then◌else◌, is_empty,
  codes, eq_text,
}
use mssql_migrator.Domain.Kind.{is_transactional_kind}
use mssql_migrator.Domain.Action.{
  Action, create_object, adopt_existing, skip_unchanged, update_existing_module, reprocess_changed,
  reprocess_changed_blocked, eq_action,
}
use mssql_migrator.Domain.Layout.{Layout}
use mssql_migrator.Export.PlanJson.{PlannedObject}
use mssql_migrator.Apply.Conn.{HistoryRecord, World, Run, push_error, count_skipped}
use mssql_migrator.Apply.Tx.{commit_history}
use mssql_migrator.Apply.Script.{object_record, exec_object}
use mssql_migrator.Apply.Order.{sort_tx_batch}
use mssql_migrator.Apply.Modules.{apply_modules}

unfoldable pub should_apply : Action → Bool
should_apply create_object = true
should_apply update_existing_module = true
should_apply _ = false

unfoldable pub should_count_skip : Action → Bool
should_count_skip skip_unchanged = true
should_count_skip reprocess_changed = true
should_count_skip reprocess_changed_blocked = true
should_count_skip _ = false

-- A changed object with no transition mechanism.
unfoldable pub is_unappliable : PlannedObject → Bool
is_unappliable obj =
    eq_action obj.planned_action reprocess_changed
    && is_empty obj.transition_paths
    && not (eq_text obj.kind (codes "tables"))

-- The loop's end: it returned early, or it filled the batches.
pub data Classified : Type 0 where
  stopped : Run → Classified
  batches : Run → List PlannedObject → List PlannedObject → List HistoryRecord → Classified

unfoldable pub classify :
    List PlannedObject
    → Run
    → List PlannedObject
    → List PlannedObject
    → List HistoryRecord
    → Classified
classify [] st tx modules adopted = batches st tx modules adopted
classify (obj ∷ r) st tx modules adopted =
    let adopt =
      classify r (count_skipped st) tx modules
        (adopted ++ (object_record (codes "adopted") obj ∷ [])) in
    let as_tx = classify r st (tx ++ (obj ∷ [])) modules adopted in
    let as_module = classify r st tx (modules ++ (obj ∷ [])) adopted in
    let skip = classify r (count_skipped st) tx modules adopted in
    let ignore = classify r st tx modules adopted in
    if eq_action obj.planned_action adopt_existing
    then adopt
    else if is_unappliable obj
    then stopped (
        push_error
          (obj.normalized_key
            ++ codes ": changed object cannot be auto-applied (no transition script)")
          st)
    else if should_apply obj.planned_action
    then (if is_transactional_kind obj.kind then as_tx else as_module)
    else if should_count_skip obj.planned_action
    then skip
    else ignore

module _ (world : World) (layout : Layout) where
  unfoldable pub flush_loop : List PlannedObject → Run → Run
  flush_loop [] st = st
  flush_loop (obj ∷ r) st =
      let st' = exec_object world layout obj st in
      let rest = flush_loop r st' in if ltb 0 st'.result.failed then st' else rest

  unfoldable pub flush_tx : List PlannedObject → Run → Run
  unfolding flush_loop
  flush_tx tx st = if is_empty tx then st else flush_loop (sort_tx_batch tx) st

  -- Behind the adoption records: the transactional batch, then the modules.
  unfoldable pub run_batches : List PlannedObject → List PlannedObject → Run → Option Run
  unfolding flush_tx
  run_batches tx modules st =
      let st' = flush_tx tx st in
      let rest = apply_modules world layout (sort_tx_batch modules) st' in
      if ltb 0 st'.result.failed then some st' else rest

  unfoldable pub run_classified : Classified → Option Run
  run_classified (stopped st) = some st
  run_classified (batches st tx modules adopted) =
      let (st', written) = commit_history world adopted st in
      let rest = run_batches tx modules st' in if written then rest else some st'

  unfoldable pub apply_objects : List PlannedObject → Run → Option Run
  unfolding run_classified
  apply_objects objects st = run_classified (classify objects st [] [] [])
