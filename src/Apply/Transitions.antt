-- ===== src/Apply/Transitions.antt =====
-- crates/core/src/apply/transitions.rs: the pending transition scripts of the changed tables.
use mssql_migrator.Prelude.{
  Bool, not, ◌||◌, none, some, List, [], ◌∷◌, ◌++◌, ltb, if◌then◌else◌, is_empty, Text, codes,
}
use mssql_migrator.Domain.Action.{reprocess_changed, eq_action}
use mssql_migrator.Domain.Paths.{path_lookup_candidates}
use mssql_migrator.Domain.Layout.{Layout, Script, find_candidate}
use mssql_migrator.Export.PlanJson.{PlannedObject}
use mssql_migrator.Apply.Conn.{HistoryRecord, World, Run, push_error, record_event}
use mssql_migrator.Apply.Tx.{apply_in_tx}
use mssql_migrator.Apply.Script.{body, refused, verified_body, checksum_or, object_record, counted}

-- The script's own row, and with the last script the table's new baseline.
unfoldable pub transition_records : PlannedObject → Text → Script → Bool → List HistoryRecord
transition_records obj path script is_last =
    record_event path (checksum_or obj.checksum script.checksum) script.git_hash script.git_author
      script.git_date (codes "migration") (codes "applied")
    ∷ (if is_last then object_record (codes "applied") obj ∷ [] else [])

module _ (world : World) (layout : Layout) (obj : PlannedObject) where
  unfoldable pub run_transition : Text → Bool → Script → Run → Run
  run_transition path is_last script st =
      elim (verified_body world st.log script.abs_path (checksum_or obj.checksum script.checksum)
        path) [
          | refused msg ↦ push_error msg st
          | body text ↦
              counted (apply_in_tx world text (transition_records obj path script is_last) path st)
        ]

  unfoldable pub apply_one_transition : Text → Bool → Run → Run
  apply_one_transition path is_last st =
      elim (find_candidate layout (path_lookup_candidates obj.database_name path)) [
        | none ↦ push_error (path ++ codes ": transition script not found") st
        | some script ↦ run_transition path is_last script st
      ]

  -- The scripts of one object; a failure ends the run.
  unfoldable pub apply_paths : List Text → Run → Run
  apply_paths [] st = st
  apply_paths (path ∷ r) st =
      let st' = apply_one_transition path (is_empty r) st in
      let rest = apply_paths r st' in if ltb 0 st'.result.failed then st' else rest

-- The loop over the objects.
unfoldable pub apply_transitions : World → Layout → List PlannedObject → Run → Run
apply_transitions world layout [] st = st
apply_transitions world layout (obj ∷ r) st =
    if not (eq_action obj.planned_action reprocess_changed) || is_empty obj.transition_paths
    then apply_transitions world layout r st
    else (let st' = apply_paths world layout obj obj.transition_paths st in
        let rest = apply_transitions world layout r st' in
        if ltb 0 st'.result.failed then st' else rest)
