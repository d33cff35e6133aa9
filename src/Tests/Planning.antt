-- ===== src/Tests/Planning.antt =====
-- The planner at a concrete workspace.
use mssql_migrator.Prelude.{
  ◌+◌, ◌<◌, ◌≡◌, refl, ◌≢◌, ◌↔◌, true, false, none, some, [], ◌∷◌, arith, length, get_elem?, codes,
  eq_text, mem_text,
}
use mssql_migrator.Domain.Kind.{kind_tables}
use mssql_migrator.Domain.Action.{
  as_repr, eq_action, from_repr, reprocess_changed, reprocess_changed_blocked, fail,
}
use mssql_migrator.Domain.Workspace.{
  Workspace, key_index, zero_digest, parent_ref_for_row, object_count, entry, row, row_id_at,
  entry_key, db_exists, row_has_transition_paths, flag_at,
}
use mssql_migrator.Prelude.{◌⊎◌}
use mssql_migrator.Domain.Kind.{kind_tables}
use mssql_migrator.Domain.Workspace.{ObjectRow}
use mssql_migrator.Export.PlanRow
use mssql_migrator.Export.PlanJson.{MigrationPlan, default_plan}
use mssql_migrator.Plan.Scenario
use mssql_migrator.Plan.Resolve.{IsAudited, skip_iff, reprocess_iff}
use mssql_migrator.Plan.Diff.{
  diff_objects, diff_object, decide_object_at, scenario_at, apply_scenario, blocker_message,
  has_live_definition_drift, decided, start_state, fill_plan_row, count_scenario, decision_of,
  filled_row, plan_schemas, put_or_remove, skip_fill_unchanged, summary_of, transitions_of,
  compute_diff_into,
}
use mssql_migrator.Plan.Diff.Totals.{compute_diff_totals}
use mssql_migrator.Plan.Diff.Rows.{RowAt, compute_diff_rows, unblocked_plan_executable}
use mssql_migrator.Plan.Diff.Total.{IsAligned, compute_diff_total}
use mssql_migrator.Plan.Prepare.{CatalogState}
use mssql_migrator.Domain.PathCache.{Scanned}
use mssql_migrator.Tests.Data.{altered_layout}
use mssql_migrator.Tests.Data.{workspace, checksums, unchanged}

skip_example : (Scenario.resolve_plan_scenario unchanged ≡ Scenario.skip) ↔ (
    (unchanged.exists ≡ true)
    × (unchanged.prior ≡ some unchanged.checksum)
    × (unchanged.checksum ≢ zero_digest)
    × (unchanged.live_definition_drift ≡ false))
skip_example = skip_iff unchanged

reprocess_example :
    (Scenario.action (Scenario.resolve_plan_scenario unchanged) ≡ reprocess_changed) ↔ (
      (unchanged.exists ≡ true)
      × IsAudited unchanged.prior
      × (unchanged.prior ≢ some unchanged.checksum)
      × (unchanged.live_definition_drift ≡ false)
      × (unchanged.kind_code ≡ kind_tables)
      × (unchanged.has_transition_paths ≡ true))
reprocess_example = reprocess_iff unchanged

pub workspace-IsAligned : IsAligned workspace
unfolding object_count parent_ref_for_row
workspace-IsAligned = record {
  rows = refl;
  keys = refl;
  priors = refl;
  fits = omega arith;
  parents = λ id p h. ground arith;
}

compute_diff_total_example :
    (result : MigrationPlan) × (compute_diff_into workspace [] checksums default_plan ≡ some result)
compute_diff_total_example =
    compute_diff_total workspace workspace-IsAligned [] checksums default_plan

abbrev computed :
    (result : MigrationPlan) × (compute_diff_into workspace [] checksums default_plan ≡ some result)
computed = compute_diff_total workspace workspace-IsAligned [] checksums default_plan

compute_diff_totals_example :
    (computed.0.summary.create_count + computed.0.summary.adopt_count
        + computed.0.summary.skip_count + computed.0.summary.changed_count
      ≡ object_count workspace)
    × (length computed.0.blockers ≡ computed.0.summary.blocked_count)
    × ((computed.0.blocked ≡ true) ↔ (0 < computed.0.summary.blocked_count))
compute_diff_totals_example = compute_diff_totals workspace [] checksums default_plan computed.1

compute_diff_rows_example : RowAt workspace checksums computed.0 1
unfolding object_count
compute_diff_rows_example =
    compute_diff_rows workspace [] checksums default_plan computed.1 1 (omega arith)

abbrev result : MigrationPlan
result = elim (compute_diff_into workspace [] checksums default_plan) [
  | none ↦ default_plan
  | some p ↦ p
]

result-computed :
    (compute_diff_into workspace [] checksums default_plan ≡ some result) × (result.blocked ≡ false)
unfolding compute_diff_into object_count eq_text diff_objects diff_object row entry decide_object_at
    scenario_at entry_key apply_scenario blocker_message Scenario.resolve_plan_scenario db_exists
    Scenario.is_none Scenario.prior_is has_live_definition_drift decided start_state fill_plan_row
    as_repr eq_action from_repr row_id_at PlanRow.empty_plan_row PlanRow.exists
    PlanRow.plan_git_off_from_script PlanRow.planned_action PlanRow.set_exists
    PlanRow.set_planned_action count_scenario decision_of filled_row plan_schemas put_or_remove
    skip_fill_unchanged summary_of transitions_of Scenario.action Scenario.blocked_delta
    Scenario.counter_kind Scenario.with_git mem_text row_has_transition_paths flag_at
result-computed = (refl, refl)

unblocked_plan_example :
    (out : PlanRow.PlanRow) × (get_elem? result.rows 1 ≡ some out)
    × (PlanRow.planned_action out ≢ fail)
    × (PlanRow.planned_action out ≢ reprocess_changed_blocked)
    × ((PlanRow.planned_action out ≢ reprocess_changed)
        ⊎ ((meta : ObjectRow) × (row workspace 1 ≡ some meta)
            × (meta.kind_code ≡ kind_tables)
            × (row_has_transition_paths workspace 1 ≡ true)))
unfolding object_count
unblocked_plan_example =
    unblocked_plan_executable workspace [] checksums default_plan {result = result}
      result-computed.0 result-computed.1 1 (omega arith)

-- A table with a transition and a view, before the preparation.
abbrev unprepared : Scanned
unprepared = record {
  layout = record altered_layout {
    ws = record altered_layout.ws {
      catalog_flags = 0;
      key_index = [];
      parent_by_row = [];
      prior_by_row = [];
    };
  };
  transitions_by_row =
      (1, (record { ord_off = (0, 0); script_id = 1; staging_ord = some (codes "001") }) ∷ []) ∷ [];
  arena_index = some ((codes "a.sql", 0) ∷ (codes "v.sql", 5) ∷ []);
}

abbrev live : CatalogState
live = record { schemas = []; objects = (codes "dbo/tables/a", none) ∷ [] }
