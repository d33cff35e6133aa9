-- ===== src/Tests/Exporting.antt =====
-- Materialized and filtered plans at a concrete workspace.
use mssql_migrator.Prelude.{
  ℕ, zero, suc, ◌≡◌, refl, sym, ap, ◌∙◌, ◌↔◌, ◌⊎◌, true, none, some, [], ◌∷◌, arith, if◌then◌else◌,
  length, all, All, lookup, codes, eq_text, split, push_front, replace, lookup_text,
}
use mssql_migrator.Prelude.{Text}
use mssql_migrator.Domain.Kind.{kind_code}
use mssql_migrator.Domain.Workspace.{ObjectRow, row}
use mssql_migrator.Error.{ok}
use mssql_migrator.Domain.Action.{eq_action, from_repr, as_repr}
use mssql_migrator.Domain.Paths.{with_database_prefix, object_path_for_entry}
use mssql_migrator.Domain.Workspace.{
  object_count, entry, entry_key, row_id_at, parent_ref_for_row, key_part, database_name,
}
use mssql_migrator.Domain.Layout.{str_at}
use mssql_migrator.Export.PlanRow
use mssql_migrator.Export.PlanJson.{MigrationPlan, default_plan}
use mssql_migrator.Export.Materialize.{
  script_at, cached_path, object_path_at, parent_name, materialize_transition_paths, planned_object,
  materialize_planned_object, materialize_from, ensure_objects_materialized,
}
use mssql_migrator.Export.Materialize.Mirrors.{
  HasKinds, IsScripted, IsExecutable, Mirrored, computed_plan_materialized,
}
use mssql_migrator.Export.Filter.{
  Checksums, has_transitions, transition_checksums, is_transition, applied_unchanged,
  retain_pending, filter_row, filter_rows_from, needs_rows, filter_rows,
  filter_applied_migrations_on_plan,
}
use mssql_migrator.Export.Filter.Pending.{pending_in, reprocess_at, untampered, filter_plan_pending}
use mssql_migrator.Engine.Filter.{filter_applied}
use mssql_migrator.Engine.Filter.Replay.{no_replay, filter_no_replay}
use mssql_migrator.Plan.Diff.{compute_diff_into}
use mssql_migrator.Plan.Diff.Total.{IsAligned}
use mssql_migrator.Tests.Data.{
  altered_layout, altered_object, altered_plan, altered_rows, altered_view, checksums,
}

pub altered-IsAligned : IsAligned altered_layout.ws
unfolding object_count parent_ref_for_row
altered-IsAligned = record {
  rows = refl;
  keys = refl;
  priors = refl;
  fits = omega arith;
  parents = λ id p h. ground arith;
}

pub altered-IsScripted : IsScripted altered_layout
unfolding entry
altered-IsScripted zero e h = ground arith
altered-IsScripted (suc zero) e h = ground arith
altered-IsScripted (suc (suc i)) e h = absurd (ground arith)

same_some {ℓ} : {A : Type ℓ} {a b : A} → some a ≡ some b → a ≡ b
same_some h = ground arith

altered-HasKinds : HasKinds altered_layout.ws
unfolding row entry_key key_part split eq_text kind_code
altered-HasKinds = record { codes_match = by-row }
  where
    by-row :
        (i : ℕ) (meta : ObjectRow) (key : Text)
        → row altered_layout.ws i ≡ some meta
        → entry_key altered_layout.ws i ≡ some key
        → meta.kind_code ≡ kind_code (key_part key 1)
    by-row zero meta key m k =
        ap (λ (r : ObjectRow). r.kind_code) (sym (same_some m))
        ∙ ap (λ (t : Text). kind_code (key_part t 1)) (same_some k)
    by-row (suc zero) meta key m k =
        ap (λ (r : ObjectRow). r.kind_code) (sym (same_some m))
        ∙ ap (λ (t : Text). kind_code (key_part t 1)) (same_some k)
    by-row (suc (suc i)) meta key m k = absurd (ground arith)

computed_plan_materialized_example :
    (p : MigrationPlan) × (p' : MigrationPlan) × (compute_diff_into altered_layout.ws [] checksums
        default_plan
      ≡ some p)
    × (ensure_objects_materialized altered_layout p ≡ some p')
    × (length p.rows ≡ object_count altered_layout.ws)
    × Mirrored altered_layout.ws 0 p.rows p'.objects
    × ((p.blocked ≡ true) ⊎ All IsExecutable p'.objects)
computed_plan_materialized_example =
    computed_plan_materialized altered_layout [] checksums default_plan altered-IsAligned
      altered-IsScripted altered-HasKinds

-- The first script was applied with its present checksum.
abbrev pub history : Checksums
history = (codes "t1", codes "x") ∷ []

filter_plan_pending_example :
    ((j : ℕ)
      → lookup j
          (filter_applied_migrations_on_plan
            (λ d. d)
            altered_layout
            history
            altered_plan).0.plan_transitions
        ≡ (if reprocess_at 0 altered_plan.rows j
            then pending_in history
                (transition_checksums (λ d. d) altered_layout.scripts [])
                altered_layout
                (lookup j altered_plan.plan_transitions)
            else lookup j altered_plan.plan_transitions))
    × ((filter_applied_migrations_on_plan (λ d. d) altered_layout history altered_plan).0.rows
        ≡ altered_plan.rows)
    × (((filter_applied_migrations_on_plan (λ d. d) altered_layout history altered_plan).1 ≡ none)
        ↔ (untampered history
              (transition_checksums (λ d. d) altered_layout.scripts [])
              altered_layout
              0
              altered_plan.rows
              altered_plan.plan_transitions
            ≡ true))
filter_plan_pending_example =
    filter_plan_pending (λ d. d) altered_layout history altered_plan refl (omega arith)

pub altered-made :
    materialize_from altered_layout altered_plan.plan_git altered_plan.plan_transitions 0
      altered_plan.rows
    ≡ some altered_plan.objects
unfolding materialize_from materialize_planned_object planned_object entry entry_key row_id_at
    object_path_at cached_path script_at parent_name parent_ref_for_row key_part database_name
    str_at with_database_prefix object_path_for_entry materialize_transition_paths split push_front
    replace PlanRow.planned_action PlanRow.exists PlanRow.empty_plan_row from_repr as_repr
altered-made = refl

-- Only the second script is left; the objects are made again.
abbrev filtered : MigrationPlan
filtered = record altered_rows { plan_transitions = (0, ((2, 2) ∷ [])) ∷ [] }

abbrev final : MigrationPlan
final = record filtered {
  objects = record altered_object { transition_paths = codes "t2" ∷ [] } ∷ altered_view ∷ [];
}

altered-filtered :
    filter_applied (λ d. d) altered_layout altered_plan (ok history) ≡ (filtered, none)
unfolding filter_applied filter_applied_migrations_on_plan filter_rows filter_rows_from filter_row
    needs_rows has_transitions transition_checksums is_transition retain_pending applied_unchanged
    lookup_text eq_text str_at PlanRow.planned_action PlanRow.empty_plan_row from_repr as_repr
    eq_action
altered-filtered = refl

filtered-final : ensure_objects_materialized altered_layout filtered ≡ some final
unfolding ensure_objects_materialized materialize_from materialize_planned_object planned_object
    entry entry_key row_id_at object_path_at cached_path script_at parent_name parent_ref_for_row
    key_part database_name str_at with_database_prefix object_path_for_entry
    materialize_transition_paths split push_front replace PlanRow.planned_action PlanRow.exists
    PlanRow.empty_plan_row from_repr as_repr
filtered-final = refl

filter_no_replay_example : all (no_replay history) final.objects ≡ true
filter_no_replay_example =
    filter_no_replay (λ d. d) altered_layout history altered_plan (omega arith) altered-made
      altered-filtered filtered-final
