-- ===== src/Engine/Filter.antt =====
-- crates/core/src/engine/filter.rs: the filter of applied transition scripts, as `migrate` calls it.
-- The error is `none` where the source returns `Ok(())`. The load of the audit history, with its time limit, is an argument.
pub mod Replay
use mssql_migrator.Prelude.{
  Option, none, some, List, [], ◌∷◌, ◌++◌, any, if◌then◌else◌, Text, codes,
}
use mssql_migrator.Error.{Error, invalid_input, Result, ok, err}
use mssql_migrator.Domain.Workspace.{Digest}
use mssql_migrator.Domain.Layout.{Layout}
use mssql_migrator.Export.PlanJson.{MigrationPlan}
use mssql_migrator.Export.Filter.{Checksums, has_transitions, filter_applied_migrations_on_plan}

-- `tampered.join(", ")`
unfoldable pub join_paths : List Text → Text
join_paths [] = []
join_paths (p ∷ []) = p
join_paths (p ∷ q ∷ r) = p ++ (codes ", " ++ join_paths (q ∷ r))

unfoldable pub filter_applied :
    (Digest → Text) → Layout → MigrationPlan → Result Checksums → MigrationPlan × Option Error
unfolding join_paths
filter_applied hex layout plan history =
    if any has_transitions plan.objects
    then elim history [
      | err e ↦ (plan, some e)
      | ok applied ↦
          let (p, failure) = filter_applied_migrations_on_plan hex layout applied plan in
          (
            p,
            elim failure [
              | none ↦ none
              | some tampered ↦ some (
                  invalid_input (
                    codes "applied transition script(s) modified after apply: "
                    ++ (join_paths tampered
                        ++ codes "; restore the original contents or add a new transition")))
            ],
          )
    ]
    else (plan, none)
