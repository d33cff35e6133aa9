-- ===== src/Tests/Commands.antt =====
-- Whole commands at a concrete workspace and server.
use mssql_migrator.Prelude.{
  ℕ, ◌-◌, ◌≡◌, refl, ◌⊎◌, true, false, none, some, [], ◌∷◌, arith, ltb, if◌then◌else◌, length,
  get_elem?, All, lookup, codes, eq_text,
}
use mssql_migrator.Error.{Error, ok}
use mssql_migrator.Domain.Workspace.{object_count}
use mssql_migrator.Export.PlanRow.{empty_plan_row}
use mssql_migrator.Export.PlanJson.{MigrationPlan, default_plan}
use mssql_migrator.Engine.Lock.{pos}
use mssql_migrator.Engine.Run.{
  Env, Inspected, Applied, migrate, validate, apply_plan, command_mutates,
}
use mssql_migrator.Engine.Run.Guarded.{Executed, Refused, migrate_guarded}
use mssql_migrator.Engine.Run.Released.{IsPlanned, IsPrepared, apply_plan_known}
use mssql_migrator.Engine.Merge.{merge_plan, merge_plan_into}
use mssql_migrator.Engine.Merge.Rows.{IsKeyed, merge_plan_rows}
use mssql_migrator.Engine.Databases.{
  Databases, RunOutput, is_version, run_command, visit_all, visit, run_visit, after_visit,
  gather_plan, gathered_output, max_code,
}
use mssql_migrator.Engine.Databases.Exit.{IsDone, run_command_exit_ok}
use mssql_migrator.Tests.Data.{altered_layout, altered_plan, altered_rows, checksums, server}
use mssql_migrator.Tests.Exporting.{altered-IsAligned, altered-IsScripted, altered-made, history}

abbrev inspected : Inspected
inspected = record { layout = altered_layout; catalog = []; checksums = checksums }

-- A server that grants the lock at once.
abbrev env : Env
env = record {
  world = server;
  catalog_cache = false;
  allow_adopt = false;
  lock_timeout = 5000;
  lock_code = λ log. some (pos 0);
  hex = λ d. d;
  now = codes "2026";
  inspect = λ cmd log. (log, ok inspected);
  load_applied = λ log. (log, ok history);
  scaffold = λ layout plan log. (log, none);
  save_snapshot = λ layout log. log;
}

altered-IsPrepared : IsPrepared altered_layout
altered-IsPrepared = (altered-IsAligned, altered-IsScripted)

altered-IsPlanned : IsPlanned altered_layout altered_plan
unfolding object_count
altered-IsPlanned = (refl, (omega arith, altered-made))

abbrev applied : (a : Applied) × (apply_plan migrate env altered_layout altered_plan [] ≡ some a)
applied =
    apply_plan_known env altered_layout altered-IsPrepared migrate altered_plan [] altered-IsPlanned

migrate_guarded_example :
    Refused env altered_layout altered_plan [] applied.0 ⊎ Executed env altered_layout [] applied.0
migrate_guarded_example =
    migrate_guarded env altered_layout altered_plan [] (omega arith, altered-made) applied.1

-- Another plan of one row.
abbrev other_plan : MigrationPlan
other_plan = record default_plan {
  rows = empty_plan_row ∷ [];
  plan_transitions = (0, ((4, 2) ∷ [])) ∷ [];
}

merge_plan_rows_example :
    IsKeyed (merge_plan_into altered_rows other_plan)
    × ((j : ℕ)
        → let merged = merge_plan_into altered_rows other_plan in
          let (own, i) : MigrationPlan × ℕ =
            if ltb j (length altered_rows.rows)
            then (altered_rows, j)
            else (other_plan, j - length altered_rows.rows) in
          (get_elem? merged.rows j ≡ get_elem? own.rows i)
          × (lookup j merged.plan_git ≡ lookup i own.plan_git)
          × (lookup j merged.plan_transitions ≡ lookup i own.plan_transitions))
merge_plan_rows_example =
    merge_plan_rows altered_rows other_plan (tt, (omega arith, tt)) (tt, (omega arith, tt))
      (omega arith)

-- Two databases, of which the first is validated and the second holds no object.
abbrev databases : Databases
databases = record {
  object_count = λ db. if eq_text db (codes "a") then 2 else 0;
  target_database_exists = λ db. ok true;
  run = λ db. ok (record { exit_code = 0; plan = some altered_rows });
}

abbrev output : RunOutput
output = record { exit_code = 0; plan = some altered_rows }

databases-output :
    run_command validate (ok (codes "a" ∷ codes "b" ∷ [])) (λ names. none) (ok databases)
    ≡ ok output
unfolding run_command is_version visit_all visit run_visit after_visit gather_plan gathered_output
    merge_plan max_code command_mutates eq_text
databases-output = refl

run_command_exit_ok_example : All (IsDone databases true) (codes "a" ∷ codes "b" ∷ [])
unfolding is_version
run_command_exit_ok_example =
    run_command_exit_ok validate (codes "a" ∷ codes "b" ∷ []) (λ names. none) databases refl
      databases-output refl
