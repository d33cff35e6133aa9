-- ===== src/Engine/Run/Released.antt =====
-- That a command under the lock ends, with the lock released (crates/core/src/engine/apply_run.rs,
-- lock/mod.rs).
use mssql_migrator.Prelude.{
  ◌≡◌, refl, ap, ◌∙◌, inl, inr, not, ◌&&◌, Option, none, some, arith, if◌then◌else◌, Bool-cases,
  length, any,
}
use mssql_migrator.Error.{Error, plan_blocked}
use mssql_migrator.Domain.Workspace.{object_count}
use mssql_migrator.Domain.Layout.{Layout}
use mssql_migrator.Export.PlanJson.{MigrationPlan}
use mssql_migrator.Export.Materialize.Mirrors.{IsScripted, IsMade, ensure_known}
use mssql_migrator.Export.Filter.{
  filter_rows, filter_legacy_objects, filter_applied_migrations_on_plan,
}
use mssql_migrator.Plan.Diff.{◌>>=◌}
use mssql_migrator.Plan.Diff.Total.{IsAligned, known}
use mssql_migrator.Apply.Conn.{Log}
use mssql_migrator.Apply.Execute.{MetadataMode, is_repair}
use mssql_migrator.Apply.Execute.Phases.{execute_plan_complete}
use mssql_migrator.Engine.Filter.{filter_applied}
use mssql_migrator.Engine.Run.{
  Command, plan_only, migrate, validate, baseline_all, repair_all, version, Env, Applied, is_adopt,
  load_history, run_executor, after_filter, filter_and_run, migrate_unblocked, run_metadata,
  apply_plan, after_gate,
}
use mssql_migrator.Engine.Run.Guarded.{adopt_gate}

-- The workspace that the database phase leaves is aligned, and its objects have script rows.
abbrev pub IsPrepared : Layout → Type 0
IsPrepared layout = IsAligned layout.ws × IsScripted layout

-- A plan of the workspace, made from a row for each entry.
abbrev pub IsPlanned : Layout → MigrationPlan → Type 0
IsPlanned layout p = (length p.rows ≡ object_count layout.ws) × IsMade layout p

module _ (env : Env) (layout : Layout) (prepared : IsPrepared layout) where
  executor_known :
      (q : MigrationPlan) (log : Log)
      → length q.rows ≡ object_count layout.ws
      → (applied : Applied) × (run_executor env layout q log ≡ some applied)
  unfolding run_executor
  executor_known q log len = elim (Bool-cases q.blocked) [
    | inl b ↦
        let (end, r, x) = execute_plan_complete env.world env.catalog_cache layout q log in
        known _ (λ h. absurd (ground arith))
    | inr b ↦
        let (p, e) = ensure_known layout prepared.0 prepared.1 q len in
        let (end, r, x) = execute_plan_complete env.world env.catalog_cache layout p log in
        known _ (λ h. absurd (ground arith))
  ]

  filtered-rows :
      (p : MigrationPlan) (log : Log)
      → (filter_applied env.hex layout p (load_history env p log).1).0.rows ≡ p.rows
  unfolding filter_applied filter_applied_migrations_on_plan filter_rows filter_legacy_objects
  filtered-rows p log = ground arith

  after_filter_known :
      (q : MigrationPlan) (log : Log) (failure : Option Error)
      → length q.rows ≡ object_count layout.ws
      → (applied : Applied) × (after_filter env layout log q failure ≡ some applied)
  unfolding after_filter
  after_filter_known q log none len = executor_known q log len
  after_filter_known q log (some e) len = ((log, q, some e), refl)

  filter_and_run_known :
      (p : MigrationPlan) (log : Log)
      → length p.rows ≡ object_count layout.ws
      → (applied : Applied) × (filter_and_run env layout p log ≡ some applied)
  unfolding filter_and_run
  filter_and_run_known p log len =
      let loaded = load_history env p log in
      let f = filter_applied env.hex layout p loaded.1 in
      after_filter_known f.0 loaded.0 f.1 (ap length (filtered-rows p log) ∙ len)

  after_gate_known :
      (p : MigrationPlan) (log : Log) (refused : Option Error)
      → length p.rows ≡ object_count layout.ws
      → (applied : Applied) × (after_gate env layout log p refused ≡ some applied)
  unfolding after_gate
  after_gate_known p log none len = filter_and_run_known p log len
  after_gate_known p log (some e) len = ((log, p, some e), refl)

  metadata_known :
      (mode : MetadataMode) (p : MigrationPlan) (log : Log)
      → length p.rows ≡ object_count layout.ws
      → (applied : Applied) × (run_metadata env mode layout p log ≡ some applied)
  unfolding run_metadata
  metadata_known mode p log len = elim (Bool-cases (p.blocked && not (is_repair mode))) [
    | inl b ↦ known _ (rw b (λ h. cc h))
    | inr b ↦
        let (p', e) = ensure_known layout prepared.0 prepared.1 p len in
        known _ (rw b (rw e (λ h. cc h)))
  ]

  migrate_unblocked_known :
      (p : MigrationPlan) (log : Log)
      → IsPlanned layout p
      → (applied : Applied) × (migrate_unblocked env layout p log ≡ some applied)
  unfolding migrate_unblocked
  migrate_unblocked_known p log (len, made) =
      let refused : Option Error =
        if env.allow_adopt
        then none
        else if any is_adopt p.objects
        then some plan_blocked
        else none in
      let gate = adopt_gate env layout p log made env.allow_adopt in
      let (applied, h) = after_gate_known p log refused len in
      (applied, ap (λ o. o >>= (λ x. after_gate env layout log x.0 x.1)) gate ∙ h)

  pub apply_plan_known :
      (cmd : Command) (p : MigrationPlan) (log : Log)
      → IsPlanned layout p
      → (applied : Applied) × (apply_plan cmd env layout p log ≡ some applied)
  unfolding apply_plan
  apply_plan_known migrate p log planned = elim (Bool-cases p.blocked) [
    | inl b ↦ known _ (simp b (λ h. cc h))
    | inr b ↦
        let (applied, h) = migrate_unblocked_known p log planned in (applied, simp (b, h) refl)
  ]
  apply_plan_known baseline_all p log (len, made) = metadata_known _ p log len
  apply_plan_known repair_all p log (len, made) = metadata_known _ p log len
  apply_plan_known plan_only p log planned = (_, refl)
  apply_plan_known validate p log planned = (_, refl)
  apply_plan_known version p log planned = (_, refl)
