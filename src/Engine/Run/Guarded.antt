-- ===== src/Engine/Run/Guarded.antt =====
-- What `migrate` hands to the executor (crates/core/src/engine/apply_run.rs, adopt_gate.rs).
use mssql_migrator.Prelude.{
  ℕ, suc, ◌≡◌, refl, sym, ap, ◌∙◌, ◌⊎◌, inl, inr, Bool, true, false, none, some, List, [], ◌∷◌,
  arith, if◌then◌else◌, Bool-cases, Option-cases, all, any, Text,
}
use mssql_migrator.Error.{Error, plan_blocked, Result, ok}
use mssql_migrator.Domain.Action.{adopt_existing, eq_action}
use mssql_migrator.Domain.Workspace.{Digest, StrOff}
use mssql_migrator.Domain.Layout.{Layout}
use mssql_migrator.Export.PlanRow
use mssql_migrator.Export.PlanRow.{PlanRow, PlanGitOff}
use mssql_migrator.Export.PlanJson.{MigrationPlan, PlannedObject}
use mssql_migrator.Export.Materialize.{
  planned_object, materialize_planned_object, materialize_from, ensure_objects_materialized,
}
use mssql_migrator.Export.Filter.{
  Checksums, has_transitions, filter_rows, filter_legacy_objects, filter_applied_migrations_on_plan,
}
use mssql_migrator.Export.Materialize.Mirrors.{IsMade}
use mssql_migrator.Apply.Conn.{Log}
use mssql_migrator.Apply.Execute.{Outcome, execute_plan}
use mssql_migrator.Engine.Filter.{filter_applied}
use mssql_migrator.Engine.Filter.Replay.{no_replay, ensure-made, final-made, final-no_replay}
use mssql_migrator.Engine.Run.{
  Env, Applied, migrate, is_adopt, ensure_adopt_allowed, handle_blocked_migrate, saved,
  run_executor, load_history, after_filter, filter_and_run, after_gate, migrate_unblocked,
  apply_plan,
}

-- The executor ran on `p`: the plan is not blocked, adopts no object unless that is allowed, and
-- repeats no transition script that the loaded history records as applied.
pub record Executed (env : Env) (layout : Layout) (log : Log) (applied : Applied) : Type 0 where
  pub p : MigrationPlan
  pub start : Log
  pub done : Outcome
  pub ran : execute_plan env.world env.catalog_cache layout p start ≡ some done
  pub result : applied ≡ ((saved env layout done).0, p, (saved env layout done).1)
  pub unblocked : p.blocked ≡ false
  pub adoption : (env.allow_adopt ≡ true) ⊎ (any is_adopt p.objects ≡ false)
  pub replay :
      (any has_transitions p.objects ≡ false)
      ⊎ ((history : Checksums) × ((env.load_applied log).1 ≡ ok history)
          × (all (no_replay history) p.objects ≡ true))

-- `migrate` refused to run: it has an error, and its log is what was there, or what the scaffolding
-- or the load of the history left.
pub record Refused (env : Env) (layout : Layout) (plan : MigrationPlan) (log : Log)
    (applied : Applied) : Type 0 where
  pub error : Error
  pub failed : applied.2 ≡ some error
  pub only_read :
      (applied.0 ≡ log)
      ⊎ (applied.0 ≡ (env.scaffold layout plan log).0)
      ⊎ (applied.0 ≡ (env.load_applied log).0)

filter-unblocked :
    (hex : Digest → Text) (layout : Layout) (plan : MigrationPlan) (history : Result Checksums)
    → (filter_applied hex layout plan history).0.blocked ≡ plan.blocked
unfolding filter_applied filter_applied_migrations_on_plan filter_rows filter_legacy_objects
filter-unblocked hex layout plan history = ground arith

object-adopt :
    (layout : Layout) (i : ℕ) (r : PlanRow) (git : List (ℕ × PlanGitOff))
    (m : List (ℕ × List StrOff)) {o : PlannedObject}
    → materialize_planned_object layout i r git m ≡ some o
    → is_adopt o ≡ eq_action (PlanRow.planned_action r) adopt_existing
unfolding materialize_planned_object planned_object is_adopt
object-adopt layout i r git m {o} h = ground arith

ensure-blocked :
    (layout : Layout) (q : MigrationPlan) {p : MigrationPlan}
    → ensure_objects_materialized layout q ≡ some p
    → p.blocked ≡ q.blocked
unfolding ensure_objects_materialized
ensure-blocked layout q h =
    elim (Option-cases (materialize_from layout q.plan_git q.plan_transitions 0 q.rows)) [
      | inl n ↦ ground arith
      | inr (os, e) ↦ ground arith
    ]

abbrev adopts_row : PlanRow → Bool
adopts_row r = eq_action (PlanRow.planned_action r) adopt_existing

objects-adopt :
    (layout : Layout) (i : ℕ) (rows : List PlanRow) (git : List (ℕ × PlanGitOff))
    (m : List (ℕ × List StrOff)) {os : List PlannedObject}
    → materialize_from layout git m i rows ≡ some os
    → any is_adopt os ≡ any adopts_row rows
unfolding materialize_from
objects-adopt layout i [] git m {os} h = ground arith
objects-adopt layout i (r ∷ rs) git m {os} h =
    elim (Option-cases (materialize_planned_object layout i r git m)) [
      | inl n ↦ absurd (ground arith)
      | inr (o, e) ↦ elim (Option-cases (materialize_from layout git m (suc i) rs)) [
        | inl n ↦ absurd (ground arith)
        | inr (rest, e') ↦
            let here = object-adopt layout i r git m e in
            let there = objects-adopt layout (suc i) rs git m e' in ground (arith, here, there)
      ]
    ]

module _ (env : Env) (layout : Layout) (plan : MigrationPlan) (log : Log)
    (made : IsMade layout plan) where
  adoption-final :
      (q : MigrationPlan) {p : MigrationPlan}
      → filter_applied env.hex layout plan (load_history env plan log).1 ≡ (q, none)
      → ensure_objects_materialized layout q ≡ some p
      → (env.allow_adopt ≡ true) ⊎ (any is_adopt plan.objects ≡ false)
      → (env.allow_adopt ≡ true) ⊎ (any is_adopt p.objects ≡ false)
  adoption-final q f e (inl a) = inl a
  adoption-final q {p} f e (inr a) =
      let (git, m, again) =
        final-made env.hex layout (load_history env plan log).1 plan made.0 made.1 f e in
      let before = objects-adopt layout 0 plan.rows plan.plan_git plan.plan_transitions made.1 in
      inr (objects-adopt layout 0 plan.rows git m again ∙ sym before ∙ a)

  replay-final :
      (q : MigrationPlan) {p : MigrationPlan}
      → filter_applied env.hex layout plan (load_history env plan log).1 ≡ (q, none)
      → ensure_objects_materialized layout q ≡ some p
      → (any has_transitions p.objects ≡ false)
        ⊎ ((history : Checksums) × ((env.load_applied log).1 ≡ ok history)
            × (all (no_replay history) p.objects ≡ true))
  unfolding load_history
  replay-final q f e =
      elim (final-no_replay env.hex layout (load_history env plan log).1 plan made.0 made.1 f e) [
        | inl (n, n') ↦ inl n'
        | inr (need, (history, l, r)) ↦
            let load : load_history env plan log ≡ env.load_applied log = rw need refl in
            inr (history, ap (λ x. x.1) (sym load) ∙ l, r)
      ]

  run_executor-Executed :
      (q : MigrationPlan) (log' : Log) {applied : Applied}
      → q.blocked ≡ false
      → filter_applied env.hex layout plan (load_history env plan log).1 ≡ (q, none)
      → (env.allow_adopt ≡ true) ⊎ (any is_adopt plan.objects ≡ false)
      → run_executor env layout q log' ≡ some applied
      → Executed env layout log applied
  unfolding run_executor
  run_executor-Executed q log' {applied} b f adoption h =
      elim (Option-cases (ensure_objects_materialized layout q)) [
        | inl n ↦ absurd (ground arith)
        | inr (p, e) ↦
            elim (Option-cases (execute_plan env.world env.catalog_cache layout p log')) [
              | inl n ↦ absurd (ground arith)
              | inr (done, r) ↦ record {
                p = p;
                start = log';
                done = done;
                ran = r;
                result = ground arith;
                unblocked = ensure-blocked layout q e ∙ b;
                adoption = adoption-final q f e adoption;
                replay = replay-final q f e;
              }
            ]
      ]

  load_history-log :
      ((load_history env plan log).0 ≡ log)
      ⊎ ((load_history env plan log).0 ≡ (env.load_applied log).0)
  unfolding load_history
  load_history-log = ground arith

  filter_and_run-end :
      {applied : Applied}
      → plan.blocked ≡ false
      → (env.allow_adopt ≡ true) ⊎ (any is_adopt plan.objects ≡ false)
      → filter_and_run env layout plan log ≡ some applied
      → Refused env layout plan log applied ⊎ Executed env layout log applied
  unfolding filter_and_run after_filter
  filter_and_run-end {applied} b adoption h =
      let loaded = load_history env plan log in
      let f = filter_applied env.hex layout plan loaded.1 in
      elim (Option-cases f.1) [
        | inr (e, n) ↦
            let same : some (loaded.0, f.0, some e) ≡ some applied =
              sym (ap (after_filter env layout loaded.0 f.0) n) ∙ h in
            inl (record {
              error = e;
              failed = ground arith;
              only_read = ground (arith, load_history-log);
            })
        | inl n ↦
            let ran : run_executor env layout f.0 loaded.0 ≡ some applied =
              sym (ap (after_filter env layout loaded.0 f.0) n) ∙ h in
            inr (
              run_executor-Executed f.0 loaded.0 (filter-unblocked env.hex layout plan loaded.1 ∙ b)
                (λ i. (f.0, n i)) adoption ran)
      ]

  pub adopt_gate :
      (allow : Bool)
      → ensure_adopt_allowed allow layout plan
        ≡ some (
          plan,
          if allow then none else if any is_adopt plan.objects then some plan_blocked else none,
        )
  unfolding ensure_adopt_allowed
  adopt_gate true = refl
  adopt_gate false = let same = ensure-made layout plan made.1 in ground arith

  -- `migrate` on a plan that was made from its rows either refuses to run, with an error and nothing
  -- sent but the scaffolding's or the history's queries, or runs the executor on a plan that is not
  -- blocked, adopts no object unless that is allowed, and repeats no transition script that the
  -- loaded history records as applied.
  pub migrate_guarded :
      {applied : Applied}
      → apply_plan migrate env layout plan log ≡ some applied
      → Refused env layout plan log applied ⊎ Executed env layout log applied
  unfolding apply_plan migrate_unblocked after_gate handle_blocked_migrate
  migrate_guarded {applied} h = elim (Bool-cases plan.blocked) [
    | inl b ↦
        let e : Error = (handle_blocked_migrate env layout plan log).1 in
        inl (record { error = e; failed = ground arith; only_read = ground arith })
    | inr b ↦ elim (Bool-cases (env.allow_adopt)) [
      | inl a ↦ let gate = adopt_gate env.allow_adopt in filter_and_run-end b (inl a) (ground arith)
      | inr a ↦ elim (Bool-cases (any is_adopt plan.objects)) [
        | inl adopts ↦
            let gate = adopt_gate env.allow_adopt in
            inl (record { error = plan_blocked; failed = ground arith; only_read = ground arith })
        | inr none_adopts ↦
            let gate = adopt_gate env.allow_adopt in
            filter_and_run-end b (inr none_adopts) (ground arith)
      ]
    ]
  ]
