-- ===== src/Apply/Execute/Phases.antt =====
-- The object phase and the whole run (crates/core/src/apply/objects.rs, mod.rs).
use mssql_migrator.Apply.Execute.Classified.{objects_to_apply, ClassifyCounts, classify-counts}
use mssql_migrator.Error.{plan_blocked, Result, ok, err}
use mssql_migrator.Domain.Layout.{Layout}
use mssql_migrator.Export.PlanJson.{MigrationPlan, PlannedObject}
use mssql_migrator.Apply.Conn.{
  HistoryRecord, Log, World, ApplyResult, empty_result, Run, push_error, sent,
}
use mssql_migrator.Apply.Tx.{commit_history, mark_history}
use mssql_migrator.Apply.Script.{exec_object}
use mssql_migrator.Apply.Script.Verified.{exec_object-OneOutcome}
use mssql_migrator.Apply.Modules.{apply_modules}
use mssql_migrator.Apply.Modules.Accounting.{apply_modules_accounted}
use mssql_migrator.Apply.Order.{sort_tx_batch}
use mssql_migrator.Apply.Order.Sorted.{length-sort}
use mssql_migrator.Apply.Objects.{
  Classified, stopped, batches, classify, flush_loop, flush_tx, run_batches, run_classified,
  apply_objects,
}
use mssql_migrator.Apply.Schemas.{apply_schemas}
use mssql_migrator.Apply.Transitions.{apply_transitions}
use mssql_migrator.Apply.Execute.{
  Outcome, finish, finish_run, bootstrap, bootstraps, run_phases, execute_plan,
}
use mssql_migrator.Apply.Execute.Complete.{
  Completes, schemas_to_create, schemas-Completes, pending_scripts, transitions-Completes,
}
use mssql_migrator.Prelude.{
  ℕ, ◌+◌, ◌≤◌, ◌<◌, ◌≡◌, refl, ap, ◌∙◌, ◌⊎◌, inl, inr, Bool, true, false, Option, none, some, List,
  [], ◌∷◌, arith, ltb, Bool-cases, Option-cases, length,
}

commit_history-counts :
    (world : World) (records : List HistoryRecord) (st : Run)
    → let r = commit_history world records st in
      (r.0.result.applied ≡ st.result.applied)
      × (((r.1 ≡ true) × (r.0.result.failed ≡ st.result.failed))
          ⊎ ((r.1 ≡ false) × (st.result.failed < r.0.result.failed)))
unfolding commit_history mark_history push_error sent
commit_history-counts world records st = ground arith

-- What a run that is not blocked ends with: an error, or everything planned and no failure.
abbrev pub AllOrError : MigrationPlan → Result ApplyResult → Type 0
AllOrError plan (err e) = plan.blocked ≡ false
AllOrError plan (ok r) =
    (plan.blocked ≡ false)
    × (r.failed ≡ 0)
    × (r.applied
        ≡ schemas_to_create plan.schemas
          + pending_scripts plan.objects
          + objects_to_apply plan.objects)

module _ (world : World) (catalog_cache : Bool) (layout : Layout) where
  flush-Completes :
      (tx : List PlannedObject) (st : Run)
      → st.result.failed ≡ 0
      → Completes (length tx) st (flush_loop world layout tx st)
  unfolding flush_loop
  flush-Completes [] st z = (omega arith, λ h. omega arith)
  flush-Completes (obj ∷ r) st z =
      let st' = exec_object world layout obj st in
      ground (arith, exec_object-OneOutcome world layout obj st, flush-Completes r st')

  flush_tx-Completes :
      (tx : List PlannedObject) (st : Run)
      → st.result.failed ≡ 0
      → Completes (length tx) st (flush_tx world layout tx st)
  unfolding flush_tx
  flush_tx-Completes [] st z = (omega arith, λ h. omega arith)
  flush_tx-Completes (obj ∷ r) st z =
      ground (arith, length-sort (obj ∷ r), flush-Completes (sort_tx_batch (obj ∷ r)) st z)

  -- A phase that may run out of fuel returns, and completes.
  abbrev PhaseEnd : ℕ → Run → Option Run → Type 0
  PhaseEnd n st end = (st' : Run) × (end ≡ some st') × Completes n st st'

  accounted :
      (modules : List PlannedObject) (st : Run)
      → (st' : Run) × (apply_modules world layout modules st ≡ some st')
        × (st.result.failed ≤ st'.result.failed)
        × ((st'.result.applied + st'.result.failed
              ≡ st.result.applied + st.result.failed + length modules)
            ⊎ (st.result.failed < st'.result.failed))
  accounted modules st =
      let (st', p, ends) = apply_modules_accounted world layout modules st in
      (st', p, ends.0, elim ends.1 [ inl b ↦ inl b | inr b ↦ inr b.0 ])

  modules_end :
      (modules : List PlannedObject) (st : Run)
      → (st' : Run) × (apply_modules world layout modules st ≡ some st')
        × (st.result.failed ≤ st'.result.failed)
        × (st'.result.failed ≡ st.result.failed
            → st'.result.applied ≡ st.result.applied + length modules)
  modules_end modules st =
      let (st', p, f, ends) = accounted modules st in
      (st', p, f, λ h. elim ends [ inl b ↦ omega arith | inr b ↦ absurd (omega arith) ])

  run_batches-PhaseEnd :
      (tx modules : List PlannedObject) (st : Run)
      → st.result.failed ≡ 0
      → PhaseEnd (length tx + length modules) st (run_batches world layout tx modules st)
  unfolding run_batches
  run_batches-PhaseEnd tx modules st z =
      let s1 = flush_tx world layout tx st in
      let f = flush_tx-Completes tx st z in
      elim (Bool-cases (ltb 0 s1.result.failed)) [
        | inl e ↦ (s1, rw e, (f.0, λ h. absurd (ground arith)))
        | inr e ↦
            let (s2, p, q, c) = modules_end (sort_tx_batch modules) s1 in
            (s2, rw e p, (ground arith, λ h. ground (arith, length-sort modules)))
      ]

  run_classified-PhaseEnd :
      (objects : List PlannedObject) (st : Run) (c : Classified)
      → st.result.failed ≡ 0
      → ClassifyCounts objects st [] [] c
      → PhaseEnd (objects_to_apply objects) st (run_classified world layout c)
  unfolding run_classified
  run_classified-PhaseEnd objects st (stopped end) z h =
      (end, refl, (omega arith, λ e. absurd (omega arith)))
  run_classified-PhaseEnd objects st (batches s tx modules adopted) z (f, a, n) =
      let written = (commit_history world adopted s).1 in
      let s1 = (commit_history world adopted s).0 in
      let counts = commit_history-counts world adopted s in
      elim (Bool-cases written) [
        | inr e ↦ (s1, rw e, (ground arith, λ h. absurd (ground arith)))
        | inl e ↦
            let (s2, p, ends) = run_batches-PhaseEnd tx modules s1 (ground arith) in
            (s2, rw e p, (ground arith, λ h. ground arith))
      ]

  objects-PhaseEnd :
      (objects : List PlannedObject) (st : Run)
      → st.result.failed ≡ 0
      → PhaseEnd (objects_to_apply objects) st (apply_objects world layout objects st)
  unfolding apply_objects
  objects-PhaseEnd objects st z =
      run_classified-PhaseEnd objects st (classify objects st [] [] []) z
        (classify-counts objects st [] [] [])

  phases-PhaseEnd :
      (plan : MigrationPlan) (st : Run)
      → st.result.failed ≡ 0
      → PhaseEnd
          (schemas_to_create plan.schemas
            + pending_scripts plan.objects
            + objects_to_apply plan.objects)
          st
          (run_phases world catalog_cache layout plan st)
  unfolding run_phases
  phases-PhaseEnd plan st z =
      let s1 = apply_schemas world plan.schemas st in
      let s2 = apply_transitions world layout plan.objects s1 in
      let c1 = schemas-Completes world plan.schemas st in
      elim (Bool-cases (ltb 0 s1.result.failed)) [
        | inl e ↦ (s1, rw e, (c1.0, λ h. absurd (ground arith)))
        | inr e ↦
            let z1 : s1.result.failed ≡ 0 = ground arith in
            let c2 = transitions-Completes world layout plan.objects s1 z1 in
            elim (Bool-cases (ltb 0 s2.result.failed)) [
              | inl k ↦
                  (s2, rw e (rw k refl), (omega (arith, c1.0, c2.0), λ h. absurd (ground arith)))
              | inr k ↦
                  let z2 : s2.result.failed ≡ 0 = ground arith in
                  let (s3, p, ends) = objects-PhaseEnd plan.objects s2 z2 in
                  (
                    s3,
                    rw e (rw k p),
                    (omega (arith, c1.0, c2.0, ends.0), λ h. ground (arith, c1, c2, ends)),
                  )
            ]
      ]

  finish-AllOrError :
      (plan : MigrationPlan) (st st' : Run)
      → plan.blocked ≡ false
      → st.result.failed ≡ 0
      → st.result.applied ≡ 0
      → Completes
          (schemas_to_create plan.schemas
            + pending_scripts plan.objects
            + objects_to_apply plan.objects)
          st
          st'
      → AllOrError plan (finish world catalog_cache st').1
  unfolding finish
  finish-AllOrError plan st st' b z a c = elim (Bool-cases (ltb 0 st'.result.failed)) [
    | inl f ↦ rw f b
    | inr f ↦
        rw f
          (let n : st'.result.failed ≡ 0 = ground arith in (b, n, omega (arith, c.1 (omega arith))))
  ]

  execute_plan-open :
      (plan : MigrationPlan) (log : Log)
      → plan.blocked ≡ false
      → (bootstrap world catalog_cache bootstraps log).1 ≡ none
      → execute_plan world catalog_cache layout plan log
        ≡ finish_run world catalog_cache (
            run_phases world catalog_cache layout plan (record {
              log = (bootstrap world catalog_cache bootstraps log).0;
              result = empty_result;
            }))
  unfolding execute_plan
  execute_plan-open plan log b n = rw b (rw n refl)

  -- `execute_plan` always returns. A blocked plan gives `PlanBlocked` and leaves the log as it was.
  -- Otherwise it returns an error, or a result with no failure whose count of applied objects is
  -- exactly the schemas to create, the pending transition scripts and the objects to create or
  -- update in place.
  pub execute_plan_complete :
      (plan : MigrationPlan) (log : Log)
      → (end : Outcome) × (execute_plan world catalog_cache layout plan log ≡ some end)
        × (((plan.blocked ≡ true) × (end ≡ (log, err plan_blocked))) ⊎ AllOrError plan end.1)
  unfolding execute_plan finish_run
  execute_plan_complete plan log = elim (Bool-cases plan.blocked) [
    | inl b ↦ ((log, err plan_blocked), rw b refl, inl (b, refl))
    | inr b ↦
        let boot = bootstrap world catalog_cache bootstraps log in
        elim (Option-cases boot.1) [
          | inl n ↦
              let st : Run = record { log = boot.0; result = empty_result } in
              let (st', p, c) = phases-PhaseEnd plan st refl in
              (
                finish world catalog_cache st',
                execute_plan-open plan log b n ∙ ap (finish_run world catalog_cache) p,
                inr (finish-AllOrError plan st st' b refl refl c),
              )
          | inr (e, n) ↦ ((boot.0, err e), rw b (rw n refl), inr b)
        ]
  ]
