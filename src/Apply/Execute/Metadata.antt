-- ===== src/Apply/Execute/Metadata.antt =====
-- What `baseline` and `repair-checksum` send (crates/core/src/apply/metadata.rs).
use mssql_migrator.Prelude.{
  ◌≡◌, refl, inl, inr, Bool, true, false, not, ◌&&◌, Option, some, List, [], ◌∷◌, ltb, Bool-cases,
  Option-cases, All, Text,
}
use mathlib.Core.Path.{subst}
use mssql_migrator.Export.PlanJson.{MigrationPlan, PlannedObject}
use mssql_migrator.Apply.Conn.{
  HistoryRecord, Stmt, bootstrap_tables, bootstrap_drift, bootstrap_index, cache_invalidate,
  insert_history, Log, World, Run, empty_result, push_error, count_skipped, sent,
}
use mssql_migrator.Apply.Tx.{commit_history, mark_history}
use mssql_migrator.Apply.Execute.{
  MetadataMode, finish, bootstrap, bootstraps, skip_all, metadata_records, execute_metadata_plan,
  is_repair,
}

-- Bootstrap of the audit tables, an insert into the history, or an invalidation of the cache.
abbrev pub is_audit : Stmt → Bool
is_audit bootstrap_tables = true
is_audit bootstrap_drift = true
is_audit bootstrap_index = true
is_audit cache_invalidate = true
is_audit (insert_history records) = true
is_audit _ = false

-- `AuditLog log log'`: behind `log` only audit statements were sent.
pub data AuditLog (log : Log) : Log → Type 0 where
  same : AuditLog log log
  more :
      {log' : Log} (q : Stmt) (answer : Option Text)
      → is_audit q ≡ true
      → AuditLog log log'
      → AuditLog log ((q, answer) ∷ log')

joined : {a b c : Log} → AuditLog a b → AuditLog b c → AuditLog a c
joined p same = p
joined p (more q answer h r) = more q answer h (joined p r)

bootstrap-AuditLog :
    (world : World) (catalog_cache : Bool) (qs : List Stmt) (log : Log)
    → All (λ q. is_audit q ≡ true) qs
    → AuditLog log (bootstrap world catalog_cache qs log).0
unfolding bootstrap
bootstrap-AuditLog world catalog_cache [] log h = same
bootstrap-AuditLog world catalog_cache (q ∷ r) log h = elim (Option-cases (world.reply log q)) [
  | inl n ↦
      rw (n, bootstrap)
        (joined (more q (world.reply log q) h.0 same)
          (bootstrap-AuditLog world catalog_cache r ((q, world.reply log q) ∷ log) h.1))
  | inr (e, n) ↦ rw (n, bootstrap) (more q (some e) h.0 same)
]

commit_history-AuditLog :
    (world : World) (records : List HistoryRecord) (st : Run)
    → AuditLog st.log (commit_history world records st).0.log
unfolding commit_history push_error mark_history sent
commit_history-AuditLog world [] st = same
commit_history-AuditLog world (r ∷ records) st =
    elim (Option-cases (world.reply st.log (insert_history (r ∷ records)))) [
      | inl n ↦ rw n (more (insert_history (r ∷ records)) (world.reply st.log _) refl same)
      | inr (e, n) ↦ rw n (more (insert_history (r ∷ records)) (world.reply st.log _) refl same)
    ]

skip_all-log : (objects : List PlannedObject) (st : Run) → (skip_all objects st).log ≡ st.log
unfolding skip_all count_skipped
skip_all-log [] st = refl
skip_all-log (obj ∷ r) st = skip_all-log r (count_skipped st)

finish-AuditLog :
    (world : World) (catalog_cache : Bool) (st : Run)
    → AuditLog st.log (finish world catalog_cache st).0
unfolding finish
finish-AuditLog world catalog_cache st =
    elim (Bool-cases (ltb 0 st.result.applied && catalog_cache)) [
      | inl e ↦ rw e (more cache_invalidate (world.reply st.log cache_invalidate) refl same)
      | inr e ↦ rw e same
    ]

-- Whatever the plan holds, a metadata command sends only audit statements: no body of the
-- repository, and no statement of a transaction.
pub metadata_plan_audit_only :
    (world : World) (catalog_cache : Bool) (plan : MigrationPlan) (mode : MetadataMode) (log : Log)
    → AuditLog log (execute_metadata_plan world catalog_cache plan mode log).0
unfolding execute_metadata_plan
metadata_plan_audit_only world catalog_cache plan mode log =
    let boot = bootstrap world catalog_cache bootstraps log in
    let booted = bootstrap-AuditLog world catalog_cache bootstraps log (refl, (refl, (refl, tt))) in
    let st : Run = skip_all plan.objects (record { log = boot.0; result = empty_result }) in
    let records = metadata_records mode plan.objects in
    let ended = commit_history world records st in
    elim (Bool-cases (plan.blocked && not (is_repair mode))) [
      | inl b ↦ rw b same
      | inr b ↦ rw b (elim (Option-cases boot.1) [
        | inl n ↦ rw n (
            joined booted (
              joined
                (subst (λ l. AuditLog l ended.0.log)
                  (skip_all-log plan.objects (record { log = boot.0; result = empty_result }))
                  (commit_history-AuditLog world records st))
                (finish-AuditLog world catalog_cache ended.0)))
        | inr (e, n) ↦ rw n booted
      ])
    ]
