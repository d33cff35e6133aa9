-- ===== src/Engine/Databases/Exit.antt =====
-- The exit code of a command on several databases (crates/core/src/engine/run/mod.rs).
use mssql_migrator.Prelude.{
  ◌≡◌, refl, ◌⊎◌, inl, inr, Bool, true, false, ◌&&◌, Option, none, List, [], ◌∷◌, ◌++◌, arith, ltb,
  ◌==◌, Bool-cases, length, is_empty, All, Text,
}
use mssql_migrator.Error.{Error, ok, exit_code_classes, Result-cases}
use mssql_migrator.Engine.Run.{Command, command_mutates}
use mssql_migrator.Engine.Databases.{
  RunOutput, Databases, Gathered, Visit, pass, missing_db, ran, failed, stop, max_code, run_visit,
  visit, after_visit, visit_all, gathered_output, is_version, run_command,
}

-- The database holds no object of a layout of several, or its run succeeded.
abbrev pub IsDone : Databases → Bool → Text → Type 0
IsDone dbs multi db =
    ((multi ≡ true) × (dbs.object_count db ≡ 0))
    ⊎ ((out : RunOutput) × (dbs.run db ≡ ok out) × (out.exit_code ≡ 0))

push-ne-nil : (xs : List Text) (x : Text) → is_empty (xs ++ (x ∷ [])) ≡ false
push-ne-nil [] x = refl
push-ne-nil (y ∷ xs) x = refl

-- The exit code and the missing databases only grow.
after_visit-grows :
    (db : Text) (v : Visit) (st : Gathered) {st' : Gathered}
    → after_visit db v st ≡ ok st'
    → (st'.exit ≡ 0 → st.exit ≡ 0) × (is_empty st'.missing ≡ true → is_empty st.missing ≡ true)
unfolding after_visit max_code
after_visit-grows db pass st h = (λ z. ground arith, λ m. ground arith)
after_visit-grows db missing_db st h =
    (λ z. ground arith, λ m. absurd (ground (arith, push-ne-nil st.missing db)))
after_visit-grows db (ran out) st h = (λ z. ground arith, λ m. ground arith)
after_visit-grows db (failed e) st h = (λ z. ground arith, λ m. ground arith)
after_visit-grows db (stop e) st h = absurd (ground arith)

visit-IsDone :
    (dbs : Databases) (multi mutates : Bool) (db : Text) (st : Gathered) {st' : Gathered}
    → after_visit db (visit dbs multi mutates db) st ≡ ok st'
    → st'.exit ≡ 0
    → is_empty st'.missing ≡ true
    → IsDone dbs multi db
unfolding visit after_visit run_visit max_code
visit-IsDone dbs multi mutates db st {st'} h z m =
    elim (Bool-cases (dbs.object_count db == 0 && multi)) [
      | inl e ↦ inl (ground arith, ground arith)
      | inr e ↦ elim (Result-cases (dbs.run db)) [
        | inl (out, n) ↦ inr (out, n, ground (arith, push-ne-nil st.missing db))
        | inr (f, n) ↦ absurd (ground (arith, push-ne-nil st.missing db, (exit_code_classes f).0))
      ]
    ]

visit_all-IsDone :
    (dbs : Databases) (multi mutates : Bool) (names : List Text) (st : Gathered) {st' : Gathered}
    → visit_all dbs multi mutates names st ≡ ok st'
    → st'.exit ≡ 0
    → is_empty st'.missing ≡ true
    → (st.exit ≡ 0) × (is_empty st.missing ≡ true) × All (IsDone dbs multi) names
unfolding visit_all
visit_all-IsDone dbs multi mutates [] st {st'} h z m = (ground arith, ground arith, tt)
visit_all-IsDone dbs multi mutates (db ∷ r) st {st'} h z m =
    elim (Result-cases (after_visit db (visit dbs multi mutates db) st)) [
      | inr (e, n) ↦ absurd (ground arith)
      | inl (mid, n) ↦
          let h' : visit_all dbs multi mutates r mid ≡ ok st' = ground arith in
          let (z', m', rest) = visit_all-IsDone dbs multi mutates r mid h' z m in
          let (back, back') = after_visit-grows db (visit dbs multi mutates db) st n in
          (back z', back' m', (visit-IsDone dbs multi mutates db st n z' m', rest))
    ]

-- A command exits with success only if every catalog database that was found either holds no object,
-- in a layout of several, or was run with success: none that is missing or failed is passed over.
pub run_command_exit_ok :
    (cmd : Command) (names : List Text) (ensure_exist : List Text → Option Error) (dbs : Databases)
    {out : RunOutput}
    → is_version cmd ≡ false
    → run_command cmd (ok names) ensure_exist (ok dbs) ≡ ok out
    → out.exit_code ≡ 0
    → All (IsDone dbs (ltb 1 (length names))) names
unfolding run_command gathered_output
run_command_exit_ok cmd names ensure_exist dbs {out} v h z =
    let start : Gathered = record { exit = 0; last_plan = none; missing = [] } in
    elim (Result-cases (visit_all dbs (ltb 1 (length names)) (command_mutates cmd) names start)) [
      | inr (e, n) ↦ absurd (ground arith)
      | inl (st, n) ↦
          (visit_all-IsDone dbs (ltb 1 (length names)) (command_mutates cmd) names start n
            (ground arith) (ground arith)).2
    ]
