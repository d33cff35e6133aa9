-- ===== src/Apply/Execute/Complete.antt =====
-- What the schema and transition phases apply (crates/core/src/apply/schemas.rs, transitions.rs).
use mssql_migrator.Domain.Action.{create_schema, exists_schema, reprocess_changed, eq_action}
use mssql_migrator.Domain.Layout.{Layout, Script, find_candidate}
use mssql_migrator.Domain.Paths.{path_lookup_candidates}
use mssql_migrator.Export.PlanJson.{PlannedObject, PlannedSchema}
use mssql_migrator.Apply.Conn.{World, Run, push_error, count_applied, count_skipped, sent}
use mssql_migrator.Apply.Tx.Atomic.{apply_in_tx_atomic}
use mssql_migrator.Apply.Script.{Loaded, body, refused, verified_body, checksum_or}
use mssql_migrator.Apply.Script.Verified.{OneOutcome, counted-OneOutcome}
use mssql_migrator.Apply.Schemas.{create_one, apply_schemas}
use mssql_migrator.Apply.Transitions.{
  transition_records, run_transition, apply_one_transition, apply_paths, apply_transitions,
}
use mssql_migrator.Prelude.{
  ℕ, suc, ◌+◌, ◌≤◌, ◌<◌, ◌≡◌, refl, ◌⊎◌, inl, inr, Bool, true, false, List, [], ◌∷◌, arith,
  if◌then◌else◌, Option-cases, length, is_empty, Text,
}

-- Failures are never taken back, and if none is added, `n` more objects were applied.
abbrev pub Completes : ℕ → Run → Run → Type 0
Completes n st st' =
    (st.result.failed ≤ st'.result.failed)
    × (st'.result.failed ≡ st.result.failed → st'.result.applied ≡ st.result.applied + n)

-- The schemas to create.
pub schemas_to_create : List PlannedSchema → ℕ
schemas_to_create [] = 0
schemas_to_create (s ∷ r) = elim s.action [
  | exists_schema ↦ schemas_to_create r
  | create_schema ↦ suc (schemas_to_create r)
]

create_one-Completes :
    (world : World) (s : PlannedSchema) (st : Run)
    → (((create_one world s st).1 ≡ true) × Completes 1 st (create_one world s st).0)
      ⊎ (((create_one world s st).1 ≡ false)
          × (st.result.failed < (create_one world s st).0.result.failed))
unfolding create_one push_error count_applied sent
create_one-Completes world s st = ground arith

pub schemas-Completes :
    (world : World) (schemas : List PlannedSchema) (st : Run)
    → Completes (schemas_to_create schemas) st (apply_schemas world schemas st)
unfolding apply_schemas schemas_to_create count_skipped
schemas-Completes world [] st = (omega arith, λ h. omega arith)
schemas-Completes world (s ∷ r) st = ground (
  arith,
  create_one-Completes world s st,
  schemas-Completes world r (count_skipped st),
  schemas-Completes world r (create_one world s st).0,
)

is_empty-length : (xs : List Text) → is_empty xs ≡ true → length xs ≡ 0
is_empty-length [] h = refl
is_empty-length (x ∷ xs) h = absurd (ground arith)

-- The transition scripts that are pending.
pub pending_scripts : List PlannedObject → ℕ
pending_scripts [] = 0
pending_scripts (obj ∷ r) =
    (if eq_action obj.planned_action reprocess_changed then length obj.transition_paths else 0)
    + pending_scripts r

module _ (world : World) (layout : Layout) where
  run_transition-OneOutcome :
      (obj : PlannedObject) (path : Text) (is_last : Bool) (script : Script) (st : Run)
      → OneOutcome st (run_transition world layout obj path is_last script st)
  unfolding run_transition push_error
  run_transition-OneOutcome obj path is_last script st =
      by-load
        (verified_body world st.log script.abs_path (checksum_or obj.checksum script.checksum) path)
        refl
    where
      by-load :
          (l : Loaded)
          → verified_body world st.log script.abs_path
              (checksum_or obj.checksum script.checksum)
              path
            ≡ l
          → OneOutcome st (run_transition world layout obj path is_last script st)
      by-load (refused m) e = rw (e, run_transition) (inr (refl, omega arith))
      by-load (body text) e =
          rw (e, run_transition)
            (counted-OneOutcome st _ _
              (apply_in_tx_atomic world st text (transition_records obj path script is_last) path))

  one_transition-OneOutcome :
      (obj : PlannedObject) (path : Text) (is_last : Bool) (st : Run)
      → OneOutcome st (apply_one_transition world layout obj path is_last st)
  unfolding apply_one_transition push_error
  one_transition-OneOutcome obj path is_last st =
      elim (Option-cases (find_candidate layout (path_lookup_candidates obj.database_name path))) [
        | inl n ↦ rw (n, apply_one_transition) (inr (refl, omega arith))
        | inr (script, n) ↦
            rw (n, apply_one_transition) (run_transition-OneOutcome obj path is_last script st)
      ]

  paths-Completes :
      (obj : PlannedObject) (paths : List Text) (st : Run)
      → st.result.failed ≡ 0
      → Completes (length paths) st (apply_paths world layout obj paths st)
  unfolding apply_paths
  paths-Completes obj [] st z = (omega arith, λ h. omega arith)
  paths-Completes obj (path ∷ r) st z =
      let st' = apply_one_transition world layout obj path (is_empty r) st in
      ground (arith, one_transition-OneOutcome obj path (is_empty r) st, paths-Completes obj r st')

  pub transitions-Completes :
      (objects : List PlannedObject) (st : Run)
      → st.result.failed ≡ 0
      → Completes (pending_scripts objects) st (apply_transitions world layout objects st)
  unfolding apply_transitions pending_scripts
  transitions-Completes [] st z = (omega arith, λ h. omega arith)
  transitions-Completes (obj ∷ r) st z =
      let st' = apply_paths world layout obj obj.transition_paths st in
      ground (
        arith,
        paths-Completes obj obj.transition_paths st,
        transitions-Completes r st,
        transitions-Completes r st',
        is_empty-length obj.transition_paths,
      )
