-- ===== src/Plan/Diff/Total.antt =====
-- The diff of crates/core/src/plan/diff.rs on a workspace whose columns are aligned.
use mssql_migrator.Prelude.{
  ℕ, zero, suc, ◌+◌, ◌-◌, ◌≤◌, ◌<◌, ◌≡◌, refl, ◌∙◌, ◌≢◌, inl, inr, Option, none, some, List, [],
  arith, ◌==◌, Bool-cases, Option-cases, length, length-set, length-resize, get_elem?-some, Text,
}
use mssql_migrator.Domain.Workspace.{
  Workspace, ObjectEntry, u32_mod, object_count, row_id_at, row, entry, entry_key,
  parent_ref_for_row,
}
use mssql_migrator.Export.PlanRow.{PlanRow, empty_plan_row}
use mssql_migrator.Export.PlanJson.{MigrationPlan}
use mssql_migrator.Plan.Scenario
use mssql_migrator.Plan.Scenario.{PlanScenario}
use mssql_migrator.Plan.Diff.{
  ChecksumMap, DiffState, ObjectDecision, blocker_message, parent_table_label, scenario_at, decided,
  decision_of, filled_row, fill_plan_row, diff_object, diff_objects, start_state, summary_of,
  compute_diff_into,
}
use mssql_migrator.Plan.Diff.Inversion.{round_state, diff_object-eq}

-- The columns are as long as the entries, row ids fit 32 bits, and a recorded parent is a row of
-- the workspace (`0` stands for an unknown one).
pub record IsAligned (ws : Workspace) : Type 0 where
  pub rows : length ws.object_rows ≡ object_count ws
  pub keys : length ws.object_keys ≡ object_count ws
  pub priors : length ws.prior_by_row ≡ object_count ws
  pub fits : object_count ws < u32_mod
  pub parents : (id p : ℕ) → parent_ref_for_row ws id ≡ some p → p ≤ object_count ws

fill-length :
    (ws : Workspace) (i : ℕ) (e : ObjectEntry) (d : ObjectDecision) (r : PlanRow)
    (p : MigrationPlan)
    → length (fill_plan_row ws i e d r p).rows ≡ length p.rows
unfolding fill_plan_row
fill-length ws i e d r p = ground (arith, length-set {0} p.rows i (filled_row e d r))

fill-objects :
    (ws : Workspace) (i : ℕ) (e : ObjectEntry) (d : ObjectDecision) (r : PlanRow)
    (p : MigrationPlan)
    → (fill_plan_row ws i e d r p).objects ≡ p.objects
unfolding fill_plan_row
fill-objects ws i e d r p = ground arith

-- One row for each object, and no object materialized.
abbrev pub IsFresh : Workspace → MigrationPlan → Type 0
IsFresh ws p = (length p.rows ≡ object_count ws) × (p.objects ≡ [])

pub known {ℓ} : {A : Type ℓ} (o : Option A) → o ≢ none → (a : A) × (o ≡ some a)
known none h = absurd (h refl)
known (some a) h = (a, refl)

module _ (ws : Workspace) (aligned : IsAligned ws) where
  pub key_known : (i : ℕ) → i < object_count ws → (k : Text) × (entry_key ws i ≡ some k)
  unfolding entry_key
  key_known i lt =
      let (k, p) = get_elem?-some ws.object_keys i (omega (arith, aligned.keys)) in
      (k, ground (arith, aligned.keys))

  pub entry_known : (i : ℕ) → i < object_count ws → (e : ObjectEntry) × (entry ws i ≡ some e)
  unfolding entry object_count
  entry_known i lt = get_elem?-some ws.object_entries i lt

  label-ne-none : (id : ℕ) → parent_table_label ws id ≢ none
  unfolding parent_table_label
  label-ne-none id = elim (Option-cases (parent_ref_for_row ws id)) [
    | inl n ↦ ground arith
    | inr (p, h) ↦ elim (Bool-cases (p == 0)) [
      | inl z ↦ ground arith
      | inr nz ↦
          let lt : p - 1 < object_count ws = ground (arith, aligned.parents id p h) in
          let (e, q) = entry_known (p - 1) lt in
          let (k, r) = key_known (p - 1) lt in
          rw (h, parent_table_label) (rw nz (rw q (rw r (λ x. cc x))))
    ]
  ]

  message-ne-none :
      (s : PlanScenario) (id : ℕ) (k : Text)
      → entry_key ws (id - 1) ≡ some k
      → blocker_message s ws id ≢ none
  unfolding blocker_message
  message-ne-none s id k h = ground (arith, label-ne-none id)

  pub row_id-pred : (i : ℕ) → i < object_count ws → row_id_at i - 1 ≡ i
  unfolding row_id_at
  row_id-pred i lt = omega (arith, aligned.fits)

  message_known :
      (s : PlanScenario) (i : ℕ)
      → i < object_count ws
      → (m : List Text) × (blocker_message s ws (row_id_at i) ≡ some m)
  message_known s i lt =
      let (k, h) = key_known i lt in
      known _ (message-ne-none s (row_id_at i) k (rw (row_id-pred i lt) h))

  scenario_known :
      (cs : ChecksumMap) (i : ℕ) (e : ObjectEntry) (c : ℕ)
      → i < object_count ws
      → (s : PlanScenario) × (scenario_at ws cs i e c ≡ some s)
  unfolding scenario_at
  scenario_known cs i e c lt =
      let (p, h) = get_elem?-some ws.prior_by_row i (omega (arith, aligned.priors)) in
      let (k, q) = key_known i lt in known _ (rw h (rw q (λ x. cc x)))

  -- A round succeeds, keeps the number of plan rows and materializes no object.
  round_known :
      (cs : ChecksumMap) (i : ℕ) (st : DiffState)
      → i < object_count ws
      → IsFresh ws st.plan
      → (st' : DiffState) × (diff_object ws cs i st ≡ some st') × IsFresh ws st'.plan
  unfolding decided row
  round_known cs i st lt (len, fresh) =
      let (meta, mr) = get_elem?-some ws.object_rows i (omega (arith, aligned.rows)) in
      let (obj, er) = entry_known i lt in
      let (s, sr) = scenario_known cs i obj meta.kind_code lt in
      let (m, br) = message_known s i lt in
      let (out, rr) = get_elem?-some st.plan.rows i (omega arith) in
      (
        round_state ws i obj s m out st,
        diff_object-eq ws cs i st meta obj s m out mr er sr br rr,
        (
          fill-length ws i obj (decision_of s (Scenario.action s) obj) out _ ∙ len,
          fill-objects ws i obj (decision_of s (Scenario.action s) obj) out _ ∙ fresh,
        ),
      )

  diff_objects_known :
      (cs : ChecksumMap) (k i : ℕ) (st : DiffState)
      → k + i ≤ object_count ws
      → IsFresh ws st.plan
      → (st' : DiffState) × (diff_objects ws cs k i st ≡ some st') × IsFresh ws st'.plan
  unfolding diff_objects
  diff_objects_known cs zero i st le fresh = (st, refl, fresh)
  diff_objects_known cs (suc k) i st le fresh =
      let (mid, h, fresh') = round_known cs i st (omega arith) fresh in
      let (st', p, last) = diff_objects_known cs k (suc i) mid (omega arith) fresh' in
      (st', rw h p, last)

  pub compute_diff-IsFresh :
      (catalog : List Text) (cs : ChecksumMap) (plan : MigrationPlan)
      → (result : MigrationPlan) × (compute_diff_into ws catalog cs plan ≡ some result)
        × IsFresh ws result
  unfolding compute_diff_into start_state
  compute_diff-IsFresh catalog cs plan =
      let (st, p, fresh) =
        diff_objects_known cs (object_count ws) 0 (start_state ws catalog plan) (omega arith)
          (length-resize plan.rows (object_count ws) empty_plan_row, refl) in
      (record st.plan { summary = summary_of ws st.counters }, rw p refl, fresh)

  -- On an aligned workspace the diff reads no column out of range: it computes a plan, whatever the
  -- catalog, the checksums and the old plan are.
  pub compute_diff_total :
      (catalog : List Text) (cs : ChecksumMap) (plan : MigrationPlan)
      → (result : MigrationPlan) × (compute_diff_into ws catalog cs plan ≡ some result)
  compute_diff_total catalog cs plan =
      let (result, p, fresh) = compute_diff-IsFresh catalog cs plan in (result, p)
