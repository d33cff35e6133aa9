-- ===== src/Plan/Diff/Rows.antt =====
-- The rows of a computed plan (crates/core/src/plan/diff_object.rs).
use mssql_migrator.Domain.Kind.{kind_tables}
use mssql_migrator.Domain.Action.{
  reprocess_changed, eq_action, fail, reprocess_changed_blocked, eq_action_iff, from_repr-as_repr,
}
use mssql_migrator.Domain.Workspace.{
  Workspace, ObjectEntry, ObjectRow, object_count, row, entry, db_exists, row_id_at, entry_key,
  row_has_transition_paths,
}
use mssql_migrator.Export.PlanRow
use mssql_migrator.Export.PlanRow.{PlanRow, empty_plan_row}
use mssql_migrator.Export.PlanJson.{MigrationPlan, PlanSummary}
use mssql_migrator.Plan.Scenario
use mssql_migrator.Plan.Resolve.{reprocess_iff}
use mssql_migrator.Plan.Scenario.{
  ScenarioInput, PlanScenario, blocked_delta-action, blocked_delta-le,
}
use mssql_migrator.Plan.Diff.{
  has_live_definition_drift, ChecksumMap, DiffState, ObjectDecision, scenario_at, decided,
  decision_of, skip_fill_unchanged, filled_row, fill_plan_row, diff_object, diff_objects,
  start_state, compute_diff_into, summary_of,
}
use mssql_migrator.Plan.Diff.Inversion.{round_state, diff_object-Round}
use mathlib.Core.Path.{subst}
use native.Mathlib.Decide.{ℕ_discrete}
use mssql_migrator.Prelude.{
  ℕ, zero, suc, ◌+◌, ◌<◌, ◌≡◌, refl, sym, ap, ◌==◌, ◌&&◌, Bool-cases, ◌∙◌, ◌≢◌, ◌⊎◌, inl, inr, Bool,
  true, false, some, List, ◌++◌, arith, if◌then◌else◌, Option-cases, get_elem?, get_elem?-set_self,
  get_elem?-set_ne, get_elem?-lt, get_elem?-set_ne, get_elem?-lt, Text, eq_text_iff,
}

-- The row carries the action of the object's scenario, its existence and its checksum; and if the
-- plan is not blocked, the scenario does not block.
pub record RowAt (ws : Workspace) (cs : ChecksumMap) (p : MigrationPlan) (j : ℕ) : Type 0 where
  pub meta : ObjectRow
  pub obj : ObjectEntry
  pub scenario : PlanScenario
  pub out : PlanRow
  pub meta_read : row ws j ≡ some meta
  pub obj_read : entry ws j ≡ some obj
  pub resolved : scenario_at ws cs j obj meta.kind_code ≡ some scenario
  pub row_read : get_elem? p.rows j ≡ some out
  pub action : PlanRow.planned_action out ≡ Scenario.action scenario
  pub exists : PlanRow.exists out ≡ db_exists obj
  pub checksum : out.checksum ≡ obj.checksum
  pub unblocked : (p.blocked ≡ true) ⊎ (Scenario.blocked_delta scenario ≡ 0)

or_blocked : (b : Bool) (n : ℕ) → (b ≡ false → n ≡ 0) → (b ≡ true) ⊎ (n ≡ 0)
or_blocked true n h = inl refl
or_blocked false n h = inr (h refl)

when_open : (b : Bool) (n : ℕ) → (b ≡ true) ⊎ (n ≡ 0) → b ≡ false → n ≡ 0
when_open b n h e = ground arith

-- The row behind a fill, whether it was written or left alone.
abbrev row_after : ObjectEntry → ObjectDecision → PlanRow → PlanRow
row_after e d out = if skip_fill_unchanged e out d then out else filled_row e d out

filled_row-carries :
    (e : ObjectEntry) (d : ObjectDecision) (out : PlanRow)
    → (PlanRow.planned_action (filled_row e d out) ≡ d.action)
      × (PlanRow.exists (filled_row e d out) ≡ d.exists)
unfolding filled_row PlanRow.planned_action PlanRow.exists PlanRow.set_exists
    PlanRow.set_planned_action
filled_row-carries e d out = ground (arith, from_repr-as_repr d.action 0)

filled_row-checksum :
    (e : ObjectEntry) (d : ObjectDecision) (out : PlanRow)
    → (filled_row e d out).checksum ≡ e.checksum
unfolding filled_row
filled_row-checksum e d out = refl

row_after-carries :
    (e : ObjectEntry) (d : ObjectDecision) (out : PlanRow)
    → (PlanRow.planned_action (row_after e d out) ≡ d.action)
      × (PlanRow.exists (row_after e d out) ≡ d.exists)
      × ((row_after e d out).checksum ≡ e.checksum)
unfolding skip_fill_unchanged
row_after-carries e d out = ground (
  arith,
  filled_row-carries e d out,
  filled_row-checksum e d out,
  eq_text_iff out.checksum e.checksum,
  eq_action_iff (PlanRow.planned_action out) d.action,
)

fill-row :
    (ws : Workspace) (i : ℕ) (e : ObjectEntry) (d : ObjectDecision) (out : PlanRow)
    (p : MigrationPlan)
    → get_elem? p.rows i ≡ some out
    → get_elem? (fill_plan_row ws i e d out p).rows i ≡ some (row_after e d out)
unfolding fill_plan_row
fill-row ws i e d out p h =
    ground (arith, get_elem?-set_self p.rows i (filled_row e d out), get_elem?-lt p.rows i h)

fill-other :
    (ws : Workspace) (i j : ℕ) (e : ObjectEntry) (d : ObjectDecision) (out : PlanRow)
    (p : MigrationPlan)
    → i ≢ j
    → get_elem? (fill_plan_row ws i e d out p).rows j ≡ get_elem? p.rows j
unfolding fill_plan_row
fill-other ws i j e d out p h = ground (arith, get_elem?-set_ne p.rows i j (filled_row e d out))

fill-blocked :
    (ws : Workspace) (i : ℕ) (e : ObjectEntry) (d : ObjectDecision) (r : PlanRow)
    (p : MigrationPlan)
    → (fill_plan_row ws i e d r p).blocked ≡ p.blocked
unfolding fill_plan_row
fill-blocked ws i e d r p = ground arith

module _ (ws : Workspace) (cs : ChecksumMap) (i : ℕ) (st : DiffState) where
  round_state-new :
      (meta : ObjectRow) (obj : ObjectEntry) (s : PlanScenario) (m : List Text) (out : PlanRow)
      → row ws i ≡ some meta
      → entry ws i ≡ some obj
      → scenario_at ws cs i obj meta.kind_code ≡ some s
      → get_elem? st.plan.rows i ≡ some out
      → RowAt ws cs (round_state ws i obj s m out st).plan i
  unfolding decided decision_of
  round_state-new meta obj s m out mr er sr rr =
      let d : ObjectDecision = decision_of s (Scenario.action s) obj in
      let mid = decided s (st.plan.blockers ++ m) st in
      let carries = row_after-carries obj d out in
      record {
        meta = meta;
        obj = obj;
        scenario = s;
        out = row_after obj d out;
        meta_read = mr;
        obj_read = er;
        resolved = sr;
        row_read = fill-row ws i obj d out mid.plan rr;
        action = carries.0;
        exists = carries.1;
        checksum = carries.2;
        unblocked =
            or_blocked _ (Scenario.blocked_delta s)
              (λ h. ground (arith, fill-blocked ws i obj d out mid.plan, blocked_delta-le s));
      }

  round_state-old :
      (obj : ObjectEntry) (s : PlanScenario) (m : List Text) (out : PlanRow) (j : ℕ)
      → i ≢ j
      → RowAt ws cs st.plan j
      → RowAt ws cs (round_state ws i obj s m out st).plan j
  unfolding decided
  round_state-old obj s m out j ne a =
      let d : ObjectDecision = decision_of s (Scenario.action s) obj in
      let mid = decided s (st.plan.blockers ++ m) st in
      record {
        meta = a.meta;
        obj = a.obj;
        scenario = a.scenario;
        out = a.out;
        meta_read = a.meta_read;
        obj_read = a.obj_read;
        resolved = a.resolved;
        row_read = fill-other ws i j obj d out mid.plan ne ∙ a.row_read;
        action = a.action;
        exists = a.exists;
        checksum = a.checksum;
        unblocked = or_blocked _ (Scenario.blocked_delta a.scenario) (λ h.
            when_open st.plan.blocked (Scenario.blocked_delta a.scenario) a.unblocked
              (ground (arith, fill-blocked ws i obj d out mid.plan)));
      }

  -- A round writes its own row and keeps the rows before it.
  diff_object-RowAt :
      {st' : DiffState}
      → diff_object ws cs i st ≡ some st'
      → ((j : ℕ) → j < i → RowAt ws cs st.plan j)
      → (j : ℕ) → j < suc i
      → RowAt ws cs st'.plan j
  diff_object-RowAt h done j lt =
      let r = diff_object-Round ws cs i st h in
      rw r.filled (elim (ℕ_discrete i j) [
        | yes e ↦
            subst (RowAt ws cs (round_state ws i r.obj r.scenario r.message r.out st).plan) e (
              round_state-new r.meta r.obj r.scenario r.message r.out r.meta_read r.obj_read
                r.resolved r.row_read)
        | no ne ↦ round_state-old r.obj r.scenario r.message r.out j ne (done j (omega arith))
      ])

diff_objects-RowAt :
    (ws : Workspace) (cs : ChecksumMap) (k i : ℕ) (st : DiffState) {st' : DiffState}
    → diff_objects ws cs k i st ≡ some st'
    → ((j : ℕ) → j < i → RowAt ws cs st.plan j)
    → (j : ℕ) → j < k + i
    → RowAt ws cs st'.plan j
unfolding diff_objects
diff_objects-RowAt ws cs zero i st {st'} h done j lt =
    subst (λ s. RowAt ws cs (DiffState.plan s) j) {x = st} {y = st'} (ground arith)
      (done j (omega arith))
diff_objects-RowAt ws cs (suc k) i st {st'} h done j lt =
    elim (Option-cases (diff_object ws cs i st)) [
      | inl n ↦ absurd (ground arith)
      | inr (mid, p) ↦
          diff_objects-RowAt ws cs k (suc i) mid {st' = st'} (ground arith)
            (diff_object-RowAt ws cs i st p done) j (omega arith)
    ]

-- The summary plays no part in a row.
summary_irrelevant :
    (ws : Workspace) (cs : ChecksumMap) (p result : MigrationPlan) (j : ℕ) (s : PlanSummary)
    → result ≡ record p { summary = s }
    → RowAt ws cs p j
    → RowAt ws cs result j
summary_irrelevant ws cs p result j s e a = rw e (record {
  meta = a.meta;
  obj = a.obj;
  scenario = a.scenario;
  out = a.out;
  meta_read = a.meta_read;
  obj_read = a.obj_read;
  resolved = a.resolved;
  row_read = a.row_read;
  action = a.action;
  exists = a.exists;
  checksum = a.checksum;
  unblocked = a.unblocked;
})

executable :
    (s : PlanScenario) (out : PlanRow)
    → Scenario.blocked_delta s ≡ 0
    → PlanRow.planned_action out ≡ Scenario.action s
    → (PlanRow.planned_action out ≢ fail) × (PlanRow.planned_action out ≢ reprocess_changed_blocked)
executable s out b a =
    (λ e. ground (arith, blocked_delta-action s), λ e. ground (arith, blocked_delta-action s))

-- In a computed plan the row of each object carries the action of the scenario that the object
-- resolves to, its existence and its checksum, whatever rows the plan held before.
pub compute_diff_rows :
    (ws : Workspace) (catalog : List Text) (cs : ChecksumMap) (plan : MigrationPlan)
    {result : MigrationPlan}
    → compute_diff_into ws catalog cs plan ≡ some result
    → (j : ℕ) → j < object_count ws
    → RowAt ws cs result j
unfolding compute_diff_into
compute_diff_rows ws catalog cs plan {result} h j lt =
    elim (Option-cases (diff_objects ws cs (object_count ws) 0 (start_state ws catalog plan))) [
      | inl n ↦ absurd (ground arith)
      | inr (st, p) ↦
          let a =
            diff_objects-RowAt ws cs (object_count ws) 0 (start_state ws catalog plan) p
              (λ k l. elim l [ ]) j (omega arith) in
          summary_irrelevant ws cs st.plan result j (summary_of ws st.counters) (ground arith) a
    ]

-- A row to reprocess is that of a table with transition paths.
reprocess_at :
    (ws : Workspace) (cs : ChecksumMap) (i : ℕ) (e : ObjectEntry) (kind_code : ℕ) (s : PlanScenario)
    → scenario_at ws cs i e kind_code ≡ some s
    → Scenario.action s ≡ reprocess_changed
    → (kind_code ≡ kind_tables) × (row_has_transition_paths ws i ≡ true)
unfolding scenario_at
reprocess_at ws cs i e kind_code s resolved changed =
    elim (Option-cases (get_elem? ws.prior_by_row i)) [
      | inl n ↦ absurd (ground arith)
      | inr (prior, p) ↦ elim (Option-cases (entry_key ws i)) [
        | inl n ↦ absurd (ground arith)
        | inr (key, q) ↦
            let input : ScenarioInput = record {
              exists = db_exists e;
              prior = prior;
              checksum = e.checksum;
              kind_code = kind_code;
              ws = ws;
              prior_digests = ws.prior_by_row;
              child_row_id = row_id_at i;
              has_transition_paths = kind_code == kind_tables && row_has_transition_paths ws i;
              live_definition_drift = has_live_definition_drift cs key;
            } in
            let same : Scenario.resolve_plan_scenario input ≡ s = ground arith in
            let (live, audited, differs, drift, table, paths) =
              (reprocess_iff input).0 (ap Scenario.action same ∙ changed) in
            (table, ground (arith, paths))
      ]
    ]

-- A plan that is not marked blocked has no row with the action `fail` or `reprocess_changed_blocked`,
-- and a row with the action `reprocess_changed` is that of a table with transition paths.
pub unblocked_plan_executable :
    (ws : Workspace) (catalog : List Text) (cs : ChecksumMap) (plan : MigrationPlan)
    {result : MigrationPlan}
    → compute_diff_into ws catalog cs plan ≡ some result
    → result.blocked ≡ false
    → (j : ℕ) → j < object_count ws
    → (out : PlanRow) × (get_elem? result.rows j ≡ some out)
      × (PlanRow.planned_action out ≢ fail)
      × (PlanRow.planned_action out ≢ reprocess_changed_blocked)
      × ((PlanRow.planned_action out ≢ reprocess_changed)
          ⊎ ((meta : ObjectRow) × (row ws j ≡ some meta)
              × (meta.kind_code ≡ kind_tables)
              × (row_has_transition_paths ws j ≡ true)))
unblocked_plan_executable ws catalog cs plan {result} h open_plan j lt =
    let a = compute_diff_rows ws catalog cs plan h j lt in
    let fine =
      executable a.scenario a.out
        (when_open result.blocked (Scenario.blocked_delta a.scenario) a.unblocked open_plan)
        a.action in
    (
      a.out,
      a.row_read,
      fine.0,
      fine.1,
      elim (Bool-cases (eq_action (PlanRow.planned_action a.out) reprocess_changed)) [
        | inl e ↦
            let changed = sym a.action ∙ (eq_action_iff _ _).0 e in
            let (table, paths) =
              reprocess_at ws cs j a.obj a.meta.kind_code a.scenario a.resolved changed in
            inr (a.meta, a.meta_read, table, paths)
        | inr e ↦ inl (λ h. ground (arith, (eq_action_iff _ _).1 h))
      ],
    )
