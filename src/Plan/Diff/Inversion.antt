-- ===== src/Plan/Diff/Inversion.antt =====
-- What a round of the diff (crates/core/src/plan/diff.rs) has read and decided.
use mssql_migrator.Prelude.{
  ℕ, ◌≡◌, refl, inl, inr, none, some, List, ◌++◌, Option-cases, get_elem?, Text,
}
use mssql_migrator.Domain.Workspace.{Workspace, ObjectEntry, ObjectRow, row_id_at, row, entry}
use mssql_migrator.Export.PlanRow.{PlanRow}
use mssql_migrator.Plan.Scenario
use mssql_migrator.Plan.Scenario.{PlanScenario}
use mssql_migrator.Plan.Diff.{
  ChecksumMap, DiffState, blocker_message, apply_scenario, scenario_at, decided, decision_of,
  decide_object_at, fill_plan_row, diff_object,
}

-- The state behind a round that found the scenario, the message and the old row.
abbrev pub round_state :
    Workspace → ℕ → ObjectEntry → PlanScenario → List Text → PlanRow → DiffState → DiffState
round_state ws i obj s message out st =
    let mid = decided s (st.plan.blockers ++ message) st in
    record mid {
      plan = fill_plan_row ws i obj (decision_of s (Scenario.action s) obj) out mid.plan;
    }

-- What the round at `i` read, and the scenario that it found.
pub record Round (ws : Workspace) (cs : ChecksumMap) (i : ℕ) (st st' : DiffState) : Type 0 where
  pub meta : ObjectRow
  pub obj : ObjectEntry
  pub scenario : PlanScenario
  pub message : List Text
  pub out : PlanRow
  pub meta_read : row ws i ≡ some meta
  pub obj_read : entry ws i ≡ some obj
  pub resolved : scenario_at ws cs i obj meta.kind_code ≡ some scenario
  pub messaged : blocker_message scenario ws (row_id_at i) ≡ some message
  pub row_read : get_elem? st.plan.rows i ≡ some out
  pub filled : st' ≡ round_state ws i obj scenario message out st

module _ (ws : Workspace) (cs : ChecksumMap) (i : ℕ) (st : DiffState) where
  -- A round whose reads succeed.
  pub diff_object-eq :
      (meta : ObjectRow) (obj : ObjectEntry) (s : PlanScenario) (m : List Text) (out : PlanRow)
      → row ws i ≡ some meta
      → entry ws i ≡ some obj
      → scenario_at ws cs i obj meta.kind_code ≡ some s
      → blocker_message s ws (row_id_at i) ≡ some m
      → get_elem? st.plan.rows i ≡ some out
      → diff_object ws cs i st ≡ some (round_state ws i obj s m out st)
  unfolding diff_object decide_object_at apply_scenario decided
  diff_object-eq meta obj s m out mr er sr br rr = rw (mr, er, sr, br, rr) refl

  missing-row : row ws i ≡ none → diff_object ws cs i st ≡ none
  unfolding diff_object
  missing-row e = rw e

  missing-entry :
      (meta : ObjectRow) → row ws i ≡ some meta → entry ws i ≡ none → diff_object ws cs i st ≡ none
  unfolding diff_object
  missing-entry meta r e = rw (r, e)

  module _ (meta : ObjectRow) (obj : ObjectEntry) (r : row ws i ≡ some meta)
      (e : entry ws i ≡ some obj) where
    missing-scenario : scenario_at ws cs i obj meta.kind_code ≡ none → diff_object ws cs i st ≡ none
    unfolding diff_object decide_object_at
    missing-scenario n = rw (r, e, n)

    missing-message :
        (s : PlanScenario)
        → scenario_at ws cs i obj meta.kind_code ≡ some s
        → blocker_message s ws (row_id_at i) ≡ none
        → diff_object ws cs i st ≡ none
    unfolding diff_object decide_object_at apply_scenario
    missing-message s p n = rw (r, e, p, n)

    missing-out :
        (s : PlanScenario) (m : List Text)
        → scenario_at ws cs i obj meta.kind_code ≡ some s
        → blocker_message s ws (row_id_at i) ≡ some m
        → get_elem? st.plan.rows i ≡ none
        → diff_object ws cs i st ≡ none
    unfolding diff_object decide_object_at apply_scenario decided
    missing-out s m p q n = rw (r, e, p, q, n)

  none-not-some :
      {st' : DiffState}
      → diff_object ws cs i st ≡ none
      → diff_object ws cs i st ≡ some st'
      → Round ws cs i st st'
  none-not-some n h = cc

  pub diff_object-Round :
      {st' : DiffState} → diff_object ws cs i st ≡ some st' → Round ws cs i st st'
  diff_object-Round h = elim (Option-cases (row ws i)) [
    | inl n ↦ none-not-some (missing-row n) h
    | inr (meta, r) ↦ elim (Option-cases (entry ws i)) [
      | inl n ↦ none-not-some (missing-entry meta r n) h
      | inr (obj, e) ↦ elim (Option-cases (scenario_at ws cs i obj meta.kind_code)) [
        | inl n ↦ none-not-some (missing-scenario meta obj r e n) h
        | inr (s, p) ↦ elim (Option-cases (blocker_message s ws (row_id_at i))) [
          | inl n ↦ none-not-some (missing-message meta obj r e s p n) h
          | inr (m, q) ↦ elim (Option-cases (get_elem? st.plan.rows i)) [
            | inl n ↦ none-not-some (missing-out meta obj r e s m p q n) h
            | inr (out, o) ↦ record {
              meta = meta;
              obj = obj;
              scenario = s;
              message = m;
              out = out;
              meta_read = r;
              obj_read = e;
              resolved = p;
              messaged = q;
              row_read = o;
              filled = cc (diff_object-eq meta obj s m out r e p q o);
            }
          ]
        ]
      ]
    ]
  ]
