-- ===== src/Plan/Diff/Totals.antt =====
-- The totals of a plan and its rows: the loop of crates/core/src/plan/diff.rs.
use mssql_migrator.Prelude.{
  ℕ, zero, suc, ◌+◌, ◌<◌, ◌≡◌, ◌↔◌, inl, inr, true, not, some, List, ◌++◌, arith, ◌==◌,
  Option-cases, length, length-append, Text,
}
use native.Mathlib.Nat.{zero-add}
use mathlib.Core.Path.{subst}
use mssql_migrator.Domain.Workspace.{Workspace, ObjectEntry, object_count, row_id_at}
use mssql_migrator.Export.PlanRow.{PlanRow}
use mssql_migrator.Export.PlanJson.{MigrationPlan}
use mssql_migrator.Plan.Scenario
use mssql_migrator.Plan.Scenario.{PlanScenario}
use mssql_migrator.Plan.Diff.{
  ChecksumMap, DiffCounters, DiffState, ObjectDecision, count_scenario, blocker_message,
  fill_plan_row, diff_object, diff_objects, start_state, summary_of, compute_diff_into, decided,
  decision_of,
}
use mssql_migrator.Plan.Diff.Inversion.{round_state, diff_object-Round}

-- After `i` objects: the four buckets partition them, and a blocker was written for each block.
pub record IsTallied (i : ℕ) (st : DiffState) : Type 0 where
  pub partition :
      st.counters.create + st.counters.adopt + st.counters.skip + st.counters.changed ≡ i
  pub blocked_flag : st.plan.blocked ≡ not (st.counters.blocked == 0)
  pub blocked_messages : length st.plan.blockers ≡ st.counters.blocked

blocker_message-length :
    (s : PlanScenario) (ws : Workspace) (id : ℕ) {m : List Text}
    → blocker_message s ws id ≡ some m
    → length m ≡ Scenario.blocked_delta s
unfolding blocker_message Scenario.blocked_delta
blocker_message-length Scenario.create ws id h = ground arith
blocker_message-length s ws id h = ground arith

count-partition :
    (s : PlanScenario) (c : DiffCounters)
    → let c' = count_scenario s c in
      (c'.create + c'.adopt + c'.skip + c'.changed ≡ c.create + c.adopt + c.skip + c.changed + 1)
      × (c'.blocked ≡ c.blocked + Scenario.blocked_delta s)
unfolding count_scenario
count-partition s c = ground arith

fill-blocked :
    (ws : Workspace) (i : ℕ) (e : ObjectEntry) (d : ObjectDecision) (r : PlanRow)
    (p : MigrationPlan)
    → ((fill_plan_row ws i e d r p).blocked ≡ p.blocked)
      × ((fill_plan_row ws i e d r p).blockers ≡ p.blockers)
unfolding fill_plan_row
fill-blocked ws i e d r p = ground arith

round-IsTallied :
    (ws : Workspace) (i : ℕ) (obj : ObjectEntry) (s : PlanScenario) (m : List Text) (out : PlanRow)
    (st : DiffState)
    → length m ≡ Scenario.blocked_delta s
    → IsTallied i st
    → IsTallied (suc i) (round_state ws i obj s m out st)
unfolding decided
round-IsTallied ws i obj s m out st l t = ground (
  arith,
  count-partition s st.counters,
  length-append {0} st.plan.blockers m,
  Scenario.blocked_delta-le s,
  fill-blocked ws i obj (decision_of s (Scenario.action s) obj) out
      (decided s (st.plan.blockers ++ m) st).plan,
)

diff_object-IsTallied :
    (ws : Workspace) (cs : ChecksumMap) (i : ℕ) (st : DiffState) {st' : DiffState}
    → diff_object ws cs i st ≡ some st'
    → IsTallied i st
    → IsTallied (suc i) st'
diff_object-IsTallied ws cs i st h t =
    let r = diff_object-Round ws cs i st h in
    rw r.filled (
      round-IsTallied ws i r.obj r.scenario r.message r.out st
        (blocker_message-length r.scenario ws (row_id_at i) r.messaged) t)

diff_objects-IsTallied :
    (ws : Workspace) (cs : ChecksumMap) (k i : ℕ) (st : DiffState) {st' : DiffState}
    → diff_objects ws cs k i st ≡ some st'
    → IsTallied i st
    → IsTallied (k + i) st'
unfolding diff_objects
diff_objects-IsTallied ws cs zero i st h t = rw zero-add (ground arith)
diff_objects-IsTallied ws cs (suc k) i st {st'} h t = elim (Option-cases (diff_object ws cs i st)) [
  | inl n ↦ absurd (ground arith)
  | inr (mid, p) ↦
      subst (λ n. IsTallied n st') {x = k + suc i} (omega arith)
        (diff_objects-IsTallied ws cs k (suc i) mid (ground arith)
          (diff_object-IsTallied ws cs i st p t))
]

start-IsTallied :
    (ws : Workspace) (catalog : List Text) (plan : MigrationPlan)
    → IsTallied 0 (start_state ws catalog plan)
unfolding start_state
start-IsTallied ws catalog plan = ground arith

totals :
    (ws : Workspace) (st : DiffState) (result : MigrationPlan)
    → IsTallied (object_count ws + 0) st
    → result ≡ record st.plan { summary = summary_of ws st.counters }
    → (result.summary.create_count + result.summary.adopt_count + result.summary.skip_count
          + result.summary.changed_count
        ≡ object_count ws)
      × (length result.blockers ≡ result.summary.blocked_count)
      × ((result.blocked ≡ true) ↔ (0 < result.summary.blocked_count))
unfolding summary_of
totals ws st result t e =
    rw e (omega (arith, t.partition), t.blocked_messages, (λ h. ground arith, λ h. ground arith))

-- Of a computed plan, the created, adopted, skipped and changed objects are together all objects of
-- the workspace, there is one blocker message for each blocked object, and the plan is marked
-- blocked exactly when there is one.
pub compute_diff_totals :
    (ws : Workspace) (catalog : List Text) (cs : ChecksumMap) (plan : MigrationPlan)
    {result : MigrationPlan}
    → compute_diff_into ws catalog cs plan ≡ some result
    → (result.summary.create_count + result.summary.adopt_count + result.summary.skip_count
          + result.summary.changed_count
        ≡ object_count ws)
      × (length result.blockers ≡ result.summary.blocked_count)
      × ((result.blocked ≡ true) ↔ (0 < result.summary.blocked_count))
unfolding compute_diff_into summary_of
compute_diff_totals ws catalog cs plan {result} h =
    elim (Option-cases (diff_objects ws cs (object_count ws) 0 (start_state ws catalog plan))) [
      | inl n ↦ absurd (ground arith)
      | inr (st, p) ↦
          totals ws st result
            (diff_objects-IsTallied ws cs (object_count ws) 0 _ p (start-IsTallied ws catalog plan))
            (ground arith)
    ]
