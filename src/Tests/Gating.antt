-- ===== src/Tests/Gating.antt =====
-- The gate between the snapshots of concrete plans.
use mssql_migrator.Prelude.{ℕ, ◌≡◌, ◌↔◌, ◌⊎◌, true, false, List, [], ◌∷◌, is_empty, Text, codes}
use mssql_migrator.Prelude.{arith, refl, some, All, mem_text}
use mssql_migrator.Domain.Workspace.{Workspace, object_count, parent_ref_for_row}
use mssql_migrator.Plan.Diff.Total.{IsAligned}
use mssql_migrator.Gate.Delta.{expand_delta_closure}
use mssql_migrator.Gate.Delta.Closed.{IsClosed, expand_delta-IsClosed}
use mssql_migrator.Domain.Action.{adopt_existing}
use mssql_migrator.Export.PlanJson.{MigrationPlan}
use mssql_migrator.Gate.Snapshot.{from_plan}
use mssql_migrator.Gate.Compare.{compare_snapshots}
use mssql_migrator.Gate.Compare.Verdict.{KeyPasses, from_plan-HasAction, compare_snapshots_iff}
use mssql_migrator.Gate.Parity.{parity_messages}
use mssql_migrator.Gate.Parity.Equal.{SameAt, parity_messages_iff}
use mssql_migrator.Gate.Evaluate.{pos, leb_int, GateInput, evaluate_gate}
use mssql_migrator.Gate.Evaluate.Verdict.{evaluate_gate_verdict}
use mssql_migrator.Tests.Data.{plan, planned, workspace}

abbrev hex : List ℕ → Text
hex = λ digest. digest

abbrev adopting : MigrationPlan
adopting = record plan { objects = planned (codes "tables") (codes "a") adopt_existing ∷ [] }

compare_snapshots_example :
    ((compare_snapshots
        (λ keys. keys)
        (from_plan hex plan)
        (from_plan hex adopting)
        (record { delta_keys = codes "dbo/tables/a" ∷ []; strict_unexpected = true })).passed
      ≡ true)
    ↔ (((from_plan hex plan).version ≡ (from_plan hex adopting).version)
        × (((from_plan hex adopting).blocked ≡ false) ⊎ ((from_plan hex plan).blocked ≡ true))
        × ((key : Text)
            → KeyPasses
                (from_plan hex plan)
                (from_plan hex adopting)
                (codes "dbo/tables/a" ∷ [])
                key))
compare_snapshots_example =
    compare_snapshots_iff (from_plan hex plan) (from_plan hex adopting) (codes "dbo/tables/a" ∷ [])
      (from_plan-HasAction hex plan) (from_plan-HasAction hex adopting) (λ keys. keys)
      (λ key keys h. h)

parity_example :
    (is_empty (parity_messages (λ keys. keys) (from_plan hex plan) (from_plan hex adopting)) ≡ true)
    ↔ (((from_plan hex plan).version ≡ (from_plan hex adopting).version)
        × ((from_plan hex plan).blocked ≡ (from_plan hex adopting).blocked)
        × ((key : Text) → SameAt (from_plan hex plan) (from_plan hex adopting) key))
parity_example =
    parity_messages_iff (from_plan hex plan) (from_plan hex adopting) (λ keys. keys)
      (λ key keys h. h)

abbrev input : GateInput
input = record {
  blocked = false;
  plan_wall_ms = pos 900;
  max_plan_wall_ms = pos 500;
  baseline = from_plan hex plan;
  current = from_plan hex plan;
  delta_keys = [];
}

evaluate_gate_example :
    ((evaluate_gate (λ keys. keys) input).passed ≡ true ↔ (
      (input.blocked ≡ false)
      × ((evaluate_gate (λ keys. keys) input).compare.passed ≡ true)
      × ((leb_int input.max_plan_wall_ms (pos 0) ≡ true)
          ⊎ (leb_int input.max_plan_wall_ms input.plan_wall_ms ≡ false))))
    × ((evaluate_gate (λ keys. keys) input).passed ≡ true
        ↔ ((evaluate_gate (λ keys. keys) input).messages ≡ []))
evaluate_gate_example = evaluate_gate_verdict (λ keys. keys) input

-- A table and its trigger, which is in the delta.
abbrev triggered : Workspace
triggered = record workspace {
  object_keys = codes "dbo/tables/a" ∷ codes "dbo/triggers/g" ∷ [];
  parent_by_row = (2, 1) ∷ [];
}

triggered-IsAligned : IsAligned triggered
unfolding object_count parent_ref_for_row
triggered-IsAligned = record {
  rows = refl;
  keys = refl;
  priors = refl;
  fits = omega arith;
  parents = λ id p h. ground arith;
}

expand_delta-IsClosed_example :
    (out : List Text) × (expand_delta_closure triggered (codes "/dbo/triggers/g" ∷ []) ≡ some out)
    × IsClosed triggered out
    × All (λ k. mem_text k out ≡ true) (codes "/dbo/triggers/g" ∷ [])
expand_delta-IsClosed_example =
    expand_delta-IsClosed triggered (codes "/dbo/triggers/g" ∷ []) triggered-IsAligned
