-- ===== src/Plan/Scenario.antt =====
-- crates/core/src/plan/scenario.rs and scenario_resolve.rs: the scenario of one object.
use mssql_migrator.Prelude.{
  ℕ, ◌-◌, ◌≤◌, ◌≡◌, ◌↔◌, ◌⊎◌, Bool, true, false, not, ◌||◌, Option, none, some, List, arith, ◌==◌,
  if◌then◌else◌, get_elem?, eq_text,
}
use mssql_migrator.Domain.Kind.{is_module_kind_code, kind_tables, kind_triggers}
use mssql_migrator.Domain.Action.{
  Action, create_object, adopt_existing, skip_unchanged, update_existing_module, reprocess_changed,
  reprocess_changed_blocked, fail,
}
use mssql_migrator.Domain.Workspace.{
  Workspace, Digest, zero_digest, parent_ref_for_row, catalog_has_row,
}

pub data PlanScenario : Type 0 where
  create adopt skip table_reprocess table_blocked_no_transitions : PlanScenario
  trigger_update_module trigger_blocked_parent_missing : PlanScenario
  trigger_blocked_parent_changing module_update reprocess : PlanScenario
  structural_change_blocked live_structural_drift_blocked : PlanScenario

unfoldable pub action : PlanScenario → Action
action create = create_object
action adopt = adopt_existing
action skip = skip_unchanged
action table_reprocess = reprocess_changed
action reprocess = reprocess_changed
action structural_change_blocked = fail
action live_structural_drift_blocked = fail
action table_blocked_no_transitions = reprocess_changed_blocked
action trigger_blocked_parent_missing = reprocess_changed_blocked
action trigger_blocked_parent_changing = reprocess_changed_blocked
action trigger_update_module = update_existing_module
action module_update = update_existing_module

unfoldable pub with_git : PlanScenario → Bool
with_git skip = false
with_git _ = true

unfoldable pub blocked_delta : PlanScenario → ℕ
blocked_delta table_blocked_no_transitions = 1
blocked_delta structural_change_blocked = 1
blocked_delta live_structural_drift_blocked = 1
blocked_delta trigger_blocked_parent_missing = 1
blocked_delta trigger_blocked_parent_changing = 1
blocked_delta _ = 0

pub data CounterKind : Type 0 where
  create_kind adopt_kind skip_kind changed_kind : CounterKind

unfoldable pub counter_kind : PlanScenario → CounterKind
counter_kind create = create_kind
counter_kind adopt = adopt_kind
counter_kind skip = skip_kind
counter_kind _ = changed_kind

pub record ScenarioInput : Type 0 where
  pub exists : Bool
  pub prior : Option Digest
  pub checksum : Digest
  pub kind_code : ℕ
  pub ws : Workspace
  pub prior_digests : List (Option Digest)
  pub child_row_id : ℕ
  pub has_transition_paths : Bool
  pub live_definition_drift : Bool

-- `prior == Some(digest)`
unfoldable pub prior_is : Option Digest → Digest → Bool
prior_is none digest = false
prior_is (some p) digest = eq_text p digest

unfoldable pub is_none {ℓ} : {A : Type ℓ} → Option A → Bool
is_none none = true
is_none (some a) = false

-- diff_prepare.rs
unfoldable pub prior_digest_present : List (Option Digest) → ℕ → Bool
prior_digest_present priors i = elim (get_elem? priors i) [
  | none ↦ false
  | some o ↦ elim o [ none ↦ false | some cs ↦ not (eq_text cs zero_digest) ]
]

unfoldable pub changed_default_scenario : ℕ → PlanScenario
changed_default_scenario kind_code =
    if is_module_kind_code kind_code then module_update else structural_change_blocked

-- The trigger's parent table: recorded, known, in the catalog, and audited.
unfoldable pub trigger_scenario : ScenarioInput → PlanScenario
trigger_scenario input = elim (parent_ref_for_row input.ws input.child_row_id) [
  | none ↦ changed_default_scenario input.kind_code
  | some parent_row_id ↦
      if parent_row_id == 0
      then trigger_blocked_parent_missing
      else if not (catalog_has_row input.ws (parent_row_id - 1))
      then trigger_blocked_parent_missing
      else if not (prior_digest_present input.prior_digests (parent_row_id - 1))
      then trigger_blocked_parent_changing
      else trigger_update_module
]

unfoldable pub resolve_changed_scenario : ScenarioInput → PlanScenario
resolve_changed_scenario input =
    if input.kind_code == kind_tables
    then (if not input.has_transition_paths then table_blocked_no_transitions else table_reprocess)
    else if input.kind_code == kind_triggers
    then trigger_scenario input
    else changed_default_scenario input.kind_code

unfoldable pub resolve_plan_scenario : ScenarioInput → PlanScenario
resolve_plan_scenario input =
    if not input.exists
    then create
    else if is_none input.prior || prior_is input.prior zero_digest
    then adopt
    else if input.live_definition_drift
    then (if is_module_kind_code input.kind_code
        then module_update
        else live_structural_drift_blocked)
    else if prior_is input.prior input.checksum
    then skip
    else resolve_changed_scenario input

-- A blocking scenario is one whose action the executor cannot carry out.
pub blocked_delta-action :
    (s : PlanScenario)
    → (blocked_delta s ≡ 1) ↔ ((action s ≡ fail) ⊎ (action s ≡ reprocess_changed_blocked))
unfolding blocked_delta action
blocked_delta-action s = (ground arith, ground arith)

pub blocked_delta-le : (s : PlanScenario) → blocked_delta s ≤ 1
unfolding blocked_delta
blocked_delta-le s = ground arith
