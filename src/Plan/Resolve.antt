-- ===== src/Plan/Resolve.antt =====
-- When an object is skipped, adopted, created, updated or blocked: the decision of
-- crates/core/src/plan/scenario_resolve.rs against its description.
use mssql_migrator.Prelude.{
  ℕ, ◌-◌, ◌≡◌, refl, ap, ◌≢◌, ◌↔◌, true, false, ◌||◌, Option, none, some, arith, eq_text_iff,
}
use mssql_migrator.Domain.Kind.{is_module_kind_code, kind_tables}
use mssql_migrator.Domain.Action.{reprocess_changed, update_existing_module}
use mssql_migrator.Domain.Workspace.{Digest, zero_digest, parent_ref_for_row, catalog_has_row}
use mssql_migrator.Plan.Scenario

-- There is a usable audited digest: one is recorded, and it is not the zero digest.
abbrev pub IsAudited : Option Digest → Type 0
IsAudited none = ⊥
IsAudited (some p) = p ≢ zero_digest

prior_is_iff : (o : Option Digest) (d : Digest) → (Scenario.prior_is o d ≡ true) ↔ (o ≡ some d)
unfolding Scenario.prior_is
prior_is_iff none d = (λ h. cc h, λ h. cc h)
prior_is_iff (some p) d =
    (λ h. ap some ((eq_text_iff p d).0 h), λ h. ground (arith, eq_text_iff p d))

none_iff : (o : Option Digest) → (Scenario.is_none o ≡ true) ↔ (o ≡ none)
unfolding Scenario.is_none
none_iff none = (λ h. refl, λ h. refl)
none_iff (some p) = (λ h. cc h, λ h. cc h)

-- A changed object is never classified as new, adoptable or unchanged.
resolve_changed-changed :
    (input : Scenario.ScenarioInput)
    → Scenario.counter_kind (Scenario.resolve_changed_scenario input) ≡ Scenario.changed_kind
unfolding Scenario.counter_kind Scenario.resolve_changed_scenario Scenario.trigger_scenario
    Scenario.changed_default_scenario
resolve_changed-changed input = ground arith

-- An object is skipped exactly when it exists, has an audited digest that is not zero and equals
-- its script's checksum, and its live state has not drifted.
pub skip_iff :
    (input : Scenario.ScenarioInput)
    → (Scenario.resolve_plan_scenario input ≡ Scenario.skip) ↔ (
        (input.exists ≡ true)
        × (input.prior ≡ some input.checksum)
        × (input.checksum ≢ zero_digest)
        × (input.live_definition_drift ≡ false))
unfolding Scenario.resolve_plan_scenario Scenario.counter_kind
skip_iff input = (
  λ h. ground (
    arith,
    none_iff input.prior,
    prior_is_iff input.prior zero_digest,
    prior_is_iff input.prior input.checksum,
    resolve_changed-changed input,
  ),
  λ h. ground (
    arith,
    none_iff input.prior,
    prior_is_iff input.prior zero_digest,
    prior_is_iff input.prior input.checksum,
  ),
)

IsAudited-iff :
    (o : Option Digest)
    → ((Scenario.is_none o || Scenario.prior_is o zero_digest) ≡ false) ↔ IsAudited o
unfolding Scenario.is_none Scenario.prior_is
IsAudited-iff none = (λ h. ground arith, λ h. elim h [ ])
IsAudited-iff (some p) = (
  λ h e. ground (arith, eq_text_iff p zero_digest),
  λ h. ground (arith, eq_text_iff p zero_digest),
)

-- The planned action is `reprocess_changed` exactly when the object is an existing table with a
-- usable audited digest that differs from the checksum of its script, without drift and with
-- transition paths.
pub reprocess_iff :
    (input : Scenario.ScenarioInput)
    → (Scenario.action (Scenario.resolve_plan_scenario input) ≡ reprocess_changed) ↔ (
        (input.exists ≡ true)
        × IsAudited input.prior
        × (input.prior ≢ some input.checksum)
        × (input.live_definition_drift ≡ false)
        × (input.kind_code ≡ kind_tables)
        × (input.has_transition_paths ≡ true))
unfolding Scenario.resolve_plan_scenario Scenario.resolve_changed_scenario Scenario.trigger_scenario
    Scenario.changed_default_scenario Scenario.action is_module_kind_code
reprocess_iff input = (
  λ h. ground (arith, IsAudited-iff input.prior, prior_is_iff input.prior input.checksum),
  λ h. ground (arith, IsAudited-iff input.prior, prior_is_iff input.prior input.checksum),
)

-- Only an existing object of a module kind, with a usable audited digest, is updated in place.
pub update_needs_module :
    (input : Scenario.ScenarioInput)
    → Scenario.action (Scenario.resolve_plan_scenario input) ≡ update_existing_module
    → (input.exists ≡ true) × IsAudited input.prior × (is_module_kind_code input.kind_code ≡ true)
unfolding Scenario.resolve_plan_scenario Scenario.resolve_changed_scenario Scenario.trigger_scenario
    Scenario.changed_default_scenario Scenario.action is_module_kind_code
update_needs_module input h = ground (arith, IsAudited-iff input.prior)

-- A changed trigger whose parent is recorded is updated only if that parent is known, in the
-- catalog and audited.
pub trigger_update_needs_parent :
    (input : Scenario.ScenarioInput) (parent_row_id : ℕ)
    → Scenario.resolve_plan_scenario input ≡ Scenario.trigger_update_module
    → parent_ref_for_row input.ws input.child_row_id ≡ some parent_row_id
    → (parent_row_id ≢ 0)
      × (catalog_has_row input.ws (parent_row_id - 1) ≡ true)
      × (Scenario.prior_digest_present input.prior_digests (parent_row_id - 1) ≡ true)
unfolding Scenario.resolve_plan_scenario Scenario.resolve_changed_scenario Scenario.trigger_scenario
    Scenario.changed_default_scenario
trigger_update_needs_parent input parent_row_id h p = ground arith
