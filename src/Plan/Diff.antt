-- ===== src/Plan/Diff.antt =====
-- The diff: crates/core/src/plan/diff.rs, diff_ctx.rs, diff_decide.rs, diff_fill_skip.rs,
-- diff_object.rs, diff_plan.rs and scenario_apply.rs. A panicking read is `none`.
pub mod Inversion
pub mod Totals
pub mod Rows
pub mod Total
use mssql_migrator.Prelude.{
  ℕ, zero, suc, ◌+◌, ◌-◌, ◌*◌, ◌/◌, ◌%◌, ◌^◌, ◌≤◌, ◌<◌, ◌≡◌, refl, sym, ap, ◌∙◌, ◌≢◌, ◌↔◌, ◌⊎◌, inl,
  inr, Bool, true, false, not, ◌&&◌, ◌||◌, Option, none, some, List, [], ◌∷◌, ◌++◌, map, reverse,
  arith, String, ltb, leb, ◌==◌, if◌then◌else◌, ==_iff, ==_refl, Bool-cases, Option-cases, length,
  get_elem?, set, replicate, resize, is_empty, is_empty_iff, all, any, length-append, length-set,
  length-resize, get_elem?-set_self, get_elem?-some, All, length-map, lookup, without, insert,
  lookup-without, lookup-insert, Text, codes, eq_text, starts_with, strip_prefix, ends_with,
  contains, split, push_front, join, split_once, replace, lookup_text, mem_text, mem_text-all, show,
  eq_text_iff, eq_text_refl, contains-append, contains-starts_with, join-split, starts_with-append,
  split-ne-nil,
}
use mssql_migrator.Domain.Kind.{kind_tables}
use mssql_migrator.Domain.Action.{
  Action, SchemaAction, create_schema, exists_schema, reprocess_changed, eq_action,
}
use mssql_migrator.Domain.Workspace.{
  Workspace, ObjectEntry, SchemaEntry, Digest, StrOff, u32_mod, row_id_at, object_count, entry, row,
  entry_key, row_has_transition_paths, parent_ref_for_row, key_part, db_exists,
}
use mssql_migrator.Export.PlanRow
use mssql_migrator.Export.PlanRow.{PlanRow, PlanGitOff, empty_plan_row, plan_git_off_from_script}
use mssql_migrator.Export.PlanJson.{MigrationPlan, PlannedSchema, PlanSummary}
use mssql_migrator.Plan.Scenario
use mssql_migrator.Plan.Scenario.{PlanScenario, ScenarioInput}

infixl 5 ◌>>=◌
abbrev pub ◌>>=◌ {ℓ κ} : {A : Type ℓ} {B : Type κ} → Option A → (A → Option B) → Option B
none >>= f = none
some a >>= f = f a

-- db/checksum_map.rs: digests and drift marks by key fingerprint. The fingerprint is the standard
-- library's default hasher, an argument here.
pub record ChecksumMap : Type 0 where
  pub by_fp : List (ℕ × Digest)
  pub live_definition_drift : List ℕ
  pub fingerprint : Text → ℕ

unfoldable pub has_live_definition_drift : ChecksumMap → Text → Bool
has_live_definition_drift cs key = any (λ fp. fp == cs.fingerprint key) cs.live_definition_drift

pub record DiffCounters : Type 0 where
  pub create : ℕ
  pub adopt : ℕ
  pub skip : ℕ
  pub changed : ℕ
  pub blocked : ℕ

pub record ObjectDecision : Type 0 where
  pub action : Action
  pub with_git : Bool
  pub exists : Bool

-- What the loop of `compute_diff_into` writes.
pub record DiffState : Type 0 where
  pub counters : DiffCounters
  pub plan : MigrationPlan

unfoldable pub count_scenario : PlanScenario → DiffCounters → DiffCounters
count_scenario s c =
    let c' : DiffCounters = elim (Scenario.counter_kind s) [
      | Scenario.create_kind ↦ record c { create = c.create + 1 }
      | Scenario.adopt_kind ↦ record c { adopt = c.adopt + 1 }
      | Scenario.skip_kind ↦ record c { skip = c.skip + 1 }
      | Scenario.changed_kind ↦ record c { changed = c.changed + 1 }
    ] in
    record c' { blocked = c'.blocked + Scenario.blocked_delta s }

-- The parent table's name in a blocker message.
unfoldable pub parent_table_label : Workspace → ℕ → Option Text
parent_table_label ws child_row_id = elim (parent_ref_for_row ws child_row_id) [
  | none ↦ some (codes "?")
  | some p ↦
      if p == 0
      then some (codes "?")
      else (do e ← entry ws (p - 1); key ← entry_key ws (p - 1); some (key_part key 2))
]

-- The blocker message of a scenario, for the object with the given row id.
unfoldable pub blocker_message : PlanScenario → Workspace → ℕ → Option (List Text)
blocker_message Scenario.table_blocked_no_transitions ws id = do
  key ← entry_key ws (id - 1)
  some ((codes "table " ++ key ++ codes " changed but has no non-scaffold transition scripts") ∷ [])
blocker_message Scenario.structural_change_blocked ws id = do
  key ← entry_key ws (id - 1)
  some ((key ++ codes " changed but this object kind has no safe in-place update path") ∷ [])
blocker_message Scenario.live_structural_drift_blocked ws id = do
  key ← entry_key ws (id - 1)
  some ((codes "live " ++ key ++ codes " differs from its last audited structural state") ∷ [])
blocker_message Scenario.trigger_blocked_parent_missing ws id = do
  key ← entry_key ws (id - 1)
  label ← parent_table_label ws id
  some ((codes "trigger " ++ key ++ codes " parent table " ++ label ++ codes " not found") ∷ [])
blocker_message Scenario.trigger_blocked_parent_changing ws id = do
  key ← entry_key ws (id - 1)
  label ← parent_table_label ws id
  some ((codes "trigger " ++ key ++ codes " parent table " ++ label ++ codes " is changing") ∷ [])
blocker_message _ ws id = some []

-- The action, and the blockers with the scenario's message behind them.
unfoldable pub apply_scenario :
    PlanScenario → Workspace → ℕ → List Text → Option (Action × List Text)
apply_scenario s ws id blockers = do
  message ← blocker_message s ws id
  some (Scenario.action s, blockers ++ message)

unfoldable pub scenario_at : Workspace → ChecksumMap → ℕ → ObjectEntry → ℕ → Option PlanScenario
scenario_at ws cs i e kind_code = do
  prior ← get_elem? ws.prior_by_row i
  key ← entry_key ws i
  some (
      Scenario.resolve_plan_scenario (record {
        exists = db_exists e;
        prior = prior;
        checksum = e.checksum;
        kind_code = kind_code;
        ws = ws;
        prior_digests = ws.prior_by_row;
        child_row_id = row_id_at i;
        has_transition_paths = kind_code == kind_tables && row_has_transition_paths ws i;
        live_definition_drift = has_live_definition_drift cs key;
      }))

-- The counters, the flag and the blockers once the scenario and its message are known.
unfoldable pub decided : PlanScenario → List Text → DiffState → DiffState
decided s blockers st = record {
  counters = count_scenario s st.counters;
  plan = record st.plan {
    blockers = blockers;
    blocked = st.plan.blocked || not (Scenario.blocked_delta s == 0);
  };
}

unfoldable pub decision_of : PlanScenario → Action → ObjectEntry → ObjectDecision
decision_of s a e = record { action = a; with_git = Scenario.with_git s; exists = db_exists e }

-- The state and the decision; the plan's rows are written by `fill_plan_row`.
unfoldable pub decide_object_at :
    Workspace → ChecksumMap → ℕ → ObjectEntry → ℕ → DiffState → Option (DiffState × ObjectDecision)
decide_object_at ws cs i e kind_code st = do
  s ← scenario_at ws cs i e kind_code
  (a, blockers) ← apply_scenario s ws (row_id_at i) st.plan.blockers
  some (decided s blockers st, decision_of s a e)

-- A warmed re-run leaves a row alone whose outcome is unchanged.
unfoldable pub skip_fill_unchanged : ObjectEntry → PlanRow → ObjectDecision → Bool
skip_fill_unchanged e out d =
    eq_action (PlanRow.planned_action out) d.action
    && (if PlanRow.exists out then d.exists else not d.exists)
    && eq_text out.checksum e.checksum

unfoldable pub filled_row : ObjectEntry → ObjectDecision → PlanRow → PlanRow
filled_row e d r = record (PlanRow.set_exists d.exists (PlanRow.set_planned_action d.action r)) {
  checksum = e.checksum;
}

unfoldable pub put_or_remove {ℓ} : {V : Type ℓ} → ℕ → Option V → List (ℕ × V) → List (ℕ × V)
put_or_remove k none m = without k m
put_or_remove k (some v) m = insert k v m

unfoldable pub transitions_of : Workspace → ℕ → Option (List StrOff)
transitions_of ws i = elim ws.transition_path_cache [
  | none ↦ none
  | some m ↦ lookup (row_id_at i) m
]

unfoldable pub fill_plan_row :
    Workspace → ℕ → ObjectEntry → ObjectDecision → PlanRow → MigrationPlan → MigrationPlan
fill_plan_row ws i e d r plan = if skip_fill_unchanged e r d then plan else record plan {
  rows = set plan.rows i (filled_row e d r);
  plan_git =
      put_or_remove (i % u32_mod)
        (if d.with_git then plan_git_off_from_script ws e.script_id else none) plan.plan_git;
  plan_transitions =
      put_or_remove (i % u32_mod)
        (if eq_action d.action reprocess_changed then transitions_of ws i else none)
        plan.plan_transitions;
}

-- One round of the loop over the objects.
unfoldable pub diff_object : Workspace → ChecksumMap → ℕ → DiffState → Option DiffState
diff_object ws cs i st = do
  meta ← row ws i
  e ← entry ws i
  (st', d) ← decide_object_at ws cs i e meta.kind_code st
  out ← get_elem? st'.plan.rows i
  some (record st' { plan = fill_plan_row ws i e d out st'.plan })

-- `for i in i..i + k`
unfoldable pub diff_objects : Workspace → ChecksumMap → ℕ → ℕ → DiffState → Option DiffState
diff_objects ws cs zero i st = some st
diff_objects ws cs (suc k) i st = do st' ← diff_object ws cs i st; diff_objects ws cs k (suc i) st'

-- The plan's schemas; the slots are resized to the workspace's schemas first.
unfoldable pub plan_schemas : List Text → List SchemaEntry → List PlannedSchema
plan_schemas catalog [] = []
plan_schemas catalog (s ∷ r) =
    record {
      action = if mem_text s.normalized catalog then exists_schema else create_schema;
      schema_name = s.name;
    }
    ∷ plan_schemas catalog r

unfoldable pub start_state : Workspace → List Text → MigrationPlan → DiffState
start_state ws catalog plan = record {
  counters = record { create = 0; adopt = 0; skip = 0; changed = 0; blocked = 0 };
  plan = record plan {
    blocked = false;
    blockers = [];
    rows = resize plan.rows (object_count ws) empty_plan_row;
    objects = [];
    schemas = plan_schemas catalog ws.schemas;
  };
}

unfoldable pub summary_of : Workspace → DiffCounters → PlanSummary
summary_of ws c = record {
  schema_count = length ws.schemas;
  object_count = object_count ws;
  create_count = c.create;
  adopt_count = c.adopt;
  skip_count = c.skip;
  changed_count = c.changed;
  blocked_count = c.blocked;
}

-- `compute_diff_into`, from the point where the workspace's layout, catalog facts, checksums and
-- path caches are in place; the catalog is read for its schemas.
unfoldable pub compute_diff_into :
    Workspace → List Text → ChecksumMap → MigrationPlan → Option MigrationPlan
compute_diff_into ws catalog cs plan = do
  st ← diff_objects ws cs (object_count ws) 0 (start_state ws catalog plan)
  some (record st.plan { summary = summary_of ws st.counters })
