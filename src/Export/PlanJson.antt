-- ===== src/Export/PlanJson.antt =====
-- crates/core/src/export/plan_json/types.rs: the plan and its parts.
use mssql_migrator.Prelude.{ℕ, Bool, false, Option, none, some, List, [], Text}
use mssql_migrator.Domain.Action.{Action, SchemaAction}
use mssql_migrator.Domain.Workspace.{Digest, StrOff}
use mssql_migrator.Export.PlanRow.{PlanRow, PlanGitOff}

pub record PlannedSchema : Type 0 where
  pub action : SchemaAction
  pub schema_name : Text

pub record PlannedGit : Type 0 where
  pub hash : Text
  pub author : Text
  pub date : Text

pub record PlannedObject : Type 0 where
  pub normalized_key : Text
  pub object_path : Text
  pub schema_name : Text
  pub kind : Text
  pub object_name : Text
  pub database_name : Text
  pub parent_name : Text
  pub transition_paths : List Text
  pub git : Option PlannedGit
  pub checksum : Digest
  pub planned_action : Action
  pub exists : Bool

unfoldable pub git_hash : PlannedObject → Text
git_hash o = elim o.git [ none ↦ [] | some g ↦ g.hash ]

unfoldable pub git_author : PlannedObject → Text
git_author o = elim o.git [ none ↦ [] | some g ↦ g.author ]

unfoldable pub git_date : PlannedObject → Text
git_date o = elim o.git [ none ↦ [] | some g ↦ g.date ]

pub record PlanSummary : Type 0 where
  pub schema_count : ℕ
  pub object_count : ℕ
  pub create_count : ℕ
  pub adopt_count : ℕ
  pub skip_count : ℕ
  pub changed_count : ℕ
  pub blocked_count : ℕ

pub record MigrationPlan : Type 0 where
  pub command : Text
  pub planned_at : Text
  pub blockers : List Text
  pub schemas : List PlannedSchema
  pub rows : List PlanRow
  pub plan_git : List (ℕ × PlanGitOff)
  pub plan_transitions : List (ℕ × List StrOff)
  pub objects : List PlannedObject
  pub summary : PlanSummary
  pub blocked : Bool

-- `MigrationPlan::default()`
abbrev pub default_summary : PlanSummary
default_summary = record {
  schema_count = 0;
  object_count = 0;
  create_count = 0;
  adopt_count = 0;
  skip_count = 0;
  changed_count = 0;
  blocked_count = 0;
}

abbrev pub default_plan : MigrationPlan
default_plan = record {
  command = [];
  planned_at = [];
  blockers = [];
  schemas = [];
  rows = [];
  plan_git = [];
  plan_transitions = [];
  objects = [];
  summary = default_summary;
  blocked = false;
}
