-- ===== src/Gate/Snapshot.antt =====
-- crates/core/src/gate/snapshot.rs: what the gate remembers of a plan.
use mssql_migrator.Prelude.{Bool, List, [], ◌∷◌, ◌++◌, if◌then◌else◌, is_empty, Text, codes}
use mssql_migrator.Domain.Action.{
  Action, create_object, adopt_existing, skip_unchanged, update_existing_module, reprocess_changed,
  reprocess_changed_blocked, fail,
}
use mssql_migrator.Domain.Workspace.{Digest}
use mssql_migrator.Export.PlanJson.{PlannedObject, MigrationPlan}

pub record SnapshotObject : Type 0 where
  pub object_path : Text
  pub planned_action : Text
  pub checksum_hex : Text
  pub exists : Bool

pub record PlanSnapshot : Type 0 where
  pub objects : List (Text × SnapshotObject)
  pub version : Text
  pub blocked : Bool

abbrev pub snapshot_version : Text
snapshot_version = codes "2"

-- The action's serde name.
unfoldable pub action_str : Action → Text
action_str create_object = codes "create_object"
action_str adopt_existing = codes "adopt_existing"
action_str skip_unchanged = codes "skip_unchanged"
action_str update_existing_module = codes "update_existing_module"
action_str reprocess_changed = codes "reprocess_changed"
action_str reprocess_changed_blocked = codes "reprocess_changed_blocked"
action_str fail = codes "fail"

-- Database-qualified, unless the database is the default one.
unfoldable pub snapshot_key : PlannedObject → Text
snapshot_key obj =
    if is_empty obj.database_name
    then obj.normalized_key
    else obj.database_name ++ (codes "/" ++ obj.normalized_key)

-- `hex` is the encoding of a digest in hex, a library's.
module _ (hex : Digest → Text) where
  unfoldable pub snapshot_object : PlannedObject → SnapshotObject
  snapshot_object obj = record {
    object_path = obj.object_path;
    planned_action = action_str obj.planned_action;
    checksum_hex = hex obj.checksum;
    exists = obj.exists;
  }

  -- Inserts in order, so that a later object with the same key wins.
  unfoldable pub collect :
      List PlannedObject → List (Text × SnapshotObject) → List (Text × SnapshotObject)
  collect [] m = m
  collect (obj ∷ r) m = collect r ((snapshot_key obj, snapshot_object obj) ∷ m)

  unfoldable pub from_plan : MigrationPlan → PlanSnapshot
  from_plan plan = record {
    objects = collect plan.objects [];
    version = snapshot_version;
    blocked = plan.blocked;
  }
