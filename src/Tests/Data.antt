-- ===== src/Tests/Data.antt =====
-- A small workspace, its plan and a server for the concrete runs.
use mssql_migrator.Prelude.{ℕ, true, false, Option, none, some, [], ◌∷◌, ◌++◌, length, Text, codes}
use mssql_migrator.Domain.Kind.{kind_tables, kind_views}
use mssql_migrator.Domain.Action.{Action, create_object, create_schema, reprocess_changed, as_repr}
use mssql_migrator.Domain.Workspace.{Workspace, ObjectEntry, Digest, zero_digest}
use mssql_migrator.Domain.Layout.{Layout, Script, object_script}
use mssql_migrator.Export.PlanRow.{empty_plan_row}
use mssql_migrator.Export.PlanJson.{PlannedObject, MigrationPlan, default_plan}
use mssql_migrator.Apply.Conn.{World, Stmt, Run, batch, contents, empty_result}
use mssql_migrator.Plan.Diff.{ChecksumMap}
use mssql_migrator.Plan.Scenario

abbrev pub body_text : Text
body_text = codes "SELECT 1"

-- The digest of a text stands for itself here.
abbrev pub server : World
server = record {
  reply = λ log q. none;
  read_file = λ log path. contents body_text;
  sha256 = λ bytes. bytes;
  from_utf8 = λ bytes. some bytes;
  to_lowercase = λ s. s;
}

pub refuse : Stmt → Option Text
refuse (batch t) = some (codes "syntax")
refuse _ = none

-- A server that refuses every script.
abbrev pub refusing : World
refusing = record server { reply = λ log q. refuse q }

abbrev pub planned : Text → Text → Action → PlannedObject
planned kind name action = record {
  normalized_key = codes "dbo/" ++ (kind ++ (codes "/" ++ name));
  object_path = name ++ codes ".sql";
  schema_name = codes "dbo";
  kind = kind;
  object_name = name;
  database_name = [];
  parent_name = [];
  transition_paths = [];
  git = none;
  checksum = body_text;
  planned_action = action;
  exists = false;
}

abbrev pub table_a : PlannedObject
table_a = planned (codes "tables") (codes "a") create_object

abbrev pub view_v : PlannedObject
view_v = planned (codes "views") (codes "v") create_object

abbrev pub script_of : Text → Script
script_of name = record {
  path = name ++ codes ".sql";
  abs_path = codes "/root/" ++ (name ++ codes ".sql");
  kind = object_script;
  checksum = some body_text;
  git_hash = [];
  git_author = [];
  git_date = [];
}

abbrev pub entry_of : Digest → ℕ → ObjectEntry
entry_of checksum flags = record {
  checksum = checksum;
  key_off = (0, 0);
  script_id = 0;
  db_id = 0;
  flags = flags;
}

-- An existing table and a view that the catalog lacks.
abbrev pub workspace : Workspace
workspace = record {
  object_entries = entry_of body_text 1 ∷ entry_of body_text 0 ∷ [];
  object_keys = codes "dbo/tables/a" ∷ codes "dbo/views/v" ∷ [];
  object_rows =
      (record { schema_id = 0; kind_code = kind_tables })
      ∷ (record { schema_id = 0; kind_code = kind_views })
      ∷ [];
  catalog_flags = 0;
  key_index = [];
  parent_by_row = [];
  prior_by_row = some body_text ∷ none ∷ [];
  catalog_row = 1 ∷ 0 ∷ [];
  has_transition_paths_row = [];
  transition_path_cache = none;
  object_path_cache = none;
  script_git = [];
  schemas = (record { database = []; name = codes "dbo"; normalized = codes "dbo" }) ∷ [];
  database_names = [];
  ingest_keys = [];
  ingest_key_index = [];
}

abbrev pub checksums : ChecksumMap
checksums = record { by_fp = []; live_definition_drift = []; fingerprint = length }

abbrev pub layout : Layout
layout = record {
  ws = workspace;
  scripts = script_of (codes "a") ∷ script_of (codes "v") ∷ [];
  arena = [];
}

abbrev pub plan : MigrationPlan
plan = record default_plan {
  schemas = (record { action = create_schema; schema_name = codes "dbo" }) ∷ [];
  objects = view_v ∷ table_a ∷ [];
}

abbrev pub start : Run
start = record { log = []; result = empty_result }

-- The table is unchanged.
abbrev pub unchanged : Scenario.ScenarioInput
unchanged = record {
  exists = true;
  prior = some body_text;
  checksum = body_text;
  kind_code = kind_tables;
  ws = workspace;
  prior_digests = workspace.prior_by_row;
  child_row_id = 1;
  has_transition_paths = false;
  live_definition_drift = false;
}

-- A changed table with two transition scripts, of which the first was applied before.
abbrev pub altered_layout : Layout
altered_layout = record {
  ws = record workspace {
    object_entries =
        record (entry_of body_text 1) { script_id = 1 }
        ∷ record (entry_of body_text 0) { script_id = 2 }
        ∷ [];
  };
  scripts = script_of (codes "a") ∷ script_of (codes "v") ∷ [];
  arena = codes "t1t2";
}

abbrev pub altered_rows : MigrationPlan
altered_rows = record default_plan {
  rows =
      record empty_plan_row { action = as_repr reprocess_changed; flags = 1 }
      ∷ record empty_plan_row { action = as_repr create_object }
      ∷ [];
  plan_transitions = (0, ((0, 2) ∷ (2, 2) ∷ [])) ∷ [];
}

abbrev pub altered_object : PlannedObject
altered_object = record table_a {
  object_path = codes "a.sql";
  transition_paths = codes "t1" ∷ codes "t2" ∷ [];
  checksum = zero_digest;
  planned_action = reprocess_changed;
  exists = true;
}

abbrev pub altered_view : PlannedObject
altered_view = record view_v { checksum = zero_digest }

abbrev pub altered_plan : MigrationPlan
altered_plan = record altered_rows { objects = altered_object ∷ altered_view ∷ [] }
