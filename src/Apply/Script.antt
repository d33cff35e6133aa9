-- ===== src/Apply/Script.antt =====
-- Loading scripts at apply time with their checksums verified again: crates/core/src/apply
-- (script_read.rs, table_records.rs, objects_exec.rs).
pub mod Verified
use mssql_migrator.Prelude.{
  ℕ, zero, suc, ◌+◌, ◌-◌, ◌*◌, ◌/◌, ◌%◌, ◌^◌, ◌≤◌, ◌<◌, ◌≡◌, refl, sym, ap, ◌∙◌, ◌≢◌, ◌↔◌, ◌⊎◌, inl,
  inr, Bool, true, false, not, ◌&&◌, ◌||◌, Option, none, some, List, [], ◌∷◌, ◌++◌, map, reverse,
  arith, String, ltb, leb, ◌==◌, if◌then◌else◌, ==_iff, ==_refl, Bool-cases, Option-cases, length,
  get_elem?, set, replicate, resize, is_empty, is_empty_iff, all, any, length-append, length-set,
  length-resize, get_elem?-set_self, get_elem?-some, get_elem?-set_ne, get_elem?-lt, All,
  length-map, lookup, without, insert, lookup-without, lookup-insert, Text, codes, eq_text,
  starts_with, strip_prefix, ends_with, contains, split, push_front, join, split_once, replace,
  lookup_text, mem_text, mem_text-all, show, eq_text_iff, eq_text_refl, contains-append,
  contains-starts_with, join-split, starts_with-append, split-ne-nil,
}
use mssql_migrator.Domain.Action.{Action, create_object, eq_action}
use mssql_migrator.Domain.Workspace.{Digest, StrOff, key_index}
use mssql_migrator.Domain.Paths.{path_lookup_candidates, parse_key}
use mssql_migrator.Domain.Layout.{Layout, Script, str_at, find_candidate}
use mssql_migrator.Export.PlanJson.{PlannedObject, git_hash, git_author, git_date}
use mssql_migrator.Scan.Checksum.{content_checksum}
use mssql_migrator.Apply.Conn.{
  HistoryRecord, Log, FileRead, contents, read_failed, World, Run, push_error, count_applied,
  record_event,
}
use mssql_migrator.Apply.Tx.{apply_in_tx}

-- What loading a script gives: its body, or a message.
pub data Loaded : Type 0 where
  body : Text → Loaded
  refused : Text → Loaded

unfoldable pub checksum_or : Digest → Option Digest → Digest
checksum_or d none = d
checksum_or d (some c) = c

module _ (world : World) where
  -- The bytes that were read, checked against the expected checksum and decoded.
  unfoldable pub verify_bytes : Digest → Text → Text → Loaded
  verify_bytes expected label bytes =
      if not (eq_text (content_checksum world.sha256 bytes) expected)
      then refused (label ++ codes ": file changed after scan; aborting before execution")
      else elim (world.from_utf8 bytes) [
        | none ↦ refused (label ++ codes ": script is not valid UTF-8")
        | some text ↦ body text
      ]

  unfoldable pub verified_body : Log → Text → Digest → Text → Loaded
  verified_body log path expected label = elim (world.read_file log path) [
    | read_failed e ↦ refused (label ++ codes ": read failed: " ++ e)
    | contents bytes ↦ verify_bytes expected label bytes
  ]

  -- The first script whose path parses to the key.
  unfoldable pub find_by_key : Text → List Script → Option Script
  find_by_key key [] = none
  find_by_key key (s ∷ r) =
      let rest = find_by_key key r in
      elim (parse_key world.to_lowercase s.path) [
        | none ↦ rest
        | some k ↦ if eq_text k key then some s else rest
      ]

  unfoldable pub find_script : Layout → PlannedObject → Option Script
  find_script layout obj =
      elim (find_candidate layout (path_lookup_candidates obj.database_name obj.object_path)) [
        | none ↦ find_by_key obj.normalized_key layout.scripts
        | some s ↦ some s
      ]

  unfoldable pub read_script : Layout → PlannedObject → Log → Loaded
  read_script layout obj log = elim (find_script layout obj) [
    | none ↦ refused (obj.normalized_key ++ codes ": script not found")
    | some s ↦ verified_body log s.abs_path (checksum_or obj.checksum s.checksum) obj.normalized_key
  ]

-- The record of a past transition of a table that is created whole.
unfoldable pub transition_record : Layout → PlannedObject → StrOff → HistoryRecord
transition_record layout obj off =
    let path = str_at layout off in
    elim (find_candidate layout (path_lookup_candidates obj.database_name path)) [
      | none ↦
          record_event path obj.checksum (git_hash obj) (git_author obj) (git_date obj)
            (codes "migration") (codes "applied")
      | some s ↦
          record_event path (checksum_or obj.checksum s.checksum) s.git_hash s.git_author s.git_date
            (codes "migration") (codes "applied")
    ]

unfoldable pub create_table_transition_records : Layout → PlannedObject → List HistoryRecord
create_table_transition_records layout obj =
    if not (eq_text obj.kind (codes "tables")) then [] else elim layout.ws.transition_path_cache [
      | none ↦ []
      | some m ↦ elim (lookup (key_index layout.ws obj.normalized_key) m) [
        | none ↦ []
        | some paths ↦ map (transition_record layout obj) paths
      ]
    ]

-- The object's own audit row, as `applied` or `adopted`.
unfoldable pub object_record : Text → PlannedObject → HistoryRecord
object_record event obj =
    record_event obj.normalized_key obj.checksum (git_hash obj) (git_author obj) (git_date obj)
      (codes "object") event

unfoldable pub object_records : Layout → PlannedObject → List HistoryRecord
object_records layout obj =
    object_record (codes "applied") obj
    ∷ (if eq_action obj.planned_action create_object
        then create_table_transition_records layout obj
        else [])

-- The transaction's outcome counted.
unfoldable pub counted : Run × Bool → Run
counted (st, true) = count_applied st
counted (st, false) = st

unfoldable pub exec_object : World → Layout → PlannedObject → Run → Run
unfolding counted
exec_object world layout obj st = elim (read_script world layout obj st.log) [
  | refused msg ↦ push_error msg st
  | body text ↦ counted (apply_in_tx world text (object_records layout obj) obj.normalized_key st)
]
