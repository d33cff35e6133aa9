-- ===== src/Lib.antt =====
-- Verification of mssql-migrator, which plans the changes that bring SQL Server databases to the
-- state of a repository of scripts, and applies them.
--
-- A run scans the scripts into a workspace (dense columns, one row per object), reads the catalog
-- and the audit history, computes a plan (a scenario and an action for each object), and executes
-- the plan: schemas, transition scripts of changed tables, transactional objects, then modules.
-- Each script runs with its history rows in one transaction.
--
-- Error models crates/core/src/error.rs, SqlIdent crates/core/src/sql_ident.rs.
-- Domain models crates/core/src/domain: Kind and Action (kind_code.rs, action.rs), Workspace (the
--   columns and accessors of workspace/ and object/), Paths (key.rs, layout_path.rs), Layout (the
--   scripts, resolved from the arena), Ingest (workspace/objects/ingest.rs, databases.rs), Store
--   (store.rs, with what workspace/objects/layout.rs writes of it) and PathCache (path_cache.rs).
-- Export models crates/core/src/export: PlanRow (plan_row.rs, plan_side.rs), PlanJson
--   (plan_json/types.rs), Materialize (materialize/object.rs, wire.rs) and Filter
--   (materialize/filter.rs).
-- The modules of Plan model crates/core/src/plan: Scenario (scenario.rs, scenario_resolve.rs,
--   diff_prepare.rs) and Diff (diff.rs, diff_decide.rs, diff_object.rs, diff_fill_skip.rs,
--   diff_plan.rs, scenario_apply.rs) and Prepare (the preparation in diff.rs and
--   scope.rs); Resolve and the children of Diff hold proofs.
-- Scan models parts of crates/core/src/scan: Checksum and Objects (parse_object.rs) and Names (the
--   extension, transition file names of transition.rs, check paths of parse.rs).
-- Apply models crates/core/src/apply: Conn (the connection and result.rs), Tx (history_write.rs),
--   Script (script_read.rs, objects_exec.rs, table_records.rs), Modules (modules.rs), Order
--   (kind.rs), Schemas, Transitions, Objects (the files of those names), Execute (mod.rs,
--   metadata.rs); their children hold proofs.
-- Gate models crates/core/src/gate: Snapshot (snapshot.rs), Compare (compare/compare_core.rs),
--   Parity (compare/parity.rs), Evaluate (evaluate.rs) and Delta (the closure in delta.rs); the
--   order in which a hash set is walked is an argument.
-- Engine models crates/core/src/engine and lock: Lock (lock/mod.rs), Filter (filter.rs), Run
--   (apply_run.rs, adopt_gate.rs, blocked.rs, run/plan_phase.rs, run/database.rs), Merge
--   (run/merge.rs) and Databases (run/mod.rs). The database phase, the load of the audit history,
--   the scaffolding of a blocked plan and the snapshot are arbitrary functions of an Env, which are
--   given the connection's log and give it back; a theorem assumes of the database phase only that
--   the workspace it leaves is aligned and has its scripts.
-- Session models crates/core/src/session: Auth (auth.rs), Protocol (protocol.rs, limits.rs),
--   Endpoint
--   (daemon/endpoint.rs) and Serve (daemon/serve_loop.rs, daemon/serve.rs, daemon_rpc.rs): one
--   client of the daemon. A Daemon has the token, the endpoint, and the answers of SQL Server and of the
--   socket after a trace of events; the lines of the client are a list.
-- Config models crates/core/src/config: Booleans (env_parse.rs) and Validate (validate.rs); the
--   environment and the databases found under the root are arguments.
-- Prelude holds the shared list, text and map helpers; Tests the concrete runs.
--
-- Text is a list of code points, bytes are numbers, a digest is a list of bytes, and maps with
-- number keys are association lists. A mutable state (the plan and counters of the diff; the
-- connection's log and the ApplyResult of the executor) is passed and given back. Reading a column
-- out of range is `none` where the code would panic.
-- Outside code is a parameter: World has the server's answer to a statement after a log of earlier
-- ones, the contents of a file at that moment, SHA-256, UTF-8 decoding and lower-casing; the diff
-- takes the fingerprint of a key, and the snapshots of the gate and the filter of applied scripts
-- the encoding of a digest in hex.
-- Nothing is assumed about them; of the gate's hash sets a theorem assumes that a walk visits each
-- key.
-- Three loops run on fuel: the delta's, with the number of objects and one, each further round
-- adding the key of one more; the checksum's, with the input's length and one, each round taking at
-- least one byte; and the rounds over modules, with their number and one, each further round having
-- fewer. Trimming extensions and printing a number take the text's length and the number as fuel.
--
-- Not modelled: the compaction of staged transitions (their column is taken as built), the scope
-- of an inspection, the arena's byte offsets (the model counts code points), process-local and on-
-- disk caches, the keys of changed paths, the gate's reports, the scan of the file tree, the
-- daemon's listener, client and proxy, the building of a configuration, scaffolding, the driver,
-- and the T-SQL that the server runs.
mod Prelude
pub mod Session
pub mod Engine
pub mod Error
pub mod Config
pub mod SqlIdent
pub mod Domain
pub mod Plan
pub mod Export
pub mod Scan
pub mod Gate
pub mod Apply
pub mod Tests
