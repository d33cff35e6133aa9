-- ===== src/Engine/Databases.antt =====
-- crates/core/src/engine/run/mod.rs: a command on every catalog database. What one database needs is
-- an argument: its number of objects, the probe of the server for it, and its run. The timings are
-- left out.
pub mod Exit
use mssql_migrator.Prelude.{
  ℕ, Bool, true, false, not, ◌&&◌, Option, none, some, List, [], ◌∷◌, ◌++◌, ltb, leb, ◌==◌,
  if◌then◌else◌, length, is_empty, Text, codes,
}
use mssql_migrator.Error.{Error, config, Result, ok, err, exit_code}
use mssql_migrator.Export.PlanJson.{MigrationPlan}
use mssql_migrator.Engine.Filter.{join_paths}
use mssql_migrator.Engine.Run.{Command, command_mutates, version}
use mssql_migrator.Engine.Merge.{merge_plan}

pub record RunOutput : Type 0 where
  pub exit_code : ℕ
  pub plan : Option MigrationPlan

pub record Databases : Type 0 where
  pub object_count : Text → ℕ
  pub target_database_exists : Text → Result Bool
  pub run : Text → Result RunOutput

-- What the loop has gathered: the exit code, the merged plan and the databases that are missing.
pub record Gathered : Type 0 where
  pub exit : ℕ
  pub last_plan : Option MigrationPlan
  pub missing : List Text

unfoldable pub max_code : ℕ → ℕ → ℕ
max_code a b = if leb a b then b else a

-- What becomes of one database: it is passed over, missing, or it ran.
pub data Visit : Type 0 where
  pass missing_db : Visit
  ran : RunOutput → Visit
  failed : Error → Visit
  stop : Error → Visit

unfoldable pub run_visit : Bool → Result RunOutput → Visit
run_visit multi (ok out) = ran out
run_visit multi (err e) = if multi then failed e else stop e

unfoldable pub visit : Databases → Bool → Bool → Text → Visit
unfolding run_visit
visit dbs multi mutates db =
    if dbs.object_count db == 0 && multi
    then pass
    else if multi && not mutates
    then elim (dbs.target_database_exists db) [
      | err e ↦ stop e
      | ok exists ↦ if exists then run_visit multi (dbs.run db) else missing_db
    ]
    else run_visit multi (dbs.run db)

unfoldable pub gather_plan : Option MigrationPlan → Option MigrationPlan → Option MigrationPlan
gather_plan last none = last
gather_plan last (some p) = merge_plan last p

-- The state behind a visit, or the error that ends the command.
unfoldable pub after_visit : Text → Visit → Gathered → Result Gathered
unfolding max_code gather_plan
after_visit db pass st = ok st
after_visit db missing_db st = ok (record st { missing = st.missing ++ (db ∷ []) })
after_visit db (ran out) st = ok (record st {
  exit = max_code st.exit out.exit_code;
  last_plan = gather_plan st.last_plan out.plan;
})
after_visit db (failed e) st = ok (record st { exit = max_code st.exit (exit_code e) })
after_visit db (stop e) st = err e

unfoldable pub visit_all : Databases → Bool → Bool → List Text → Gathered → Result Gathered
unfolding visit after_visit
visit_all dbs multi mutates [] st = ok st
visit_all dbs multi mutates (db ∷ r) st = elim (after_visit db (visit dbs multi mutates db) st) [
  | err e ↦ err e
  | ok st' ↦ visit_all dbs multi mutates r st'
]

unfoldable pub missing_databases_error : List Text → Error
missing_databases_error dbs = config (
    codes "catalog database(s) named by the repository do not exist on the server: "
    ++ join_paths dbs)

unfoldable pub gathered_output : Gathered → Result RunOutput
unfolding missing_databases_error
gathered_output st =
    if is_empty st.missing
    then ok (record { exit_code = st.exit; plan = st.last_plan })
    else err (missing_databases_error st.missing)

unfoldable pub is_version : Command → Bool
is_version version = true
is_version _ = false

-- The databases are found, made to exist where the command needs it, and scanned, by arguments.
unfoldable pub run_command :
    Command → Result (List Text) → (List Text → Option Error) → Result Databases → Result RunOutput
unfolding is_version visit_all gathered_output command_mutates
run_command cmd found ensure_exist scanned =
    if is_version cmd then ok (record { exit_code = 0; plan = none }) else elim found [
      | err e ↦ err e
      | ok names ↦ elim (if command_mutates cmd then ensure_exist names else none) [
        | some e ↦ err e
        | none ↦ elim scanned [
          | err e ↦ err e
          | ok dbs ↦
              elim (visit_all dbs (ltb 1 (length names)) (command_mutates cmd) names
                (record { exit = 0; last_plan = none; missing = [] })) [
                  | err e ↦ err e
                  | ok st ↦ gathered_output st
                ]
        ]
      ]
    ]
