-- ===== src/Engine/Run.antt =====
-- crates/core/src/engine/apply_run.rs, adopt_gate.rs, blocked.rs, run/plan_phase.rs, run/types.rs and
-- run/database.rs: one command on one database. A panicking read is `none`.
pub mod Guarded
pub mod Released
use mssql_migrator.Prelude.{
  ℕ, zero, suc, ◌+◌, ◌-◌, ◌*◌, ◌/◌, ◌%◌, ◌^◌, ◌≤◌, ◌<◌, ◌≡◌, refl, sym, ap, ◌∙◌, ◌≢◌, ◌↔◌, ◌⊎◌, inl,
  inr, Bool, true, false, not, ◌&&◌, ◌||◌, Option, none, some, List, [], ◌∷◌, ◌++◌, map, reverse,
  arith, String, ltb, leb, ◌==◌, if◌then◌else◌, ==_iff, ==_refl, Bool-cases, Option-cases, length,
  get_elem?, set, replicate, resize, is_empty, is_empty_iff, all, any, length-append, length-set,
  length-resize, get_elem?-set_self, get_elem?-some, get_elem?-set_ne, get_elem?-lt, All,
  length-map, length_pos, lookup, without, insert, lookup-without, lookup-insert, Text, codes,
  eq_text, starts_with, strip_prefix, ends_with, contains, split, push_front, join, split_once,
  replace, lookup_text, mem_text, mem_text-all, show, eq_text_iff, eq_text_refl, contains-append,
  contains-starts_with, join-split, starts_with-append, split-ne-nil,
}
use mssql_migrator.Error.{Error, plan_blocked, Result, ok, err, ◌>>◌}
use mssql_migrator.Domain.Action.{Action, adopt_existing, eq_action}
use mssql_migrator.Domain.Workspace.{Workspace, Digest}
use mssql_migrator.Domain.Layout.{Layout}
use mssql_migrator.Export.PlanJson.{MigrationPlan, PlannedObject, default_plan}
use mssql_migrator.Export.Materialize.{ensure_objects_materialized, uses_slim_rows}
use mssql_migrator.Export.Filter.{Checksums, has_transitions}
use mssql_migrator.Plan.Diff.{ChecksumMap, ◌>>=◌, compute_diff_into}
use mssql_migrator.Apply.Conn.{Log, World, ApplyResult}
use mssql_migrator.Apply.Execute.{
  Outcome, MetadataMode, execute_plan, execute_metadata_plan, baseline, repair_checksum, is_repair,
}
use mssql_migrator.Engine.Lock.{ℤ, acquire, release}
use mssql_migrator.Engine.Filter.{filter_applied}

pub data Command : Type 0 where
  plan_only migrate validate : Command
  baseline_all repair_all : Command
  version : Command

unfoldable pub command_mutates : Command → Bool
command_mutates migrate = true
command_mutates baseline_all = true
command_mutates repair_all = true
command_mutates plan_only = false
command_mutates validate = false
command_mutates version = false

unfoldable pub command_label : Command → Text
command_label plan_only = codes "plan"
command_label migrate = codes "migrate"
command_label validate = codes "validate"
command_label baseline_all = codes "baseline"
command_label repair_all = codes "repair-checksum"
command_label version = codes "version"

-- What the database phase gives: the prepared workspace, the catalog's schemas and the checksums.
pub record Inspected : Type 0 where
  pub layout : Layout
  pub catalog : List Text
  pub checksums : ChecksumMap

-- The configuration and the world of a run. The phases that are arguments here may send statements
-- of their own: they are given the log and give it back.
pub record Env : Type 0 where
  pub world : World
  pub catalog_cache : Bool
  pub allow_adopt : Bool
  pub lock_timeout : ℕ
  pub lock_code : Log → Option ℤ
  pub hex : Digest → Text
  pub now : Text
  pub inspect : Command → Log → Log × Result Inspected
  pub load_applied : Log → Log × Result Checksums
  pub scaffold : Layout → MigrationPlan → Log → Log × Option Error
  pub save_snapshot : Layout → Log → Log

-- The log, and the value or error that a function gives back.
abbrev pub Done {ℓ} : Type ℓ → Type ℓ
Done A = Log × Result A

unfoldable pub labelled : Command → Env → MigrationPlan → MigrationPlan
unfolding command_label
labelled cmd env p = record p { command = command_label cmd; planned_at = env.now }

unfoldable pub materialized : Layout → MigrationPlan → Option MigrationPlan
unfolding uses_slim_rows
materialized layout p = if uses_slim_rows p then ensure_objects_materialized layout p else some p

-- `compute_diff`, which starts from the default plan; its plan is labelled and materialized.
unfoldable pub plan_of : Command → Env → Inspected → Option MigrationPlan
unfolding labelled materialized
plan_of cmd env db = do
  p ← compute_diff_into db.layout.ws db.catalog db.checksums default_plan
  materialized db.layout (labelled cmd env p)

unfoldable pub plan_phase : Command → Env → Log → Option (Done (Layout × MigrationPlan))
unfolding plan_of
plan_phase cmd env log =
    let (log', found) = env.inspect cmd log in
    elim found [
      | err e ↦ some (log', err e)
      | ok db ↦ elim (plan_of cmd env db) [ none ↦ none | some p ↦ some (log', ok (db.layout, p)) ]
    ]

-- Adoption trusts a live object by its name; the plan is materialized for the test.
unfoldable pub is_adopt : PlannedObject → Bool
is_adopt o = eq_action o.planned_action adopt_existing

unfoldable pub ensure_adopt_allowed :
    Bool → Layout → MigrationPlan → Option (MigrationPlan × Option Error)
unfolding is_adopt
ensure_adopt_allowed allow_adopt layout plan = if allow_adopt then some (plan, none) else (do
  p ← ensure_objects_materialized layout plan
  some (p, if any is_adopt p.objects then some plan_blocked else none))

-- `handle_blocked_migrate`: the scaffolding's failure, or that the plan is blocked.
unfoldable pub handle_blocked_migrate : Env → Layout → MigrationPlan → Log → Log × Error
handle_blocked_migrate env layout plan log =
    let (log', failure) = env.scaffold layout plan log in
    (log', elim failure [ some e ↦ e | none ↦ plan_blocked ])

-- `EXIT_PLAN_BLOCKED`
abbrev pub exit_plan_blocked : ℕ
exit_plan_blocked = 10

-- A blocked plan fails a validation.
unfoldable pub unlocked_exit : Command → MigrationPlan → ℕ
unlocked_exit validate plan = if plan.blocked then exit_plan_blocked else 0
unlocked_exit _ plan = 0

-- What applying gives back: the log, the plan as it was changed, and the error.
abbrev pub Applied : Type 0
Applied = Log × MigrationPlan × Option Error

unfoldable pub saved : Env → Layout → Outcome → Log × Option Error
saved env layout (log, err e) = (log, some e)
saved env layout (log, ok r) =
    (if r.failed == 0 && ltb 0 r.applied then env.save_snapshot layout log else log, none)

-- `execute_plan`, which materializes a plan that is not blocked; the snapshot's failure is dropped.
unfoldable pub run_executor : Env → Layout → MigrationPlan → Log → Option Applied
unfolding saved
run_executor env layout plan log = do
  p ← (if plan.blocked then some plan else ensure_objects_materialized layout plan)
  done ← execute_plan env.world env.catalog_cache layout p log
  some ((saved env layout done).0, p, (saved env layout done).1)

-- The history is loaded if some changed table has transition scripts.
unfoldable pub load_history : Env → MigrationPlan → Log → Log × Result Checksums
load_history env plan log =
    if any has_transitions plan.objects then env.load_applied log else (log, ok [])

unfoldable pub after_filter : Env → Layout → Log → MigrationPlan → Option Error → Option Applied
unfolding run_executor
after_filter env layout log plan none = run_executor env layout plan log
after_filter env layout log plan (some e) = some (log, plan, some e)

unfoldable pub filter_and_run : Env → Layout → MigrationPlan → Log → Option Applied
unfolding load_history filter_applied after_filter
filter_and_run env layout plan log =
    let (log', history) = load_history env plan log in
    let (q, failure) = filter_applied env.hex layout plan history in
    after_filter env layout log' q failure

unfoldable pub after_gate : Env → Layout → Log → MigrationPlan → Option Error → Option Applied
unfolding filter_and_run
after_gate env layout log plan none = filter_and_run env layout plan log
after_gate env layout log plan (some e) = some (log, plan, some e)

unfoldable pub migrate_unblocked : Env → Layout → MigrationPlan → Log → Option Applied
unfolding ensure_adopt_allowed after_gate
migrate_unblocked env layout plan log = do
  (p, refused) ← ensure_adopt_allowed env.allow_adopt layout plan
  after_gate env layout log p refused

unfoldable pub run_metadata : Env → MetadataMode → Layout → MigrationPlan → Log → Option Applied
run_metadata env mode layout plan log = do
  p ←
      (if plan.blocked && not (is_repair mode)
        then some plan
        else ensure_objects_materialized layout plan)
  some (
    (execute_metadata_plan env.world env.catalog_cache p mode log).0,
    p,
    elim (execute_metadata_plan env.world env.catalog_cache p mode log).1 [
      | err e ↦ some e
      | ok r ↦ none
    ],
  )

unfoldable pub apply_plan : Command → Env → Layout → MigrationPlan → Log → Option Applied
unfolding handle_blocked_migrate migrate_unblocked run_metadata
apply_plan migrate env layout plan log =
    if plan.blocked
    then (let (log', e) = handle_blocked_migrate env layout plan log in some (log', plan, some e))
    else migrate_unblocked env layout plan log
apply_plan baseline_all env layout plan log = run_metadata env baseline layout plan log
apply_plan repair_all env layout plan log = run_metadata env repair_checksum layout plan log
apply_plan plan_only env layout plan log = some (log, plan, none)
apply_plan validate env layout plan log = some (log, plan, none)
apply_plan version env layout plan log = some (log, plan, none)

-- The exit code of the body: a blocked `migrate` still reports its plan.
unfoldable pub body_result : Command → Applied → Done (MigrationPlan × ℕ)
body_result cmd (log, plan, none) = (log, ok (plan, 0))
body_result migrate (log, plan, some plan_blocked) = (log, ok (plan, exit_plan_blocked))
body_result cmd (log, plan, some e) = (log, err e)

unfoldable pub after_plan :
    Command → Env → Log → Result (Layout × MigrationPlan) → Option (Done (MigrationPlan × ℕ))
unfolding apply_plan body_result
after_plan cmd env log (err e) = some (log, err e)
after_plan cmd env log (ok (layout, plan)) = do
  applied ← apply_plan cmd env layout plan log
  some (body_result cmd applied)

unfoldable pub locked_body : Command → Env → Log → Option (Done (MigrationPlan × ℕ))
unfolding plan_phase after_plan
locked_body cmd env log = do
  (log', planned) ← plan_phase cmd env log
  after_plan cmd env log' planned

unfoldable pub after_acquire :
    Command → Env → Log → Option Error → Option (Done (MigrationPlan × ℕ))
unfolding locked_body release
after_acquire cmd env log (some e) = some (log, err e)
after_acquire cmd env log none = do
  (log', result) ← locked_body cmd env log
  some (release env.world log', result)

unfoldable pub run_locked : Command → Env → Log → Option (Done (MigrationPlan × ℕ))
unfolding acquire after_acquire
run_locked cmd env log =
    let (log', refused) = acquire env.world env.lock_code env.lock_timeout log in
    after_acquire cmd env log' refused

-- `run_command_for_database`, on a connection: the plan and the exit code.
unfoldable pub run_command_for_database : Command → Env → Log → Option (Done (MigrationPlan × ℕ))
unfolding run_locked plan_phase
run_command_for_database cmd env log = if command_mutates cmd then run_locked cmd env log else (do
  (log', planned) ← plan_phase cmd env log
  some (elim planned [
    | err e ↦ (log', err e)
    | ok (layout, plan) ↦ (log', ok (plan, unlocked_exit cmd plan))
  ]))
