-- ===== src/Export/PlanRow.antt =====
-- crates/core/src/export/plan_row.rs and plan_side.rs: the dense plan row and its git side row.
use mssql_migrator.Prelude.{
  ℕ, ◌+◌, ◌-◌, ◌%◌, ◌≡◌, refl, Bool, ◌&&◌, Option, none, some, arith, ◌==◌, if◌then◌else◌, lookup,
}
use mssql_migrator.Domain.Action.{
  Action, fail, skip_unchanged, as_repr, from_repr, from_repr-as_repr,
}
use mssql_migrator.Domain.Workspace.{Workspace, Digest, StrOff, zero_digest}

pub record PlanRow : Type 0 where
  pub action : ℕ
  pub flags : ℕ
  pub checksum : Digest

unfoldable pub planned_action : PlanRow → Action
planned_action r = elim (from_repr r.action) [ none ↦ fail | some a ↦ a ]

unfoldable pub set_planned_action : Action → PlanRow → PlanRow
set_planned_action a r = record r { action = as_repr a }

-- `PLAN_FLAG_EXISTS` is the lowest bit.
unfoldable pub exists : PlanRow → Bool
exists r = r.flags % 2 == 1

unfoldable pub set_exists : Bool → PlanRow → PlanRow
set_exists e r = record r {
  flags = if e then (if r.flags % 2 == 1 then r.flags else r.flags + 1) else r.flags - r.flags % 2;
}

-- diff_plan.rs
unfoldable pub empty_plan_row : PlanRow
empty_plan_row = record { action = as_repr skip_unchanged; flags = 0; checksum = zero_digest }

pub record PlanGitOff : Type 0 where
  pub hash_off : StrOff
  pub author_off : StrOff
  pub date_off : StrOff

unfoldable pub git_is_empty : PlanGitOff → Bool
git_is_empty g = g.hash_off.1 == 0 && g.author_off.1 == 0 && g.date_off.1 == 0

unfoldable pub plan_git_off_from_script : Workspace → ℕ → Option PlanGitOff
plan_git_off_from_script ws script_id = elim (lookup script_id ws.script_git) [
  | none ↦ none
  | some git ↦
      let off : PlanGitOff = record {
        hash_off = git.hash_off;
        author_off = git.author_off;
        date_off = git.date_off;
      } in
      if git_is_empty off then none else some off
]

-- A written row reads back: the action, the flag and the checksum are independent columns.
pub row_write_read :
    (a : Action) (e : Bool) (r : PlanRow)
    → (planned_action (set_exists e (set_planned_action a r)) ≡ a)
      × (exists (set_exists e (set_planned_action a r)) ≡ e)
      × ((set_exists e (set_planned_action a r)).checksum ≡ r.checksum)
unfolding planned_action set_planned_action exists set_exists
row_write_read a e r = (ground (arith, from_repr-as_repr a 0), ground arith, refl)
