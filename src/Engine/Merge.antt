-- ===== src/Engine/Merge.antt =====
-- crates/core/src/engine/run/merge.rs: the plans of several databases as one. The order in which a
-- hash map is drained does not matter, since its keys differ.
pub mod Rows
use mssql_migrator.Prelude.{
  ℕ, zero, suc, ◌+◌, ◌-◌, ◌*◌, ◌/◌, ◌%◌, ◌^◌, ◌≤◌, ◌<◌, ◌≡◌, refl, sym, ap, ◌∙◌, ◌≢◌, ◌↔◌, ◌⊎◌, inl,
  inr, Bool, true, false, not, ◌&&◌, ◌||◌, Option, none, some, List, [], ◌∷◌, ◌++◌, map, reverse,
  arith, String, ltb, leb, ◌==◌, if◌then◌else◌, ==_iff, ==_refl, Bool-cases, Option-cases, length,
  get_elem?, set, replicate, resize, is_empty, is_empty_iff, all, any, length-append, length-set,
  length-resize, get_elem?-set_self, get_elem?-some, get_elem?-set_ne, get_elem?-lt, All,
  length-map, length_pos, lookup, without, insert, lookup-without, lookup-insert, Text, codes,
  eq_text, starts_with, strip_prefix, ends_with, contains, split, push_front, join, split_once,
  replace, lookup_text, mem_text, mem_text-all, show, eq_text_iff, eq_text_refl, contains-append,
  contains-starts_with, join-split, starts_with-append, split-ne-nil,
}
use mssql_migrator.Domain.Workspace.{u32_mod}
use mssql_migrator.Export.PlanJson.{MigrationPlan, PlanSummary}

-- `usize::MAX`, of 64 bits.
abbrev pub usize_max : ℕ
usize_max = 18446744073709551615

-- `saturating_add` on counts.
unfoldable pub saturating_add : ℕ → ℕ → ℕ
saturating_add a b = if ltb usize_max (a + b) then usize_max else a + b

-- Inserts the entries of a map at their keys moved by an offset, in 32 bits.
unfoldable pub drain_into {ℓ} : {V : Type ℓ} → ℕ → List (ℕ × V) → List (ℕ × V) → List (ℕ × V)
drain_into offset [] dst = dst
drain_into offset ((k, v) ∷ m) dst = insert ((offset + k) % u32_mod) v (drain_into offset m dst)

unfoldable pub merge_summary : PlanSummary → PlanSummary → PlanSummary
unfolding saturating_add
merge_summary dst src = record {
  schema_count = saturating_add dst.schema_count src.schema_count;
  object_count = saturating_add dst.object_count src.object_count;
  create_count = saturating_add dst.create_count src.create_count;
  adopt_count = saturating_add dst.adopt_count src.adopt_count;
  skip_count = saturating_add dst.skip_count src.skip_count;
  changed_count = saturating_add dst.changed_count src.changed_count;
  blocked_count = saturating_add dst.blocked_count src.blocked_count;
}

unfoldable pub merge_plan_into : MigrationPlan → MigrationPlan → MigrationPlan
unfolding drain_into merge_summary
merge_plan_into dst src =
    let row_offset = length dst.rows % u32_mod in
    record {
      command = if is_empty dst.command then src.command else dst.command;
      planned_at = if is_empty dst.planned_at then src.planned_at else dst.planned_at;
      blocked = dst.blocked || src.blocked;
      blockers = dst.blockers ++ src.blockers;
      schemas = dst.schemas ++ src.schemas;
      rows = dst.rows ++ src.rows;
      objects = dst.objects ++ src.objects;
      plan_git = drain_into row_offset src.plan_git dst.plan_git;
      plan_transitions = drain_into row_offset src.plan_transitions dst.plan_transitions;
      summary = merge_summary dst.summary src.summary;
    }

unfoldable pub merge_plan : Option MigrationPlan → MigrationPlan → Option MigrationPlan
unfolding merge_plan_into
merge_plan none src = some src
merge_plan (some dst) src = some (merge_plan_into dst src)
