-- ===== src/Gate/Evaluate.antt =====
-- crates/core/src/gate/evaluate.rs: the verdict on a plan. Of the timings only the plan's wall time
-- is kept. `i64` is an integer, since nothing is computed with it.
pub mod Verdict
use mssql_migrator.Prelude.{
  ℕ, zero, suc, ◌+◌, ◌-◌, ◌*◌, ◌/◌, ◌%◌, ◌^◌, ◌≤◌, ◌<◌, ◌≡◌, refl, sym, ap, ◌∙◌, ◌≢◌, ◌↔◌, ◌⊎◌, inl,
  inr, Bool, true, false, not, ◌&&◌, ◌||◌, Option, none, some, List, [], ◌∷◌, ◌++◌, map, reverse,
  arith, String, ltb, leb, ◌==◌, if◌then◌else◌, ==_iff, ==_refl, Bool-cases, Option-cases, length,
  get_elem?, set, replicate, resize, is_empty, is_empty_iff, all, any, length-append, length-set,
  length-resize, get_elem?-set_self, get_elem?-some, get_elem?-set_ne, get_elem?-lt, All,
  length-map, lookup, without, insert, lookup-without, lookup-insert, Text, codes, eq_text,
  starts_with, strip_prefix, ends_with, contains, split, push_front, join, split_once, replace,
  lookup_text, mem_text, mem_text-all, show, eq_text_iff, eq_text_refl, contains-append,
  contains-starts_with, join-split, starts_with-append, split-ne-nil,
}
use mssql_migrator.Gate.Snapshot.{PlanSnapshot}
use mssql_migrator.Gate.Compare.{CompareOptions, CompareResult, compare_snapshots}

pub data ℤ : Type 0 where
  pos : ℕ → ℤ
  negsuc : ℕ → ℤ

unfoldable pub leb_int : ℤ → ℤ → Bool
leb_int (pos a) (pos b) = leb a b
leb_int (pos a) (negsuc b) = false
leb_int (negsuc a) (pos b) = true
leb_int (negsuc a) (negsuc b) = leb b a

unfoldable pub show_int : ℤ → Text
show_int (pos a) = show a
show_int (negsuc a) = codes "-" ++ show (suc a)

pub record GateInput : Type 0 where
  pub blocked : Bool
  pub plan_wall_ms : ℤ
  pub max_plan_wall_ms : ℤ
  pub baseline : PlanSnapshot
  pub current : PlanSnapshot
  pub delta_keys : List Text

pub record GateResult : Type 0 where
  pub passed : Bool
  pub messages : List Text
  pub compare : CompareResult
  pub plan_wall_ms : ℤ
  pub delta_key_count : ℕ

-- `max_plan_wall_ms > 0 && plan_wall_ms >= max_plan_wall_ms`
unfoldable pub is_slow : GateInput → Bool
is_slow input =
    not (leb_int input.max_plan_wall_ms (pos 0))
    && leb_int input.max_plan_wall_ms input.plan_wall_ms

unfoldable pub slow_message : GateInput → Text
slow_message input =
    codes "plan wall SLO exceeded: "
    ++ (show_int input.plan_wall_ms
        ++ (codes "ms >= " ++ (show_int input.max_plan_wall_ms ++ codes "ms")))

unfoldable pub evaluate_gate : (List Text → List Text) → GateInput → GateResult
evaluate_gate iterate input =
    let cmp =
      compare_snapshots iterate input.baseline input.current
        (record { delta_keys = input.delta_keys; strict_unexpected = true }) in
    record {
      passed = not input.blocked && cmp.passed && not (is_slow input);
      messages =
          (if input.blocked then codes "plan blocked" ∷ [] else [])
          ++ (cmp.messages
              ++ (cmp.unexpected ++ (if is_slow input then slow_message input ∷ [] else [])));
      compare = cmp;
      plan_wall_ms = input.plan_wall_ms;
      delta_key_count = length input.delta_keys;
    }
