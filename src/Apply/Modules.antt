-- ===== src/Apply/Modules.antt =====
-- crates/core/src/apply/modules.rs: modules in rounds, each failed one tried again after the
-- others, until a round makes no progress.
pub mod Accounting
use mssql_migrator.Prelude.{
  ℕ, zero, suc, ◌+◌, ◌-◌, ◌*◌, ◌/◌, ◌%◌, ◌^◌, ◌≤◌, ◌<◌, ◌≡◌, refl, sym, ap, ◌∙◌, ◌≢◌, ◌↔◌, ◌⊎◌, inl,
  inr, Bool, true, false, not, ◌&&◌, ◌||◌, Option, none, some, List, [], ◌∷◌, ◌++◌, map, reverse,
  arith, String, ltb, leb, ◌==◌, if◌then◌else◌, ==_iff, ==_refl, Bool-cases, Option-cases, length,
  get_elem?, set, replicate, resize, is_empty, is_empty_iff, all, any, length-append, length-set,
  length-resize, get_elem?-set_self, get_elem?-some, get_elem?-set_ne, get_elem?-lt, All,
  length-map, lookup, without, insert, lookup-without, lookup-insert, Text, codes, eq_text,
  starts_with, strip_prefix, ends_with, contains, split, push_front, join, split_once, replace,
  lookup_text, mem_text, mem_text-all, show, eq_text_iff, eq_text_refl, contains-append,
  contains-starts_with, join-split, starts_with-append, split-ne-nil,
}
use mssql_migrator.Domain.Layout.{Layout}
use mssql_migrator.Export.PlanJson.{PlannedObject}
use mssql_migrator.Apply.Conn.{World, Run, push_error}
use mssql_migrator.Apply.Script.{exec_object}

unfoldable pub push_errors : List Text → Run → Run
push_errors [] st = st
push_errors (m ∷ ms) st = push_errors ms (push_error m st)

-- `drain(n..)` splits a list into what stays and what is taken out.
unfoldable pub kept : ℕ → List Text → List Text
kept zero xs = []
kept (suc n) [] = []
kept (suc n) (x ∷ xs) = x ∷ kept n xs

unfoldable pub drained : ℕ → List Text → List Text
drained zero xs = xs
drained (suc n) [] = []
drained (suc n) (x ∷ xs) = drained n xs

unfoldable pub last_or : Text → List Text → Text
last_or d [] = d
last_or d (x ∷ []) = x
last_or d (x ∷ y ∷ r) = last_or d (y ∷ r)

-- The failure of one object taken back, with its errors handed out.
unfoldable pub withdraw : Run → Run → Run
withdraw before st = record st {
  result = record st.result {
    failed = before.result.failed;
    errors = kept (length before.result.errors) st.result.errors;
  };
}

abbrev pub rollback_failed : Text
rollback_failed = codes "rollback failed"

-- How a round ends: the connection is stuck in a dead transaction, or every object was tried.
pub data RoundEnd : Type 0 where
  zombie : Run → RoundEnd
  tried : Run → List PlannedObject → Bool → List Text → RoundEnd

module _ (world : World) (layout : Layout) where
  -- The loop over the pending objects, with its accumulators.
  unfoldable pub module_round :
      List PlannedObject → List PlannedObject → Bool → List Text → Run → RoundEnd
  module_round [] next progress final_errors st = tried st next progress final_errors
  module_round (obj ∷ pending) next progress final_errors st =
      let st' = exec_object world layout obj st in
      let errors = drained (length st.result.errors) st'.result.errors in
      let back = withdraw st st' in
      let applied = module_round pending next true final_errors st' in
      let failed =
        module_round pending (next ++ (obj ∷ [])) progress
          (final_errors
            ++ (last_or (obj.normalized_key ++ codes ": module apply failed") errors ∷ []))
          back in
      if st'.result.failed == st.result.failed
      then applied
      else if any (contains rollback_failed) errors
      then zombie (push_errors errors back)
      else failed

  -- The rounds, on fuel.
  unfoldable pub modules_loop : ℕ → List PlannedObject → Run → Option Run
  modules_loop zero pending st = none
  modules_loop (suc fuel) [] st = some st
  modules_loop (suc fuel) (obj ∷ pending) st = elim (module_round (obj ∷ pending) [] false [] st) [
    | zombie st' ↦ some st'
    | tried st' next progress final_errors ↦
        let again = modules_loop fuel next st' in
        if progress then again else some (push_errors final_errors st')
  ]

-- A round with progress shortens the list, so its length bounds the rounds.
unfoldable pub apply_modules : World → Layout → List PlannedObject → Run → Option Run
apply_modules world layout pending st = modules_loop world layout (suc (length pending)) pending st
