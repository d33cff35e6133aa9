-- ===== src/Gate/Evaluate/Verdict.antt =====
-- What a verdict says (crates/core/src/gate/evaluate.rs).
use mssql_migrator.Prelude.{
  ◌≡◌, refl, ◌↔◌, ◌⊎◌, true, false, ◌&&◌, Option, none, some, List, [], ◌∷◌, ◌++◌, arith, is_empty,
  Text, lookup_text,
}
use mssql_migrator.Gate.Snapshot.{SnapshotObject, PlanSnapshot}
use mssql_migrator.Gate.Compare.{
  CompareOptions, CompareResult, keys_of, check_risky, compare_key, compare_keys, compare_start,
  compare_end, compare_snapshots,
}
use mssql_migrator.Gate.Evaluate.{pos, leb_int, GateInput, is_slow, evaluate_gate}

-- The result has passed exactly when it says nothing.
abbrev Reported : CompareResult → Type 0
Reported res = (res.passed ≡ true) ↔ ((is_empty res.messages && is_empty res.unexpected) ≡ true)

append-nonempty {ℓ} : {A : Type ℓ} (xs : List A) (x : A) → is_empty (xs ++ (x ∷ [])) ≡ false
append-nonempty [] x = refl
append-nonempty (y ∷ xs) x = refl

check_risky-Reported :
    (key : Text) (o : Option SnapshotObject) (res : CompareResult)
    → Reported res
    → Reported (check_risky key o res)
unfolding check_risky
check_risky-Reported key none res r = r
check_risky-Reported key (some c) res r =
    (λ h. ground (arith, r.0), λ h. ground (arith, r.1, append-nonempty res.messages))

compare_key-Reported :
    (b c : PlanSnapshot) (opts : CompareOptions) (key : Text) (res : CompareResult)
    → Reported res
    → Reported (compare_key b c opts key res)
unfolding compare_key
compare_key-Reported b c opts key res r =
    let risky = check_risky-Reported key (lookup_text key c.objects) res r in
    (
      λ h. ground (arith, r.0, risky.0),
      λ h. ground (arith, r.1, risky.1, append-nonempty res.unexpected),
    )

compare_keys-Reported :
    (b c : PlanSnapshot) (opts : CompareOptions) (keys : List Text) (res : CompareResult)
    → Reported res
    → Reported (compare_keys b c opts keys res)
unfolding compare_keys
compare_keys-Reported b c opts [] res r = r
compare_keys-Reported b c opts (key ∷ keys) res r =
    compare_keys-Reported b c opts keys (compare_key b c opts key res)
      (compare_key-Reported b c opts key res r)

compare_snapshots-Reported :
    (iterate : List Text → List Text) (b c : PlanSnapshot) (opts : CompareOptions)
    → Reported (compare_snapshots iterate b c opts)
unfolding compare_snapshots compare_start compare_end
compare_snapshots-Reported iterate b c opts =
    let keys = iterate (keys_of b.objects ++ keys_of c.objects) in
    let start : Reported (compare_start b c) = (λ h. ground arith, λ h. ground arith) in
    let loop = compare_keys-Reported b c opts keys (compare_start b c) start in
    (λ h. ground (arith, loop.0), λ h. ground (arith, loop.1))

-- The gate passes exactly when the plan is not blocked, the comparison passes, and there is no time
-- limit or the plan took less; and it passes exactly when it has no message to give.
pub evaluate_gate_verdict :
    (iterate : List Text → List Text) (input : GateInput)
    → ((evaluate_gate iterate input).passed ≡ true ↔ (
        (input.blocked ≡ false)
        × ((evaluate_gate iterate input).compare.passed ≡ true)
        × ((leb_int input.max_plan_wall_ms (pos 0) ≡ true)
            ⊎ (leb_int input.max_plan_wall_ms input.plan_wall_ms ≡ false))))
      × ((evaluate_gate iterate input).passed ≡ true
          ↔ ((evaluate_gate iterate input).messages ≡ []))
unfolding evaluate_gate is_slow
evaluate_gate_verdict iterate input =
    let opts : CompareOptions = record {
      delta_keys = input.delta_keys;
      strict_unexpected = true;
    } in
    let cmp = compare_snapshots iterate input.baseline input.current opts in
    let reported = compare_snapshots-Reported iterate input.baseline input.current opts in
    (
      (λ h. ground arith, λ h. ground arith),
      (λ h. ground (arith, reported.0), λ h. ground (arith, reported.1)),
    )
