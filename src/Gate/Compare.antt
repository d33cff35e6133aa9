-- ===== src/Gate/Compare.antt =====
-- crates/core/src/gate/compare/compare_core.rs: what changed between two snapshots. The order in
-- which a hash set gives its keys is an argument.

pub mod Keys
pub mod Verdict
use mssql_migrator.Prelude.{
  ℕ, zero, suc, ◌+◌, ◌-◌, ◌*◌, ◌/◌, ◌%◌, ◌^◌, ◌≤◌, ◌<◌, ◌≡◌, refl, sym, ap, ◌∙◌, ◌≢◌, ◌↔◌, ◌⊎◌, inl,
  inr, Bool, true, false, not, ◌&&◌, ◌||◌, Option, none, some, List, [], ◌∷◌, ◌++◌, map, reverse,
  arith, String, ltb, leb, ◌==◌, if◌then◌else◌, ==_iff, ==_refl, Bool-cases, Option-cases, length,
  get_elem?, set, replicate, resize, is_empty, is_empty_iff, all, any, length-append, length-set,
  length-resize, get_elem?-set_self, get_elem?-some, get_elem?-set_ne, get_elem?-lt, All,
  length-map, lookup, without, insert, lookup-without, lookup-insert, Text, codes, eq_text,
  starts_with, strip_prefix, ends_with, contains, split, push_front, join, split_once, replace,
  lookup_text, mem_text, mem_text-all, show, eq_text_iff, eq_text_refl, contains-append,
  contains-starts_with, join-split, starts_with-append, split-ne-nil,
}
use mssql_migrator.Gate.Snapshot.{SnapshotObject, PlanSnapshot}

pub record CompareOptions : Type 0 where
  pub delta_keys : List Text
  pub strict_unexpected : Bool

pub record CompareResult : Type 0 where
  pub passed : Bool
  pub messages : List Text
  pub unexpected : List Text

unfoldable pub diff_both : SnapshotObject → SnapshotObject → Text
diff_both b c =
    if not (eq_text b.planned_action c.planned_action)
    then c.planned_action
    else if not (eq_text b.checksum_hex c.checksum_hex)
    then codes "checksum"
    else if (if b.exists then not c.exists else c.exists)
    then codes "exists"
    else []

unfoldable pub diff_entry : Option SnapshotObject → Option SnapshotObject → Text
diff_entry none none = []
diff_entry none (some c) = c.planned_action
diff_entry (some b) none = b.planned_action
diff_entry (some b) (some c) = diff_both b c

unfoldable pub is_risky_action : Text → Bool
is_risky_action action =
    eq_text action (codes "fail") || eq_text action (codes "reprocess_changed_blocked")

unfoldable pub keys_of : List (Text × SnapshotObject) → List Text
keys_of [] = []
keys_of ((k, o) ∷ m) = k ∷ keys_of m

-- The check of a changed key of the delta: its current action, if it has one.
unfoldable pub check_risky : Text → Option SnapshotObject → CompareResult → CompareResult
check_risky key none res = res
check_risky key (some c) res =
    if is_risky_action c.planned_action
    then record res {
      passed = false;
      messages =
          res.messages
          ++ ((codes "risky action for " ++ (key ++ (codes ": " ++ c.planned_action))) ∷ []);
    }
    else res

-- One key of the loop.
unfoldable pub compare_key :
    PlanSnapshot → PlanSnapshot → CompareOptions → Text → CompareResult → CompareResult
compare_key baseline current opts key res =
    if is_empty (diff_entry (lookup_text key baseline.objects) (lookup_text key current.objects))
    then res
    else if mem_text key opts.delta_keys
    then check_risky key (lookup_text key current.objects) res
    else if opts.strict_unexpected
    then record res {
      passed = false;
      unexpected = res.unexpected ++ ((codes "unexpected plan change outside delta: " ++ key) ∷ []);
    }
    else res

unfoldable pub compare_keys :
    PlanSnapshot → PlanSnapshot → CompareOptions → List Text → CompareResult → CompareResult
compare_keys baseline current opts [] res = res
compare_keys baseline current opts (key ∷ r) res =
    compare_keys baseline current opts r (compare_key baseline current opts key res)

-- The result before the keys, where the versions agree.
unfoldable pub compare_start : PlanSnapshot → PlanSnapshot → CompareResult
compare_start baseline current =
    if current.blocked && not baseline.blocked
    then record { passed = false; messages = codes "plan became blocked" ∷ []; unexpected = [] }
    else record { passed = true; messages = []; unexpected = [] }

-- A failure that has no message of its own gets one.
unfoldable pub compare_end : CompareResult → CompareResult
compare_end res =
    if not res.passed && is_empty res.messages
    then record res { messages = codes "incremental plan gate failed" ∷ [] }
    else res

unfoldable pub compare_snapshots :
    (List Text → List Text) → PlanSnapshot → PlanSnapshot → CompareOptions → CompareResult
compare_snapshots iterate baseline current opts =
    let keys = iterate (keys_of baseline.objects ++ keys_of current.objects) in
    if not (eq_text baseline.version current.version)
    then record {
      passed = false;
      messages =
          (codes "snapshot version mismatch: baseline="
            ++ (baseline.version ++ (codes " current=" ++ current.version)))
          ∷ [];
      unexpected = [];
    }
    else compare_end (compare_keys baseline current opts keys (compare_start baseline current))
