-- ===== src/Gate/Compare/Verdict.antt =====
-- What it means that two snapshots pass (crates/core/src/gate/compare/compare_core.rs).
use mssql_migrator.Gate.Compare.Keys.{each_key, every}
use mssql_migrator.Prelude.{
  ◌≡◌, refl, sym, ◌∙◌, ◌≢◌, ◌↔◌, ◌⊎◌, inl, inr, true, false, Option, none, some, List, [], ◌∷◌,
  ◌++◌, arith, Bool-cases, is_empty, is_empty_iff, All, Text, eq_text, lookup_text, mem_text,
  eq_text_iff,
}
use mssql_migrator.Gate.Snapshot.{
  SnapshotObject, PlanSnapshot, action_str, snapshot_key, snapshot_object, collect, from_plan,
}
use mssql_migrator.Domain.Action.{Action}
use mssql_migrator.Domain.Workspace.{Digest}
use mssql_migrator.Export.PlanJson.{PlannedObject, MigrationPlan}
use mssql_migrator.Gate.Compare.{
  CompareResult, diff_both, diff_entry, is_risky_action, keys_of, check_risky, compare_key,
  compare_keys, compare_start, compare_end, compare_snapshots,
}

-- Both snapshots plan the same for an object, or neither has it.
abbrev pub Same : Option SnapshotObject → Option SnapshotObject → Type 0
Same none none = Unit
Same (some b) (some c) =
    (b.planned_action ≡ c.planned_action)
    × (b.checksum_hex ≡ c.checksum_hex)
    × (b.exists ≡ c.exists)
Same _ _ = ⊥

-- The object's action has a name.
abbrev pub HasAction : Option SnapshotObject → Type 0
HasAction none = Unit
HasAction (some o) = o.planned_action ≢ []

-- The object is gone, or is planned an action that is not risky.
abbrev pub NotRisky : Option SnapshotObject → Type 0
NotRisky none = Unit
NotRisky (some o) = is_risky_action o.planned_action ≡ false

action_str-nonempty : (a : Action) → action_str a ≢ []
unfolding action_str
action_str-nonempty a = ground arith

collect-HasAction :
    (hex : Digest → Text) (objects : List PlannedObject) (m : List (Text × SnapshotObject))
    → ((key : Text) → HasAction (lookup_text key m))
    → (key : Text) → HasAction (lookup_text key (collect hex objects m))
unfolding collect snapshot_object lookup_text
collect-HasAction hex [] m h key = h key
collect-HasAction hex (obj ∷ r) m h key =
    collect-HasAction hex r ((snapshot_key obj, snapshot_object hex obj) ∷ m)
      (λ k. elim (Bool-cases (eq_text (snapshot_key obj) k)) [
        | inl e ↦ rw e (action_str-nonempty obj.planned_action)
        | inr e ↦ rw e (h k)
      ])
      key

-- The snapshot of a plan names an action for each object.
pub from_plan-HasAction :
    (hex : Digest → Text) (plan : MigrationPlan) (key : Text)
    → HasAction (lookup_text key (from_plan hex plan).objects)
unfolding from_plan lookup_text
from_plan-HasAction hex plan key = collect-HasAction hex plan.objects [] (λ k. tt) key

diff_both_iff :
    (b c : SnapshotObject)
    → c.planned_action ≢ []
    → (is_empty (diff_both b c) ≡ true) ↔ Same (some b) (some c)
unfolding diff_both
diff_both_iff b c n = (
  λ h. ground (
    arith,
    eq_text_iff b.planned_action c.planned_action,
    eq_text_iff b.checksum_hex c.checksum_hex,
    is_empty_iff c.planned_action,
  ),
  λ h. ground (
    arith,
    eq_text_iff b.planned_action c.planned_action,
    eq_text_iff b.checksum_hex c.checksum_hex,
  ),
)

Same-iff :
    (b c : Option SnapshotObject)
    → HasAction b
    → HasAction c
    → (is_empty (diff_entry b c) ≡ true) ↔ Same b c
unfolding diff_entry
Same-iff none none hb hc = (λ h. tt, λ h. refl)
Same-iff none (some c) hb hc = (λ h. ground (arith, is_empty_iff c.planned_action), λ h. elim h [ ])
Same-iff (some b) none hb hc = (λ h. ground (arith, is_empty_iff b.planned_action), λ h. elim h [ ])
Same-iff (some b) (some c) hb hc = diff_both_iff b c hc

check_risky_iff :
    (key : Text) (o : Option SnapshotObject) (res : CompareResult)
    → ((check_risky key o res).passed ≡ true) ↔ ((res.passed ≡ true) × NotRisky o)
unfolding check_risky
check_risky_iff key none res = (λ h. (h, tt), λ h. h.0)
check_risky_iff key (some c) res = (λ h. ground arith, λ h. ground arith)

compare_start_iff :
    (b c : PlanSnapshot)
    → ((compare_start b c).passed ≡ true) ↔ ((c.blocked ≡ false) ⊎ (b.blocked ≡ true))
unfolding compare_start
compare_start_iff b c = (λ h. ground arith, λ h. ground arith)

compare_end_lem : (res : CompareResult) → (compare_end res).passed ≡ res.passed
unfolding compare_end
compare_end_lem res = ground arith

module _ (b c : PlanSnapshot) (delta : List Text) where
  -- Nothing changed for the key, or it may change and its new action is not risky.
  abbrev pub KeyPasses : Text → Type 0
  KeyPasses key =
      Same (lookup_text key b.objects) (lookup_text key c.objects)
      ⊎ ((mem_text key delta ≡ true) × NotRisky (lookup_text key c.objects))

  module _ (actions_b : (key : Text) → HasAction (lookup_text key b.objects))
      (actions_c : (key : Text) → HasAction (lookup_text key c.objects)) where
    compare_key_iff :
        (key : Text) (res : CompareResult)
        → ((compare_key b c
              (record { delta_keys = delta; strict_unexpected = true })
              key
              res).passed
            ≡ true)
          ↔ ((res.passed ≡ true) × KeyPasses key)
    unfolding compare_key
    compare_key_iff key res =
        let same =
          Same-iff (lookup_text key b.objects) (lookup_text key c.objects) (actions_b key)
            (actions_c key) in
        let risky = check_risky_iff key (lookup_text key c.objects) res in
        elim (Bool-cases
          (is_empty (diff_entry (lookup_text key b.objects) (lookup_text key c.objects)))) [
            | inl e ↦ rw e (λ h. (h, inl (same.0 e)), λ h. h.0)
            | inr e ↦ rw e (elim (Bool-cases (mem_text key delta)) [
              | inl m ↦ rw m (
                λ h. ((risky.0 h).0, inr (refl, (risky.0 h).1)),
                λ h.
                    risky.1
                      (h.0, elim h.1 [ inl s ↦ absurd (ground (arith, same.1 s)) | inr r ↦ r.1 ]),
              )
              | inr m ↦ rw m (
                λ h. ground arith,
                λ h. elim h.1 [
                  | inl s ↦ absurd (ground (arith, same.1 s))
                  | inr r ↦ absurd (ground arith)
                ],
              )
            ])
          ]

    compare_keys_iff :
        (keys : List Text) (res : CompareResult)
        → ((compare_keys b c
              (record { delta_keys = delta; strict_unexpected = true })
              keys
              res).passed
            ≡ true)
          ↔ ((res.passed ≡ true) × All KeyPasses keys)
    unfolding compare_keys
    compare_keys_iff [] res = (λ h. (h, tt), λ h. h.0)
    compare_keys_iff (key ∷ r) res =
        let step = compare_key_iff key res in
        let rest =
          compare_keys_iff r
            (compare_key b c (record { delta_keys = delta; strict_unexpected = true }) key res) in
        (
          λ h. ((step.0 (rest.0 h).0).0, ((step.0 (rest.0 h).0).1, (rest.0 h).1)),
          λ h. rest.1 (step.1 (h.0, h.1.0), h.1.1),
        )

    absent :
        (key : Text)
        → lookup_text key b.objects ≡ none
        → lookup_text key c.objects ≡ none
        → KeyPasses key
    absent key no_b no_c = rw no_b (rw no_c (inl tt))

    -- With unexpected changes refused, two snapshots whose objects all have an action pass exactly
    -- when they have the same version, the plan did not become blocked, and every key that changed
    -- is one of the delta whose new action is not risky; `iterate` is the order in which a hash set
    -- gives its keys, of which each must come.
    pub compare_snapshots_iff :
        (iterate : List Text → List Text)
        (visits : (key : Text) (keys : List Text)
          → mem_text key keys ≡ true
          → mem_text key (iterate keys) ≡ true)
        → ((compare_snapshots iterate b c
              (record { delta_keys = delta; strict_unexpected = true })).passed
            ≡ true)
          ↔ ((b.version ≡ c.version)
              × ((c.blocked ≡ false) ⊎ (b.blocked ≡ true))
              × ((key : Text) → KeyPasses key))
    unfolding compare_snapshots
    compare_snapshots_iff iterate visits =
        let keys = iterate (keys_of b.objects ++ keys_of c.objects) in
        let loop = compare_keys_iff keys (compare_start b c) in
        let ends = compare_end_lem (
          compare_keys b c (record { delta_keys = delta; strict_unexpected = true }) keys
            (compare_start b c)) in
        let starts = compare_start_iff b c in
        elim (Bool-cases (eq_text b.version c.version)) [
          | inl e ↦ rw e (
            λ h.
                let l = loop.0 (sym ends ∙ h) in
                (
                  (eq_text_iff b.version c.version).0 e,
                  starts.0 l.0,
                  each_key KeyPasses b.objects c.objects iterate visits l.1 absent,
                ),
            λ h. ends ∙ loop.1 (starts.1 h.1, every KeyPasses h.2 keys),
          )
          | inr e ↦ rw e (
            λ h. absurd (ground arith),
            λ h. absurd (ground (arith, eq_text_iff b.version c.version)),
          )
        ]
