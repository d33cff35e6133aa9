-- ===== src/Gate/Parity/Equal.antt =====
-- What it means that there is no parity message (crates/core/src/gate/compare/parity.rs).
use mssql_migrator.Prelude.{
  ◌≡◌, refl, ◌↔◌, Bool, true, false, not, Option, none, some, List, [], ◌∷◌, ◌++◌, arith, is_empty,
  All, Text, codes, eq_text, lookup_text, mem_text, eq_text_iff,
}
use mssql_migrator.Gate.Snapshot.{SnapshotObject, PlanSnapshot}
use mssql_migrator.Gate.Compare.{keys_of}
use mssql_migrator.Gate.Compare.Keys.{every, each_key}
use mssql_migrator.Gate.Parity.{
  show_bool, differ, field_message, parity_object_fields, parity_key, parity_keys, parity_messages,
}

-- Both snapshots hold the same of an object, or neither has it.
abbrev pub Identical : Option SnapshotObject → Option SnapshotObject → Type 0
Identical none none = Unit
Identical (some e) (some a) =
    (e.object_path ≡ a.object_path)
    × (e.planned_action ≡ a.planned_action)
    × (e.checksum_hex ≡ a.checksum_hex)
    × (e.exists ≡ a.exists)
Identical _ _ = ⊥

append_iff :
    (xs ys : List Text)
    → (is_empty (xs ++ ys) ≡ true) ↔ ((is_empty xs ≡ true) × (is_empty ys ≡ true))
append_iff [] ys = (λ h. (refl, h), λ h. h.1)
append_iff (x ∷ xs) ys = (λ h. (h, absurd (ground arith)), λ h. h.0)

message_iff :
    (label : Text) (changed : Bool) (e a : Text)
    → (is_empty (field_message label changed e a) ≡ true) ↔ (changed ≡ false)
unfolding field_message
message_iff label changed e a = (λ h. ground arith, λ h. ground arith)

text_iff :
    (label e a : Text) → (is_empty (field_message label (not (eq_text e a)) e a) ≡ true) ↔ (e ≡ a)
unfolding field_message
text_iff label e a = (λ h. ground (arith, eq_text_iff e a), λ h. ground (arith, eq_text_iff e a))

differ_iff : (a b : Bool) → (differ a b ≡ false) ↔ (a ≡ b)
unfolding differ
differ_iff a b = (λ h. ground arith, λ h. ground arith)

flag_iff :
    (label : Text) (e a : Bool) (x y : Text)
    → (is_empty (field_message label (differ e a) x y) ≡ true) ↔ (e ≡ a)
flag_iff label e a x y = (
  λ h. (differ_iff e a).0 ((message_iff label (differ e a) x y).0 h),
  λ h. (message_iff label (differ e a) x y).1 ((differ_iff e a).1 h),
)

fields_iff :
    (key : Text) (e a : SnapshotObject)
    → (is_empty (parity_object_fields key e a) ≡ true) ↔ Identical (some e) (some a)
unfolding parity_object_fields
fields_iff key e a = (
  λ h.
      let h1 = (append_iff (field_message (key ++ codes " object_path") _ _ _) _).0 h in
      let h2 = (append_iff (field_message (key ++ codes " planned_action") _ _ _) _).0 h1.1 in
      let h3 = (append_iff (field_message (key ++ codes " checksum_hex") _ _ _) _).0 h2.1 in
      (
        (text_iff _ e.object_path a.object_path).0 h1.0,
        (text_iff _ e.planned_action a.planned_action).0 h2.0,
        (text_iff _ e.checksum_hex a.checksum_hex).0 h3.0,
        (flag_iff _ e.exists a.exists _ _).0 h3.1,
      ),
  λ h. (append_iff _ _).1 (
    (text_iff _ e.object_path a.object_path).1 h.0,
    (append_iff _ _).1 (
      (text_iff _ e.planned_action a.planned_action).1 h.1,
      (append_iff _ _).1 (
        (text_iff _ e.checksum_hex a.checksum_hex).1 h.2,
        (flag_iff _ e.exists a.exists _ _).1 h.3,
      ),
    ),
  ),
)

key_iff :
    (key : Text) (e a : Option SnapshotObject)
    → (is_empty (parity_key key e a) ≡ true) ↔ Identical e a
unfolding parity_key
key_iff key none none = (λ h. tt, λ h. refl)
key_iff key none (some a) = (λ h. absurd (ground arith), λ h. elim h [ ])
key_iff key (some e) none = (λ h. absurd (ground arith), λ h. elim h [ ])
key_iff key (some e) (some a) = fields_iff key e a

module _ (expected actual : PlanSnapshot) where
  abbrev pub SameAt : Text → Type 0
  SameAt key = Identical (lookup_text key expected.objects) (lookup_text key actual.objects)

  keys_iff :
      (keys : List Text) → (is_empty (parity_keys expected actual keys) ≡ true) ↔ All SameAt keys
  unfolding parity_keys
  keys_iff [] = (λ h. tt, λ h. refl)
  keys_iff (key ∷ r) =
      let first = key_iff key (lookup_text key expected.objects) (lookup_text key actual.objects) in
      let both =
        append_iff
          (parity_key key (lookup_text key expected.objects) (lookup_text key actual.objects))
          (parity_keys expected actual r) in
      (
        λ h. (first.0 (both.0 h).0, (keys_iff r).0 (both.0 h).1),
        λ h. both.1 (first.1 h.0, (keys_iff r).1 h.1),
      )

  -- There is no parity message exactly when the snapshots have the same version and blocked flag and
  -- hold the same objects with the same fields; `iterate` is the order in which a hash set gives its
  -- keys, of which each must come.
  pub parity_messages_iff :
      (iterate : List Text → List Text)
      (visits : (key : Text) (keys : List Text)
        → mem_text key keys ≡ true
        → mem_text key (iterate keys) ≡ true)
      → (is_empty (parity_messages iterate expected actual) ≡ true) ↔ (
          (expected.version ≡ actual.version)
          × (expected.blocked ≡ actual.blocked)
          × ((key : Text) → SameAt key))
  unfolding parity_messages
  parity_messages_iff iterate visits =
      let keys = iterate (keys_of expected.objects ++ keys_of actual.objects) in
      let loop = keys_iff keys in
      (
        λ h.
            let h1 = (append_iff (field_message (codes "version") _ _ _) _).0 h in
            let h2 = (append_iff (field_message (codes "blocked") _ _ _) _).0 h1.1 in
            (
              (text_iff (codes "version") expected.version actual.version).0 h1.0,
              (flag_iff (codes "blocked") expected.blocked actual.blocked
                    (show_bool expected.blocked) (show_bool actual.blocked)).0
                  h2.0,
              each_key SameAt expected.objects actual.objects iterate visits (loop.0 h2.1)
                  (λ key no_e no_a. rw no_e (rw no_a tt)),
            ),
        λ h. (append_iff _ _).1 (
          (text_iff (codes "version") expected.version actual.version).1 h.0,
          (append_iff _ _).1 (
            (flag_iff (codes "blocked") expected.blocked actual.blocked (show_bool expected.blocked)
                  (show_bool actual.blocked)).1
                h.1,
            loop.1 (every SameAt h.2 keys),
          ),
        ),
      )
