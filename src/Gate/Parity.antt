-- ===== src/Gate/Parity.antt =====
-- crates/core/src/gate/compare/parity.rs: full equality of two snapshots. The order in which a hash
-- set gives its keys is an argument.
pub mod Equal
use mssql_migrator.Prelude.{
  ℕ, zero, suc, ◌+◌, ◌-◌, ◌*◌, ◌/◌, ◌%◌, ◌^◌, ◌≤◌, ◌<◌, ◌≡◌, refl, sym, ap, ◌∙◌, ◌≢◌, ◌↔◌, ◌⊎◌, inl,
  inr, Bool, true, false, not, ◌&&◌, ◌||◌, Option, none, some, List, [], ◌∷◌, ◌++◌, map, reverse,
  arith, String, ltb, leb, ◌==◌, if◌then◌else◌, ==_iff, ==_refl, Bool-cases, Option-cases, length,
  get_elem?, set, replicate, resize, is_empty, is_empty_iff, all, any, length-append, length-set,
  length-resize, get_elem?-set_self, get_elem?-some, get_elem?-set_ne, get_elem?-lt, All,
  length-map, lookup, without, insert, lookup-without, lookup-insert, Text, codes, eq_text,
  starts_with, strip_prefix, ends_with, contains, split, push_front, join, split_once, replace,
  lookup_text, mem_text, mem_text-all, show, eq_text_iff, eq_text_refl, contains-append,
  contains-starts_with, join-split, starts_with-append, split-ne-nil,
}
use mssql_migrator.Gate.Snapshot.{SnapshotObject, PlanSnapshot}
use mssql_migrator.Gate.Compare.{keys_of}

-- `{}` of a Boolean
unfoldable pub show_bool : Bool → Text
show_bool true = codes "true"
show_bool false = codes "false"

unfoldable pub differ : Bool → Bool → Bool
differ true b = not b
differ false b = b

-- One field: a message if its values differ.
unfoldable pub field_message : Text → Bool → Text → Text → List Text
field_message label changed e a =
    if changed then (label ++ (codes ": baseline=" ++ (e ++ (codes " actual=" ++ a)))) ∷ [] else []

unfoldable pub parity_object_fields : Text → SnapshotObject → SnapshotObject → List Text
unfolding field_message differ show_bool
parity_object_fields key e a =
    field_message (key ++ codes " object_path") (not (eq_text e.object_path a.object_path))
      e.object_path a.object_path
    ++ (field_message (key ++ codes " planned_action")
          (not (eq_text e.planned_action a.planned_action)) e.planned_action a.planned_action
        ++ (field_message (key ++ codes " checksum_hex")
              (not (eq_text e.checksum_hex a.checksum_hex)) e.checksum_hex a.checksum_hex
            ++ field_message (key ++ codes " exists") (differ e.exists a.exists)
                (show_bool e.exists) (show_bool a.exists)))

unfoldable pub parity_key : Text → Option SnapshotObject → Option SnapshotObject → List Text
unfolding parity_object_fields
parity_key key none none = []
parity_key key none (some a) = (codes "missing in baseline snapshot: " ++ key) ∷ []
parity_key key (some e) none = (codes "missing in actual snapshot: " ++ key) ∷ []
parity_key key (some e) (some a) = parity_object_fields key e a

unfoldable pub parity_keys : PlanSnapshot → PlanSnapshot → List Text → List Text
unfolding parity_key
parity_keys expected actual [] = []
parity_keys expected actual (key ∷ r) =
    parity_key key (lookup_text key expected.objects) (lookup_text key actual.objects)
    ++ parity_keys expected actual r

unfoldable pub parity_messages : (List Text → List Text) → PlanSnapshot → PlanSnapshot → List Text
unfolding parity_keys
parity_messages iterate expected actual =
    field_message (codes "version") (not (eq_text expected.version actual.version)) expected.version
      actual.version
    ++ (field_message (codes "blocked") (differ expected.blocked actual.blocked)
          (show_bool expected.blocked) (show_bool actual.blocked)
        ++ parity_keys expected actual
            (iterate (keys_of expected.objects ++ keys_of actual.objects)))
