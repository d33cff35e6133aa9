-- ===== src/Apply/Order.antt =====
-- crates/core/src/apply/kind.rs: the order in which a batch is applied. `sort_by_key` is the
-- standard library's stable sort, written as an insertion sort.
pub mod Sorted
use Prim.Native.Nat.{compare, Ordering}
use Prim.Native.Nat.Ordering.{lt, eq, gt}
use mssql_migrator.Prelude.{
  ℕ, zero, suc, ◌+◌, ◌-◌, ◌*◌, ◌/◌, ◌%◌, ◌^◌, ◌≤◌, ◌<◌, ◌≡◌, refl, sym, ap, ◌∙◌, ◌≢◌, ◌↔◌, ◌⊎◌, inl,
  inr, Bool, true, false, not, ◌&&◌, ◌||◌, Option, none, some, List, [], ◌∷◌, ◌++◌, map, reverse,
  arith, String, ltb, leb, ◌==◌, if◌then◌else◌, ==_iff, ==_refl, Bool-cases, Option-cases, length,
  get_elem?, set, replicate, resize, is_empty, is_empty_iff, all, any, length-append, length-set,
  length-resize, get_elem?-set_self, get_elem?-some, get_elem?-set_ne, get_elem?-lt, All,
  length-map, lookup, without, insert, lookup-without, lookup-insert, Text, codes, eq_text,
  starts_with, strip_prefix, ends_with, contains, split, push_front, join, split_once, replace,
  lookup_text, mem_text, mem_text-all, show, eq_text_iff, eq_text_refl, contains-append,
  contains-starts_with, join-split, starts_with-append, split-ne-nil,
}
use mssql_migrator.Export.PlanJson.{PlannedObject}

unfoldable pub kind_rank : Text → ℕ
kind_rank kind =
    if eq_text kind (codes "types")
    then 0
    else if eq_text kind (codes "sequences")
    then 1
    else if eq_text kind (codes "tables")
    then 2
    else if eq_text kind (codes "synonyms")
    then 3
    else if eq_text kind (codes "indexes")
    then 4
    else if eq_text kind (codes "views")
    then 5
    else if eq_text kind (codes "functions")
    then 6
    else if eq_text kind (codes "procedures")
    then 7
    else if eq_text kind (codes "triggers")
    then 8
    else 99

-- `str::cmp`; the order of code points is that of their UTF-8 bytes.
unfoldable pub compare_text : Text → Text → Ordering
compare_text [] [] = eq
compare_text [] (d ∷ t) = lt
compare_text (c ∷ s) [] = gt
compare_text (c ∷ s) (d ∷ t) =
    let rest = compare_text s t in elim (compare c d) [ lt ↦ lt | eq ↦ rest | gt ↦ gt ]

-- Whether the first object's key `(rank, normalized key)` is at most the second's.
unfoldable pub key_le : PlannedObject → PlannedObject → Bool
key_le a b = elim (compare (kind_rank a.kind) (kind_rank b.kind)) [
  | lt ↦ true
  | eq ↦ elim (compare_text a.normalized_key b.normalized_key) [ gt ↦ false | _ ↦ true ]
  | gt ↦ false
]

unfoldable pub insert_object : PlannedObject → List PlannedObject → List PlannedObject
insert_object a [] = a ∷ []
insert_object a (b ∷ r) = if key_le a b then a ∷ b ∷ r else b ∷ insert_object a r

unfoldable pub sort_tx_batch : List PlannedObject → List PlannedObject
unfolding insert_object
sort_tx_batch [] = []
sort_tx_batch (a ∷ r) = insert_object a (sort_tx_batch r)
