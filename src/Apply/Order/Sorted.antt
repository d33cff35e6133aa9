-- ===== src/Apply/Order/Sorted.antt =====
-- The order of a sorted batch (crates/core/src/apply/kind.rs).
use mathlib.Core.List.{Perm}
use mathlib.Core.List.Perm
use mssql_migrator.Export.PlanJson.{PlannedObject}
use mssql_migrator.Apply.Order.{kind_rank, key_le, insert_object, sort_tx_batch}
use mssql_migrator.Prelude.{
  ℕ, suc, ◌≤◌, ◌<◌, ◌≡◌, ◌⊎◌, if◌then◌else◌, refl, ap, ◌∙◌, inl, inr, true, false, List, [], ◌∷◌,
  arith, Bool-cases, length, All, Text, codes, eq_text,
}

-- Every object's rank is at most that of each later one.
abbrev ByRank : List PlannedObject → Type 0
ByRank [] = Unit
ByRank (a ∷ r) = All (λ b. kind_rank a.kind ≤ kind_rank b.kind) r × ByRank r

key_le-rank : (a b : PlannedObject) → key_le a b ≡ true → kind_rank a.kind ≤ kind_rank b.kind
unfolding key_le
key_le-rank a b h = ground arith

key_gt-rank : (a b : PlannedObject) → key_le a b ≡ false → kind_rank b.kind ≤ kind_rank a.kind
unfolding key_le
key_gt-rank a b h = ground arith

All-mono :
    (m n : ℕ) (r : List PlannedObject)
    → m ≤ n
    → All (λ b. n ≤ kind_rank (PlannedObject.kind b)) r
    → All (λ b. m ≤ kind_rank (PlannedObject.kind b)) r
All-mono m n [] le h = tt
All-mono m n (b ∷ r) le (p, h) = (omega arith, All-mono m n r le h)

insert-All :
    (m : ℕ) (a : PlannedObject) (r : List PlannedObject)
    → m ≤ kind_rank a.kind
    → All (λ b. m ≤ kind_rank (PlannedObject.kind b)) r
    → All (λ b. m ≤ kind_rank (PlannedObject.kind b)) (insert_object a r)
unfolding insert_object
insert-All m a [] le h = (le, tt)
insert-All m a (b ∷ r) le (p, h) = elim (Bool-cases (key_le a b)) [
  | inl e ↦ rw e (le, (p, h))
  | inr e ↦ rw e (p, insert-All m a r le h)
]

insert-ByRank : (a : PlannedObject) (r : List PlannedObject) → ByRank r → ByRank (insert_object a r)
unfolding insert_object
insert-ByRank a [] h = (tt, tt)
insert-ByRank a (b ∷ r) (p, h) = elim (Bool-cases (key_le a b)) [
  | inl e ↦ rw e ((key_le-rank a b e, All-mono _ _ r (key_le-rank a b e) p), (p, h))
  | inr e ↦ rw e (insert-All _ a r (key_gt-rank a b e) p, insert-ByRank a r h)
]

insert-perm : (a : PlannedObject) (r : List PlannedObject) → Perm (insert_object a r) (a ∷ r)
unfolding insert_object
insert-perm a [] = Perm.refl (a ∷ [])
insert-perm a (b ∷ r) = elim (Bool-cases (key_le a b)) [
  | inl e ↦ rw e (Perm.refl (a ∷ b ∷ r))
  | inr e ↦ rw e (Perm.trans (Perm.cons b (insert-perm a r)) (Perm.swap a b r))
]

ByRank-sort : (batch : List PlannedObject) → ByRank (sort_tx_batch batch)
unfolding sort_tx_batch
ByRank-sort [] = tt
ByRank-sort (a ∷ r) = insert-ByRank a (sort_tx_batch r) (ByRank-sort r)

sort-perm : (batch : List PlannedObject) → Perm (sort_tx_batch batch) batch
unfolding sort_tx_batch
sort-perm [] = Perm.refl []
sort-perm (a ∷ r) = Perm.trans (insert-perm a (sort_tx_batch r)) (Perm.cons a (sort-perm r))

-- The order in which the kinds depend on each other.
abbrev pub kinds_in_order : List Text
kinds_in_order =
    codes "types"
    ∷ codes "sequences"
    ∷ codes "tables"
    ∷ codes "synonyms"
    ∷ codes "indexes"
    ∷ codes "views"
    ∷ codes "functions"
    ∷ codes "procedures"
    ∷ codes "triggers"
    ∷ []

-- How many entries of a list stand before a text; all, if it is not in the list.
abbrev pub place : Text → List Text → ℕ
place k [] = 0
place k (j ∷ r) = if eq_text k j then 0 else suc (place k r)

-- Every object's kind stands in the order no later than that of each later object; an unknown kind
-- is last.
abbrev pub KindsInOrder : List PlannedObject → Type 0
KindsInOrder [] = Unit
KindsInOrder (a ∷ r) =
    All (λ b. place a.kind kinds_in_order ≤ place b.kind kinds_in_order) r × KindsInOrder r

place-rank :
    (k : Text)
    → ((place k kinds_in_order ≡ kind_rank k) × (kind_rank k < 9))
      ⊎ ((place k kinds_in_order ≡ 9) × (kind_rank k ≡ 99))
unfolding kind_rank
place-rank k = ground arith

rank-place :
    (j k : Text) → kind_rank j ≤ kind_rank k → place j kinds_in_order ≤ place k kinds_in_order
rank-place j k le = ground (arith, place-rank j, place-rank k)

All-place :
    (a : PlannedObject) (r : List PlannedObject)
    → All (λ b. kind_rank a.kind ≤ kind_rank (PlannedObject.kind b)) r
    → All (λ b. place a.kind kinds_in_order ≤ place (PlannedObject.kind b) kinds_in_order) r
All-place a [] h = tt
All-place a (b ∷ r) (p, h) = (rank-place a.kind b.kind p, All-place a r h)

ByRank-KindsInOrder : (r : List PlannedObject) → ByRank r → KindsInOrder r
ByRank-KindsInOrder [] h = tt
ByRank-KindsInOrder (a ∷ r) (p, h) = (All-place a r p, ByRank-KindsInOrder r h)

-- Sorting a batch drops and repeats no object, and puts types before sequences, tables, synonyms,
-- indexes, views, functions, procedures and triggers, in this order, and unknown kinds last.
pub sort_tx_batch_sorted :
    (batch : List PlannedObject)
    → Perm (sort_tx_batch batch) batch × KindsInOrder (sort_tx_batch batch)
sort_tx_batch_sorted batch =
    (sort-perm batch, ByRank-KindsInOrder (sort_tx_batch batch) (ByRank-sort batch))

length-insert :
    (a : PlannedObject) (r : List PlannedObject) → length (insert_object a r) ≡ suc (length r)
unfolding insert_object
length-insert a [] = refl
length-insert a (b ∷ r) = ground (arith, length-insert a r)

pub length-sort : (batch : List PlannedObject) → length (sort_tx_batch batch) ≡ length batch
unfolding sort_tx_batch
length-sort [] = refl
length-sort (a ∷ r) = length-insert a (sort_tx_batch r) ∙ ap suc (length-sort r)
