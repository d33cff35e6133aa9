-- ===== src/Domain/Store/Sorted.antt =====
-- The order of the finalized keys (crates/core/src/domain/store.rs).
use mathlib.Core.List.{Perm}
use mathlib.Core.List.Perm
use Prim.Native.Nat.Ordering.{lt, gt}
use mssql_migrator.Prelude.{
  ℕ, ◌≡◌, refl, sym, ap, inl, inr, true, false, some, List, [], ◌∷◌, map, arith, Bool-cases, length,
  Text,
}
use mssql_migrator.Domain.Workspace.{ObjectEntry}
use mssql_migrator.Apply.Order.{compare_text}
use mssql_migrator.Domain.Store.{
  text_le, insert_pair, sort_pairs, zip, columns_of, FinalizeSortedResult, finalize_sorted_entries,
}

-- Every key is at most the next one.
abbrev pub Ascending : List (Text × ObjectEntry) → Type 0
Ascending [] = Unit
Ascending (a ∷ []) = Unit
Ascending (a ∷ b ∷ r) = (text_le a.0 b.0 ≡ true) × Ascending (b ∷ r)

compare_text-flip : (s t : Text) → compare_text s t ≡ gt → compare_text t s ≡ lt
unfolding compare_text
compare_text-flip [] [] h = ground arith
compare_text-flip [] (d ∷ t) h = ground arith
compare_text-flip (c ∷ s) [] h = refl
compare_text-flip (c ∷ s) (d ∷ t) h = ground (arith, compare_text-flip s t)

text_le-total : (s t : Text) → text_le s t ≡ false → text_le t s ≡ true
unfolding text_le
text_le-total s t h = ground (arith, compare_text-flip s t)

insert_pair-Ascending :
    (a : Text × ObjectEntry) (r : List (Text × ObjectEntry))
    → Ascending r
    → Ascending (insert_pair a r)
unfolding insert_pair
insert_pair-Ascending a [] h = tt
insert_pair-Ascending a (b ∷ []) h = elim (Bool-cases (text_le a.0 b.0)) [
  | inl e ↦ rw e (e, tt)
  | inr e ↦ rw e (text_le-total a.0 b.0 e, tt)
]
insert_pair-Ascending a (b ∷ c ∷ r) (p, h) =
    let rest = insert_pair-Ascending a (c ∷ r) h in
    elim (Bool-cases (text_le a.0 b.0)) [
      | inl e ↦ rw e (e, (p, h))
      | inr e ↦ elim (Bool-cases (text_le a.0 c.0)) [
        | inl d ↦ rw (e, d) (text_le-total a.0 b.0 e, (d, h))
        | inr d ↦
            let kept : insert_pair a (c ∷ r) ≡ c ∷ insert_pair a r = rw d refl in
            let tail : Ascending (c ∷ insert_pair a r) = rw (sym kept) rest in rw (e, d) (p, tail)
      ]
    ]

insert_pair-Perm :
    (a : Text × ObjectEntry) (r : List (Text × ObjectEntry)) → Perm (insert_pair a r) (a ∷ r)
unfolding insert_pair
insert_pair-Perm a [] = Perm.refl (a ∷ [])
insert_pair-Perm a (b ∷ r) = elim (Bool-cases (text_le a.0 b.0)) [
  | inl e ↦ rw e (Perm.refl (a ∷ b ∷ r))
  | inr e ↦ rw e (Perm.trans (Perm.cons b (insert_pair-Perm a r)) (Perm.swap a b r))
]

sort_pairs-Ascending : (r : List (Text × ObjectEntry)) → Ascending (sort_pairs r)
unfolding sort_pairs
sort_pairs-Ascending [] = tt
sort_pairs-Ascending (a ∷ r) = insert_pair-Ascending a (sort_pairs r) (sort_pairs-Ascending r)

sort_pairs-Perm : (r : List (Text × ObjectEntry)) → Perm (sort_pairs r) r
unfolding sort_pairs
sort_pairs-Perm [] = Perm.refl []
sort_pairs-Perm (a ∷ r) =
    Perm.trans (insert_pair-Perm a (sort_pairs r)) (Perm.cons a (sort_pairs-Perm r))

zip-map : (r : List (Text × ObjectEntry)) → zip (map (λ p. p.0) r) (map (λ p. p.1) r) ≡ r
unfolding zip
zip-map [] = refl
zip-map (p ∷ r) = ap (λ q. p ∷ q) (zip-map r)

-- Finalizing the staged objects drops and repeats none, keeps each object's key with it, and puts
-- the keys in ascending order; it succeeds if there is a key for each object.
pub finalize_sorted :
    (fingerprint : Text → ℕ) (entries : List ObjectEntry) (keys : List Text)
    → length entries ≡ length keys
    → (f : FinalizeSortedResult) × (finalize_sorted_entries fingerprint entries keys ≡ some f)
      × Perm (zip f.keys f.entries) (zip keys entries)
      × Ascending (zip f.keys f.entries)
unfolding finalize_sorted_entries columns_of
finalize_sorted fingerprint entries keys same =
    let sorted = sort_pairs (zip keys entries) in
    (
      columns_of fingerprint sorted,
      ground arith,
      rw (zip-map sorted) (sort_pairs-Perm (zip keys entries)),
      rw (zip-map sorted) (sort_pairs-Ascending (zip keys entries)),
    )
