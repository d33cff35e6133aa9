-- ===== src/Gate/Compare/Keys.antt =====
-- The keys that a comparison of snapshots walks (crates/core/src/gate/compare).
use mssql_migrator.Prelude.{
  ◌≡◌, refl, inl, inr, true, false, ◌||◌, none, List, [], ◌∷◌, ◌++◌, arith, Bool-cases, All, Text,
  lookup_text, mem_text, mem_text-all,
}
use mssql_migrator.Gate.Snapshot.{SnapshotObject}
use mssql_migrator.Gate.Compare.{keys_of}

keys_of-lookup :
    (key : Text) (m : List (Text × SnapshotObject))
    → mem_text key (keys_of m) ≡ false
    → lookup_text key m ≡ none
unfolding keys_of mem_text lookup_text
keys_of-lookup key [] h = refl
keys_of-lookup key ((k, o) ∷ m) h = ground (arith, keys_of-lookup key m)

mem_text-append :
    (key : Text) (xs ys : List Text)
    → mem_text key (xs ++ ys) ≡ (mem_text key xs || mem_text key ys)
unfolding mem_text
mem_text-append key [] ys = refl
mem_text-append key (x ∷ xs) ys = ground (arith, mem_text-append key xs ys)

-- What holds at each key that a walk gives, and at each key of neither snapshot, holds at all.
pub each_key {ℓ} :
    (P : Text → Type ℓ) (bs cs : List (Text × SnapshotObject)) (iterate : List Text → List Text)
    (visits : (key : Text) (keys : List Text)
      → mem_text key keys ≡ true
      → mem_text key (iterate keys) ≡ true)
    → All P (iterate (keys_of bs ++ keys_of cs))
    → ((key : Text) → lookup_text key bs ≡ none → lookup_text key cs ≡ none → P key)
    → (key : Text) → P key
each_key P bs cs iterate visits h outside key =
    elim (Bool-cases (mem_text key (keys_of bs ++ keys_of cs))) [
      | inl m ↦
          mem_text-all P (iterate (keys_of bs ++ keys_of cs)) h key
            (visits key (keys_of bs ++ keys_of cs) m)
      | inr m ↦
          let split_mem = mem_text-append key (keys_of bs) (keys_of cs) in
          outside key (keys_of-lookup key bs (ground (arith, split_mem)))
            (keys_of-lookup key cs (ground (arith, split_mem)))
    ]

pub every {κ ℓ} : {A : Type κ} (P : A → Type ℓ) → ((a : A) → P a) → (xs : List A) → All P xs
every P h [] = tt
every P h (x ∷ xs) = (h x, every P h xs)
