-- ===== src/Domain/Store/Indexed.antt =====
-- The rows and indices of the finalized layout (crates/core/src/domain/store.rs).
use mssql_migrator.Prelude.{ℕ, suc, ◌≤◌, ◌≡◌, refl, ap, ◌∙◌, List, [], ◌∷◌, arith, length, Text}
use mssql_migrator.Domain.Workspace.{Workspace, ObjectEntry, key_index}
use mssql_migrator.Domain.Store.{
  insert_pair, sort_pairs, zip, FinalizeSortedResult, set_columns, clear_object_staging,
  invalidate_catalog_facts,
}

-- Every row id in the index is at most a bound.
abbrev Within : ℕ → List (Text × ℕ) → Type 0
Within n [] = Unit
Within n ((k, id) ∷ m) = (id ≤ n) × Within n m

Within-mono : (n p : ℕ) (m : List (Text × ℕ)) → n ≤ p → Within n m → Within p m
Within-mono n p [] le w = tt
Within-mono n p ((k, id) ∷ m) le (h, w) = (omega arith, Within-mono n p m le w)

-- The columns of one layout: rows and keys for the entries, and an index that names rows.
abbrev IsLaidOut : FinalizeSortedResult → Type 0
IsLaidOut f =
    (length f.layout.rows ≡ length f.entries)
    × (length f.keys ≡ length f.entries)
    × Within (length f.entries) f.layout.key_index

-- The workspace with the finalized columns, its staging cleared and its catalog facts dropped.
abbrev pub finalized : FinalizeSortedResult → Workspace → Workspace
finalized f ws = invalidate_catalog_facts (clear_object_staging (set_columns f ws))

length-insert_pair :
    (a : Text × ObjectEntry) (r : List (Text × ObjectEntry))
    → length (insert_pair a r) ≡ suc (length r)
unfolding insert_pair
length-insert_pair a [] = refl
length-insert_pair a (b ∷ r) = ground (arith, length-insert_pair a r)

pub length-sort_pairs : (r : List (Text × ObjectEntry)) → length (sort_pairs r) ≡ length r
unfolding sort_pairs
length-sort_pairs [] = refl
length-sort_pairs (a ∷ r) = length-insert_pair a (sort_pairs r) ∙ ap suc (length-sort_pairs r)

pub length-zip :
    (keys : List Text) (entries : List ObjectEntry)
    → length entries ≡ length keys
    → length (zip keys entries) ≡ length entries
unfolding zip
length-zip [] [] h = refl
length-zip [] (e ∷ es) h = absurd (omega (arith, h))
length-zip (k ∷ ks) [] h = absurd (omega (arith, h))
length-zip (k ∷ ks) (e ∷ es) h = ap suc (length-zip ks es (omega (arith, h)))
