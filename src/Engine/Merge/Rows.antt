-- ===== src/Engine/Merge/Rows.antt =====
-- The rows and side rows of a merged plan (crates/core/src/engine/run/merge.rs).
use mssql_migrator.Prelude.{
  ℕ, zero, suc, ◌+◌, ◌-◌, ◌%◌, ◌≤◌, ◌<◌, ◌≡◌, refl, ◌∙◌, inl, inr, none, List, [], ◌∷◌, ◌++◌, arith,
  ltb, ◌==◌, if◌then◌else◌, Bool-cases, length, get_elem?, length-append, lookup, without,
  lookup-insert,
}
use mssql_migrator.Domain.Workspace.{u32_mod}
use mssql_migrator.Export.PlanRow.{PlanRow}
use mssql_migrator.Export.PlanJson.{MigrationPlan}
use mssql_migrator.Engine.Merge.{drain_into, merge_plan_into}

-- Every key of the map is below `n`.
abbrev pub Below : {V : Type 0} → ℕ → List (ℕ × V) → Type 0
Below n [] = Unit
Below n ((k, v) ∷ m) = (k < n) × Below n m

-- The side rows belong to rows of the plan.
abbrev pub IsKeyed : MigrationPlan → Type 0
IsKeyed p = Below (length p.rows) p.plan_git × Below (length p.rows) p.plan_transitions

Below-lookup :
    {V : Type 0} (n : ℕ) (m : List (ℕ × V)) (j : ℕ) → Below n m → n ≤ j → lookup j m ≡ none
Below-lookup n [] j h le = refl
Below-lookup n ((k, v) ∷ m) j h le = ground (arith, Below-lookup n m j h.1 le)

Below-without : {V : Type 0} (n k : ℕ) (m : List (ℕ × V)) → Below n m → Below n (without k m)
Below-without n k [] h = tt
Below-without n k ((i, v) ∷ m) (lt, h) = elim (Bool-cases (i == k)) [
  | inl e ↦ rw e (Below-without n k m h)
  | inr e ↦ rw e (lt, Below-without n k m h)
]

Below-mono : {V : Type 0} (n n' : ℕ) (m : List (ℕ × V)) → n ≤ n' → Below n m → Below n' m
Below-mono n n' [] le h = tt
Below-mono n n' ((i, v) ∷ m) le (lt, h) = (omega arith, Below-mono n n' m le h)

module _ (a b : ℕ) (fits : a + b ≤ u32_mod) where
  drain-lookup :
      {V : Type 0} (src dst : List (ℕ × V)) (j : ℕ)
      → Below b src
      → Below a dst
      → lookup j (drain_into (a % u32_mod) src dst)
        ≡ (if ltb j a then lookup j dst else lookup (j - a) src)
  unfolding drain_into
  drain-lookup [] dst j hs hd = ground (arith, Below-lookup a dst j hd)
  drain-lookup ((k, v) ∷ m) dst j (lt, hs) hd =
      let key : (a % u32_mod + k) % u32_mod ≡ a + k = omega arith in
      let rest = drain-lookup m dst j hs hd in
      let made = lookup-insert ((a % u32_mod + k) % u32_mod) j v (drain_into (a % u32_mod) m dst) in
      ground (arith, made, rest)

  drain-Below :
      {V : Type 0} (src dst : List (ℕ × V))
      → Below b src
      → Below a dst
      → Below (a + b) (drain_into (a % u32_mod) src dst)
  unfolding drain_into
  drain-Below [] dst hs hd = Below-mono a (a + b) dst (omega arith) hd
  drain-Below ((k, v) ∷ m) dst (lt, hs) hd =
      (omega arith, Below-without _ _ _ (drain-Below m dst hs hd))

get_elem?-append :
    (xs ys : List PlanRow) (j : ℕ)
    → get_elem? (xs ++ ys) j
      ≡ (if ltb j (length xs) then get_elem? xs j else get_elem? ys (j - length xs))
get_elem?-append [] ys j = ground arith
get_elem?-append (x ∷ xs) ys zero = ground arith
get_elem?-append (x ∷ xs) ys (suc j) =
    let shift : suc j - suc (length xs) ≡ j - length xs = omega arith in
    ground (arith, get_elem?-append xs ys j)

-- Merging two plans whose side rows belong to their rows, with at most 2^32 rows together, keeps
-- every row with its own git and transition rows, the first plan's before the second's; and the side
-- rows of the merged plan belong to its rows.
pub merge_plan_rows :
    (dst src : MigrationPlan)
    → IsKeyed dst
    → IsKeyed src
    → length dst.rows + length src.rows ≤ u32_mod
    → IsKeyed (merge_plan_into dst src)
      × ((j : ℕ)
          → let merged = merge_plan_into dst src in
            let (own, i) : MigrationPlan × ℕ =
              if ltb j (length dst.rows) then (dst, j) else (src, j - length dst.rows) in
            (get_elem? merged.rows j ≡ get_elem? own.rows i)
            × (lookup j merged.plan_git ≡ lookup i own.plan_git)
            × (lookup j merged.plan_transitions ≡ lookup i own.plan_transitions))
unfolding merge_plan_into
merge_plan_rows dst src (dg, dt) (sg, st) fits =
    let a = length dst.rows in
    let b = length src.rows in
    (
      rw (length-append dst.rows src.rows) (
        drain-Below a b fits src.plan_git dst.plan_git sg dg,
        drain-Below a b fits src.plan_transitions dst.plan_transitions st dt,
      ),
      λ j. elim (Bool-cases (ltb j a)) [
        | inl e ↦ rw e (
          get_elem?-append dst.rows src.rows j ∙ rw e refl,
          drain-lookup a b fits src.plan_git dst.plan_git j sg dg ∙ rw e refl,
          drain-lookup a b fits src.plan_transitions dst.plan_transitions j st dt ∙ rw e refl,
        )
        | inr e ↦ rw e (
          get_elem?-append dst.rows src.rows j ∙ rw e refl,
          drain-lookup a b fits src.plan_git dst.plan_git j sg dg ∙ rw e refl,
          drain-lookup a b fits src.plan_transitions dst.plan_transitions j st dt ∙ rw e refl,
        )
      ],
    )
