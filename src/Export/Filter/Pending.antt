-- ===== src/Export/Filter/Pending.antt =====
-- What the filter of crates/core/src/export/materialize/filter.rs keeps and refuses.
use mssql_migrator.Prelude.{
  ℕ, suc, ◌+◌, ◌%◌, ◌≤◌, ◌<◌, ◌≡◌, refl, ap, ◌↔◌, inl, inr, Bool, true, false, not, ◌&&◌, ◌||◌,
  Option, none, some, List, [], ◌∷◌, ◌++◌, arith, ◌==◌, if◌then◌else◌, Option-cases, length,
  is_empty, is_empty_iff, all, lookup, lookup-insert, Text, eq_text, lookup_text,
}
use mssql_migrator.Domain.Action.{reprocess_changed, eq_action}
use mssql_migrator.Domain.Workspace.{Digest, StrOff, u32_mod}
use mssql_migrator.Domain.Layout.{Layout, str_at}
use mssql_migrator.Export.PlanRow
use mssql_migrator.Export.PlanRow.{PlanRow}
use mssql_migrator.Export.PlanJson.{MigrationPlan}
use mssql_migrator.Export.Filter.{
  Checksums, transition_checksums, applied_unchanged, retain_pending, filter_row, filter_rows_from,
  needs_rows, filter_rows, filter_applied_migrations_on_plan,
}

abbrev pub keep {ℓ} : {A : Type ℓ} → (A → Bool) → List A → List A
keep p [] = []
keep p (a ∷ r) = if p a then a ∷ keep p r else keep p r

abbrev pub is_applied : Checksums → Text → Bool
is_applied applied path = elim (lookup_text path applied) [ none ↦ false | some c ↦ true ]

-- The path was applied with a recorded checksum, and the script has another one now.
abbrev pub is_tampered : Checksums → Checksums → Text → Bool
is_tampered applied current path = elim (lookup_text path applied) [
  | none ↦ false
  | some recorded ↦ elim (lookup_text path current) [
    | none ↦ false
    | some now ↦ not (is_empty recorded) && not (eq_text now recorded)
  ]
]

-- The scripts of row `i` in the map.
abbrev pub offs_at : ℕ → List (ℕ × List StrOff) → List StrOff
offs_at i m = elim (lookup i m) [ none ↦ [] | some offs ↦ offs ]

is_empty-push : (t : List Text) (p : Text) → is_empty (t ++ (p ∷ [])) ≡ false
is_empty-push [] p = refl
is_empty-push (q ∷ t) p = refl

module _ (applied : Checksums) (current : Checksums) where
  applied_unchanged-eq :
      (p : Text) (t : List Text)
      → ((applied_unchanged applied current p t).0 ≡ is_applied applied p)
        × (is_empty (applied_unchanged applied current p t).1
            ≡ (is_empty t && not (is_tampered applied current p)))
  unfolding applied_unchanged
  applied_unchanged-eq p t = ground (arith, is_empty-push t p)

  pub retain-keep {ℓ} :
      {A : Type ℓ} (f : A → Text) (xs : List A) (t : List Text)
      → ((retain_pending applied current f xs t).0 ≡ keep (λ a. not (is_applied applied (f a))) xs)
        × (is_empty (retain_pending applied current f xs t).1
            ≡ (is_empty t && all (λ a. not (is_tampered applied current (f a))) xs))
  unfolding retain_pending
  retain-keep f [] t = (refl, ground arith)
  retain-keep f (x ∷ xs) t =
      let mid = (applied_unchanged applied current (f x) t).1 in
      ground (arith, applied_unchanged-eq (f x) t, retain-keep f xs mid)

-- Whether the row is a changed table's.
abbrev pub is_reprocess : PlanRow → Bool
is_reprocess r = eq_action (PlanRow.planned_action r) reprocess_changed

-- Whether row `j` is a changed table's, the rows starting with row `i`.
abbrev pub reprocess_at : ℕ → List PlanRow → ℕ → Bool
reprocess_at i [] j = false
reprocess_at i (r ∷ rs) j = if i == j then is_reprocess r else reprocess_at (suc i) rs j

pub reprocess_at-below :
    (i : ℕ) (rows : List PlanRow) (j : ℕ) → j < i → reprocess_at i rows j ≡ false
reprocess_at-below i [] j lt = refl
reprocess_at-below i (r ∷ rs) j lt = ground (arith, reprocess_at-below (suc i) rs j)

module _ (applied : Checksums) (current : Checksums) (layout : Layout) where
  abbrev pub pending : List StrOff → List StrOff
  pending = keep (λ off. not (is_applied applied (str_at layout off)))

  abbrev pub pending_in : Option (List StrOff) → Option (List StrOff)
  pending_in none = none
  pending_in (some offs) = some (pending offs)

  -- No script of a changed table has been tampered with, the rows starting with row `i`.
  abbrev pub untampered : ℕ → List PlanRow → List (ℕ × List StrOff) → Bool
  untampered i [] m = true
  untampered i (r ∷ rs) m =
      (not (is_reprocess r)
        || all (λ off. not (is_tampered applied current (str_at layout off))) (offs_at i m))
      && untampered (suc i) rs m

  filter_row-lookup :
      (i : ℕ) (r : PlanRow) (m : List (ℕ × List StrOff)) (t : List Text) (j : ℕ)
      → i < u32_mod
      → lookup j (filter_row applied current layout i r m t).0
        ≡ (if i == j && is_reprocess r then pending_in (lookup j m) else lookup j m)
  unfolding filter_row
  filter_row-lookup i r m t j lt =
      let small : i % u32_mod ≡ i = omega arith in
      let read : lookup (i % u32_mod) m ≡ lookup i m = ap (λ k. lookup k m) small in
      elim (Option-cases (lookup (i % u32_mod) m)) [
        | inl n ↦ ground arith
        | inr (offs, h) ↦
            let kept = retain-keep applied current (str_at layout) offs t in
            let found = retain_pending applied current (str_at layout) offs t in
            ground (arith, kept, lookup-insert (i % u32_mod) j found.0 m)
      ]

  filter_row-clean :
      (i : ℕ) (r : PlanRow) (m : List (ℕ × List StrOff)) (t : List Text)
      → i < u32_mod
      → is_empty (filter_row applied current layout i r m t).1 ≡ (
          is_empty t
          && (not (is_reprocess r)
              || all (λ off. not (is_tampered applied current (str_at layout off))) (offs_at i m)))
  unfolding filter_row
  filter_row-clean i r m t lt =
      let small : i % u32_mod ≡ i = omega arith in
      let read : lookup (i % u32_mod) m ≡ lookup i m = ap (λ k. lookup k m) small in
      elim (Option-cases (lookup (i % u32_mod) m)) [
        | inl n ↦ ground arith
        | inr (offs, h) ↦
            let kept = retain-keep applied current (str_at layout) offs t in
            let found = retain_pending applied current (str_at layout) offs t in
            ground (arith, kept)
      ]

  filter_rows_from-lookup :
      (i : ℕ) (rows : List PlanRow) (m : List (ℕ × List StrOff)) (t : List Text) (j : ℕ)
      → i + length rows ≤ u32_mod
      → lookup j (filter_rows_from applied current layout i rows m t).0
        ≡ (if reprocess_at i rows j then pending_in (lookup j m) else lookup j m)
  unfolding filter_rows_from
  filter_rows_from-lookup i [] m t j le = refl
  filter_rows_from-lookup i (r ∷ rs) m t j le =
      let step = filter_row applied current layout i r m t in
      ground (
        arith,
        filter_row-lookup i r m t j (omega arith),
        filter_rows_from-lookup (suc i) rs step.0 step.1 j (omega arith),
        reprocess_at-below (suc i) rs j,
      )

  untampered-agree :
      (i : ℕ) (rows : List PlanRow) (m n : List (ℕ × List StrOff))
      → ((j : ℕ) → i ≤ j → lookup j m ≡ lookup j n)
      → untampered i rows m ≡ untampered i rows n
  untampered-agree i [] m n h = refl
  untampered-agree i (r ∷ rs) m n h =
      let here : lookup i m ≡ lookup i n = h i (omega arith) in
      let rest = untampered-agree (suc i) rs m n (λ j le. h j (omega arith)) in
      ground (
        arith,
        rest,
        ap
            (λ o.
              all (λ off. not (is_tampered applied current (str_at layout off)))
                (elim o [ none ↦ [] | some offs ↦ offs ]))
            here,
      )

  filter_rows_from-clean :
      (i : ℕ) (rows : List PlanRow) (m : List (ℕ × List StrOff)) (t : List Text)
      → i + length rows ≤ u32_mod
      → is_empty (filter_rows_from applied current layout i rows m t).1
        ≡ (is_empty t && untampered i rows m)
  unfolding filter_rows_from
  filter_rows_from-clean i [] m t le = ground arith
  filter_rows_from-clean i (r ∷ rs) m t le =
      let step = filter_row applied current layout i r m t in
      let same : (j : ℕ) → suc i ≤ j → lookup j step.0 ≡ lookup j m =
        λ j lt. ground (arith, filter_row-lookup i r m t j (omega arith)) in
      ground (
        arith,
        filter_row-clean i r m t (omega arith),
        filter_rows_from-clean (suc i) rs step.0 step.1 (omega arith),
        untampered-agree (suc i) rs step.0 m same,
      )

  needless-pending :
      (i : ℕ) (rows : List PlanRow) (m : List (ℕ × List StrOff)) (j : ℕ)
      → i + length rows ≤ u32_mod
      → needs_rows i rows m ≡ false
      → reprocess_at i rows j ≡ true
      → pending_in (lookup j m) ≡ lookup j m
  unfolding needs_rows
  needless-pending i [] m j le h e = absurd (ground arith)
  needless-pending i (r ∷ rs) m j le h e =
      let small : i % u32_mod ≡ i = omega arith in
      let read : lookup (i % u32_mod) m ≡ lookup i m = ap (λ k. lookup k m) small in
      elim (Option-cases (lookup i m)) [
        | inl n ↦ ground (arith, needless-pending (suc i) rs m j (omega arith))
        | inr (offs, o) ↦
            ground (arith, needless-pending (suc i) rs m j (omega arith), is_empty_iff offs)
      ]

  needless-untampered :
      (i : ℕ) (rows : List PlanRow) (m : List (ℕ × List StrOff))
      → i + length rows ≤ u32_mod
      → needs_rows i rows m ≡ false
      → untampered i rows m ≡ true
  unfolding needs_rows
  needless-untampered i [] m le h = refl
  needless-untampered i (r ∷ rs) m le h =
      let small : i % u32_mod ≡ i = omega arith in
      let read : lookup (i % u32_mod) m ≡ lookup i m = ap (λ k. lookup k m) small in
      elim (Option-cases (lookup i m)) [
        | inl n ↦ ground (arith, needless-untampered (suc i) rs m (omega arith))
        | inr (offs, o) ↦
            ground (arith, needless-untampered (suc i) rs m (omega arith), is_empty_iff offs)
      ]

-- Filtering a plan of rows takes from the scripts of each changed table exactly those that were
-- applied before, in order, and changes no row and no other table's scripts; and it is refused
-- exactly when some script of a changed table has another checksum than the one it was applied with.
pub filter_plan_pending :
    (hex : Digest → Text) (layout : Layout) (applied : Checksums) (plan : MigrationPlan)
    → is_empty plan.rows ≡ false
    → length plan.rows ≤ u32_mod
    → ((j : ℕ)
        → lookup j (filter_applied_migrations_on_plan hex layout applied plan).0.plan_transitions
          ≡ (if reprocess_at 0 plan.rows j
              then pending_in applied
                  (transition_checksums hex layout.scripts [])
                  layout
                  (lookup j plan.plan_transitions)
              else lookup j plan.plan_transitions))
      × ((filter_applied_migrations_on_plan hex layout applied plan).0.rows ≡ plan.rows)
      × (((filter_applied_migrations_on_plan hex layout applied plan).1 ≡ none) ↔ (
          untampered applied
            (transition_checksums hex layout.scripts [])
            layout
            0
            plan.rows
            plan.plan_transitions
          ≡ true))
unfolding filter_applied_migrations_on_plan filter_rows
filter_plan_pending hex layout applied plan many fits =
    let current = transition_checksums hex layout.scripts [] in
    let m = plan.plan_transitions in
    let after = filter_rows_from-clean applied current layout 0 plan.rows m [] (omega arith) in
    let needless = needless-untampered applied current layout 0 plan.rows m (omega arith) in
    (
      λ j. ground (
        arith,
        filter_rows_from-lookup applied current layout 0 plan.rows m [] j (omega arith),
        needless-pending applied current layout 0 plan.rows m j (omega arith),
      ),
      ground arith,
      ground (arith, after, needless),
    )
