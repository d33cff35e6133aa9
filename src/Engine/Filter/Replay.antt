-- ===== src/Engine/Filter/Replay.antt =====
-- Filtering followed by materializing (crates/core/src/engine/filter.rs, export/materialize).
use mssql_migrator.Prelude.{
  ℕ, suc, ◌+◌, ◌%◌, ◌≤◌, ◌<◌, ◌≡◌, refl, sym, ap, ◌∙◌, ◌⊎◌, inl, inr, Bool, true, false, not, ◌&&◌,
  ◌||◌, none, some, List, [], ◌∷◌, map, arith, Bool-cases, Option-cases, length, is_empty,
  is_empty_iff, all, any, length_pos, lookup, Text,
}
use mssql_migrator.Error.{Result, ok, Result-cases}
use mssql_migrator.Domain.Action.{reprocess_changed, eq_action}
use mssql_migrator.Domain.Workspace.{Digest, StrOff, u32_mod}
use mssql_migrator.Domain.Layout.{Layout, str_at}
use mssql_migrator.Export.PlanRow.{PlanRow, PlanGitOff}
use mssql_migrator.Export.PlanJson.{MigrationPlan, PlannedObject}
use mssql_migrator.Export.Materialize.{
  materialize_transition_paths, planned_object, materialize_planned_object, materialize_from,
  ensure_objects_materialized,
}
use mssql_migrator.Export.Filter.{
  Checksums, has_transitions, filter_rows, filter_applied_migrations_on_plan,
}
use mssql_migrator.Export.Filter.Pending.{
  keep, is_applied, offs_at, is_reprocess, reprocess_at, reprocess_at-below, filter_plan_pending,
}
use mssql_migrator.Engine.Filter.{filter_applied}

-- No script that was applied before is planned for the object.
abbrev pub no_replay : Checksums → PlannedObject → Bool
no_replay applied o =
    not (eq_action o.planned_action reprocess_changed)
    || all (λ p. not (is_applied applied p)) o.transition_paths

all-keep {ℓ} : {A : Type ℓ} (p : A → Bool) (xs : List A) → all p (keep p xs) ≡ true
all-keep p [] = refl
all-keep p (x ∷ xs) = ground (arith, all-keep p xs)

all-map {ℓ κ} :
    {A : Type ℓ} {V : Type κ} (p : V → Bool) (f : A → V) (xs : List A)
    → all p (map f xs) ≡ all (λ a. p (f a)) xs
all-map p f [] = refl
all-map p f (x ∷ xs) = ap (λ b. p (f x) && b) (all-map p f xs)

needless-no_replay :
    (applied : Checksums) (os : List PlannedObject)
    → any has_transitions os ≡ false
    → all (no_replay applied) os ≡ true
unfolding has_transitions
needless-no_replay applied [] h = refl
needless-no_replay applied (o ∷ os) h =
    ground (arith, needless-no_replay applied os, is_empty_iff o.transition_paths)

reprocess_at-later :
    (i : ℕ) (r : PlanRow) (rs : List PlanRow) (j : ℕ)
    → reprocess_at (suc i) rs j ≡ true
    → reprocess_at i (r ∷ rs) j ≡ true
reprocess_at-later i r rs j h = ground (arith, reprocess_at-below (suc i) rs j)

module _ (layout : Layout) (applied : Checksums) where
  -- No applied script is left in the map for a changed table, the rows starting with row `i`.
  abbrev fresh_rows : ℕ → List PlanRow → List (ℕ × List StrOff) → Bool
  fresh_rows i [] m = true
  fresh_rows i (r ∷ rs) m =
      (not (is_reprocess r)
        || all (λ off. not (is_applied applied (str_at layout off))) (offs_at i m))
      && fresh_rows (suc i) rs m

  object-no_replay :
      (i : ℕ) (r : PlanRow) (git : List (ℕ × PlanGitOff)) (m : List (ℕ × List StrOff))
      {o : PlannedObject}
      → i < u32_mod
      → materialize_planned_object layout i r git m ≡ some o
      → (not (is_reprocess r)
          || all (λ off. not (is_applied applied (str_at layout off))) (offs_at i m))
        ≡ true
      → no_replay applied o ≡ true
  unfolding materialize_planned_object planned_object materialize_transition_paths
  object-no_replay i r git m {o} lt h f =
      let small : i % u32_mod ≡ i = omega arith in
      let read : lookup (i % u32_mod) m ≡ lookup i m = ap (λ k. lookup k m) small in
      ground (arith, all-map (λ p. not (is_applied applied p)) (str_at layout) (offs_at i m))

  objects-no_replay :
      (i : ℕ) (rows : List PlanRow) (git : List (ℕ × PlanGitOff)) (m : List (ℕ × List StrOff))
      {os : List PlannedObject}
      → i + length rows ≤ u32_mod
      → materialize_from layout git m i rows ≡ some os
      → fresh_rows i rows m ≡ true
      → all (no_replay applied) os ≡ true
  unfolding materialize_from
  objects-no_replay i [] git m {os} le h f = ground arith
  objects-no_replay i (r ∷ rs) git m {os} le h f =
      elim (Option-cases (materialize_planned_object layout i r git m)) [
        | inl n ↦ absurd (ground arith)
        | inr (o, e) ↦ elim (Option-cases (materialize_from layout git m (suc i) rs)) [
          | inl n ↦ absurd (ground arith)
          | inr (rest, e') ↦
              let here = object-no_replay i r git m (omega arith) e in
              let there = objects-no_replay (suc i) rs git m (omega arith) e' in
              ground (arith, here, there)
        ]
      ]

  -- A map in which each changed table has only pending scripts is fresh.
  pending-fresh :
      (i : ℕ) (rows : List PlanRow) (m : List (ℕ × List StrOff))
      → ((j : ℕ)
          → reprocess_at i rows j ≡ true
          → all (λ off. not (is_applied applied (str_at layout off))) (offs_at j m) ≡ true)
      → fresh_rows i rows m ≡ true
  pending-fresh i [] m h = refl
  pending-fresh i (r ∷ rs) m h =
      let rest = pending-fresh (suc i) rs m (λ j e. h j (reprocess_at-later i r rs j e)) in
      ground (arith, h i)

  length-materialize :
      (i : ℕ) (rows : List PlanRow) (git : List (ℕ × PlanGitOff)) (m : List (ℕ × List StrOff))
      {os : List PlannedObject}
      → materialize_from layout git m i rows ≡ some os
      → length os ≡ length rows
  unfolding materialize_from
  length-materialize i [] git m {os} h = ground arith
  length-materialize i (r ∷ rs) git m {os} h =
      elim (Option-cases (materialize_planned_object layout i r git m)) [
        | inl n ↦ absurd (ground arith)
        | inr (o, e) ↦ elim (Option-cases (materialize_from layout git m (suc i) rs)) [
          | inl n ↦ absurd (ground arith)
          | inr (rest, e') ↦ let there = length-materialize (suc i) rs git m e' in ground arith
        ]
      ]

  -- A plan of rows whose objects are missing or up to date is materialized from its rows.
  remade :
      (p : MigrationPlan) {p' : MigrationPlan}
      → is_empty p.rows ≡ false
      → (p.objects ≡ [])
        ⊎ (materialize_from layout p.plan_git p.plan_transitions 0 p.rows ≡ some p.objects)
      → ensure_objects_materialized layout p ≡ some p'
      → materialize_from layout p.plan_git p.plan_transitions 0 p.rows ≡ some p'.objects
  unfolding ensure_objects_materialized
  remade p many (inl e) h =
      elim (Option-cases (materialize_from layout p.plan_git p.plan_transitions 0 p.rows)) [
        | inl n ↦ absurd (ground (arith, length_pos p.rows))
        | inr (os, m) ↦ ground (arith, length_pos p.rows)
      ]
  remade p many (inr m) h =
      let same = length-materialize 0 p.rows p.plan_git p.plan_transitions m in ground arith

module _ (hex : Digest → Text) (layout : Layout) (applied : Checksums) (plan : MigrationPlan)
    (many : is_empty plan.rows ≡ false) (fits : length plan.rows ≤ u32_mod)
    (made : materialize_from layout plan.plan_git plan.plan_transitions 0 plan.rows
      ≡ some plan.objects) where
  abbrev filtered_plan : MigrationPlan
  filtered_plan = (filter_applied_migrations_on_plan hex layout applied plan).0

  filtered-rows : filtered_plan.rows ≡ plan.rows
  filtered-rows = (filter_plan_pending hex layout applied plan many fits).1

  filtered-objects :
      (filtered_plan.objects ≡ [])
      ⊎ (materialize_from layout filtered_plan.plan_git filtered_plan.plan_transitions 0
            filtered_plan.rows
          ≡ some filtered_plan.objects)
  unfolding filter_applied_migrations_on_plan filter_rows
  filtered-objects = ground arith

  filtered-fresh : fresh_rows layout applied 0 plan.rows filtered_plan.plan_transitions ≡ true
  filtered-fresh = pending-fresh layout applied 0 plan.rows _ (λ j e.
      let look = (filter_plan_pending hex layout applied plan many fits).0 j in
      elim (Option-cases (lookup j plan.plan_transitions)) [
        | inl n ↦ ground arith
        | inr (offs, o) ↦
            ground (arith, all-keep (λ off. not (is_applied applied (str_at layout off))) offs)
      ])

  filtered-no_replay :
      {final : MigrationPlan}
      → ensure_objects_materialized layout filtered_plan ≡ some final
      → all (no_replay applied) final.objects ≡ true
  filtered-no_replay {final} h =
      let again = remade layout applied filtered_plan (rw filtered-rows many) filtered-objects h in
      objects-no_replay layout applied 0 filtered_plan.rows filtered_plan.plan_git
        filtered_plan.plan_transitions (rw filtered-rows (omega arith)) again
        (rw filtered-rows filtered-fresh)

  unfiltered-final :
      {final : MigrationPlan} → ensure_objects_materialized layout plan ≡ some final → final ≡ plan
  unfolding ensure_objects_materialized
  unfiltered-final h =
      let same =
        length-materialize layout applied 0 plan.rows plan.plan_git plan.plan_transitions made in
      ground arith

materialized-nil :
    (layout : Layout) (applied : Checksums) (p : MigrationPlan)
    → is_empty p.rows ≡ true
    → materialize_from layout p.plan_git p.plan_transitions 0 p.rows ≡ some p.objects
    → p.objects ≡ []
unfolding materialize_from
materialized-nil layout applied p e made =
    let none_yet = (is_empty_iff p.rows).0 e in
    let made' : some [] ≡ some p.objects =
      ap (λ rows. materialize_from layout p.plan_git p.plan_transitions 0 rows) (sym none_yet)
      ∙ made in
    ground arith

-- No transition script that the audit history records as applied is planned again: once the filter
-- of a materialized plan has succeeded, the objects that the executor is given have none.
pub filter_no_replay :
    (hex : Digest → Text) (layout : Layout) (applied : Checksums) (plan : MigrationPlan)
    {filtered final : MigrationPlan}
    → length plan.rows ≤ u32_mod
    → materialize_from layout plan.plan_git plan.plan_transitions 0 plan.rows ≡ some plan.objects
    → filter_applied hex layout plan (ok applied) ≡ (filtered, none)
    → ensure_objects_materialized layout filtered ≡ some final
    → all (no_replay applied) final.objects ≡ true
unfolding filter_applied ensure_objects_materialized
filter_no_replay hex layout applied plan {filtered} {final} fits made h h' =
    elim (Bool-cases (is_empty plan.rows)) [
      | inl e ↦
          let nil = materialized-nil layout applied plan e made in
          let final_nil : final.objects ≡ [] = ground arith in rw final_nil refl
      | inr many ↦ elim (Bool-cases (any has_transitions plan.objects)) [
        | inr needless ↦
            let e : filtered ≡ plan = ground arith in
            let e' =
              unfiltered-final hex layout applied plan many fits made {final = final}
                (rw (sym e) h') in
            rw e' (needless-no_replay applied plan.objects needless)
        | inl need ↦
            let e : filtered ≡ filtered_plan hex layout applied plan many fits made =
              ground arith in
            filtered-no_replay hex layout applied plan many fits made {final = final}
              (rw (sym e) h')
      ]
    ]

-- A plan that was made from its rows is not made again.
pub ensure-made :
    (layout : Layout) (p : MigrationPlan)
    → materialize_from layout p.plan_git p.plan_transitions 0 p.rows ≡ some p.objects
    → ensure_objects_materialized layout p ≡ some p
unfolding ensure_objects_materialized
ensure-made layout p made =
    let same = length-materialize layout [] 0 p.rows p.plan_git p.plan_transitions made in
    ground arith

-- A plan with no transition scripts to filter goes on as it is.
needless-same :
    (hex : Digest → Text) (layout : Layout) (history : Result Checksums) (plan : MigrationPlan)
    {filtered final : MigrationPlan}
    → any has_transitions plan.objects ≡ false
    → materialize_from layout plan.plan_git plan.plan_transitions 0 plan.rows ≡ some plan.objects
    → filter_applied hex layout plan history ≡ (filtered, none)
    → ensure_objects_materialized layout filtered ≡ some final
    → final ≡ plan
unfolding filter_applied
needless-same hex layout history plan {filtered} {final} needless made h h' =
    let e : filtered ≡ plan = ground arith in
    let again : some final ≡ some plan =
      sym h' ∙ ap (ensure_objects_materialized layout) e ∙ ensure-made layout plan made in
    ground arith

-- What the executor is given is made from the rows of the plan.
pub final-made :
    (hex : Digest → Text) (layout : Layout) (history : Result Checksums) (plan : MigrationPlan)
    {filtered final : MigrationPlan}
    → length plan.rows ≤ u32_mod
    → materialize_from layout plan.plan_git plan.plan_transitions 0 plan.rows ≡ some plan.objects
    → filter_applied hex layout plan history ≡ (filtered, none)
    → ensure_objects_materialized layout filtered ≡ some final
    → (git : List (ℕ × PlanGitOff)) × (m : List (ℕ × List StrOff)) × (materialize_from layout git m
          0 plan.rows
        ≡ some final.objects)
unfolding filter_applied
final-made hex layout history plan {filtered} {final} fits made h h' =
    elim (Bool-cases (any has_transitions plan.objects)) [
      | inr needless ↦
          let e = needless-same hex layout history plan needless made h h' in
          (plan.plan_git, plan.plan_transitions, rw e made)
      | inl need ↦ elim (Result-cases history) [
        | inr (e, n) ↦ absurd (ground arith)
        | inl (applied, n) ↦ elim (Bool-cases (is_empty plan.rows)) [
          | inl e ↦ let nil = materialized-nil layout applied plan e made in absurd (ground arith)
          | inr many ↦
              let fp = filtered_plan hex layout applied plan many fits made in
              let same : fp.rows ≡ plan.rows =
                filtered-rows hex layout applied plan many fits made in
              let e : filtered ≡ fp = ground arith in
              let again =
                remade layout applied fp {p' = final} (rw same many)
                  (filtered-objects hex layout applied plan many fits made)
                  (ap (ensure_objects_materialized layout) (sym e) ∙ h') in
              (
                fp.plan_git,
                fp.plan_transitions,
                ap (materialize_from layout fp.plan_git fp.plan_transitions 0) (sym same) ∙ again,
              )
        ]
      ]
    ]

-- The executor is given no transition script that the loaded history records as applied.
pub final-no_replay :
    (hex : Digest → Text) (layout : Layout) (history : Result Checksums) (plan : MigrationPlan)
    {filtered final : MigrationPlan}
    → length plan.rows ≤ u32_mod
    → materialize_from layout plan.plan_git plan.plan_transitions 0 plan.rows ≡ some plan.objects
    → filter_applied hex layout plan history ≡ (filtered, none)
    → ensure_objects_materialized layout filtered ≡ some final
    → ((any has_transitions plan.objects ≡ false) × (any has_transitions final.objects ≡ false))
      ⊎ ((any has_transitions plan.objects ≡ true)
          × ((applied : Checksums) × (history ≡ ok applied)
              × (all (no_replay applied) final.objects ≡ true)))
unfolding filter_applied
final-no_replay hex layout history plan {filtered} {final} fits made h h' =
    elim (Bool-cases (any has_transitions plan.objects)) [
      | inr needless ↦
          let e = needless-same hex layout history plan needless made h h' in
          inl (needless, rw e needless)
      | inl need ↦ elim (Result-cases history) [
        | inr (e, n) ↦ absurd (ground arith)
        | inl (applied, n) ↦
            let h2 : filter_applied hex layout plan (ok applied) ≡ (filtered, none) =
              ap (filter_applied hex layout plan) (sym n) ∙ h in
            inr (need, (applied, n, filter_no_replay hex layout applied plan fits made h2 h'))
      ]
    ]
