-- ===== src/Export/Filter.antt =====
-- crates/core/src/export/materialize/filter.rs: transition scripts that were applied before leave
-- the plan. The maps from paths to checksums are association lists; the checksums are in hex, whose
-- encoding is a third-party crate's, an argument here.
pub mod Pending
use Prim.Native.Nat.Ordering.{gt}
use mssql_migrator.Prelude.{
  ℕ, zero, suc, ◌+◌, ◌-◌, ◌*◌, ◌/◌, ◌%◌, ◌^◌, ◌≤◌, ◌<◌, ◌≡◌, refl, sym, ap, ◌∙◌, ◌≢◌, ◌↔◌, ◌⊎◌, inl,
  inr, Bool, true, false, not, ◌&&◌, ◌||◌, Option, none, some, List, [], ◌∷◌, ◌++◌, map, reverse,
  arith, String, ltb, leb, ◌==◌, if◌then◌else◌, ==_iff, ==_refl, Bool-cases, Option-cases, length,
  get_elem?, set, replicate, resize, is_empty, is_empty_iff, all, any, length-append, length-set,
  length-resize, get_elem?-set_self, get_elem?-some, get_elem?-set_ne, get_elem?-lt, All,
  length-map, lookup, without, insert, lookup-without, lookup-insert, Text, codes, eq_text,
  starts_with, strip_prefix, ends_with, contains, split, push_front, join, split_once, replace,
  lookup_text, mem_text, mem_text-all, show, eq_text_iff, eq_text_refl, contains-append,
  contains-starts_with, join-split, starts_with-append, split-ne-nil,
}
use mssql_migrator.Domain.Action.{reprocess_changed, eq_action}
use mssql_migrator.Domain.Workspace.{Digest, StrOff, u32_mod}
use mssql_migrator.Domain.Layout.{
  Layout, Script, ScriptKind, object_script, transition_script, check_script, str_at,
}
use mssql_migrator.Export.PlanRow
use mssql_migrator.Export.PlanRow.{PlanRow}
use mssql_migrator.Export.PlanJson.{MigrationPlan, PlannedObject}
use mssql_migrator.Apply.Order.{compare_text}

-- From a script's path to a checksum.
abbrev pub Checksums : Type 0
Checksums = List (Text × Text)

unfoldable pub is_transition : ScriptKind → Bool
is_transition transition_script = true
is_transition object_script = false
is_transition check_script = false

-- Collects into a map, where a later script takes the place of an earlier one.
unfoldable pub transition_checksums : (Digest → Text) → List Script → Checksums → Checksums
unfolding is_transition
transition_checksums hex [] current = current
transition_checksums hex (s ∷ r) current = transition_checksums hex r (
    if is_transition s.kind
    then elim s.checksum [ none ↦ current | some cs ↦ (s.path, hex cs) ∷ current ]
    else current)

-- Whether some changed table has transition scripts, in the rows or in the objects.
unfoldable pub needs_rows : ℕ → List PlanRow → List (ℕ × List StrOff) → Bool
needs_rows i [] transitions = false
needs_rows i (r ∷ rs) transitions =
    eq_action (PlanRow.planned_action r) reprocess_changed
      && (elim (lookup (i % u32_mod) transitions) [ none ↦ false | some v ↦ not (is_empty v) ])
    || needs_rows (suc i) rs transitions

unfoldable pub has_transitions : PlannedObject → Bool
has_transitions o =
    eq_action o.planned_action reprocess_changed && not (is_empty o.transition_paths)

module _ (applied : Checksums) (current : Checksums) where
  -- Whether the path was applied before; one whose bytes changed since is noted.
  unfoldable pub applied_unchanged : Text → List Text → Bool × List Text
  applied_unchanged path tampered = elim (lookup_text path applied) [
    | none ↦ (false, tampered)
    | some recorded ↦ elim (lookup_text path current) [
      | none ↦ (true, tampered)
      | some now ↦
          if not (is_empty recorded) && not (eq_text now recorded)
          then (true, tampered ++ (path ∷ []))
          else (true, tampered)
    ]
  ]

  -- `paths.retain(|p| !applied_unchanged(p, ..))`
  unfoldable pub retain_pending {ℓ} :
      {A : Type ℓ} → (A → Text) → List A → List Text → List A × List Text
  unfolding applied_unchanged
  retain_pending path_of [] tampered = ([], tampered)
  retain_pending path_of (a ∷ r) tampered =
      let (is_applied, t) = applied_unchanged (path_of a) tampered in
      let (kept, t') = retain_pending path_of r t in (if is_applied then kept else a ∷ kept, t')

  -- One round of the loop over the rows.
  unfoldable pub filter_row :
      Layout → ℕ → PlanRow → List (ℕ × List StrOff) → List Text → List (ℕ × List StrOff) × List Text
  unfolding retain_pending
  filter_row layout i r transitions tampered =
      if eq_action (PlanRow.planned_action r) reprocess_changed
      then elim (lookup (i % u32_mod) transitions) [
        | none ↦ (transitions, tampered)
        | some paths ↦
            let (kept, t) = retain_pending (str_at layout) paths tampered in
            (insert (i % u32_mod) kept transitions, t)
      ]
      else (transitions, tampered)

  unfoldable pub filter_rows_from :
      Layout
      → ℕ
      → List PlanRow
      → List (ℕ × List StrOff)
      → List Text
      → List (ℕ × List StrOff) × List Text
  unfolding filter_row
  filter_rows_from layout i [] transitions tampered = (transitions, tampered)
  filter_rows_from layout i (r ∷ rs) transitions tampered =
      let (ts, t) = filter_row layout i r transitions tampered in
      filter_rows_from layout (suc i) rs ts t

  unfoldable pub filter_rows : Layout → MigrationPlan → MigrationPlan × List Text
  unfolding filter_rows_from needs_rows
  filter_rows layout plan =
      if needs_rows 0 plan.rows plan.plan_transitions
      then (let (ts, t) = filter_rows_from layout 0 plan.rows plan.plan_transitions [] in
          (record plan { plan_transitions = ts; objects = [] }, t))
      else (plan, [])

  unfoldable pub filter_objects : List PlannedObject → List Text → List PlannedObject × List Text
  unfolding retain_pending has_transitions
  filter_objects [] tampered = ([], tampered)
  filter_objects (o ∷ r) tampered =
      let (kept, t) =
        if has_transitions o
        then retain_pending (λ p. p) o.transition_paths tampered
        else (o.transition_paths, tampered) in
      let (rest, t') = filter_objects r t in (record o { transition_paths = kept } ∷ rest, t')

  unfoldable pub filter_legacy_objects : MigrationPlan → MigrationPlan × List Text
  unfolding filter_objects
  filter_legacy_objects plan =
      if any has_transitions plan.objects
      then (let (os, t) = filter_objects plan.objects [] in (record plan { objects = os }, t))
      else (plan, [])

-- `tampered.sort()`
unfoldable pub insert_path : Text → List Text → List Text
insert_path p [] = p ∷ []
insert_path p (q ∷ r) = elim (compare_text p q) [ gt ↦ q ∷ insert_path p r | _ ↦ p ∷ q ∷ r ]

unfoldable pub sort_paths : List Text → List Text
unfolding insert_path
sort_paths [] = []
sort_paths (p ∷ r) = insert_path p (sort_paths r)

-- The filtered plan, with the tampered paths if there are any.
unfoldable pub filter_applied_migrations_on_plan :
    (Digest → Text) → Layout → Checksums → MigrationPlan → MigrationPlan × Option (List Text)
unfolding filter_rows filter_legacy_objects sort_paths transition_checksums
filter_applied_migrations_on_plan hex layout applied plan =
    let current = transition_checksums hex layout.scripts [] in
    let (p, tampered) =
      if is_empty plan.rows
      then filter_legacy_objects applied current plan
      else filter_rows applied current layout plan in
    (p, if is_empty tampered then none else some (sort_paths tampered))
