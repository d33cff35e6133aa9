-- ===== src/Export/Materialize/Mirrors.antt =====
-- Plans from the diff to their materialized objects (crates/core/src/plan/diff.rs and
-- export/materialize/object.rs).
use mssql_migrator.Prelude.{
  ℕ, suc, ◌+◌, ◌-◌, ◌≤◌, ◌<◌, ◌≡◌, refl, sym, ◌∙◌, false, codes, eq_text, ◌≢◌, ◌⊎◌, inl, inr, true,
  false, some, List, [], ◌∷◌, arith, ◌==◌, Bool-cases, Option-cases, length, get_elem?, is_empty,
  is_empty_iff, get_elem?-some, All, length_pos, Text,
}
use mathlib.Core.Path.{subst}
use mssql_migrator.Domain.Kind.{kind_code, kind_tables}
use mssql_migrator.Domain.Action.{fail, reprocess_changed, reprocess_changed_blocked, eq_action_iff}
use mssql_migrator.Apply.Objects.{is_unappliable}
use mssql_migrator.Domain.Workspace.{
  Workspace, ObjectEntry, ObjectRow, StrOff, u32_mod, row_id_at, entry, row, key_part,
  row_has_transition_paths, entry_key, parent_ref_for_row, object_count,
}
use mssql_migrator.Domain.Layout.{Layout}
use mssql_migrator.Export.PlanRow
use mssql_migrator.Export.PlanRow.{PlanRow, PlanGitOff}
use mssql_migrator.Export.PlanJson.{MigrationPlan, PlannedObject}
use mssql_migrator.Plan.Diff.{ChecksumMap, compute_diff_into}
use mssql_migrator.Plan.Diff.Total.{
  IsAligned, IsFresh, key_known, entry_known, compute_diff-IsFresh, known,
}
use mssql_migrator.Plan.Diff.Rows.{unblocked_plan_executable}
use mssql_migrator.Export.Materialize.{
  script_at, cached_path, object_path_at, parent_name, materialize_planned_object, planned_object,
  materialize_from, ensure_objects_materialized,
}

-- Every object has a script row.
abbrev pub IsScripted : Layout → Type 0
IsScripted layout =
    (i : ℕ) (e : ObjectEntry)
    → entry layout.ws i ≡ some e
    → (0 < e.script_id) × (e.script_id ≤ length layout.scripts)

-- The object carries the row's action, existence and checksum, and the key of its entry.
abbrev pub Carries : Workspace → ℕ → PlanRow → PlannedObject → Type 0
Carries ws i r o =
    (entry_key ws i ≡ some o.normalized_key)
    × (o.planned_action ≡ PlanRow.planned_action r)
    × (o.exists ≡ PlanRow.exists r)
    × (o.checksum ≡ r.checksum)
    × (o.kind ≡ key_part o.normalized_key 1)

-- The objects correspond to the rows one to one, the first to row `i`.
abbrev pub Mirrored : Workspace → ℕ → List PlanRow → List PlannedObject → Type 0
Mirrored ws i [] [] = Unit
Mirrored ws i [] (o ∷ os) = ⊥
Mirrored ws i (r ∷ rs) [] = ⊥
Mirrored ws i (r ∷ rs) (o ∷ os) = Carries ws i r o × Mirrored ws (suc i) rs os

-- Every row has the kind code of its key's folder.
pub record HasKinds (ws : Workspace) : Type 0 where
  pub codes_match :
      (i : ℕ) (meta : ObjectRow) (key : Text)
      → row ws i ≡ some meta
      → entry_key ws i ≡ some key
      → meta.kind_code ≡ kind_code (key_part key 1)

-- The action is no failure and no blocked change, and the executor does not refuse the object as a
-- change that it cannot apply.
abbrev pub IsExecutable : PlannedObject → Type 0
IsExecutable o =
    (o.planned_action ≢ fail)
    × (o.planned_action ≢ reprocess_changed_blocked)
    × (is_unappliable o ≡ false)

-- A plan whose objects were made from its rows.
abbrev pub IsMade : Layout → MigrationPlan → Type 0
IsMade layout p =
    (length p.rows ≤ u32_mod)
    × (materialize_from layout p.plan_git p.plan_transitions 0 p.rows ≡ some p.objects)

module _ (layout : Layout) (aligned : IsAligned layout.ws) (scripted : IsScripted layout) where
  path_known :
      (i : ℕ) → i < object_count layout.ws → (path : Text) × (object_path_at layout i ≡ some path)
  unfolding object_path_at script_at
  path_known i lt = known _ (elim (Option-cases (cached_path layout.ws i)) [
    | inr (p, h) ↦ rw (h, object_path_at) (λ x. cc x)
    | inl n ↦
        let (e, er) = entry_known layout.ws aligned i lt in
        let (low, high) = scripted i e er in
        let (s, sr) = get_elem?-some layout.scripts (e.script_id - 1) (omega arith) in
        let nz : (e.script_id == 0) ≡ false = ground arith in
        rw (n, object_path_at) (rw er (rw (nz, script_at) (rw sr (λ x. cc x))))
  ])

  parent_known : (id : ℕ) → (name : Text) × (parent_name layout.ws id ≡ some name)
  unfolding parent_name
  parent_known id = known _ (elim (Option-cases (parent_ref_for_row layout.ws id)) [
    | inl n ↦ ground arith
    | inr (p, h) ↦ elim (Bool-cases (p == 0)) [
      | inl z ↦ ground arith
      | inr nz ↦
          let lt : p - 1 < object_count layout.ws = ground (arith, aligned.parents id p h) in
          let (e, q) = entry_known layout.ws aligned (p - 1) lt in
          let (k, r) = key_known layout.ws aligned (p - 1) lt in
          rw (h, parent_name) (rw nz (rw q (rw r (λ x. cc x))))
    ]
  ])

  object_known :
      (i : ℕ) (r : PlanRow) (git : List (ℕ × PlanGitOff)) (ts : List (ℕ × List StrOff))
      → i < object_count layout.ws
      → (o : PlannedObject) × (materialize_planned_object layout i r git ts ≡ some o)
        × Carries layout.ws i r o
  unfolding materialize_planned_object planned_object
  object_known i r git ts lt =
      let (e, er) = entry_known layout.ws aligned i lt in
      let (k, kr) = key_known layout.ws aligned i lt in
      let (path, pr) = path_known i lt in
      let (parent, nr) = parent_known (row_id_at i) in
      (
        planned_object layout i r git ts e k path parent,
        rw er (rw kr (rw pr (rw nr refl))),
        (kr, refl, refl, refl, refl),
      )

  objects_known :
      (git : List (ℕ × PlanGitOff)) (ts : List (ℕ × List StrOff)) (i : ℕ) (rows : List PlanRow)
      → i + length rows ≤ object_count layout.ws
      → (objects : List PlannedObject) × (materialize_from layout git ts i rows ≡ some objects)
        × Mirrored layout.ws i rows objects
  unfolding materialize_from
  objects_known git ts i [] le = ([], refl, tt)
  objects_known git ts i (r ∷ rs) le =
      let (o, h, c) = object_known i r git ts (omega arith) in
      let (rest, hs, cs) = objects_known git ts (suc i) rs (omega arith) in
      (o ∷ rest, rw h (rw hs refl), (c, cs))

  -- A plan with a row for each entry can be materialized.
  pub ensure_known :
      (p : MigrationPlan)
      → length p.rows ≡ object_count layout.ws
      → (p' : MigrationPlan) × (ensure_objects_materialized layout p ≡ some p')
  unfolding ensure_objects_materialized
  ensure_known p len =
      let (objects, h, mirrored) =
        objects_known p.plan_git p.plan_transitions 0 p.rows (omega arith) in
      known _ (rw h (ground arith))

  -- An unmaterialized plan is given its objects.
  pub fresh_known :
      (p : MigrationPlan)
      → IsFresh layout.ws p
      → (p' : MigrationPlan) × (ensure_objects_materialized layout p ≡ some p')
        × Mirrored layout.ws 0 p.rows p'.objects
        × (p'.rows ≡ p.rows)
        × IsMade layout p'
  unfolding ensure_objects_materialized materialize_from
  fresh_known p (len, none_yet) =
      let (objects, h, mirrored) =
        objects_known p.plan_git p.plan_transitions 0 p.rows (omega arith) in
      let fits : length p.rows ≤ u32_mod = omega (arith, aligned.fits) in
      elim (Bool-cases (is_empty p.rows)) [
        | inl e ↦
            let nil = (is_empty_iff p.rows).0 e in
            (p, rw e refl, rw none_yet (rw nil tt), refl, (fits, rw none_yet (rw nil refl)))
        | inr ne ↦
            let many : (0 == length p.rows) ≡ false = ground (arith, length_pos p.rows) in
            (
              record p { objects = objects },
              rw ne (rw none_yet (rw many (rw h refl))),
              mirrored,
              refl,
              (fits, h),
            )
      ]

-- What a plan that is not blocked says of a row.
abbrev IsOpenRow : Workspace → ℕ → PlanRow → Type 0
IsOpenRow ws i r =
    (PlanRow.planned_action r ≢ fail)
    × (PlanRow.planned_action r ≢ reprocess_changed_blocked)
    × ((PlanRow.planned_action r ≢ reprocess_changed)
        ⊎ ((meta : ObjectRow) × (row ws i ≡ some meta)
            × (meta.kind_code ≡ kind_tables)
            × (row_has_transition_paths ws i ≡ true)))

kind_code-tables : (k : Text) → kind_code k ≡ kind_tables → eq_text k (codes "tables") ≡ true
unfolding kind_code
kind_code-tables k h = ground arith

module _ (ws : Workspace) (kinds : HasKinds ws) where
  table-appliable :
      (o : PlannedObject) → eq_text o.kind (codes "tables") ≡ true → is_unappliable o ≡ false
  unfolding is_unappliable
  table-appliable o h = ground arith

  unchanged-appliable :
      (o : PlannedObject) → o.planned_action ≢ reprocess_changed → is_unappliable o ≡ false
  unfolding is_unappliable
  unchanged-appliable o h = ground (arith, eq_action_iff o.planned_action reprocess_changed)

  object-IsExecutable :
      (i : ℕ) (r : PlanRow) (o : PlannedObject)
      → Carries ws i r o
      → IsOpenRow ws i r
      → IsExecutable o
  object-IsExecutable i r o (key, action, exists, checksum, kind) (x, y, inl other) =
      (rw action x, rw action y, unchanged-appliable o (rw action other))
  object-IsExecutable i r o (key, action, exists, checksum, kind)
        (x, y, inr (meta, read, table, paths)) =
      (
        rw action x,
        rw action y,
        table-appliable o (
            rw kind (
              kind_code-tables _
                (sym (kinds.codes_match i meta o.normalized_key read key) ∙ table))),
      )

  objects-IsExecutable :
      (i : ℕ) (rows : List PlanRow) (objects : List PlannedObject)
      → Mirrored ws i rows objects
      → ((j : ℕ)
          → j < length rows
          → (out : PlanRow) × (get_elem? rows j ≡ some out) × IsOpenRow ws (i + j) out)
      → All IsExecutable objects
  objects-IsExecutable i [] [] m h = tt
  objects-IsExecutable i [] (o ∷ os) m h = absurd m
  objects-IsExecutable i (r ∷ rs) [] m h = absurd m
  objects-IsExecutable i (r ∷ rs) (o ∷ os) (c, m) h =
      let (out, read, fine) = h 0 (omega arith) in
      let here : i + 0 ≡ i = omega arith in
      let same : out ≡ r = ground arith in
      (
        object-IsExecutable i r o c
            (subst (λ k. IsOpenRow ws k r) here (subst (IsOpenRow ws (i + 0)) same fine)),
        objects-IsExecutable (suc i) rs os m (λ j lt.
            let (next, at, open_row) = h (suc j) (omega arith) in
            let step : i + suc j ≡ suc i + j = omega arith in
            (next, at, subst (λ k. IsOpenRow ws k next) step open_row)),
      )

-- Planning and materializing an aligned workspace whose rows have their keys' kinds and each of
-- whose objects has a script row always succeeds. There is one object for each entry, in order,
-- with the entry's key and its row's action, existence and checksum. If the plan is not blocked, no
-- object has the action `fail` or `reprocess_changed_blocked`, and the executor refuses none as a
-- change that it cannot apply.
pub computed_plan_materialized :
    (layout : Layout) (catalog : List Text) (cs : ChecksumMap) (plan : MigrationPlan)
    → IsAligned layout.ws
    → IsScripted layout
    → HasKinds layout.ws
    → (p : MigrationPlan) × (p' : MigrationPlan) × (compute_diff_into layout.ws catalog cs plan
        ≡ some p)
      × (ensure_objects_materialized layout p ≡ some p')
      × (length p.rows ≡ object_count layout.ws)
      × Mirrored layout.ws 0 p.rows p'.objects
      × ((p.blocked ≡ true) ⊎ All IsExecutable p'.objects)
computed_plan_materialized layout catalog cs plan aligned scripted kinds =
    let (p, h, fresh) = compute_diff-IsFresh layout.ws aligned catalog cs plan in
    let (p', h', m, same, made) = fresh_known layout aligned scripted p fresh in
    (
      p,
      p',
      h,
      h',
      fresh.0,
      m,
      elim (Bool-cases p.blocked) [
        | inl b ↦ inl b
        | inr open_plan ↦ inr (
            objects-IsExecutable layout.ws kinds 0 p.rows p'.objects m (λ j lt.
              let here : j ≡ 0 + j = omega arith in
              let (out, e, x, y, z) =
                unblocked_plan_executable layout.ws catalog cs plan h open_plan j
                  (omega (arith, lt, fresh)) in
              (out, e, subst (λ k. IsOpenRow layout.ws k out) here (x, y, z))))
      ],
    )
