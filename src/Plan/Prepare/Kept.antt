-- ===== src/Plan/Prepare/Kept.antt =====
-- What the preparation of crates/core/src/plan/scope.rs keeps: each object's script and database.
use mssql_migrator.Prelude.{
  ℕ, zero, suc, ◌≡◌, refl, sym, ap, ◌∙◌, ◌≢◌, inl, inr, Bool, Option, none, some, List, [], ◌∷◌,
  map, arith, Bool-cases, Option-cases, get_elem?, set, resize, Text,
}
use mathlib.Core.Path.{subst}
use mssql_migrator.Domain.Workspace.{
  Workspace, ObjectEntry, entry, entry_key, object_count, set_db_exists,
}
use mssql_migrator.Plan.Diff.{ChecksumMap}
use mssql_migrator.Domain.Workspace.{Digest}
use mssql_migrator.Plan.Prepare.Aligned.{with_prior, apply_prior-eq}
use mssql_migrator.Plan.Prepare.{
  CatalogState, catalog_applied, mark_catalog_applied, checksums_applied, mark_checksums_applied,
  get_key, apply_prior, apply_priors, apply_checksums_if_needed, in_catalog, catalog_parent,
  record_parent, mark_live, apply_catalog_row, apply_catalog_rows, apply_catalog_if_needed,
}

abbrev pub ids_of : ObjectEntry → ℕ × ℕ
ids_of e = (e.script_id, e.db_id)

-- The same scripts and databases, row by row, and the same names.
pub record Keeps (ws ws' : Workspace) : Type 0 where
  pub ids : map ids_of ws'.object_entries ≡ map ids_of ws.object_entries
  pub names : ws'.database_names ≡ ws.database_names

Keeps-refl : (ws : Workspace) → Keeps ws ws
Keeps-refl ws = record { ids = refl; names = refl }

pub Keeps-trans : (a b c : Workspace) → Keeps a b → Keeps b c → Keeps a c
Keeps-trans a b c k l = record { ids = l.ids ∙ k.ids; names = l.names ∙ k.names }

map-set :
    (b : Bool) (es : List ObjectEntry) (i : ℕ) (e : ObjectEntry)
    → get_elem? es i ≡ some e
    → map ids_of (set es i (set_db_exists b e)) ≡ map ids_of es
unfolding set_db_exists
map-set b [] i e h = refl
map-set b (d ∷ es) zero e h =
    let same : d ≡ e = ground arith in ap (λ x. ids_of x ∷ map ids_of es) (sym same)
map-set b (d ∷ es) (suc i) e h = ap (λ r. ids_of d ∷ r) (map-set b es i e h)

some_same {ℓ} : {A : Type ℓ} {a b : A} → some a ≡ some b → a ≡ b
some_same h = ground arith

module _ (lower : Text → Text) (cs : ChecksumMap) (catalog : CatalogState) where
  mark_live-Keeps :
      (b : Bool) (i : ℕ) (e : ObjectEntry) (ws : Workspace)
      → entry ws i ≡ some e
      → Keeps ws (mark_live b i e ws)
  unfolding mark_live entry
  mark_live-Keeps b i e ws h = record { ids = map-set b ws.object_entries i e h; names = refl }

  record_parent-Keeps :
      (key : Text) (i : ℕ) (ws : Workspace) → Keeps ws (record_parent lower catalog key i ws)
  unfolding record_parent
  record_parent-Keeps key i ws = elim (Option-cases (catalog_parent catalog key)) [
    | inl n ↦ rw (n, record_parent) (Keeps-refl ws)
    | inr (parent, h) ↦ rw (h, record_parent) (record { ids = refl; names = refl })
  ]

  apply_catalog_rows-Keeps :
      (k i : ℕ) (ws : Workspace) {ws' : Workspace}
      → apply_catalog_rows lower cs catalog k i ws ≡ some ws'
      → Keeps ws ws'
  unfolding apply_catalog_rows apply_catalog_row
  apply_catalog_rows-Keeps zero i ws {ws'} h =
      let same : ws ≡ ws' = ground arith in subst (Keeps ws) same (Keeps-refl ws)
  apply_catalog_rows-Keeps (suc k) i ws {ws'} h = elim (Option-cases (entry_key ws i)) [
    | inl n ↦ absurd (ground arith)
    | inr (key, p) ↦ elim (Option-cases (entry ws i)) [
      | inl n ↦ absurd (ground arith)
      | inr (e, q) ↦
          let marked = mark_live (in_catalog cs catalog key) i e ws in
          let next = record_parent lower catalog key i marked in
          let rest : apply_catalog_rows lower cs catalog k (suc i) next ≡ some ws' = ground arith in
          Keeps-trans ws next ws'
            (Keeps-trans ws marked next (mark_live-Keeps _ i e ws q)
              (record_parent-Keeps key i marked))
            (apply_catalog_rows-Keeps k (suc i) next rest)
    ]
  ]

  no_key :
      (i : ℕ) (ws : Workspace) {ws' : Workspace}
      → entry_key ws i ≡ none
      → apply_prior cs i ws ≢ some ws'
  unfolding apply_prior
  no_key i ws n h = ground (arith, n, h)

  with_prior-Keeps : (o : Option Digest) (i : ℕ) (ws : Workspace) → Keeps ws (with_prior o i ws)
  with_prior-Keeps none i ws = Keeps-refl ws
  with_prior-Keeps (some digest) i ws = record { ids = refl; names = refl }

  apply_prior-Keeps :
      (i : ℕ) (ws : Workspace) {ws' : Workspace} → apply_prior cs i ws ≡ some ws' → Keeps ws ws'
  apply_prior-Keeps i ws {ws'} h = elim (Option-cases (entry_key ws i)) [
    | inl n ↦ absurd (no_key i ws n h)
    | inr (key, p) ↦
        let step = apply_prior-eq cs i ws key p in
        let same : with_prior (get_key cs key) i ws ≡ ws' = some_same (sym step ∙ h) in
        subst (Keeps ws) same (with_prior-Keeps (get_key cs key) i ws)
  ]

  apply_priors-Keeps :
      (k i : ℕ) (ws : Workspace) {ws' : Workspace}
      → apply_priors cs k i ws ≡ some ws'
      → Keeps ws ws'
  unfolding apply_priors
  apply_priors-Keeps zero i ws {ws'} h =
      let same : ws ≡ ws' = ground arith in subst (Keeps ws) same (Keeps-refl ws)
  apply_priors-Keeps (suc k) i ws {ws'} h = elim (Option-cases (apply_prior cs i ws)) [
    | inl n ↦ absurd (ground arith)
    | inr (mid, p) ↦
        let rest : apply_priors cs k (suc i) mid ≡ some ws' = ground arith in
        Keeps-trans ws mid ws' (apply_prior-Keeps i ws p) (apply_priors-Keeps k (suc i) mid rest)
  ]

  pub apply_catalog-Keeps :
      (ws : Workspace) {ws' : Workspace}
      → apply_catalog_if_needed lower cs catalog ws ≡ some ws'
      → Keeps ws ws'
  unfolding apply_catalog_if_needed mark_catalog_applied
  apply_catalog-Keeps ws {ws'} h = elim (Bool-cases (catalog_applied ws)) [
    | inl t ↦ let same : ws ≡ ws' = ground arith in subst (Keeps ws) same (Keeps-refl ws)
    | inr f ↦
        let start = record ws { catalog_row = resize ws.catalog_row (object_count ws) 0 } in
        elim (Option-cases (apply_catalog_rows lower cs catalog (object_count ws) 0 start)) [
          | inl n ↦ absurd (ground arith)
          | inr (mid, p) ↦
              let same : mark_catalog_applied mid ≡ ws' = ground arith in
              let k = apply_catalog_rows-Keeps (object_count ws) 0 start p in
              subst (Keeps ws) same (record { ids = k.ids; names = k.names })
        ]
  ]

  pub apply_checksums-Keeps :
      (ws : Workspace) {ws' : Workspace} → apply_checksums_if_needed cs ws ≡ some ws' → Keeps ws ws'
  unfolding apply_checksums_if_needed mark_checksums_applied
  apply_checksums-Keeps ws {ws'} h = elim (Bool-cases (checksums_applied ws)) [
    | inl t ↦ let same : ws ≡ ws' = ground arith in subst (Keeps ws) same (Keeps-refl ws)
    | inr f ↦
        let start = record ws { prior_by_row = resize ws.prior_by_row (object_count ws) none } in
        elim (Option-cases (apply_priors cs (object_count ws) 0 start)) [
          | inl n ↦ absurd (ground arith)
          | inr (mid, p) ↦
              let same : mark_checksums_applied mid ≡ ws' = ground arith in
              let k = apply_priors-Keeps (object_count ws) 0 start p in
              subst (Keeps ws) same (record { ids = k.ids; names = k.names })
        ]
  ]
