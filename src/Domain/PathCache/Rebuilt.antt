-- ===== src/Domain/PathCache/Rebuilt.antt =====
-- The path caches are built (crates/core/src/domain/path_cache.rs).
use mssql_migrator.Prelude.{
  ℕ, zero, suc, ◌≡◌, refl, sym, ap, ◌∙◌, inl, inr, not, ◌&&◌, Option, none, some, List, [], ◌∷◌,
  arith, Bool-cases, get_elem?, replicate, is_empty, All, Text,
}
use mssql_migrator.Domain.Workspace.{
  Workspace, ObjectEntry, StrOff, object_count, parent_ref_for_row, database_name,
}
use mssql_migrator.Domain.Paths.{object_path_for_entry, with_database_prefix}
use mssql_migrator.Domain.Layout.{Layout, Script}
use mssql_migrator.Domain.Store.{text_le}
use mssql_migrator.Export.Materialize.{script_at}
use mssql_migrator.Plan.Diff.Total.{IsAligned}
use mssql_migrator.Domain.PathCache.{
  TransitionEntry, Scanned, from_arena, ordinal, ordered_path, collect_opt, insert_path, sort_paths,
  row_paths, put_paths, paths_by_row, flag_rows, with_transition_cache, with_object_cache,
  transition_cache, rebuild_transition_path_cache, object_off, object_cache, rebuild_path_caches,
  is_unset, ensure_path_caches,
}

-- The arena holds a text.
abbrev pub ArenaHas : List (Text × ℕ) → Text → Type 0
ArenaHas index s = (off : StrOff) × (from_arena index s ≡ some off)

-- The script exists and the arena has the path of an object that it defines.
abbrev pub HasObjectPath : Layout → List (Text × ℕ) → ObjectEntry → Type 0
HasObjectPath layout index e =
    (script : Script) × (script_at layout e.script_id ≡ some script)
    × ArenaHas index (object_path_for_entry (database_name layout.ws e.db_id) script.path)

abbrev pub HasTransitionPath : Layout → List (Text × ℕ) → Text → TransitionEntry → Type 0
HasTransitionPath layout index db t =
    (script : Script) × (script_at layout t.script_id ≡ some script)
    × ArenaHas index (with_database_prefix db script.path)

abbrev pub HasRowPaths : Layout → List (Text × ℕ) → ℕ × List TransitionEntry → Type 0
HasRowPaths layout index (id, entries) =
    (i : ℕ) × (e : ObjectEntry) × (id ≡ suc i)
    × (get_elem? layout.ws.object_entries i ≡ some e)
    × All (HasTransitionPath layout index (database_name layout.ws e.db_id)) entries

-- If the strings are interned: each object has a script, transitions belong to rows and have
-- scripts, and the arena has their paths.
pub record HasPaths (s : Scanned) : Type 0 where
  pub objects :
      (index : List (Text × ℕ))
      → s.arena_index ≡ some index
      → All (HasObjectPath s.layout index) s.layout.ws.object_entries
  pub transitions :
      (index : List (Text × ℕ))
      → s.arena_index ≡ some index
      → All (HasRowPaths s.layout index) s.transitions_by_row

module _ {ℓ κ μ} {A : Type ℓ} {B : Type κ} (f : A → Option B) (Q : B → Type μ) where
  collect_known :
      (xs : List A)
      → All (λ a. (b : B) × (f a ≡ some b) × Q b) xs
      → (bs : List B) × (collect_opt f xs ≡ some bs) × All Q bs
  unfolding collect_opt
  collect_known [] h = ([], refl, tt)
  collect_known (a ∷ r) ((b, p, q), h) =
      let (bs, ps, qs) = collect_known r h in (b ∷ bs, rw p (rw ps refl), (q, qs))

module _ (P : Text × Text → Type 0) where
  insert_path-All :
      (a : Text × Text) (r : List (Text × Text)) → P a → All P r → All P (insert_path a r)
  unfolding insert_path
  insert_path-All a [] p h = (p, tt)
  insert_path-All a (b ∷ r) p (q, h) = elim (Bool-cases (text_le a.0 b.0)) [
    | inl e ↦ rw e (p, (q, h))
    | inr e ↦ rw e (q, insert_path-All a r p h)
  ]

  sort_paths-All : (r : List (Text × Text)) → All P r → All P (sort_paths r)
  unfolding sort_paths
  sort_paths-All [] h = tt
  sort_paths-All (a ∷ r) (p, h) = insert_path-All a (sort_paths r) p (sort_paths-All r h)

module _ {ℓ κ μ} {A : Type ℓ} {P : A → Type κ} {Q : A → Type μ} (f : (a : A) → P a → Q a) where
  map-All : (xs : List A) → All P xs → All Q xs
  map-All [] h = tt
  map-All (a ∷ r) (p, h) = (f a p, map-All r h)

module _ (layout : Layout) (index : List (Text × ℕ)) where
  row_paths_known :
      (id : ℕ) (entries : List TransitionEntry)
      → HasRowPaths layout index (id, entries)
      → (paths : List StrOff) × (row_paths layout index id entries ≡ some paths)
  unfolding row_paths ordered_path
  row_paths_known zero entries (i, e, p, read, has) = absurd (omega (arith, p))
  row_paths_known (suc j) entries (i, e, p, read, has) =
      let db = database_name layout.ws e.db_id in
      let same : i ≡ j = omega (arith, p) in
      let at : get_elem? layout.ws.object_entries j ≡ some e =
        ap (get_elem? layout.ws.object_entries) (sym same) ∙ read in
      let (rows, q, known) =
        collect_known (ordered_path layout db) (λ r. ArenaHas index r.1) entries
          (map-All
            (λ t (script, r, arena).
              ((ordinal layout t, with_database_prefix db script.path), rw r refl, arena))
            entries has) in
      let (paths, s, done) =
        collect_known (λ r. from_arena index r.1) (λ o. Unit {0}) (sort_paths rows)
          (map-All (λ r (off, found). (off, found, tt)) (sort_paths rows)
            (sort_paths-All (λ r. ArenaHas index r.1) rows known)) in
      (paths, rw at (rw q s))

  paths_known :
      (ts : List (ℕ × List TransitionEntry))
      → All (HasRowPaths layout index) ts
      → (out : List (ℕ × List StrOff)) × (paths_by_row layout index ts ≡ some out)
  unfolding paths_by_row
  paths_known [] h = ([], refl)
  paths_known ((id, entries) ∷ r) (p, h) =
      let (paths, q) = row_paths_known id entries p in
      let (out, s) = paths_known r h in (put_paths id paths out, rw q (rw s refl))

with_transition_cache-IsAligned :
    (cache : Option (List (ℕ × List StrOff))) (flags : List ℕ) (ws : Workspace)
    → IsAligned ws
    → IsAligned (with_transition_cache cache flags ws)
unfolding object_count parent_ref_for_row
with_transition_cache-IsAligned cache flags ws a = record {
  rows = a.rows;
  keys = a.keys;
  priors = a.priors;
  fits = a.fits;
  parents = a.parents;
}

with_object_cache-IsAligned :
    (cache : Option (List StrOff)) (ws : Workspace)
    → IsAligned ws
    → IsAligned (with_object_cache cache ws)
unfolding object_count parent_ref_for_row
with_object_cache-IsAligned cache ws a = record {
  rows = a.rows;
  keys = a.keys;
  priors = a.priors;
  fits = a.fits;
  parents = a.parents;
}

module _ (s : Scanned) (aligned : IsAligned s.layout.ws) where
  transition_cache-IsAligned :
      (o : Option (List (Text × ℕ))) (ts : List (ℕ × List TransitionEntry))
      → ((index : List (Text × ℕ)) → o ≡ some index → All (HasRowPaths s.layout index) ts)
      → (ws' : Workspace) × (transition_cache s o ts ≡ some ws') × IsAligned ws'
  unfolding transition_cache
  transition_cache-IsAligned none ts has =
      (_, refl, with_transition_cache-IsAligned none [] s.layout.ws aligned)
  transition_cache-IsAligned (some index) [] has =
      (_, refl, with_transition_cache-IsAligned none [] s.layout.ws aligned)
  transition_cache-IsAligned (some index) (t ∷ ts) has =
      let (cache, p) = paths_known s.layout index (t ∷ ts) (has index refl) in
      let flags = flag_rows cache (replicate (object_count s.layout.ws) 0) in
      (
        with_transition_cache (some cache) flags s.layout.ws,
        rw p refl,
        with_transition_cache-IsAligned (some cache) flags s.layout.ws aligned,
      )

  object_cache-IsAligned :
      (o : Option (List (Text × ℕ))) (entries : List ObjectEntry) (ws : Workspace)
      → ((index : List (Text × ℕ)) → o ≡ some index → All (HasObjectPath s.layout index) entries)
      → IsAligned ws
      → (ws' : Workspace) × (object_cache s o entries ws ≡ some ws') × IsAligned ws'
  unfolding object_cache object_off
  object_cache-IsAligned none entries ws has a = (_, refl, with_object_cache-IsAligned none ws a)
  object_cache-IsAligned (some index) [] ws has a = (_, refl, with_object_cache-IsAligned none ws a)
  object_cache-IsAligned (some index) (e ∷ r) ws has a =
      let (paths, p, known) =
        collect_known (object_off s.layout index) (λ o. Unit {0}) (e ∷ r)
          (map-All (λ d (script, q, (off, found)). (off, rw q found, tt)) (e ∷ r)
            (has index refl)) in
      (_, rw p refl, with_object_cache-IsAligned (some paths) ws a)

  pub ensure_path_caches-IsAligned :
      HasPaths s → (ws' : Workspace) × (ensure_path_caches s ≡ some ws') × IsAligned ws'
  unfolding ensure_path_caches rebuild_path_caches rebuild_transition_path_cache
  ensure_path_caches-IsAligned has =
      let (ws1, p, a1) =
        transition_cache-IsAligned s.arena_index s.transitions_by_row has.transitions in
      let (ws2, q, a2) =
        object_cache-IsAligned s.arena_index s.layout.ws.object_entries ws1 has.objects a1 in
      elim (Bool-cases
        (not (is_empty s.layout.ws.object_entries) && is_unset s.layout.ws.object_path_cache)) [
          | inl b ↦ (ws2, rw b (rw p q), a2)
          | inr b ↦
              elim (Bool-cases (
                not (is_empty s.transitions_by_row)
                && is_unset s.layout.ws.transition_path_cache)) [
                  | inl c ↦ (ws1, rw b (rw c p), a1)
                  | inr c ↦ (s.layout.ws, rw b (rw c refl), aligned)
                ]
        ]
