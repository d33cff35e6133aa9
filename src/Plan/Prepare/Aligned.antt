-- ===== src/Plan/Prepare/Aligned.antt =====
-- The preparation of crates/core/src/plan/scope.rs leaves an aligned workspace.
use mssql_migrator.Prelude.{
  ℕ, zero, suc, ◌+◌, ◌≤◌, ◌<◌, ◌≡◌, refl, sym, ◌∙◌, inl, inr, Bool, true, Option, none, some, List,
  arith, Bool-cases, Option-cases, length, set, resize, length-set, length-resize, get_elem?-some,
  insert, lookup-insert, Text, codes,
}
use mssql_migrator.Domain.Workspace.{
  Workspace, ObjectEntry, Digest, u32_mod, object_count, row_id_at, entry, entry_key, key_index,
  key_part, set_db_exists, parent_ref_for_row,
}
use mssql_migrator.Domain.Paths.{object_key}
use mssql_migrator.Plan.Diff.{ChecksumMap}
use mssql_migrator.Plan.Diff.Total.{IsAligned, key_known}
use mssql_migrator.Plan.Prepare.{
  CatalogState, catalog_applied, mark_catalog_applied, checksums_applied, mark_checksums_applied,
  get_key, apply_prior, apply_priors, apply_checksums_if_needed, in_catalog, catalog_parent,
  record_parent, mark_live, apply_catalog_row, apply_catalog_rows, apply_catalog_if_needed,
}

-- A workspace whose layout is finalized: rows and keys for the entries, ids that fit 32 bits, and an
-- index and parents that name rows. The checksums, if they are applied, are as long.
pub record IsReady (ws : Workspace) : Type 0 where
  pub rows : length ws.object_rows ≡ object_count ws
  pub keys : length ws.object_keys ≡ object_count ws
  pub fits : object_count ws < u32_mod
  pub index : (k : Text) → key_index ws k ≤ object_count ws
  pub parents : (id p : ℕ) → parent_ref_for_row ws id ≡ some p → p ≤ object_count ws
  pub priors : checksums_applied ws ≡ true → length ws.prior_by_row ≡ object_count ws

keys_known :
    (ws : Workspace)
    → IsReady ws
    → (i : ℕ) → i < object_count ws
    → (k : Text) × (entry_key ws i ≡ some k)
unfolding entry_key
keys_known ws r i lt =
    let (k, p) = get_elem?-some ws.object_keys i (omega (arith, r.keys)) in
    (k, ground (arith, r.keys))

mark_live-IsReady :
    (b : Bool) (i : ℕ) (e : ObjectEntry) (ws : Workspace)
    → IsReady ws
    → IsReady (mark_live b i e ws)
unfolding mark_live object_count key_index parent_ref_for_row checksums_applied
mark_live-IsReady b i e ws r =
    let len = length-set ws.object_entries i (set_db_exists b e) in
    record {
      rows = omega (arith, r.rows, len);
      keys = omega (arith, r.keys, len);
      fits = omega (arith, r.fits, len);
      index = λ k. rw len (r.index k);
      parents = λ id p h. rw len (r.parents id p h);
      priors = λ h. r.priors h ∙ sym len;
    }

with_parent-IsReady :
    (ws : Workspace) (id p : ℕ)
    → IsReady ws
    → p ≤ object_count ws
    → IsReady (record ws { parent_by_row = insert id p ws.parent_by_row })
unfolding object_count key_index parent_ref_for_row checksums_applied
with_parent-IsReady ws id p r le = record {
  rows = r.rows;
  keys = r.keys;
  fits = r.fits;
  index = r.index;
  parents = λ j q h. ground (arith, lookup-insert id j p ws.parent_by_row, r.parents j q);
  priors = r.priors;
}

record_parent-IsReady :
    (lower : Text → Text) (catalog : CatalogState) (key : Text) (i : ℕ) (ws : Workspace)
    → IsReady ws
    → IsReady (record_parent lower catalog key i ws)
unfolding record_parent
record_parent-IsReady lower catalog key i ws r = elim (Option-cases (catalog_parent catalog key)) [
  | inl n ↦ rw (n, record_parent) r
  | inr (parent, h) ↦
      rw (h, record_parent)
        (with_parent-IsReady ws (row_id_at i) _ r
          (r.index (object_key lower (key_part key 0) (codes "tables") parent)))
]

record_parent-object_count :
    (lower : Text → Text) (catalog : CatalogState) (key : Text) (i : ℕ) (ws : Workspace)
    → object_count (record_parent lower catalog key i ws) ≡ object_count ws
unfolding record_parent object_count
record_parent-object_count lower catalog key i ws = ground arith

module _ (lower : Text → Text) (cs : ChecksumMap) (catalog : CatalogState) where
  apply_catalog_rows-IsReady :
      (k i : ℕ) (ws : Workspace)
      → IsReady ws
      → k + i ≤ object_count ws
      → (ws' : Workspace) × (apply_catalog_rows lower cs catalog k i ws ≡ some ws') × IsReady ws'
  unfolding apply_catalog_rows apply_catalog_row entry object_count
  apply_catalog_rows-IsReady zero i ws r le = (ws, refl, r)
  apply_catalog_rows-IsReady (suc k) i ws r le =
      let (key, p) = keys_known ws r i (omega arith) in
      let (e, q) = get_elem?-some ws.object_entries i (omega arith) in
      let marked = mark_live (in_catalog cs catalog key) i e ws in
      let next = record_parent lower catalog key i marked in
      let count : object_count next ≡ object_count ws =
        record_parent-object_count lower catalog key i marked
        ∙ length-set ws.object_entries i (set_db_exists (in_catalog cs catalog key) e) in
      let ready =
        record_parent-IsReady lower catalog key i marked
          (mark_live-IsReady (in_catalog cs catalog key) i e ws r) in
      let (ws', rest, ready') =
        apply_catalog_rows-IsReady k (suc i) next ready (omega (arith, count)) in
      (ws', rw p (rw q rest), ready')

mark_catalog_applied-IsReady : (ws : Workspace) → IsReady ws → IsReady (mark_catalog_applied ws)
unfolding mark_catalog_applied catalog_applied checksums_applied object_count key_index
    parent_ref_for_row
mark_catalog_applied-IsReady ws r = record {
  rows = r.rows;
  keys = r.keys;
  fits = r.fits;
  index = r.index;
  parents = r.parents;
  priors = λ h. r.priors (ground arith);
}

with_catalog_row-IsReady :
    (ws : Workspace) (c : List ℕ) → IsReady ws → IsReady (record ws { catalog_row = c })
unfolding object_count key_index parent_ref_for_row checksums_applied
with_catalog_row-IsReady ws c r = record {
  rows = r.rows;
  keys = r.keys;
  fits = r.fits;
  index = r.index;
  parents = r.parents;
  priors = r.priors;
}

pub apply_catalog-IsReady :
    (lower : Text → Text) (cs : ChecksumMap) (catalog : CatalogState) (ws : Workspace)
    → IsReady ws
    → (ws' : Workspace) × (apply_catalog_if_needed lower cs catalog ws ≡ some ws') × IsReady ws'
unfolding apply_catalog_if_needed object_count
apply_catalog-IsReady lower cs catalog ws r = elim (Bool-cases (catalog_applied ws)) [
  | inl t ↦ (ws, rw (t, apply_catalog_if_needed) refl, r)
  | inr f ↦
      let row = resize ws.catalog_row (object_count ws) 0 in
      let (ws', rest, ready) =
        apply_catalog_rows-IsReady lower cs catalog (object_count ws) 0
          (record ws { catalog_row = row }) (with_catalog_row-IsReady ws row r) (omega arith) in
      (
        mark_catalog_applied ws',
        rw (f, apply_catalog_if_needed) (rw rest refl),
        mark_catalog_applied-IsReady ws' ready,
      )
]

with_priors-IsAligned :
    (ws : Workspace) (c : List (Option Digest))
    → IsAligned ws
    → length c ≡ object_count ws
    → IsAligned (record ws { prior_by_row = c })
unfolding object_count parent_ref_for_row
with_priors-IsAligned ws c a len = record {
  rows = a.rows;
  keys = a.keys;
  priors = len;
  fits = a.fits;
  parents = a.parents;
}

ready-IsAligned :
    (ws : Workspace) → IsReady ws → length ws.prior_by_row ≡ object_count ws → IsAligned ws
ready-IsAligned ws r len = record {
  rows = r.rows;
  keys = r.keys;
  priors = len;
  fits = r.fits;
  parents = r.parents;
}

sized-IsReady :
    (ws : Workspace) (c : List (Option Digest))
    → IsReady ws
    → length c ≡ object_count ws
    → IsReady (record ws { prior_by_row = c })
unfolding object_count key_index parent_ref_for_row checksums_applied
sized-IsReady ws c r len = record {
  rows = r.rows;
  keys = r.keys;
  fits = r.fits;
  index = r.index;
  parents = r.parents;
  priors = λ h. len;
}

mark_checksums_applied-IsAligned :
    (ws : Workspace) → IsAligned ws → IsAligned (mark_checksums_applied ws)
unfolding mark_checksums_applied object_count parent_ref_for_row
mark_checksums_applied-IsAligned ws a = record {
  rows = a.rows;
  keys = a.keys;
  priors = a.priors;
  fits = a.fits;
  parents = a.parents;
}

-- A prior is written at its row if the history has one.
abbrev pub with_prior : Option Digest → ℕ → Workspace → Workspace
with_prior none i ws = ws
with_prior (some digest) i ws = record ws { prior_by_row = set ws.prior_by_row i (some digest) }

with_prior-IsAligned :
    (o : Option Digest) (i : ℕ) (ws : Workspace)
    → IsAligned ws
    → IsAligned (with_prior o i ws) × (object_count (with_prior o i ws) ≡ object_count ws)
unfolding object_count
with_prior-IsAligned none i ws a = (a, refl)
with_prior-IsAligned (some digest) i ws a = (
  with_priors-IsAligned ws (set ws.prior_by_row i (some digest)) a
      (length-set ws.prior_by_row i (some digest) ∙ a.priors),
  refl,
)

pub apply_prior-eq :
    (cs : ChecksumMap) (i : ℕ) (ws : Workspace) (key : Text)
    → entry_key ws i ≡ some key
    → apply_prior cs i ws ≡ some (with_prior (get_key cs key) i ws)
unfolding apply_prior
apply_prior-eq cs i ws key h = elim (Option-cases (get_key cs key)) [
  | inl n ↦ rw h (rw n refl)
  | inr (d, s) ↦ rw h (rw s refl)
]

apply_priors-IsAligned :
    (cs : ChecksumMap) (k i : ℕ) (ws : Workspace)
    → IsAligned ws
    → k + i ≤ object_count ws
    → (ws' : Workspace) × (apply_priors cs k i ws ≡ some ws') × IsAligned ws'
unfolding apply_priors
apply_priors-IsAligned cs zero i ws a le = (ws, refl, a)
apply_priors-IsAligned cs (suc k) i ws a le =
    let (key, p) = key_known ws a i (omega arith) in
    let (a', count) = with_prior-IsAligned (get_key cs key) i ws a in
    let (ws', rest, last) =
      apply_priors-IsAligned cs k (suc i) (with_prior (get_key cs key) i ws) a'
        (omega (arith, count)) in
    (ws', rw (apply_prior-eq cs i ws key p) rest, last)

pub apply_checksums-IsAligned :
    (cs : ChecksumMap) (ws : Workspace)
    → IsReady ws
    → (ws' : Workspace) × (apply_checksums_if_needed cs ws ≡ some ws') × IsAligned ws'
unfolding apply_checksums_if_needed object_count
apply_checksums-IsAligned cs ws r = elim (Bool-cases (checksums_applied ws)) [
  | inl t ↦ (ws, rw (t, apply_checksums_if_needed) refl, ready-IsAligned ws r (r.priors t))
  | inr f ↦
      let column = resize ws.prior_by_row (object_count ws) none in
      let len = length-resize ws.prior_by_row (object_count ws) none in
      let sized = record ws { prior_by_row = column } in
      let (ws', rest, a) =
        apply_priors-IsAligned cs (object_count ws) 0 sized
          (ready-IsAligned sized (sized-IsReady ws column r len) len) (omega arith) in
      (
        mark_checksums_applied ws',
        rw (f, apply_checksums_if_needed) (rw rest refl),
        mark_checksums_applied-IsAligned ws' a,
      )
]
