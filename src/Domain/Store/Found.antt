-- ===== src/Domain/Store/Found.antt =====
-- What the finalized rows and index say of a key (crates/core/src/domain/store.rs).
use mssql_migrator.Prelude.{
  ℕ, zero, suc, ◌+◌, ◌-◌, ◌<◌, ◌≡◌, sym, ap, ◌∙◌, ◌≢◌, ◌⊎◌, inl, inr, none, some, List, [], ◌∷◌,
  map, arith, length, get_elem?, length-append, get_elem?-lt, length-map, Text, lookup_text,
  eq_text_iff,
}
use mssql_migrator.Prelude.{get_elem?-append_lt, get_elem?-append_last}
use mssql_migrator.Plan.Diff.Total.{known}
use mssql_migrator.Domain.Kind.{kind_code}
use mssql_migrator.Domain.Workspace.{ObjectEntry, ObjectRow, u32_mod, key_part}
use mssql_migrator.Domain.Store.Indexed.{length-sort_pairs, length-zip}
use mssql_migrator.Domain.Store.{
  schema_id_of, Layout, zip, sort_pairs, lay_out_key, lay_out, empty_layout, FinalizeSortedResult,
  columns_of, finalize_sorted_entries,
}

-- An id of the index comes from the keys that the loop has taken, and names a row of that key.
abbrev Recorded : ℕ → List Text → Text → List (Text × ℕ) → ℕ → Type 0
Recorded i keys k before id =
    (lookup_text k before ≡ some id) ⊎ ((i < id) × (get_elem? keys (id - 1 - i) ≡ some k))

module _ (fingerprint : Text → ℕ) where
  lay_out-Recorded :
      (i : ℕ) (keys : List Text) (l : Layout) (k : Text) (id : ℕ)
      → i + length keys < u32_mod
      → lookup_text k (lay_out fingerprint i keys l).key_index ≡ some id
      → Recorded i keys k l.key_index id
  unfolding lay_out lay_out_key lookup_text
  lay_out-Recorded i [] l k id fits h = inl h
  lay_out-Recorded i (key ∷ keys) l k id fits h =
      elim (lay_out-Recorded (suc i) keys (lay_out_key fingerprint i key l) k id (omega arith) h) [
        | inl new ↦ ground (arith, eq_text_iff key k, new)
        | inr (gt, g) ↦
            let at : id - 1 - i ≡ suc (id - 1 - suc i) = omega arith in
            inr (omega arith, ap (get_elem? (key ∷ keys)) at ∙ g)
      ]

  lay_out-keeps :
      (i : ℕ) (keys : List Text) (l : Layout) (k : Text)
      → lookup_text k l.key_index ≢ none
      → lookup_text k (lay_out fingerprint i keys l).key_index ≢ none
  unfolding lay_out lay_out_key lookup_text
  lay_out-keeps i [] l k h = h
  lay_out-keeps i (key ∷ keys) l k h =
      lay_out-keeps (suc i) keys (lay_out_key fingerprint i key l) k (ground (arith, h))

  lay_out-finds :
      (i : ℕ) (keys : List Text) (l : Layout) (j : ℕ) (k : Text)
      → get_elem? keys j ≡ some k
      → lookup_text k (lay_out fingerprint i keys l).key_index ≢ none
  unfolding lay_out lay_out_key lookup_text
  lay_out-finds i [] l j k h = absurd (ground arith)
  lay_out-finds i (key ∷ keys) l zero k h =
      lay_out-keeps (suc i) keys (lay_out_key fingerprint i key l) k
        (ground (arith, eq_text_iff key k))
  lay_out-finds i (key ∷ keys) l (suc j) k h =
      lay_out-finds (suc i) keys (lay_out_key fingerprint i key l) j k h

  lay_out-keeps_row :
      (i : ℕ) (keys : List Text) (l : Layout) (j : ℕ) (r : ObjectRow)
      → get_elem? l.rows j ≡ some r
      → get_elem? (lay_out fingerprint i keys l).rows j ≡ some r
  unfolding lay_out lay_out_key
  lay_out-keeps_row i [] l j r h = h
  lay_out-keeps_row i (key ∷ keys) l j r h =
      lay_out-keeps_row (suc i) keys (lay_out_key fingerprint i key l) j r
        (get_elem?-append_lt l.rows _ j (get_elem?-lt l.rows j h) ∙ h)

  lay_out-kind :
      (i : ℕ) (keys : List Text) (l : Layout) (j : ℕ) (k : Text)
      → get_elem? keys j ≡ some k
      → (r : ObjectRow) × (get_elem? (lay_out fingerprint i keys l).rows (length l.rows + j)
          ≡ some r)
        × (r.kind_code ≡ kind_code (key_part k 1))
  unfolding lay_out lay_out_key
  lay_out-kind i [] l j k h = absurd (ground arith)
  lay_out-kind i (key ∷ keys) l zero k h =
      let r : ObjectRow = record {
        schema_id = (schema_id_of (key_part key 0) l.schema_ids).0;
        kind_code = kind_code (key_part key 1);
      } in
      let at : length l.rows + 0 ≡ length l.rows = omega arith in
      let same : key ≡ k = ground arith in
      (
        r,
        ap (get_elem? (lay_out fingerprint i (key ∷ keys) l).rows) at
            ∙ lay_out-keeps_row (suc i) keys (lay_out_key fingerprint i key l) (length l.rows) r
                (get_elem?-append_last l.rows r),
        ap (λ s. kind_code (key_part s 1)) same,
      )
  lay_out-kind i (key ∷ keys) l (suc j) k h =
      let next = lay_out_key fingerprint i key l in
      let (r, read, kind) = lay_out-kind (suc i) keys next j k h in
      let grown : length next.rows ≡ length l.rows + 1 = length-append l.rows _ in
      let at : length l.rows + suc j ≡ length next.rows + j = omega (arith, grown) in
      (r, ap (get_elem? (lay_out fingerprint (suc i) keys next).rows) at ∙ read, kind)

nothing_recorded : (k : Text) (id : ℕ) → lookup_text k (empty_layout.key_index) ≢ some id
unfolding lookup_text
nothing_recorded k id h = ground arith

columns_found :
    (fingerprint : Text → ℕ) (pairs : List (Text × ObjectEntry)) (j : ℕ) (k : Text)
    → length pairs < u32_mod
    → get_elem? (columns_of fingerprint pairs).keys j ≡ some k
    → ((r : ObjectRow) × (get_elem? (columns_of fingerprint pairs).layout.rows j ≡ some r)
        × (r.kind_code ≡ kind_code (key_part k 1)))
      × ((id : ℕ) × (lookup_text k (columns_of fingerprint pairs).layout.key_index ≡ some id)
          × (0 < id)
          × (get_elem? (columns_of fingerprint pairs).keys (id - 1) ≡ some k))
unfolding columns_of
columns_found fingerprint pairs j k fits h =
    let keys = map (λ p. p.0) pairs in
    let (id, found) = known _ (lay_out-finds fingerprint 0 keys empty_layout j k h) in
    let count = length-map (λ p. p.0) pairs in
    let (r, read, kind) = lay_out-kind fingerprint 0 keys empty_layout j k h in
    let at : 0 + j ≡ j = omega arith in
    (
      (r, ap (get_elem? (lay_out fingerprint 0 keys empty_layout).rows) (sym at) ∙ read, kind),
      elim (lay_out-Recorded fingerprint 0 keys empty_layout k id (omega (arith, count)) found) [
        | inl old ↦ absurd (nothing_recorded k id old)
        | inr (gt, own) ↦
            let before : id - 1 ≡ id - 1 - 0 = omega arith in
            (id, found, gt, ap (get_elem? keys) before ∙ own)
      ],
    )

-- In the finalized columns, the row of a key has the kind code of the key's folder, and the index
-- finds the key: it gives the id of a row that has this key.
pub finalize_sorted_found :
    (fingerprint : Text → ℕ) (entries : List ObjectEntry) (keys : List Text)
    (f : FinalizeSortedResult) (j : ℕ) (k : Text)
    → finalize_sorted_entries fingerprint entries keys ≡ some f
    → length entries < u32_mod
    → get_elem? f.keys j ≡ some k
    → ((r : ObjectRow) × (get_elem? f.layout.rows j ≡ some r)
        × (r.kind_code ≡ kind_code (key_part k 1)))
      × ((id : ℕ) × (lookup_text k f.layout.key_index ≡ some id)
          × (0 < id)
          × (get_elem? f.keys (id - 1) ≡ some k))
unfolding finalize_sorted_entries
finalize_sorted_found fingerprint entries keys f j k run fits h =
    let pairs = sort_pairs (zip keys entries) in
    let same : length entries ≡ length keys = ground arith in
    let out : columns_of fingerprint pairs ≡ f = ground arith in
    let count = length-sort_pairs (zip keys entries) ∙ length-zip keys entries same in
    rw (sym out) (
      columns_found fingerprint pairs j k (omega (arith, count, fits))
        (ap (λ g. get_elem? (FinalizeSortedResult.keys g) j) out ∙ h))
