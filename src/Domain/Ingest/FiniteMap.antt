-- ===== src/Domain/Ingest/FiniteMap.antt =====
-- The staged objects as a finite map (crates/core/src/domain/workspace/objects/ingest.rs).
use mssql_migrator.Prelude.{
  ℕ, ◌+◌, ◌-◌, ◌%◌, ◌≤◌, ◌<◌, ◌≡◌, refl, ap, ◌∙◌, ◌↔◌, ◌⊎◌, inl, inr, true, Option, none, some, [],
  ◌∷◌, ◌++◌, arith, if◌then◌else◌, Bool-cases, Option-cases, length, get_elem?, length-append,
  get_elem?-append_lt, get_elem?-append_last, Text, eq_text_iff,
}
use mssql_migrator.Error.{Error, invalid_input, ok, err}
use mssql_migrator.Domain.Workspace.{Workspace, ObjectEntry, u32_mod, database_name}
use mssql_migrator.Domain.Ingest.{
  IngestKey, eq_ingest_key, lookup_ingest, staged, push_object, duplicate_message,
}

-- What staging promises: a finite map from a database and a key to an object.
abbrev pub ObjectMap : Type 0
ObjectMap = IngestKey → Option ObjectEntry

abbrev pub empty_map : ObjectMap
empty_map k = none

abbrev pub if_absent : Option ObjectEntry → ObjectMap → Option ObjectMap
if_absent none m = some m
if_absent (some old) m = none

abbrev pub added : IngestKey → ObjectEntry → ObjectMap → ObjectMap
added k obj m j = if eq_ingest_key k j then some obj else m j

-- A new key is added; a key that is there is refused.
abbrev pub add_new : IngestKey → ObjectEntry → ObjectMap → Option ObjectMap
add_new k obj m = if_absent (m k) (added k obj m)

-- The staged columns stand for the map: a key is in the index exactly if it is in the map, its row id
-- reads its object and its key, and the columns are as long as each other.
pub record Implements (ws : Workspace) (m : ObjectMap) : Type 0 where
  pub lengths : length ws.ingest_keys ≡ length ws.object_entries
  pub absent : (k : IngestKey) → (lookup_ingest k ws.ingest_key_index ≡ none) ↔ (m k ≡ none)
  pub present :
      (k : IngestKey) (id : ℕ)
      → lookup_ingest k ws.ingest_key_index ≡ some id
      → (0 < id)
        × (id ≤ length ws.object_entries)
        × (get_elem? ws.object_entries (id - 1) ≡ m k)
        × (get_elem? ws.ingest_keys (id - 1) ≡ some k.1)

eq_ingest_key_iff : (j k : IngestKey) → (eq_ingest_key j k ≡ true) ↔ (j ≡ k)
unfolding eq_ingest_key
eq_ingest_key_iff (d, s) (e, t) = ground (arith, eq_text_iff s t)

module _ (key : Text) (obj : ObjectEntry) (ws : Workspace) (m : ObjectMap) (r : Implements ws m)
    (fits : length ws.object_entries + 1 < u32_mod) where
  abbrev own : IngestKey
  own = (obj.db_id, key)

  staged-lookup :
      (j : IngestKey)
      → lookup_ingest j (staged key obj ws).ingest_key_index ≡ (
          if eq_ingest_key own j
          then some (length ws.object_entries + 1)
          else lookup_ingest j ws.ingest_key_index)
  unfolding staged lookup_ingest
  staged-lookup j =
      let small : (length ws.object_entries + 1) % u32_mod ≡ length ws.object_entries + 1 =
        omega arith in
      ap (λ id. if eq_ingest_key own j then some id else lookup_ingest j ws.ingest_key_index) small

  staged-present :
      (j : IngestKey) (id : ℕ)
      → lookup_ingest j (staged key obj ws).ingest_key_index ≡ some id
      → (0 < id)
        × (id ≤ length (staged key obj ws).object_entries)
        × (get_elem? (staged key obj ws).object_entries (id - 1) ≡ added own obj m j)
        × (get_elem? (staged key obj ws).ingest_keys (id - 1) ≡ some j.1)
  unfolding staged
  staged-present j id h =
      let found = staged-lookup j in
      let len = length-append ws.object_entries (obj ∷ []) in
      elim (Bool-cases (eq_ingest_key own j)) [
        | inl e ↦
            let same : own ≡ j = (eq_ingest_key_iff own j).0 e in
            let new : id ≡ length ws.object_entries + 1 = ground arith in
            let at : id - 1 ≡ length ws.object_entries = omega (arith, new) in
            let at' : id - 1 ≡ length ws.ingest_keys = omega (arith, new, r.lengths) in
            (
              omega (arith, new),
              omega (arith, new, len),
              ap (get_elem? (ws.object_entries ++ (obj ∷ []))) at
                  ∙ get_elem?-append_last ws.object_entries obj
                  ∙ rw e refl,
              ap (get_elem? (ws.ingest_keys ++ (key ∷ []))) at'
                  ∙ get_elem?-append_last ws.ingest_keys key
                  ∙ ap (λ k. some k.1) same,
            )
        | inr e ↦
            let old : lookup_ingest j ws.ingest_key_index ≡ some id = ground arith in
            let (low, high, entry_read, key_read) = r.present j id old in
            (
              low,
              omega (arith, len),
              get_elem?-append_lt ws.object_entries (obj ∷ []) (id - 1) (omega arith)
                  ∙ entry_read
                  ∙ rw e refl,
              get_elem?-append_lt ws.ingest_keys (key ∷ []) (id - 1) (omega (arith, r.lengths))
                  ∙ key_read,
            )
      ]

  staged-Implements : Implements (staged key obj ws) (added own obj m)
  unfolding staged
  staged-Implements = record {
    lengths = omega (
      arith,
      length-append ws.object_entries (obj ∷ []),
      length-append ws.ingest_keys (key ∷ []),
      r.lengths,
    );
    absent = λ j. ground (arith, staged-lookup j, r.absent j);
    present = staged-present;
  }

-- Staging an object implements the addition of a new key to the map: if the columns stand for a map
-- and hold fewer than 2^32 - 1 objects, a key that the map has is refused with an error, and with
-- any other key the new columns stand for the map with that key added.
pub push_object_refines :
    (debug : Text → Text) (key : Text) (obj : ObjectEntry) (ws : Workspace) (m : ObjectMap)
    → Implements ws m
    → length ws.object_entries + 1 < u32_mod
    → ((add_new (obj.db_id, key) obj m ≡ none)
        × ((e : Error) × (push_object debug key obj ws ≡ err e)))
      ⊎ ((m' : ObjectMap) × (ws' : Workspace) × (add_new (obj.db_id, key) obj m ≡ some m')
          × (push_object debug key obj ws ≡ ok ws')
          × Implements ws' m')
unfolding push_object
push_object_refines debug key obj ws m r fits =
    let k : IngestKey = (obj.db_id, key) in
    elim (Option-cases (lookup_ingest k ws.ingest_key_index)) [
      | inr (id, h) ↦ elim (Option-cases (m k)) [
        | inl n ↦ absurd (ground (arith, (r.absent k).1 n))
        | inr (old, n) ↦ inl (
          ap (λ o. if_absent o (added k obj m)) n,
          (
            invalid_input (duplicate_message debug key (database_name ws obj.db_id)),
            rw (h, push_object) refl,
          ),
        )
      ]
      | inl n ↦ inr (
        added k obj m,
        staged key obj ws,
        ap (λ o. if_absent o (added k obj m)) ((r.absent k).0 n),
        rw (n, push_object) refl,
        staged-Implements key obj ws m r fits,
      )
    ]

-- Before anything is staged, the columns stand for the empty map.
pub start-Implements :
    (ws : Workspace)
    → ws.object_entries ≡ []
    → ws.ingest_keys ≡ []
    → ws.ingest_key_index ≡ []
    → Implements ws empty_map
unfolding lookup_ingest
start-Implements ws e k i = record {
  lengths = rw (e, k) refl;
  absent = λ j. (λ h. refl, λ h. rw i refl);
  present = λ j id h. absurd (ground arith);
}
