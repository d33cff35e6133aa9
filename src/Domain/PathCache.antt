-- ===== src/Domain/PathCache.antt =====
-- The path caches: crates/core/src/domain/path_cache.rs, with StrOff::from_arena of arena_resolve.rs.
-- A panic is `none`.
pub mod Rebuilt
use mssql_migrator.Prelude.{
  ℕ, zero, suc, ◌+◌, ◌-◌, ◌*◌, ◌/◌, ◌%◌, ◌^◌, ◌≤◌, ◌<◌, ◌≡◌, refl, sym, ap, ◌∙◌, ◌≢◌, ◌↔◌, ◌⊎◌, inl,
  inr, Bool, true, false, not, ◌&&◌, ◌||◌, Option, none, some, List, [], ◌∷◌, ◌++◌, map, reverse,
  arith, String, ltb, leb, ◌==◌, if◌then◌else◌, ==_iff, ==_refl, Bool-cases, Option-cases, length,
  get_elem?, set, replicate, resize, is_empty, is_empty_iff, all, any, length-append, length-set,
  length-resize, get_elem?-set_self, get_elem?-some, get_elem?-set_ne, get_elem?-lt, All,
  length-map, length_pos, lookup, without, insert, lookup-without, lookup-insert, Text, codes,
  eq_text, starts_with, strip_prefix, ends_with, contains, split, push_front, join, split_once,
  replace, lookup_text, mem_text, mem_text-all, show, eq_text_iff, eq_text_refl, contains-append,
  contains-starts_with, join-split, starts_with-append, split-ne-nil,
}
use mssql_migrator.Domain.Workspace.{
  Workspace, ObjectEntry, StrOff, u32_mod, object_count, database_name,
}
use mssql_migrator.Domain.Paths.{object_path_for_entry, with_database_prefix}
use mssql_migrator.Domain.Layout.{Layout, Script, str_at}
use mssql_migrator.Domain.Store.{text_le}
use mssql_migrator.Export.Materialize.{script_at}
use mssql_migrator.Plan.Diff.{◌>>=◌}

-- domain/transition.rs
pub record TransitionEntry : Type 0 where
  pub ord_off : StrOff
  pub script_id : ℕ
  pub staging_ord : Option Text

-- The layout with the transitions of its rows, and where the arena holds which string, once the
-- strings are interned.
pub record Scanned : Type 0 where
  pub layout : Layout
  pub transitions_by_row : List (ℕ × List TransitionEntry)
  pub arena_index : Option (List (Text × ℕ))

-- The empty string is nowhere; one that the arena lacks panics.
unfoldable pub from_arena : List (Text × ℕ) → Text → Option StrOff
from_arena index s =
    if is_empty s
    then some (0, 0)
    else elim (lookup_text s index) [ none ↦ none | some off ↦ some (off, length s) ]

unfoldable pub ordinal : Layout → TransitionEntry → Text
ordinal layout t = elim t.staging_ord [ some s ↦ s | none ↦ str_at layout t.ord_off ]

-- The ordinal and the path of each transition of a row.
unfoldable pub ordered_path : Layout → Text → TransitionEntry → Option (Text × Text)
unfolding ordinal script_at
ordered_path layout db t = do
  s ← script_at layout t.script_id
  some (ordinal layout t, with_database_prefix db s.path)

unfoldable pub collect_opt {ℓ κ} :
    {A : Type ℓ} {B : Type κ} → (A → Option B) → List A → Option (List B)
collect_opt f [] = some []
collect_opt f (a ∷ r) = do b ← f a; bs ← collect_opt f r; some (b ∷ bs)

-- `sort_by` on the ordinals, which is stable.
unfoldable pub insert_path : Text × Text → List (Text × Text) → List (Text × Text)
insert_path a [] = a ∷ []
insert_path a (b ∷ r) = if text_le a.0 b.0 then a ∷ b ∷ r else b ∷ insert_path a r

unfoldable pub sort_paths : List (Text × Text) → List (Text × Text)
unfolding insert_path
sort_paths [] = []
sort_paths (a ∷ r) = insert_path a (sort_paths r)

-- The offsets of one row's paths; the row ids start at 1.
unfoldable pub row_paths :
    Layout → List (Text × ℕ) → ℕ → List TransitionEntry → Option (List StrOff)
unfolding ordered_path collect_opt sort_paths from_arena
row_paths layout index zero entries = none
row_paths layout index (suc i) entries = do
  e ← get_elem? layout.ws.object_entries i
  rows ← collect_opt (ordered_path layout (database_name layout.ws e.db_id)) entries
  collect_opt (λ r. from_arena index r.1) (sort_paths rows)

unfoldable pub put_paths : ℕ → List StrOff → List (ℕ × List StrOff) → List (ℕ × List StrOff)
put_paths id paths out = if is_empty paths then out else (id, paths) ∷ out

unfoldable pub paths_by_row :
    Layout → List (Text × ℕ) → List (ℕ × List TransitionEntry) → Option (List (ℕ × List StrOff))
unfolding row_paths put_paths
paths_by_row layout index [] = some []
paths_by_row layout index ((id, entries) ∷ r) = do
  paths ← row_paths layout index id entries
  out ← paths_by_row layout index r
  some (put_paths id paths out)

unfoldable pub flag_rows : List (ℕ × List StrOff) → List ℕ → List ℕ
flag_rows [] flags = flags
flag_rows ((id, paths) ∷ r) flags =
    flag_rows r (if is_empty paths then flags else set flags (id - 1) 1)

abbrev pub with_transition_cache : Option (List (ℕ × List StrOff)) → List ℕ → Workspace → Workspace
with_transition_cache cache flags ws = record ws {
  transition_path_cache = cache;
  has_transition_paths_row = flags;
}

abbrev pub with_object_cache : Option (List StrOff) → Workspace → Workspace
with_object_cache cache ws = record ws { object_path_cache = cache }

unfoldable pub transition_cache :
    Scanned → Option (List (Text × ℕ)) → List (ℕ × List TransitionEntry) → Option Workspace
unfolding paths_by_row flag_rows
transition_cache s none ts = some (with_transition_cache none [] s.layout.ws)
transition_cache s (some index) [] = some (with_transition_cache none [] s.layout.ws)
transition_cache s (some index) (t ∷ ts) = do
  cache ← paths_by_row s.layout index (t ∷ ts)
  some (
      with_transition_cache (some cache) (flag_rows cache (replicate (object_count s.layout.ws) 0))
        s.layout.ws)

unfoldable pub rebuild_transition_path_cache : Scanned → Option Workspace
unfolding transition_cache
rebuild_transition_path_cache s = transition_cache s s.arena_index s.transitions_by_row

unfoldable pub object_off : Layout → List (Text × ℕ) → ObjectEntry → Option StrOff
unfolding script_at from_arena
object_off layout index e = do
  s ← script_at layout e.script_id
  from_arena index (object_path_for_entry (database_name layout.ws e.db_id) s.path)

-- On a workspace whose transition cache is rebuilt.
unfoldable pub object_cache :
    Scanned → Option (List (Text × ℕ)) → List ObjectEntry → Workspace → Option Workspace
unfolding object_off collect_opt
object_cache s none entries ws = some (with_object_cache none ws)
object_cache s (some index) [] ws = some (with_object_cache none ws)
object_cache s (some index) (e ∷ r) ws = do
  paths ← collect_opt (object_off s.layout index) (e ∷ r)
  some (with_object_cache (some paths) ws)

unfoldable pub rebuild_path_caches : Scanned → Option Workspace
unfolding rebuild_transition_path_cache object_cache
rebuild_path_caches s = do
  ws ← rebuild_transition_path_cache s
  object_cache s s.arena_index s.layout.ws.object_entries ws

abbrev pub is_unset {ℓ} : {A : Type ℓ} → Option A → Bool
is_unset none = true
is_unset (some a) = false

unfoldable pub ensure_path_caches : Scanned → Option Workspace
unfolding rebuild_path_caches rebuild_transition_path_cache
ensure_path_caches s =
    if not (is_empty s.layout.ws.object_entries) && is_unset s.layout.ws.object_path_cache
    then rebuild_path_caches s
    else if not (is_empty s.transitions_by_row) && is_unset s.layout.ws.transition_path_cache
    then rebuild_transition_path_cache s
    else some s.layout.ws
