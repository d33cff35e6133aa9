-- ===== src/Gate/Delta.antt =====
-- The closure of a gate delta: crates/core/src/gate/delta.rs (expand_delta_closure). A set of keys is
-- a list. A panicking read is `none`, and so is the end of the fuel.
pub mod Closed
use mssql_migrator.Prelude.{
  ℕ, zero, suc, ◌+◌, ◌-◌, ◌*◌, ◌/◌, ◌%◌, ◌^◌, ◌≤◌, ◌<◌, ◌≡◌, refl, sym, ap, ◌∙◌, ◌≢◌, ◌↔◌, ◌⊎◌, inl,
  inr, Bool, true, false, not, ◌&&◌, ◌||◌, Option, none, some, List, [], ◌∷◌, ◌++◌, map, reverse,
  arith, String, ltb, leb, ◌==◌, if◌then◌else◌, ==_iff, ==_refl, Bool-cases, Option-cases, length,
  get_elem?, set, replicate, resize, is_empty, is_empty_iff, all, any, length-append, length-set,
  length-resize, get_elem?-set_self, get_elem?-some, get_elem?-set_ne, get_elem?-lt, All,
  length-map, length_pos, lookup, without, insert, lookup-without, lookup-insert, Text, codes,
  eq_text, starts_with, strip_prefix, ends_with, contains, split, push_front, join, split_once,
  replace, lookup_text, mem_text, mem_text-all, show, eq_text_iff, eq_text_refl, contains-append,
  contains-starts_with, join-split, starts_with-append, split-ne-nil,
}
use mssql_migrator.Domain.Workspace.{
  Workspace, object_count, row_id_at, entry, entry_key, key_part, parent_ref_for_row, database_name,
}
use mssql_migrator.Plan.Diff.{◌>>=◌}

-- The keys of the delta, and how many of them the round has added.
abbrev pub Round : Type 0
Round = List Text × ℕ

-- The database and the key of a row, as snapshots name it.
unfoldable pub row_name : Workspace → ℕ → Option Text
row_name ws i = do
  e ← entry ws i
  key ← entry_key ws i
  some (database_name ws e.db_id ++ (b'/' ∷ key))

unfoldable pub is_trigger_row : Workspace → ℕ → Bool
is_trigger_row ws i = elim (entry_key ws i) [
  | none ↦ false
  | some key ↦ eq_text (key_part key 1) (codes "triggers")
]

-- `HashSet::insert`, counting what is new.
unfoldable pub insert_key : Text → Round → Round
insert_key k (delta, added) = if mem_text k delta then (delta, added) else (k ∷ delta, added + 1)

unfoldable pub insert_parent : Workspace → Option ℕ → Round → Option Round
unfolding insert_key row_name
insert_parent ws none r = some r
insert_parent ws (some zero) r = some r
insert_parent ws (some (suc p)) r = do parent ← row_name ws p; some (insert_key parent r)

-- One round of the inner loop.
unfoldable pub close_row : Workspace → ℕ → Round → Option Round
unfolding insert_parent row_name is_trigger_row
close_row ws i r = do
  name ← row_name ws i
  if mem_text name r.0 && is_trigger_row ws i
      then insert_parent ws (parent_ref_for_row ws (row_id_at i)) r
      else some r

unfoldable pub close_rows : Workspace → ℕ → ℕ → Round → Option Round
unfolding close_row
close_rows ws zero i r = some r
close_rows ws (suc k) i r = do r' ← close_row ws i r; close_rows ws k (suc i) r'

-- Rounds until one adds nothing.
unfoldable pub close_loop : Workspace → ℕ → List Text → Option (List Text)
unfolding close_rows
close_loop ws zero delta = none
close_loop ws (suc fuel) delta = elim (close_rows ws (object_count ws) 0 (delta, 0)) [
  | none ↦ none
  | some (delta', added) ↦
      let again = close_loop ws fuel delta' in if added == 0 then some delta' else again
]

-- A round that is not the last adds a row's key.
unfoldable pub expand_delta_closure : Workspace → List Text → Option (List Text)
unfolding close_loop
expand_delta_closure ws delta =
    if is_empty delta then some delta else close_loop ws (object_count ws + 1) delta
