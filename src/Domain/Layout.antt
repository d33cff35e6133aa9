-- ===== src/Domain/Layout.antt =====
-- The scripts of a scanned workspace: crates/core/src/domain/script.rs, script_resolve,
-- workspace/scripts.rs and the arena's slices.
use mssql_migrator.Prelude.{
  ℕ, zero, suc, Option, none, some, List, [], ◌∷◌, if◌then◌else◌, Text, eq_text,
}
use mssql_migrator.Domain.Workspace.{Workspace, Digest, StrOff}
use mssql_migrator.Domain.Paths.{script_key}

pub data ScriptKind : Type 0 where
  object_script transition_script check_script : ScriptKind

-- A script with its strings resolved from the arena.
pub record Script : Type 0 where
  pub path : Text
  pub abs_path : Text
  pub kind : ScriptKind
  pub checksum : Option Digest
  pub git_hash : Text
  pub git_author : Text
  pub git_date : Text

-- The workspace, its script rows and the arena that offsets point into.
pub record Layout : Type 0 where
  pub ws : Workspace
  pub scripts : List Script
  pub arena : Text

abbrev take_chars : ℕ → Text → Text
take_chars zero s = []
take_chars (suc n) [] = []
take_chars (suc n) (c ∷ s) = c ∷ take_chars n s

abbrev drop_chars : ℕ → Text → Text
drop_chars zero s = s
drop_chars (suc n) [] = []
drop_chars (suc n) (c ∷ s) = drop_chars n s

unfoldable pub str_at : Layout → StrOff → Text
str_at layout off = take_chars off.1 (drop_chars off.0 layout.arena)

unfoldable pub find_path : Text → List Script → Option Script
find_path key [] = none
find_path key (s ∷ r) = if eq_text s.path key then some s else find_path key r

-- `script_by_key(&ScriptKey::from_path(path))`
unfoldable pub script_by_path : Layout → Text → Option Script
unfolding find_path
script_by_path layout path = find_path (script_key path) layout.scripts

-- The first of some paths that names a script.
unfoldable pub find_candidate : Layout → List Text → Option Script
unfolding script_by_path
find_candidate layout [] = none
find_candidate layout (p ∷ ps) = elim (script_by_path layout p) [
  | none ↦ find_candidate layout ps
  | some s ↦ some s
]
