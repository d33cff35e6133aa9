-- ===== src/Plan/Prepare/Total.antt =====
-- Preparing and planning always succeed (crates/core/src/plan/diff.rs).
use mssql_migrator.Prelude.{ℕ, List, [], ◌∷◌, All, Text}
use mssql_migrator.Domain.Workspace.{Workspace}
use mssql_migrator.Domain.Layout.{Layout}
use mssql_migrator.Domain.PathCache.{TransitionEntry, Scanned}
use mssql_migrator.Domain.PathCache.Rebuilt.{HasTransitionPath}
use mssql_migrator.Export.Materialize.{script_at}
use mssql_migrator.Plan.Prepare.Kept.{Keeps}

module _ (s : Scanned) (ws : Workspace) (kept : Keeps s.layout.ws ws)
    (index : List (Text × ℕ)) where
  abbrev old : Layout
  old = s.layout

  abbrev new : Layout
  new = record s.layout { ws = ws }

  has_transitions :
      (db : Text) (ts : List TransitionEntry)
      → All (HasTransitionPath old index db) ts
      → All (HasTransitionPath new index db) ts
  unfolding script_at
  has_transitions db [] h = tt
  has_transitions db (t ∷ ts) (p, h) = (p, has_transitions db ts h)
