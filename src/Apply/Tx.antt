-- ===== src/Apply/Tx.antt =====
-- crates/core/src/apply/history_write.rs: one script and its history rows in one transaction.
pub mod Atomic
use mssql_migrator.Prelude.{
  ℕ, zero, suc, ◌+◌, ◌-◌, ◌*◌, ◌/◌, ◌%◌, ◌^◌, ◌≤◌, ◌<◌, ◌≡◌, refl, sym, ap, ◌∙◌, ◌≢◌, ◌↔◌, ◌⊎◌, inl,
  inr, Bool, true, false, not, ◌&&◌, ◌||◌, Option, none, some, List, [], ◌∷◌, ◌++◌, map, reverse,
  arith, String, ltb, leb, ◌==◌, if◌then◌else◌, ==_iff, ==_refl, Bool-cases, Option-cases, length,
  get_elem?, set, replicate, resize, is_empty, is_empty_iff, all, any, length-append, length-set,
  length-resize, get_elem?-set_self, get_elem?-some, get_elem?-set_ne, get_elem?-lt, All,
  length-map, lookup, without, insert, lookup-without, lookup-insert, Text, codes, eq_text,
  starts_with, strip_prefix, ends_with, contains, split, push_front, join, split_once, replace,
  lookup_text, mem_text, mem_text-all, show, eq_text_iff, eq_text_refl, contains-append,
  contains-starts_with, join-split, starts_with-append, split-ne-nil,
}
use mssql_migrator.Apply.Conn.{
  HistoryRecord, Stmt, begin_tx, assert_open_tx, commit_tx, rollback_tx, batch, insert_history, Log,
  World, ApplyResult, Run, push_error, sent,
}

unfoldable pub mark_history : Run → Run
mark_history st = record st { result = record st.result { wrote_history = true } }

module _ (world : World) where
  -- The error of the script or of the transaction, behind that of the rollback if it failed too.
  unfoldable pub rollback : Text → Text → Run → Run
  rollback label error st =
      let answer = world.reply st.log rollback_tx in
      let st' = sent rollback_tx answer st in
      push_error (label ++ codes ": " ++ error) (elim answer [
        | none ↦ st'
        | some e ↦ push_error (label ++ codes ": rollback failed: " ++ e) st'
      ])

  -- Sends a statement, and goes on if it succeeds; else rolls back.
  unfoldable pub attempt : Stmt → Text → Text → (Run → Run × Bool) → Run → Run × Bool
  attempt q label prefix next st =
      let answer = world.reply st.log q in
      let st' = sent q answer st in
      elim answer [ none ↦ next st' | some e ↦ (rollback label (prefix ++ e) st', false) ]

  unfoldable pub commit_tail : Text → Run → Run × Bool
  commit_tail label =
      attempt commit_tx label (codes "commit failed: ") (λ st. (mark_history st, true))

  unfoldable pub history_tail : Text → List HistoryRecord → Run → Run × Bool
  history_tail label records =
      if is_empty records
      then commit_tail label
      else attempt (insert_history records) label (codes "history write failed: ")
          (commit_tail label)

  unfoldable pub apply_in_tx : Text → List HistoryRecord → Text → Run → Run × Bool
  apply_in_tx body records label =
      attempt begin_tx label [] (
        attempt (batch body) label []
          (attempt assert_open_tx label [] (history_tail label records)))

  -- Records on their own, for adopted objects.
  unfoldable pub commit_history : List HistoryRecord → Run → Run × Bool
  commit_history records st =
      let answer = world.reply st.log (insert_history records) in
      let st' = sent (insert_history records) answer st in
      if is_empty records then (st, true) else elim answer [
        | none ↦ (mark_history st', true)
        | some e ↦ (push_error (codes "history write failed: " ++ e) st', false)
      ]
