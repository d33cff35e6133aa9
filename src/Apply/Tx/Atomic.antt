-- ===== src/Apply/Tx/Atomic.antt =====
-- What a transaction leaves behind (crates/core/src/apply/history_write.rs).
use mssql_migrator.Prelude.{
  ◌<◌, ◌≡◌, refl, ap, ◌≢◌, inl, inr, Bool, true, false, Option, none, some, List, [], ◌∷◌, ◌++◌,
  arith, if◌then◌else◌, Option-cases, is_empty, All, Text,
}
use mssql_migrator.Apply.Conn.{
  HistoryRecord, Stmt, begin_tx, assert_open_tx, commit_tx, rollback_tx, batch, insert_history, Log,
  World, Run, push_error, sent,
}
use mssql_migrator.Apply.Tx.{
  rollback, attempt, mark_history, commit_tail, history_tail, apply_in_tx,
}

-- The statements of a committed transaction, the latest first, in front of the older log.
abbrev pub committed : Text → List HistoryRecord → Log → Log
committed body records log =
    (commit_tx, none)
    ∷ ((if is_empty records then [] else (insert_history records, none) ∷ [])
        ++ ((assert_open_tx, none) ∷ (batch body, none) ∷ (begin_tx, none) ∷ log))

-- The entry is no successful commit.
abbrev pub NotCommitted : Stmt × Option Text → Type 0
NotCommitted entry = entry ≢ (commit_tx, none)

-- The transaction ended with a rollback: `new` is what was sent before it.
pub record RolledBack (st st' : Run) : Type 0 where
  pub new : Log
  pub answer : Option Text
  pub log_eq : st'.log ≡ (rollback_tx, answer) ∷ (new ++ st.log)
  pub uncommitted : All NotCommitted new
  pub applied_eq : st'.result.applied ≡ st.result.applied
  pub skipped_eq : st'.result.skipped ≡ st.result.skipped
  pub reported : st.result.failed < st'.result.failed

-- `mid` has sent `new` since `st`, and committed nothing.
record Sent (st mid : Run) (new : Log) : Type 0 where
  log_eq : mid.log ≡ new ++ st.log
  result_eq : mid.result ≡ st.result
  uncommitted : All NotCommitted new

-- How a transaction ends: committed, with nothing else in the result changed, or rolled back.
abbrev pub TxEnd : Run → Log → Run × Bool → Type 0
TxEnd st final (st', true) =
    (st'.log ≡ final) × (st'.result ≡ record st.result { wrote_history = true })
TxEnd st final (st', false) = RolledBack st st'

module _ (world : World) (q : Stmt) (label prefix : Text) (next : Run → Run × Bool)
    (mid : Run) where
  pub attempt-ok :
      world.reply mid.log q ≡ none → attempt world q label prefix next mid ≡ next (sent q none mid)
  unfolding attempt
  attempt-ok n = rw (n, attempt) (rw n refl)

  pub attempt-err :
      (e : Text)
      → world.reply mid.log q ≡ some e
      → attempt world q label prefix next mid
        ≡ (rollback world label (prefix ++ e) (sent q (some e) mid), false)
  unfolding attempt
  attempt-err e n = rw (n, attempt) (rw n refl)

module _ (world : World) (st : Run) where
  rollback-RolledBack :
      (mid : Run) (new : Log) (label error : Text)
      → Sent st mid new
      → RolledBack st (rollback world label error mid)
  unfolding rollback sent push_error
  rollback-RolledBack mid new label error s = record {
    new = new;
    answer = world.reply mid.log rollback_tx;
    log_eq = ground (arith, s.log_eq);
    uncommitted = s.uncommitted;
    applied_eq = ground (arith, s.result_eq);
    skipped_eq = ground (arith, s.result_eq);
    reported = ground (arith, s.result_eq);
  }

  -- A statement that is no commit: on failure the transaction is rolled back, else it goes on.
  attempt-TxEnd :
      (q : Stmt) (label prefix : Text) (next : Run → Run × Bool) (mid : Run) (new final : Log)
      → Sent st mid new
      → q ≢ commit_tx
      → (Sent st (sent q none mid) ((q, none) ∷ new) → TxEnd st final (next (sent q none mid)))
      → TxEnd st final (attempt world q label prefix next mid)
  unfolding sent
  attempt-TxEnd q label prefix next mid new final s ne k =
      elim (Option-cases (world.reply mid.log q)) [
        | inl n ↦ rw (attempt-ok world q label prefix next mid n) (
            k (record {
              log_eq = ap (λ (l : Log). (q, none) ∷ l) s.log_eq;
              result_eq = s.result_eq;
              uncommitted = ((λ e. ne (ap (λ (p : Stmt × Option Text). p.0) e)), s.uncommitted);
            }))
        | inr (e, n) ↦ rw (attempt-err world q label prefix next mid e n) (
            rollback-RolledBack _ ((q, some e) ∷ new) label (prefix ++ e) (record {
              log_eq = ap (λ (l : Log). (q, some e) ∷ l) s.log_eq;
              result_eq = s.result_eq;
              uncommitted = ((λ h. cc h), s.uncommitted);
            }))
      ]

  commit_tail-TxEnd :
      (label : Text) (mid : Run) (new : Log)
      → Sent st mid new
      → TxEnd st ((commit_tx, none) ∷ (new ++ st.log)) (commit_tail world label mid)
  unfolding commit_tail sent mark_history
  commit_tail-TxEnd label mid new s = elim (Option-cases (world.reply mid.log commit_tx)) [
    | inl n ↦
        rw (attempt-ok world commit_tx label _ _ mid n)
          (ap (λ (l : Log). (commit_tx, none) ∷ l) s.log_eq, ground (arith, s.result_eq))
    | inr (e, n) ↦ rw (attempt-err world commit_tx label _ _ mid e n) (
        rollback-RolledBack _ ((commit_tx, some e) ∷ new) label _ (record {
          log_eq = ap (λ (l : Log). (commit_tx, some e) ∷ l) s.log_eq;
          result_eq = s.result_eq;
          uncommitted = ((λ h. cc h), s.uncommitted);
        }))
  ]

  history_tail-TxEnd :
      (label : Text) (records : List HistoryRecord) (mid : Run) (new : Log)
      → Sent st mid new
      → TxEnd st
          ((commit_tx, none)
            ∷ ((if is_empty records then [] else (insert_history records, none) ∷ [])
                ++ (new ++ st.log)))
          (history_tail world label records mid)
  unfolding history_tail
  history_tail-TxEnd label [] mid new s = commit_tail-TxEnd label mid new s
  history_tail-TxEnd label (r ∷ rs) mid new s =
      attempt-TxEnd (insert_history (r ∷ rs)) label _ _ mid new _ s (λ e. cc e)
        λ s'. commit_tail-TxEnd label _ ((insert_history (r ∷ rs), none) ∷ new) s'

  -- A script and its history rows go through together: if the transaction reports success, exactly
  -- BEGIN, the script, the open-transaction check, the history insert (when there are rows) and
  -- COMMIT were sent and succeeded, and only the history mark of the result changed; if it reports
  -- failure, no COMMIT succeeded, the last statement is a ROLLBACK, and an error was recorded.
  pub apply_in_tx_atomic :
      (body : Text) (records : List HistoryRecord) (label : Text)
      → TxEnd st (committed body records st.log) (apply_in_tx world body records label st)
  unfolding apply_in_tx
  apply_in_tx_atomic body records label =
      attempt-TxEnd begin_tx label [] _ st [] _
        (record { log_eq = refl; result_eq = refl; uncommitted = tt }) (λ e. cc e)
        λ s.
          attempt-TxEnd (batch body) label [] _ _ _ _ s (λ e. cc e)
            λ s'.
              attempt-TxEnd assert_open_tx label [] _ _ _ _ s' (λ e. cc e)
                λ s''. history_tail-TxEnd label records _ _ s''
