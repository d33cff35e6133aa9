-- ===== src/Apply/Script/Verified.antt =====
-- Loading and executing one script (crates/core/src/apply/script_read.rs, objects_exec.rs).
use mssql_migrator.Prelude.{
  ◌+◌, ◌<◌, ◌≡◌, refl, sym, ap, ◌∙◌, ◌⊎◌, inl, inr, Bool, true, false, some, ◌++◌, arith, Text,
  codes, eq_text_iff,
}
use mssql_migrator.Domain.Workspace.{Digest}
use mssql_migrator.Domain.Layout.{Layout}
use mssql_migrator.Export.PlanJson.{PlannedObject}
use mssql_migrator.Scan.Checksum.{content_checksum}
use mssql_migrator.Apply.Conn.{
  ApplyResult, Log, FileRead, contents, read_failed, World, Run, push_error, count_applied,
}
use mssql_migrator.Apply.Tx.Atomic.{TxEnd, RolledBack, committed, apply_in_tx_atomic}
use mssql_migrator.Apply.Script.{
  Loaded, body, refused, verify_bytes, verified_body, object_records, read_script, exec_object,
  counted,
}

verify_bytes_sound :
    (world : World) (expected : Digest) (label bytes text : Text)
    → verify_bytes world expected label bytes ≡ body text
    → (content_checksum world.sha256 bytes ≡ expected) × (world.from_utf8 bytes ≡ some text)
unfolding verify_bytes
verify_bytes_sound world expected label bytes text h =
    ground (arith, eq_text_iff (content_checksum world.sha256 bytes) expected)

abbrev loaded : World → Digest → Text → FileRead → Loaded
loaded world expected label (read_failed e) = refused (label ++ codes ": read failed: " ++ e)
loaded world expected label (contents bytes) = verify_bytes world expected label bytes

loaded_sound :
    (world : World) (expected : Digest) (label text : Text) (r : FileRead)
    → loaded world expected label r ≡ body text
    → (bytes : Text) × (r ≡ contents bytes)
      × (content_checksum world.sha256 bytes ≡ expected)
      × (world.from_utf8 bytes ≡ some text)
loaded_sound world expected label text (read_failed e) h = absurd (ground arith)
loaded_sound world expected label text (contents bytes) h =
    let (c, d) = verify_bytes_sound world expected label bytes text h in (bytes, refl, c, d)

verified_body-loaded :
    (world : World) (log : Log) (path : Text) (expected : Digest) (label : Text)
    → verified_body world log path expected label
      ≡ loaded world expected label (world.read_file log path)
unfolding verified_body
verified_body-loaded world log path expected label = ground arith

-- A body is handed out only if the bytes that are read at that moment have the expected checksum
-- and decode to it.
pub verified_body_sound :
    (world : World) (log : Log) (path : Text) (expected : Digest) (label : Text) {text : Text}
    → verified_body world log path expected label ≡ body text
    → (bytes : Text) × (world.read_file log path ≡ contents bytes)
      × (content_checksum world.sha256 bytes ≡ expected)
      × (world.from_utf8 bytes ≡ some text)
verified_body_sound world log path expected label {text} h =
    loaded_sound world expected label text (world.read_file log path)
      (sym (verified_body-loaded world log path expected label) ∙ h)

-- One more object applied, or one more failure, and nothing else counted.
abbrev pub OneOutcome : Run → Run → Type 0
OneOutcome st st' =
    ((st'.result.applied ≡ st.result.applied + 1) × (st'.result.failed ≡ st.result.failed))
    ⊎ ((st'.result.applied ≡ st.result.applied) × (st.result.failed < st'.result.failed))

pub counted-OneOutcome :
    (st : Run) (final : Log) (r : Run × Bool) → TxEnd st final r → OneOutcome st (counted r)
unfolding counted count_applied
counted-OneOutcome st final (st', true) t = inl (ground arith, ground arith)
counted-OneOutcome st final (st', false) t = inr (t.applied_eq, t.reported)

pub exec_object-OneOutcome :
    (world : World) (layout : Layout) (obj : PlannedObject) (st : Run)
    → OneOutcome st (exec_object world layout obj st)
unfolding exec_object push_error
exec_object-OneOutcome world layout obj st = by-load (read_script world layout obj st.log) refl
  where
    by-load :
        (l : Loaded)
        → read_script world layout obj st.log ≡ l
        → OneOutcome st (exec_object world layout obj st)
    by-load (refused m) e = rw (e, exec_object) (inr (refl, omega arith))
    by-load (body text) e =
        rw (e, exec_object)
          (counted-OneOutcome st _ _
            (apply_in_tx_atomic world st text (object_records layout obj) obj.normalized_key))

-- How executing an object ends: its script is loaded and its transaction commits it with the
-- object's history rows; or the script is refused, and nothing is sent; or the transaction is
-- rolled back.
abbrev pub ObjectEnd : Layout → PlannedObject → Run → Loaded → Run → Type 0
ObjectEnd layout obj st loading st' =
    ((text : Text) × (loading ≡ body text)
      × (st'.log ≡ committed text (object_records layout obj) st.log)
      × (st'.result ≡ record st.result { wrote_history = true; applied = st.result.applied + 1 }))
    ⊎ (((message : Text) × (loading ≡ refused message) × (st' ≡ push_error message st))
        ⊎ RolledBack st st')

counted-ObjectEnd :
    (layout : Layout) (obj : PlannedObject) (st : Run) (text : Text) (r : Run × Bool)
    → TxEnd st (committed text (object_records layout obj) st.log) r
    → ObjectEnd layout obj st (body text) (counted r)
unfolding counted count_applied
counted-ObjectEnd layout obj st text (st', true) (log, result) =
    let count : ApplyResult → ApplyResult = λ q. record q { applied = q.applied + 1 } in
    inl (text, refl, log, ap count result)
counted-ObjectEnd layout obj st text (st', false) t = inr (inr t)

-- Executing an object ends in one of three ways. Its script is loaded, exactly its transaction with
-- the object's history rows is sent and committed, and one more object counts as applied; or the
-- script is refused, nothing is sent, and only the error is recorded; or no COMMIT succeeds, the
-- last statement is a ROLLBACK, no more objects count as applied, and an error is recorded.
pub exec_object_end :
    (world : World) (layout : Layout) (obj : PlannedObject) (st : Run)
    → ObjectEnd layout obj st
        (read_script world layout obj st.log)
        (exec_object world layout obj st)
unfolding exec_object
exec_object_end world layout obj st = by-load (read_script world layout obj st.log) refl
  where
    by-load :
        (l : Loaded)
        → read_script world layout obj st.log ≡ l
        → ObjectEnd layout obj st
            (read_script world layout obj st.log)
            (exec_object world layout obj st)
    by-load (refused m) e = rw (e, exec_object) (inr (inl (m, refl, refl)))
    by-load (body text) e =
        rw (e, exec_object)
          (counted-ObjectEnd layout obj st text _
            (apply_in_tx_atomic world st text (object_records layout obj) obj.normalized_key))
