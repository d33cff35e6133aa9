-- ===== src/Tests/Applying.antt =====
-- The executor against a concrete server.
use mssql_migrator.Prelude.{◌≡◌, refl, ◌⊎◌, true, some, [], ◌∷◌, Text, codes, eq_text, split_once}
use mathlib.Core.List.{Perm}
use mssql_migrator.Error.{plan_blocked, err}
use mssql_migrator.Scan.Checksum.{content_checksum}
use mssql_migrator.Apply.Conn.{Run, contents}
use mssql_migrator.Apply.Tx.{apply_in_tx}
use mssql_migrator.Apply.Tx.Atomic.{committed, TxEnd, apply_in_tx_atomic}
use mssql_migrator.Apply.Script.{
  read_script, verify_bytes, verified_body, exec_object, object_record,
}
use mssql_migrator.Apply.Script.Verified.{ObjectEnd, verified_body_sound, exec_object_end}
use mssql_migrator.Apply.Modules.{apply_modules}
use mssql_migrator.Apply.Modules.Accounting.{ModulesEnd, apply_modules_accounted}
use mssql_migrator.Apply.Order.{sort_tx_batch}
use mssql_migrator.Apply.Order.Sorted.{KindsInOrder, sort_tx_batch_sorted}
use mssql_migrator.Apply.Execute.{Outcome, execute_plan}
use mssql_migrator.Apply.Execute.Phases.{AllOrError, execute_plan_complete}
use mssql_migrator.Apply.Execute.{baseline, execute_metadata_plan}
use mssql_migrator.Apply.Execute.Metadata.{AuditLog, metadata_plan_audit_only}
use mssql_migrator.Tests.Data.{body_text, server, refusing, table_a, view_v, layout, plan, start}

transaction_example :
    TxEnd start (committed body_text (object_record (codes "applied") table_a ∷ []) []) (
      apply_in_tx refusing body_text
        (object_record (codes "applied") table_a ∷ [])
        (codes "a")
        start)
transaction_example =
    apply_in_tx_atomic refusing start body_text (object_record (codes "applied") table_a ∷ [])
      (codes "a")

verified_body_example :
    (bytes : Text) × (server.read_file [] (codes "/root/a.sql") ≡ contents bytes)
    × (content_checksum server.sha256 bytes ≡ body_text)
    × (server.from_utf8 bytes ≡ some body_text)
unfolding verified_body verify_bytes content_checksum eq_text split_once
verified_body_example =
    verified_body_sound server [] (codes "/root/a.sql") body_text (codes "a") {text = body_text}
      refl

exec_object_end_example :
    ObjectEnd layout view_v start
      (read_script server layout view_v start.log)
      (exec_object server layout view_v start)
exec_object_end_example = exec_object_end server layout view_v start

apply_modules_example :
    (st' : Run) × (apply_modules refusing layout (view_v ∷ []) start ≡ some st')
    × ModulesEnd (view_v ∷ []) start st'
apply_modules_example = apply_modules_accounted refusing layout (view_v ∷ []) start

sort_example :
    Perm (sort_tx_batch (view_v ∷ table_a ∷ [])) (view_v ∷ table_a ∷ [])
    × KindsInOrder (sort_tx_batch (view_v ∷ table_a ∷ []))
sort_example = sort_tx_batch_sorted (view_v ∷ table_a ∷ [])

execute_plan_example :
    (end : Outcome) × (execute_plan server true layout plan [] ≡ some end)
    × (((plan.blocked ≡ true) × (end ≡ ([], err plan_blocked))) ⊎ AllOrError plan end.1)
execute_plan_example = execute_plan_complete server true layout plan []

metadata_example : AuditLog [] (execute_metadata_plan refusing true plan baseline []).0
metadata_example = metadata_plan_audit_only refusing true plan baseline []
