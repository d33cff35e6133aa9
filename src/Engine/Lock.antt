-- ===== src/Engine/Lock.antt =====
-- crates/core/src/lock/mod.rs: the advisory lock of the session. `sp_getapplock`'s code is the first
-- cell of the answer, read as an integer, if there is one.
use mssql_migrator.Prelude.{
  ℕ, zero, suc, ◌+◌, Option, none, some, ◌∷◌, ◌++◌, ltb, if◌then◌else◌, codes, show,
}
use mssql_migrator.Error.{Error, lock_timeout, sql}
use mssql_migrator.Apply.Conn.{acquire_lock, release_lock, Log, World}

-- A signed integer: `negsuc n` is `-(n + 1)`.
pub data ℤ : Type 0 where
  pos : ℕ → ℤ
  negsuc : ℕ → ℤ

-- `i32::MAX`
abbrev pub i32_max : ℕ
i32_max = 2147483647

unfoldable pub lock_timeout_millis_i32 : ℕ → ℕ
lock_timeout_millis_i32 millis = if ltb i32_max millis then i32_max else millis

-- The error of a code, if it is not a grant.
unfoldable pub classify_applock : ℤ → Option Error
classify_applock (pos n) = none
classify_applock (negsuc zero) = some lock_timeout
classify_applock (negsuc (suc zero)) =
    some (sql (codes "advisory lock request was canceled (sp_getapplock -2)"))
classify_applock (negsuc (suc (suc zero))) =
    some (sql (codes "advisory lock deadlock victim (sp_getapplock -3)"))
classify_applock (negsuc n) =
    some (
      sql
        (codes "advisory lock acquisition failed (sp_getapplock -" ++ (show (n + 1) ++ codes ")")))

-- The log and the error, if the lock was not granted.
unfoldable pub acquire : World → (Log → Option ℤ) → ℕ → Log → Log × Option Error
unfolding classify_applock lock_timeout_millis_i32
acquire world lock_code timeout log =
    let q = acquire_lock (show (lock_timeout_millis_i32 timeout)) in
    let answer = world.reply log q in
    let log' = (q, answer) ∷ log in
    (
      log',
      elim answer [
        | some e ↦ some (sql e)
        | none ↦ elim (lock_code log') [
          | none ↦ classify_applock (negsuc 0)
          | some code ↦ classify_applock code
        ]
      ],
    )

-- `release_after_body`; a failed release is only a warning, so the body's result stands.
unfoldable pub release : World → Log → Log
release world log = (release_lock, world.reply log release_lock) ∷ log
