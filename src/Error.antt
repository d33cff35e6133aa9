-- ===== src/Error.antt =====
-- crates/core/src/error.rs: the crate's errors, their exit codes and their display, and the result
-- monad that every fallible function returns.
use mssql_migrator.Prelude.{
  ℕ, ◌≡◌, refl, ◌≢◌, ◌↔◌, ◌⊎◌, inl, inr, Bool, true, false, ◌++◌, arith, Text, codes,
}

-- The payload of an I/O or foreign error is its displayed text.
pub data Error : Type 0 where
  config invalid_input io sql conn checksum other : Text → Error
  plan_blocked lock_timeout : Error

-- `Result<T>` of the crate.
pub data Result {κ} (T : Type κ) : Type κ where
  ok : T → Result T
  err : Error → Result T

-- `?` on a value that the rest takes, and on one that it drops.
infixl 5 ◌>>=◌ ◌>>◌
abbrev pub ◌>>=◌ {κ ℓ} : {T : Type κ} {U : Type ℓ} → Result T → (T → Result U) → Result U
r >>= rest = elim r [ ok t ↦ rest t | err e ↦ err e ]

abbrev pub ◌>>◌ {κ ℓ} : {T : Type κ} {U : Type ℓ} → Result T → Result U → Result U
r >> rest = r >>= λ t. rest

abbrev pub exit_ok : ℕ
exit_ok = 0

pub exit_code : Error → ℕ
exit_code (config m) = 2
exit_code (invalid_input m) = 8
exit_code plan_blocked = 10
exit_code (checksum m) = 4
exit_code lock_timeout = 7
exit_code (conn m) = 3
exit_code (sql m) = 5
exit_code (io m) = 1
exit_code (other m) = 1

unfoldable pub display : Error → Text
display (config m) = codes "configuration error: " ++ m
display (invalid_input m) = m
display (io m) = m
display (sql m) = m
display (conn m) = m
display plan_blocked = codes "plan is blocked"
display (checksum m) = codes "checksum integrity error: " ++ m
display lock_timeout = codes "lock timeout"
display (other m) = m

-- No error exits with the success code, and the codes 10 and 7 tell a blocked plan and a lock
-- timeout apart from every other error.
pub exit_code_classes :
    (e : Error)
    → (exit_code e ≢ exit_ok)
      × ((exit_code e ≡ 10) ↔ (e ≡ plan_blocked))
      × ((exit_code e ≡ 7) ↔ (e ≡ lock_timeout))
unfolding exit_code
exit_code_classes e = (ground arith, (ground arith, ground arith), (ground arith, ground arith))

abbrev pub is_ok {ℓ} : {A : Type ℓ} → Result A → Bool
is_ok (ok a) = true
is_ok (err e) = false

pub Result-cases {ℓ} :
    {A : Type ℓ} (r : Result A) → ((a : A) × (r ≡ ok a)) ⊎ ((e : Error) × (r ≡ err e))
Result-cases (ok a) = inl (a, refl)
Result-cases (err e) = inr (e, refl)
