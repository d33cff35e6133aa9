-- ===== src/Apply/Modules/Accounting.antt =====
-- What becomes of the modules of a batch (crates/core/src/apply/modules.rs).
use mathlib.Core.List.{append-nil, append_assoc}
use mssql_migrator.Domain.Layout.{Layout}
use mssql_migrator.Export.PlanJson.{PlannedObject}
use mssql_migrator.Apply.Conn.{World, Run, push_error}
use mssql_migrator.Apply.Script.{exec_object}
use mssql_migrator.Apply.Script.Verified.{exec_object-OneOutcome}
use mssql_migrator.Apply.Modules.{
  push_errors, drained, withdraw, rollback_failed, RoundEnd, zombie, tried, module_round,
  modules_loop, apply_modules,
}
use mssql_migrator.Prelude.{
  ℕ, zero, suc, ◌+◌, ◌≤◌, ◌<◌, ◌≡◌, refl, sym, ◌∙◌, ◌⊎◌, inl, inr, Bool, true, false, some, List,
  [], ◌∷◌, ◌++◌, arith, ◌==◌, Bool-cases, length, any, length-append, Text, contains,
}

push_errors-counts :
    (ms : List Text) (st : Run)
    → ((push_errors ms st).result.failed ≡ st.result.failed + length ms)
      × ((push_errors ms st).result.applied ≡ st.result.applied)
unfolding push_errors push_error
push_errors-counts [] st = (omega arith, refl)
push_errors-counts (m ∷ ms) st =
    let (f, a) = push_errors-counts ms (push_error m st) in (omega arith, a)

push_errors-errors :
    (ms : List Text) (st : Run) → (push_errors ms st).result.errors ≡ st.result.errors ++ ms
unfolding push_errors push_error
push_errors-errors [] st = sym (append-nil st.result.errors)
push_errors-errors (m ∷ ms) st =
    push_errors-errors ms (push_error m st) ∙ append_assoc st.result.errors (m ∷ []) ms

any-append : (p : Text → Bool) (xs ys : List Text) → any p ys ≡ true → any p (xs ++ ys) ≡ true
any-append p [] ys h = h
any-append p (x ∷ xs) ys h = ground (arith, any-append p xs ys h)

-- Some recorded error tells of a failed rollback.
abbrev pub RollbackFailed : Run → Type 0
RollbackFailed st = any (contains rollback_failed) st.result.errors ≡ true

zombie-RollbackFailed :
    (es : List Text) (back : Run)
    → any (contains rollback_failed) es ≡ true
    → RollbackFailed (push_errors es back)
zombie-RollbackFailed es back h =
    rw (push_errors-errors es back) (any-append (contains rollback_failed) back.result.errors es h)

any-length : (p : Text → Bool) (xs : List Text) → any p xs ≡ true → 0 < length xs
any-length p [] h = absurd (ground arith)
any-length p (x ∷ xs) h = omega arith

-- What a round keeps in balance: objects tried, applied and put off.
abbrev RoundCounts :
    List PlannedObject → List PlannedObject → Bool → List Text → Run → RoundEnd → Type 0
RoundCounts pending next progress errors st (zombie st') =
    (st.result.failed < st'.result.failed) × RollbackFailed st'
RoundCounts pending next progress errors st (tried st' next' progress' errors') =
    (st'.result.applied + length next' ≡ st.result.applied + length pending + length next)
    × (st'.result.failed ≡ st.result.failed)
    × (length errors' + length next ≡ length errors + length next')
    × (st.result.applied ≤ st'.result.applied)
    × (progress' ≡ true → (progress ≡ true) ⊎ (length next' < length pending + length next))

counts-applied :
    (obj : PlannedObject) (pending next : List PlannedObject) (progress : Bool) (errors : List Text)
    (st st' : Run) (e : RoundEnd)
    → st'.result.applied ≡ st.result.applied + 1
    → st'.result.failed ≡ st.result.failed
    → RoundCounts pending next true errors st' e
    → RoundCounts (obj ∷ pending) next progress errors st e
counts-applied obj pending next progress errors st st' (zombie end) a f (c, d) = (omega arith, d)
counts-applied obj pending next progress errors st st' (tried end n p es) a f (c, d, l, m, q) =
    (omega arith, omega arith, l, omega arith, λ h. inr (omega arith))

counts-failed :
    (obj : PlannedObject) (pending next : List PlannedObject) (progress : Bool) (errors : List Text)
    (m : Text) (st back : Run) (e : RoundEnd)
    → back.result.applied ≡ st.result.applied
    → back.result.failed ≡ st.result.failed
    → RoundCounts pending (next ++ (obj ∷ [])) progress (errors ++ (m ∷ [])) back e
    → RoundCounts (obj ∷ pending) next progress errors st e
counts-failed obj pending next progress errors m st back (zombie end) a f (c, d) = (omega arith, d)
counts-failed obj pending next progress errors m st back (tried end n p es) a f (c, d, l, k, q) =
    let ln = length-append {0} next (obj ∷ []) in
    let le = length-append {0} errors (m ∷ []) in
    (
      omega arith,
      omega arith,
      omega arith,
      omega arith,
      λ h. elim (q h) [ inl g ↦ inl g | inr g ↦ inr (omega arith) ],
    )

withdraw-counts :
    (st st' : Run)
    → ((withdraw st st').result.failed ≡ st.result.failed)
      × ((withdraw st st').result.applied ≡ st'.result.applied)
unfolding withdraw
withdraw-counts st st' = (refl, refl)

module _ (world : World) (layout : Layout) where
  round-counts :
      (pending next : List PlannedObject) (progress : Bool) (errors : List Text) (st : Run)
      → RoundCounts pending next progress errors st
          (module_round world layout pending next progress errors st)
  unfolding module_round
  round-counts [] next progress errors st = (omega arith, refl, refl, omega arith, λ h. inl h)
  round-counts (obj ∷ pending) next progress errors st =
      let st' = exec_object world layout obj st in
      let es = drained (length st.result.errors) st'.result.errors in
      let back = withdraw st st' in
      let step = exec_object-OneOutcome world layout obj st in
      let counts = push_errors-counts es back in
      let taken = withdraw-counts st st' in
      elim (Bool-cases (st'.result.failed == st.result.failed)) [
        | inl e ↦ rw e (
            counts-applied obj pending next progress errors st st' _ (ground arith) (ground arith)
              (round-counts pending next true errors st'))
        | inr e ↦ rw e (elim (Bool-cases (any (contains rollback_failed) es)) [
          | inl z ↦ rw z (
            ground (arith, any-length (contains rollback_failed) es z),
            zombie-RollbackFailed es back z,
          )
          | inr z ↦ rw z (
              counts-failed obj pending next progress errors _ st back _ (ground arith)
                (ground arith) (round-counts pending (next ++ (obj ∷ [])) progress _ back))
        ])
      ]

-- How a batch ends: with every module applied or reported once, or after a failed rollback.
abbrev pub ModulesEnd : List PlannedObject → Run → Run → Type 0
ModulesEnd pending st st' =
    (st.result.failed ≤ st'.result.failed)
    × ((st'.result.applied + st'.result.failed
          ≡ st.result.applied + st.result.failed + length pending)
        ⊎ ((st.result.failed < st'.result.failed) × RollbackFailed st'))

module _ (world : World) (layout : Layout) where
  loop-ModulesEnd :
      (fuel : ℕ) (pending : List PlannedObject) (st : Run)
      → length pending < fuel
      → (st' : Run) × (modules_loop world layout fuel pending st ≡ some st')
        × ModulesEnd pending st st'
  unfolding modules_loop
  loop-ModulesEnd zero pending st lt = elim lt [ ]
  loop-ModulesEnd (suc fuel) [] st lt = (st, refl, (omega arith, inl (omega arith)))
  loop-ModulesEnd (suc fuel) (obj ∷ pending) st lt =
      by-round (module_round world layout (obj ∷ pending) [] false [] st) refl
        (round-counts world layout (obj ∷ pending) [] false [] st)
        (λ next s h. loop-ModulesEnd fuel next s h)
    where
      by-round :
          (e : RoundEnd)
          → module_round world layout (obj ∷ pending) [] false [] st ≡ e
          → RoundCounts (obj ∷ pending) [] false [] st e
          → ((next : List PlannedObject) (s : Run)
              → length next < fuel
              → (s' : Run) × (modules_loop world layout fuel next s ≡ some s')
                × ModulesEnd next s s')
          → (st' : Run) × (modules_loop world layout (suc fuel) (obj ∷ pending) st ≡ some st')
            × ModulesEnd (obj ∷ pending) st st'
      by-round (zombie end) e (f, r) again =
          (end, rw (e, modules_loop) refl, (omega arith, inr (f, r)))
      by-round (tried mid next true es) e (c, f, l, m, p) again =
          let shorter : length next < fuel = ground (arith, p refl) in
          let (st', q, ends) = again next mid shorter in
          (
            st',
            rw (e, modules_loop) q,
            (
              omega arith,
              elim ends.1 [ inl b ↦ inl (omega arith) | inr b ↦ inr (omega arith, b.1) ],
            ),
          )
      by-round (tried mid next false es) e (c, f, l, m, p) again =
          let counts = push_errors-counts es mid in
          (
            push_errors es mid,
            rw (e, modules_loop) refl,
            (omega (arith, counts.0), inl (omega (arith, counts.0, counts.1))),
          )

-- The retry loop ends, and its result says what became of every module: unless a rollback failed,
-- in which case a failure and that error are recorded, each module of the batch counts once as
-- applied or once as failed.
pub apply_modules_accounted :
    (world : World) (layout : Layout) (pending : List PlannedObject) (st : Run)
    → (st' : Run) × (apply_modules world layout pending st ≡ some st') × ModulesEnd pending st st'
unfolding apply_modules
apply_modules_accounted world layout pending st =
    loop-ModulesEnd world layout (suc (length pending)) pending st (omega arith)
