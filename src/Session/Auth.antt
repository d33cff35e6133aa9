-- ===== src/Session/Auth.antt =====
-- crates/core/src/session/auth.rs: the shared token. The process environment and the bytes of a
-- text, its UTF-8, are arguments.
pub mod Compare
use Prim.Native.Nat.{bit_or, bit_xor}
use mssql_migrator.Prelude.{
  ℕ, Bool, true, false, not, Option, none, some, List, [], ◌∷◌, ◌==◌, if◌then◌else◌, length,
  is_empty, Text, codes,
}
use mssql_migrator.Error.{Error, invalid_input}

-- The configured token, the published one, or the environment's.
unfoldable pub resolve_session_token : Option Text → Option Text → Option Text → Text
resolve_session_token configured published environment =
    let fallback : Text = elim published [
      | some t ↦ t
      | none ↦ elim environment [ some t ↦ t | none ↦ [] ]
    ] in
    elim configured [ none ↦ fallback | some t ↦ if is_empty t then fallback else t ]

unfoldable pub token_required : Text → Bool
token_required expected = not (is_empty expected)

-- The loop over the pairs of bytes; the shorter list ends it.
unfoldable pub fold_diff : ℕ → List ℕ → List ℕ → ℕ
fold_diff diff [] b = diff
fold_diff diff (x ∷ a) [] = diff
fold_diff diff (x ∷ a) (y ∷ b) = fold_diff (bit_or diff (bit_xor x y)) a b

unfoldable pub constant_time_eq : List ℕ → List ℕ → Bool
unfolding fold_diff
constant_time_eq a b = if length a == length b then fold_diff 0 a b == 0 else false

-- The error, if the token is refused.
unfoldable pub verify_token : (Text → List ℕ) → Text → Text → Option Error
unfolding constant_time_eq
verify_token utf8 expected provided =
    if is_empty expected
    then none
    else if constant_time_eq (utf8 provided) (utf8 expected)
    then none
    else some (invalid_input (codes "rmigd: invalid session token"))
