-- ===== src/Session/Auth/Compare.antt =====
-- The comparison of tokens (crates/core/src/session/auth.rs) and the bit operations behind it.
use Prim.Native.Nat.{bit_or, bit_xor, bit_or-bitwise, bit_xor-bitwise, bitwise, digits, differ, max}
use mssql_migrator.Prelude.{
  ℕ, zero, suc, ◌/◌, ◌%◌, ◌≤◌, ◌<◌, ◌≡◌, refl, sym, ap, ◌↔◌, inl, inr, true, List, [], ◌∷◌, arith,
  ◌==◌, Bool-cases, length,
}
use mssql_migrator.Session.Auth.{fold_diff, constant_time_eq}

differ-bit : (x y : ℕ) → x < 2 → y < 2 → (differ x y ≡ 0) ↔ (x ≡ y)
differ-bit zero y lx ly = (λ h. sym h, λ h. sym h)
differ-bit (suc zero) zero lx ly = (λ h. absurd (ground arith), λ h. absurd (ground arith))
differ-bit (suc zero) (suc zero) lx ly = (λ h. refl, λ h. refl)
differ-bit (suc zero) (suc (suc y)) lx ly = absurd (ground arith)
differ-bit (suc (suc x)) y lx ly = absurd (ground arith)

xor_digits-eq : (n a b : ℕ) → a ≤ n → (digits (λ c. c) differ n a b ≡ 0) ↔ (a ≡ b)
xor_digits-eq zero zero b le = (λ h. sym h, λ h. sym h)
xor_digits-eq zero (suc a) b le = absurd (ground arith)
xor_digits-eq (suc n) zero b le = (λ h. sym h, λ h. sym h)
xor_digits-eq (suc n) (suc a) b le =
    let half = xor_digits-eq n (suc a / 2) (b / 2) (omega arith) in
    let bit = differ-bit (suc a % 2) (b % 2) (omega arith) (omega arith) in
    (
      λ h.
          let hi : digits (λ c. c) differ n (suc a / 2) (b / 2) ≡ 0 = omega (arith, h) in
          let lo : differ (suc a % 2) (b % 2) ≡ 0 = omega (arith, h) in
          omega (arith, half.0 hi, bit.0 lo),
      λ h.
          let hi = half.1 (ap (λ k. k / 2) h) in
          let lo = bit.1 (ap (λ k. k % 2) h) in omega (arith, hi, lo),
    )

pub bit_xor_iff : (a b : ℕ) → (bit_xor a b ≡ 0) ↔ (a ≡ b)
bit_xor_iff a b =
    let e : bit_xor a b ≡ bitwise (λ c. c) differ a b = λ i. bit_xor-bitwise a b i in
    rw e (xor_digits-eq a a b (omega arith))

max-zero : (x y : ℕ) → (max x y ≡ 0) ↔ ((x ≡ 0) × (y ≡ 0))
max-zero x y = ground arith

or_digits-zero : (n a b : ℕ) → a ≤ n → (digits (λ c. c) max n a b ≡ 0) ↔ ((a ≡ 0) × (b ≡ 0))
or_digits-zero zero zero b le = (λ h. (refl, h), λ h. h.1)
or_digits-zero zero (suc a) b le = absurd (ground arith)
or_digits-zero (suc n) zero b le = (λ h. (refl, h), λ h. h.1)
or_digits-zero (suc n) (suc a) b le =
    let half = or_digits-zero n (suc a / 2) (b / 2) (omega arith) in
    let bit = max-zero (suc a % 2) (b % 2) in
    (
      λ h.
          let hi : digits (λ c. c) max n (suc a / 2) (b / 2) ≡ 0 = omega (arith, h) in
          let lo : max (suc a % 2) (b % 2) ≡ 0 = omega (arith, h) in
          absurd (omega (arith, (half.0 hi).0, (bit.0 lo).0)),
      λ h. absurd (omega (arith, h.0)),
    )

pub bit_or_iff : (a b : ℕ) → (bit_or a b ≡ 0) ↔ ((a ≡ 0) × (b ≡ 0))
bit_or_iff a b =
    let e : bit_or a b ≡ bitwise (λ c. c) max a b = λ i. bit_or-bitwise a b i in
    rw e (or_digits-zero a a b (omega arith))

fold_diff_iff :
    (diff : ℕ) (a b : List ℕ)
    → length a ≡ length b
    → (fold_diff diff a b ≡ 0) ↔ ((diff ≡ 0) × (a ≡ b))
unfolding fold_diff
fold_diff_iff diff [] [] len = (λ h. (h, refl), λ h. h.0)
fold_diff_iff diff [] (y ∷ b) len = absurd (ground arith)
fold_diff_iff diff (x ∷ a) [] len = absurd (ground arith)
fold_diff_iff diff (x ∷ a) (y ∷ b) len =
    let rest = fold_diff_iff (bit_or diff (bit_xor x y)) a b (omega arith) in
    ground (arith, rest, bit_or_iff diff (bit_xor x y), bit_xor_iff x y)

-- Two tokens' bytes compare as equal exactly when they are the same: no difference is lost in the
-- loop that combines the bytes' exclusive ors.
pub constant_time_eq_iff : (a b : List ℕ) → (constant_time_eq a b ≡ true) ↔ (a ≡ b)
unfolding constant_time_eq
constant_time_eq_iff a b = elim (Bool-cases (length a == length b)) [
  | inl e ↦ ground (arith, fold_diff_iff 0 a b (ground arith))
  | inr e ↦ (λ h. absurd (ground arith), λ h. absurd (ground (arith, ap length h)))
]
