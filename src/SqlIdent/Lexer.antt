-- ===== src/SqlIdent/Lexer.antt =====
-- How T-SQL reads a delimited token: up to the first closing delimiter that is not doubled.
use mssql_migrator.Prelude.{
  ℕ, ◌≡◌, ◌≢◌, inl, inr, Option, none, some, [], ◌∷◌, ◌++◌, arith, ◌==◌, if◌then◌else◌, Bool-cases,
  Text, replace,
}

abbrev put : ℕ → Option (Text × Text) → Option (Text × Text)
put c none = none
put c (some (s, rest)) = some (c ∷ s, rest)

-- The token's text and what follows it, from just behind the opening delimiter.
pub read_delimited : ℕ → Text → Option (Text × Text)
read_delimited q [] = none
read_delimited q (c ∷ []) = if c == q then some ([], []) else none
read_delimited q (c ∷ d ∷ s) =
    let doubled = put q (read_delimited q s) in
    let plain = put c (read_delimited q (d ∷ s)) in
    if c == q then (if d == q then doubled else some ([], d ∷ s)) else plain

-- The text does not go on with the delimiter.
abbrev pub EndsToken : ℕ → Text → Type 0
EndsToken q [] = Unit
EndsToken q (c ∷ s) = c ≢ q

closes : (q : ℕ) (rest : Text) → EndsToken q rest → read_delimited q (q ∷ rest) ≡ some ([], rest)
unfolding read_delimited
closes q [] h = ground arith
closes q (c ∷ s) h = ground arith

passes : (q c : ℕ) (s : Text) → c ≢ q → read_delimited q (c ∷ s) ≡ put c (read_delimited q s)
unfolding read_delimited
passes q c [] h = ground arith
passes q c (d ∷ s) h = ground arith

doubles : (q : ℕ) (s : Text) → read_delimited q (q ∷ q ∷ s) ≡ put q (read_delimited q s)
unfolding read_delimited
doubles q s = ground arith

-- A text with its delimiters doubled is read back whole, and nothing of it escapes.
pub read_delimited-replace :
    (q : ℕ) (s rest : Text)
    → EndsToken q rest
    → read_delimited q (replace q (q ∷ q ∷ []) s ++ (q ∷ rest)) ≡ some (s, rest)
unfolding replace
read_delimited-replace q [] rest h = closes q rest h
read_delimited-replace q (c ∷ s) rest h = elim (Bool-cases (c == q)) [
  | inl e ↦
      ground (
        arith,
        doubles q (replace q (q ∷ q ∷ []) s ++ (q ∷ rest)),
        read_delimited-replace q s rest h,
      )
  | inr e ↦ ground (
    arith,
    passes q c (replace q (q ∷ q ∷ []) s ++ (q ∷ rest)),
    read_delimited-replace q s rest h,
  )
]
