-- ===== src/Prelude/Strings.antt =====
-- Text as the list of its code points, with the operations of Rust's `str` that the source uses.
use Prim.Native.Nat.{ℕ, zero, suc, ◌+◌, ◌/◌, ◌%◌}
use Prim.Native.Char.{code}
use Prim.Native.String.{String}
use mathlib.Core.Path.{subst, ◌≡◌, refl}
use mathlib.Core.Logic.{inl, inr, ◌↔◌, ◌≢◌}
use mathlib.Core.Bool.{Bool, true, false, ◌&&◌, ◌||◌}
use mathlib.Core.Option.{Option, none, some}
use mathlib.Core.List.{List, [], ◌∷◌, ◌++◌, reverse}
use native.Mathlib.Omega.{arith}
use mssql_migrator.Prelude.Tests.{Bool-cases, ltb, ◌==◌, if◌then◌else◌}
use mssql_migrator.Prelude.Lists.{All}

abbrev pub Text : Type 0
Text = List ℕ

-- A literal's code points.
abbrev pub codes : String → Text
codes String.[] = []
codes (String.◌∷◌ c s) = code c ∷ codes s

unfoldable pub eq_text : Text → Text → Bool
eq_text [] [] = true
eq_text [] (d ∷ t) = false
eq_text (c ∷ s) [] = false
eq_text (c ∷ s) (d ∷ t) = c == d && eq_text s t

pub eq_text_refl : (s : Text) → eq_text s s ≡ true
unfolding eq_text
eq_text_refl [] = refl
eq_text_refl (c ∷ s) = ground (arith, eq_text_refl s)

eq_text_sound : (s t : Text) → eq_text s t ≡ true → s ≡ t
unfolding eq_text
eq_text_sound [] [] h = refl
eq_text_sound [] (d ∷ t) h = ground arith
eq_text_sound (c ∷ s) [] h = ground arith
eq_text_sound (c ∷ s) (d ∷ t) h = ground (arith, eq_text_sound s t)

pub eq_text_iff : (s t : Text) → (eq_text s t ≡ true) ↔ (s ≡ t)
eq_text_iff s t = (eq_text_sound s t, λ e. rw e (eq_text_refl t))

-- `str::starts_with(prefix)`, the prefix first.
unfoldable pub starts_with : Text → Text → Bool
starts_with [] s = true
starts_with (c ∷ p) [] = false
starts_with (c ∷ p) (d ∷ s) = c == d && starts_with p s

unfoldable pub strip_prefix : Text → Text → Option Text
strip_prefix [] s = some s
strip_prefix (c ∷ p) [] = none
strip_prefix (c ∷ p) (d ∷ s) = let rest = strip_prefix p s in if c == d then rest else none

unfoldable pub ends_with : Text → Text → Bool
unfolding starts_with
ends_with p s = starts_with (reverse p) (reverse s)

-- `str::contains(pattern)`, the pattern first.
unfoldable pub contains : Text → Text → Bool
unfolding starts_with
contains p [] = starts_with p []
contains p (c ∷ s) = starts_with p (c ∷ s) || contains p s

unfoldable pub push_front : ℕ → List Text → List Text
push_front c [] = (c ∷ []) ∷ []
push_front c (s ∷ r) = (c ∷ s) ∷ r

-- `str::split(separator)`: never empty.
unfoldable pub split : ℕ → Text → List Text
unfolding push_front
split c [] = [] ∷ []
split c (d ∷ s) = let rest = split c s in if d == c then [] ∷ rest else push_front d rest

unfoldable pub join : ℕ → List Text → Text
join c [] = []
join c (s ∷ []) = s
join c (s ∷ t ∷ r) = s ++ (c ∷ join c (t ∷ r))

unfoldable pub split_once : ℕ → Text → Option (Text × Text)
split_once c [] = none
split_once c (d ∷ s) =
    let rest = split_once c s in
    if d == c then some ([], s) else elim rest [ none ↦ none | some (a, b) ↦ some (d ∷ a, b) ]

-- `str::replace(char, text)`
unfoldable pub replace : ℕ → Text → Text → Text
replace c t [] = []
replace c t (d ∷ s) = if d == c then t ++ replace c t s else d ∷ replace c t s

-- Maps and sets of texts, as lists.
unfoldable pub lookup_text {ℓ} : {V : Type ℓ} → Text → List (Text × V) → Option V
lookup_text k [] = none
lookup_text k ((j, v) ∷ m) = if eq_text j k then some v else lookup_text k m

unfoldable pub mem_text : Text → List Text → Bool
mem_text k [] = false
mem_text k (j ∷ m) = eq_text j k || mem_text k m

-- A number in decimal; the number itself is fuel enough.
show_fuel : ℕ → ℕ → Text
show_fuel zero n = (b'0' + n % 10) ∷ []
show_fuel (suc f) n =
    let rest = show_fuel f (n / 10) in
    if ltb n 10 then (b'0' + n) ∷ [] else rest ++ ((b'0' + n % 10) ∷ [])

unfoldable pub show : ℕ → Text
unfolding show_fuel
show n = show_fuel n n

pub starts_with-append : (p s : Text) → starts_with p (p ++ s) ≡ true
unfolding starts_with
starts_with-append [] s = refl
starts_with-append (c ∷ p) s = ground (arith, starts_with-append p s)

pub contains-starts_with : (p s : Text) → starts_with p s ≡ true → contains p s ≡ true
unfolding contains
contains-starts_with p [] h = h
contains-starts_with p (c ∷ s) h = rw h

pub contains-append : (p s t : Text) → contains p t ≡ true → contains p (s ++ t) ≡ true
unfolding contains
contains-append p [] t h = h
contains-append p (c ∷ s) t h = ground (arith, contains-append p s t h)

pub split-ne-nil : (c : ℕ) (s : Text) → split c s ≢ []
unfolding split push_front
split-ne-nil c [] = λ e. cc e
split-ne-nil c (d ∷ s) = ground (arith, split-ne-nil c s)

join-push_front : (c d : ℕ) (r : List Text) → r ≢ [] → join c (push_front d r) ≡ d ∷ join c r
unfolding join push_front
join-push_front c d [] h = absurd (h refl)
join-push_front c d (s ∷ []) h = refl
join-push_front c d (s ∷ t ∷ r) h = refl

join-nil-cons : (c : ℕ) (r : List Text) → r ≢ [] → join c ([] ∷ r) ≡ c ∷ join c r
unfolding join
join-nil-cons c [] h = absurd (h refl)
join-nil-cons c (s ∷ r) h = refl

pub join-split : (c : ℕ) (s : Text) → join c (split c s) ≡ s
unfolding split
join-split c [] = unfold join in refl
join-split c (d ∷ s) = ground (
  arith,
  join-split c s,
  split-ne-nil c s,
  join-push_front c d (split c s),
  join-nil-cons c (split c s),
)

-- What holds of every member of a list holds of a text that is found in it.
pub mem_text-all {ℓ} :
    (P : Text → Type ℓ) (ks : List Text) → All P ks → (k : Text) → mem_text k ks ≡ true → P k
unfolding mem_text
mem_text-all P [] h k m = ground arith
mem_text-all P (j ∷ ks) h k m = elim (Bool-cases (eq_text j k)) [
  | inl e ↦ subst P (eq_text_sound j k e) h.0
  | inr e ↦ mem_text-all P ks h.1 k (ground arith)
]
