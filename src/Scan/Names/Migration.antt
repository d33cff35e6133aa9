-- ===== src/Scan/Names/Migration.antt =====
-- Which file names are transition scripts (`parse_filename` of crates/core/src/scan/transition.rs).
use mssql_migrator.Prelude.{
  ℕ, ◌≤◌, ◌≡◌, refl, sym, ap, ◌∙◌, ◌≢◌, ◌↔◌, ◌⊎◌, inl, inr, true, false, not, none, some, [], ◌∷◌,
  ◌++◌, map, arith, ◌==◌, Bool-cases, Option-cases, length, is_empty, all, length-append,
  length-map, Text, codes, split_once, eq_text_iff,
}
use mssql_migrator.SqlIdent.{is_ascii_digit}
use mssql_migrator.Scan.Names.{
  lower_ascii, is_dot_sql, strip_sql_ext, is_ascii_hexdigit, parse_commit, parse_ordinal,
  parse_filename,
}

-- `<ordinal>_<commit>_<slug><ext>`: three digits, at least seven hex digits, a slug, and `.sql` in
-- any case.
pub record MigrationName (file ordinal : Text) : Type 0 where
  pub commit : Text
  pub slug : Text
  pub ext : Text
  pub shape : file ≡ (ordinal ++ (b'_' ∷ (commit ++ (b'_' ∷ slug)))) ++ ext
  pub ext_sql : is_dot_sql ext ≡ true
  pub three : length ordinal ≡ 3
  pub digits : all is_ascii_digit ordinal ≡ true
  pub long : 7 ≤ length commit
  pub hex : all is_ascii_hexdigit commit ≡ true
  pub named : is_empty slug ≡ false

is_dot_sql-length : (s : Text) → is_dot_sql s ≡ true → length s ≡ 4
unfolding is_dot_sql
is_dot_sql-length s h =
    let e = (eq_text_iff (map lower_ascii s) (codes ".sql")).0 h in
    sym (length-map lower_ascii s) ∙ ap length e

strip-append : (s ext : Text) → is_dot_sql ext ≡ true → strip_sql_ext (s ++ ext) ≡ s
unfolding strip_sql_ext
strip-append [] [] h = refl
strip-append [] (c ∷ ext) h = ground arith
strip-append (c ∷ s) ext h = elim (Bool-cases (is_dot_sql (c ∷ (s ++ ext)))) [
  | inl e ↦ absurd (
      omega
        (arith, is_dot_sql-length (c ∷ (s ++ ext)) e, is_dot_sql-length ext h, length-append s ext))
  | inr e ↦ rw e (ap (λ t. c ∷ t) (strip-append s ext h))
]

strip-cases :
    (s : Text)
    → (strip_sql_ext s ≡ s)
      ⊎ ((ext : Text) × (s ≡ strip_sql_ext s ++ ext) × (is_dot_sql ext ≡ true))
unfolding strip_sql_ext
strip-cases [] = inl refl
strip-cases (c ∷ s) = elim (Bool-cases (is_dot_sql (c ∷ s))) [
  | inl e ↦ rw e (inr (c ∷ s, refl, e))
  | inr e ↦ rw e (elim (strip-cases s) [
    | inl p ↦ inl (ap (λ t. c ∷ t) p)
    | inr (ext, p, d) ↦ inr (ext, ap (λ t. c ∷ t) p, d)
  ])
]

split_once-some : (c : ℕ) (s : Text) {a b : Text} → split_once c s ≡ some (a, b) → s ≡ a ++ (c ∷ b)
unfolding split_once
split_once-some c [] h = absurd (ground arith)
split_once-some c (d ∷ s) {a} {b} h = elim (Option-cases (split_once c s)) [
  | inl n ↦ ground (arith, n)
  | inr (p, n) ↦ ground (arith, n, split_once-some c s {a = p.0} {b = p.1} n)
]

split_once-append :
    (c : ℕ) (a b : Text)
    → all (λ d. not (d == c)) a ≡ true
    → split_once c (a ++ (c ∷ b)) ≡ some (a, b)
unfolding split_once
split_once-append c [] b h = ground arith
split_once-append c (d ∷ a) b h = ground (arith, split_once-append c a b)

digits-plain : (s : Text) → all is_ascii_digit s ≡ true → all (λ d. not (d == b'_')) s ≡ true
unfolding is_ascii_digit
digits-plain [] h = refl
digits-plain (c ∷ s) h = ground (arith, digits-plain s)

hex-plain : (s : Text) → all is_ascii_hexdigit s ≡ true → all (λ d. not (d == b'_')) s ≡ true
unfolding is_ascii_hexdigit is_ascii_digit
hex-plain [] h = refl
hex-plain (c ∷ s) h = ground (arith, hex-plain s)

plain_stripped :
    (file ordinal : Text) (n : MigrationName file ordinal)
    → strip_sql_ext file ≡ ordinal ++ (b'_' ∷ (n.commit ++ (b'_' ∷ n.slug)))
plain_stripped file ordinal n =
    ap strip_sql_ext n.shape
    ∙ strip-append (ordinal ++ (b'_' ∷ (n.commit ++ (b'_' ∷ n.slug)))) n.ext n.ext_sql

accepted : (file ordinal : Text) → MigrationName file ordinal → parse_filename file ≡ some ordinal
unfolding parse_filename parse_ordinal parse_commit
accepted file ordinal n =
    let stem = ordinal ++ (b'_' ∷ (n.commit ++ (b'_' ∷ n.slug))) in
    let shorter : length stem ≢ length file = λ e. absurd (
      omega (
        arith,
        e,
        is_dot_sql-length n.ext n.ext_sql,
        length-append stem n.ext,
        ap length n.shape,
      )) in
    let first =
      split_once-append b'_' ordinal (n.commit ++ (b'_' ∷ n.slug))
        (digits-plain ordinal n.digits) in
    let second = split_once-append b'_' n.commit n.slug (hex-plain n.commit n.hex) in
    rw (plain_stripped file ordinal n)
      (rw first (rw second (ground (arith, n.three, n.digits, n.long, n.hex, n.named, shorter))))

parse_commit-some :
    (o commit slug : Text) {ordinal : Text}
    → parse_commit o (some (commit, slug)) ≡ some ordinal
    → (o ≡ ordinal)
      × (7 ≤ length commit)
      × (all is_ascii_hexdigit commit ≡ true)
      × (is_empty slug ≡ false)
unfolding parse_commit
parse_commit-some o commit slug h = ground arith

parse_ordinal-some :
    (o rest : Text) {ordinal : Text}
    → parse_ordinal (some (o, rest)) ≡ some ordinal
    → (length o ≡ 3)
      × (all is_ascii_digit o ≡ true)
      × (parse_commit o (split_once b'_' rest) ≡ some ordinal)
unfolding parse_ordinal
parse_ordinal-some o rest h = ground arith

no_commit : (o : Text) {ordinal : Text} → parse_commit o none ≢ some ordinal
unfolding parse_commit
no_commit o h = ground arith

no_ordinal : {ordinal : Text} → parse_ordinal none ≢ some ordinal
unfolding parse_ordinal
no_ordinal h = ground arith

from_stem :
    (file ext : Text) {ordinal : Text}
    → file ≡ strip_sql_ext file ++ ext
    → is_dot_sql ext ≡ true
    → parse_ordinal (split_once b'_' (strip_sql_ext file)) ≡ some ordinal
    → MigrationName file ordinal
from_stem file ext {ordinal} p d h = elim (Option-cases (split_once b'_' (strip_sql_ext file))) [
  | inl n ↦ absurd (no_ordinal {ordinal = ordinal} (sym (ap parse_ordinal n) ∙ h))
  | inr ((o, rest), n) ↦
      let (three, digits, c) =
        parse_ordinal-some o rest {ordinal = ordinal} (sym (ap parse_ordinal n) ∙ h) in
      elim (Option-cases (split_once b'_' rest)) [
        | inl m ↦ absurd (no_commit o {ordinal = ordinal} (sym (ap (parse_commit o) m) ∙ c))
        | inr ((commit, slug), m) ↦
            let (same, long, hex, named) =
              parse_commit-some o commit slug {ordinal = ordinal}
                (sym (ap (parse_commit o) m) ∙ c) in
            record {
              commit = commit;
              slug = slug;
              ext = ext;
              shape =
                  p
                  ∙ ap (λ t. t ++ ext)
                      (split_once-some b'_' (strip_sql_ext file) n
                        ∙ ap (λ t. o ++ (b'_' ∷ t)) (split_once-some b'_' rest m)
                        ∙ ap (λ t. t ++ (b'_' ∷ (commit ++ (b'_' ∷ slug)))) same);
              ext_sql = d;
              three = sym (ap length same) ∙ three;
              digits = sym (ap (all is_ascii_digit) same) ∙ digits;
              long = long;
              hex = hex;
              named = named;
            }
      ]
]

parse_filename-some :
    (file : Text) {ordinal : Text}
    → parse_filename file ≡ some ordinal
    → (strip_sql_ext file ≢ file)
      × (parse_ordinal (split_once b'_' (strip_sql_ext file)) ≡ some ordinal)
unfolding parse_filename
parse_filename-some file h = (λ e. ground (arith, ap length e), ground arith)

-- A file is a transition script with this ordinal exactly when it is named
-- `<ordinal>_<commit>_<slug>.sql`: an ordinal of three digits, a commit of at least seven hex digits
-- and a slug that is not empty; the extension may be in any case.
pub parse_filename_iff :
    (file ordinal : Text) → (parse_filename file ≡ some ordinal) ↔ MigrationName file ordinal
parse_filename_iff file ordinal = (
  λ h.
      let (changed, rest) = parse_filename-some file {ordinal = ordinal} h in
      elim (strip-cases file) [
        | inl same ↦ absurd (changed same)
        | inr (ext, p, d) ↦ from_stem file ext p d rest
      ],
  accepted file ordinal,
)
