-- ===== src/Scan/Checksum.antt =====
-- `content_checksum` of crates/core/src/scan/parse_object.rs. SHA-256 is a library's: an argument,
-- applied to all the bytes that the streaming hasher was fed.
use mssql_migrator.Prelude.{
  ℕ, zero, suc, ◌≤◌, ◌<◌, ◌≡◌, refl, sym, ap, ◌∙◌, ◌≢◌, inl, inr, ◌&&◌, none, some, [], ◌∷◌, ◌++◌,
  arith, ◌==◌, if◌then◌else◌, Bool-cases, Option-cases, length, length-append, All, Text,
  split_once, replace,
}
use mathlib.Core.List.{append-nil, append_assoc}
use mssql_migrator.Domain.Workspace.{Digest}

abbrev pub cr : ℕ
cr = 13

abbrev pub lf : ℕ
lf = 10

-- One round: the bytes to feed for the text up to and with a `\r`, and what is left.
unfoldable pub feed_round : Text → Text → Text × Text
feed_round before [] = (before ++ (cr ∷ []), [])
feed_round before (c ∷ after) =
    if c == lf then (before ++ (lf ∷ []), after) else (before ++ (cr ∷ []), c ∷ after)

-- The `while let` loop over the next `\r`; each round takes at least that byte, so the length of
-- the data is fuel enough.
unfoldable pub feed : ℕ → Text → Text → Text
unfolding feed_round
feed zero h rest = h ++ rest
feed (suc fuel) h rest = elim (split_once cr rest) [
  | none ↦ h ++ rest
  | some (before, after) ↦ let (fed, left) = feed_round before after in feed fuel (h ++ fed) left
]

unfoldable pub content_checksum : (Text → Digest) → Text → Digest
unfolding feed
content_checksum sha256 bytes = sha256 (feed (suc (length bytes)) [] bytes)

-- The description: every `\r\n` becomes `\n`, and a lone `\r` stays.
pub fold_crlf : Text → Text
fold_crlf [] = []
fold_crlf (c ∷ []) = c ∷ []
fold_crlf (c ∷ d ∷ s) =
    let folded = lf ∷ fold_crlf s in
    let kept = c ∷ fold_crlf (d ∷ s) in if c == cr && d == lf then folded else kept

split_once-none : (c : ℕ) (s : Text) → split_once c s ≡ none → All (λ d. d ≢ c) s
unfolding split_once
split_once-none c [] h = tt
split_once-none c (d ∷ s) h = ground (arith, split_once-none c s)

split_once-some :
    (c : ℕ) (s before after : Text)
    → split_once c s ≡ some (before, after)
    → (s ≡ before ++ (c ∷ after)) × All (λ d. d ≢ c) before
unfolding split_once
split_once-some c [] before after h = absurd (ground arith)
split_once-some c (d ∷ s) [] after h = ground arith
split_once-some c (d ∷ s) (b ∷ before) after h = ground (arith, split_once-some c s before after)

fold_crlf-plain : (s : Text) → All (λ d. d ≢ cr) s → fold_crlf s ≡ s
unfolding fold_crlf
fold_crlf-plain [] h = refl
fold_crlf-plain (c ∷ []) h = refl
fold_crlf-plain (c ∷ d ∷ s) h = ground (arith, fold_crlf-plain (d ∷ s) h.1)

fold_crlf-append :
    (s rest : Text) → All (λ d. d ≢ cr) s → fold_crlf (s ++ rest) ≡ s ++ fold_crlf rest
unfolding fold_crlf
fold_crlf-append [] rest h = refl
fold_crlf-append (c ∷ []) [] h = refl
fold_crlf-append (c ∷ []) (d ∷ rest) h = ground arith
fold_crlf-append (c ∷ d ∷ s) rest h = ground (arith, fold_crlf-append (d ∷ s) rest h.1)

feed_round-fold :
    (before after : Text)
    → All (λ d. d ≢ cr) before
    → (feed_round before after).0 ++ fold_crlf (feed_round before after).1
      ≡ fold_crlf (before ++ (cr ∷ after))
unfolding feed_round
feed_round-fold before [] h =
    rw (fold_crlf-append before (cr ∷ []) h) (unfold fold_crlf in append-nil (before ++ (cr ∷ [])))
feed_round-fold before (c ∷ after) h =
    rw (fold_crlf-append before (cr ∷ c ∷ after) h) (elim (Bool-cases (c == lf)) [
      | inl e ↦ rw e (rw append_assoc (unfold fold_crlf in ground arith))
      | inr e ↦ rw e (rw append_assoc (unfold fold_crlf in ground arith))
    ])

feed_round-length : (before after : Text) → length (feed_round before after).1 ≤ length after
unfolding feed_round
feed_round-length before [] = omega arith
feed_round-length before (c ∷ after) = ground arith

pub feed-eq :
    (fuel : ℕ) (h rest : Text) → length rest < fuel → feed fuel h rest ≡ h ++ fold_crlf rest
unfolding feed
feed-eq zero h rest lt = elim lt [ ]
feed-eq (suc fuel) h rest lt = elim (Option-cases (split_once cr rest)) [
  | inl n ↦ rw (n, feed) (rw (fold_crlf-plain rest (split_once-none cr rest n)))
  | inr ((before, after), p) ↦
      let (whole, plain) = split_once-some cr rest before after p in
      let fed = (feed_round before after).0 in
      let left = (feed_round before after).1 in
      let shorter : length left < fuel = omega (
        arith,
        feed_round-length before after,
        ap (λ (t : Text). length t) whole,
        length-append {0} before (cr ∷ after),
      ) in
      rw (p, feed)
        (feed-eq fuel (h ++ fed) left shorter
          ∙ append_assoc h fed (fold_crlf left)
          ∙ ap (λ (t : Text). h ++ t)
              (feed_round-fold before after plain ∙ ap fold_crlf (sym whole)))
]

-- The checksum is that of the bytes with `\r\n` folded to `\n`: the loop ends, and the chunks that
-- it feeds add up to that text.
pub content_checksum-eq :
    (sha256 : Text → Digest) (bytes : Text)
    → content_checksum sha256 bytes ≡ sha256 (fold_crlf bytes)
unfolding content_checksum
content_checksum-eq sha256 bytes = ap sha256 (feed-eq (suc (length bytes)) [] bytes (omega arith))

fold_crlf-replace : (s : Text) → All (λ d. d ≢ cr) s → fold_crlf (replace lf (cr ∷ lf ∷ []) s) ≡ s
unfolding replace fold_crlf
fold_crlf-replace [] h = refl
fold_crlf-replace (c ∷ s) h = elim (Bool-cases (c == lf)) [
  | inl e ↦ ground (arith, fold_crlf-replace s h.1)
  | inr e ↦ rw e (
      fold_crlf-append (c ∷ []) (replace lf (cr ∷ lf ∷ []) s) (h.0, tt)
      ∙ ap (λ (t : Text). c ∷ t) (fold_crlf-replace s h.1))
]

-- If a file holds no CR, the same file with CRLF in place of each LF has the same checksum.
pub content_checksum_line_endings :
    (sha256 : Text → Digest) (bytes : Text)
    → All (λ c. c ≢ cr) bytes
    → content_checksum sha256 (replace lf (cr ∷ lf ∷ []) bytes) ≡ content_checksum sha256 bytes
content_checksum_line_endings sha256 bytes h =
    content_checksum-eq sha256 _
    ∙ ap sha256 (fold_crlf-replace bytes h ∙ sym (fold_crlf-plain bytes h))
    ∙ sym (content_checksum-eq sha256 bytes)
