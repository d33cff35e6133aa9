-- ===== src/Gate/Delta/Closed.antt =====
-- The closure of a gate delta ends (crates/core/src/gate/delta.rs).
use mssql_migrator.Prelude.{
  ℕ, zero, suc, ◌+◌, ◌≤◌, ◌<◌, ◌≡◌, refl, sym, ap, ◌∙◌, inl, inr, Bool, true, false, not, ◌&&◌,
  Option, none, some, List, [], ◌∷◌, ◌++◌, arith, ◌==◌, if◌then◌else◌, Bool-cases, All, Text,
  mem_text, eq_text_refl,
}
use mssql_migrator.Domain.Workspace.{
  Workspace, object_count, row_id_at, parent_ref_for_row, database_name,
}
use mssql_migrator.Plan.Diff.Total.{IsAligned, key_known, entry_known}
use mssql_migrator.Gate.Delta.{
  Round, row_name, is_trigger_row, insert_key, insert_parent, close_row, close_rows, close_loop,
  expand_delta_closure,
}

-- A row whose key is not in the delta.
abbrev absent : Option Text → List Text → Bool
absent none delta = false
absent (some k) delta = not (mem_text k delta)

-- How many of the first rows are not in the delta.
missing : Workspace → ℕ → List Text → ℕ
missing ws zero delta = 0
missing ws (suc n) delta = (if absent (row_name ws n) delta then 1 else 0) + missing ws n delta

module _ (ws : Workspace) where
  missing-le : (n : ℕ) (delta : List Text) → missing ws n delta ≤ n
  unfolding missing
  missing-le zero delta = omega arith
  missing-le (suc n) delta = ground (arith, missing-le n delta)

  absent-cons :
      (o : Option Text) (k : Text) (delta : List Text)
      → absent o delta ≡ false
      → absent o (k ∷ delta) ≡ false
  unfolding mem_text
  absent-cons none k delta h = refl
  absent-cons (some j) k delta h = ground arith

  missing-cons :
      (n : ℕ) (k : Text) (delta : List Text) → missing ws n (k ∷ delta) ≤ missing ws n delta
  unfolding missing
  missing-cons zero k delta = omega arith
  missing-cons (suc n) k delta =
      ground (arith, missing-cons n k delta, absent-cons (row_name ws n) k delta)

  absent-own : (k : Text) (delta : List Text) → absent (some k) (k ∷ delta) ≡ false
  unfolding mem_text
  absent-own k delta = ground (arith, eq_text_refl k)

  missing-new :
      (n p : ℕ) (k : Text) (delta : List Text)
      → p < n
      → row_name ws p ≡ some k
      → mem_text k delta ≡ false
      → missing ws n (k ∷ delta) < missing ws n delta
  unfolding missing
  missing-new zero p k delta lt name new = elim lt [ ]
  missing-new (suc n) p k delta lt name new = elim (Bool-cases (p == n)) [
    | inl e ↦
        let same : p ≡ n = ground arith in
        let here : row_name ws n ≡ some k = ap (row_name ws) (sym same) ∙ name in
        let gone : absent (row_name ws n) (k ∷ delta) ≡ false = rw here (absent-own k delta) in
        let there : absent (row_name ws n) delta ≡ true = rw here (rw new refl) in
        ground (arith, missing-cons n k delta, gone, there)
    | inr e ↦
        let rest = missing-new n p k delta (ground arith) name new in
        ground (arith, rest, absent-cons (row_name ws n) k delta)
  ]

-- What a step of a round does: it takes no key out, counts the rows that it adds, and changes nothing
-- if it adds none.
record Grown (ws : Workspace) (r r' : Round) : Type 0 where
  keeps : (k : Text) → mem_text k r.0 ≡ true → mem_text k r'.0 ≡ true
  measure : missing ws (object_count ws) r'.0 + r'.1 ≤ missing ws (object_count ws) r.0 + r.1
  grows : r.1 ≤ r'.1
  still : r'.1 ≡ r.1 → r' ≡ r

module _ (ws : Workspace) where
  Grown-refl : (r : Round) → Grown ws r r
  Grown-refl r = record {
    keeps = λ k h. h;
    measure = omega arith;
    grows = omega arith;
    still = λ h. refl;
  }

  Grown-trans : (r s t : Round) → Grown ws r s → Grown ws s t → Grown ws r t
  Grown-trans r s t g h = record {
    keeps = λ k m. h.keeps k (g.keeps k m);
    measure = omega (arith, g.measure, h.measure);
    grows = omega (arith, g.grows, h.grows);
    still = λ e.
        h.still (omega (arith, e, g.grows, h.grows)) ∙ g.still (omega (arith, e, g.grows, h.grows));
  }

  insert_key-Grown :
      (p : ℕ) (k : Text) (r : Round)
      → p < object_count ws
      → row_name ws p ≡ some k
      → Grown ws r (insert_key k r)
  unfolding insert_key mem_text
  insert_key-Grown p k (delta, added) lt name = elim (Bool-cases (mem_text k delta)) [
    | inl e ↦ rw (e, insert_key) (Grown-refl (delta, added))
    | inr e ↦
        rw (e, insert_key)
          (record {
            keeps = λ j m. ground arith;
            measure = omega (arith, missing-new ws (object_count ws) p k delta lt name e);
            grows = omega arith;
            still = λ h. absurd (omega (arith, h));
          })
  ]

module _ (ws : Workspace) (aligned : IsAligned ws) where
  row_known : (i : ℕ) → i < object_count ws → (name : Text) × (row_name ws i ≡ some name)
  unfolding row_name
  row_known i lt =
      let (e, p) = entry_known ws aligned i lt in
      let (k, q) = key_known ws aligned i lt in
      (database_name ws e.db_id ++ (b'/' ∷ k), rw p (rw q refl))

  insert_parent-Grown :
      (o : Option ℕ) (r : Round)
      → ((p : ℕ) → o ≡ some p → p ≤ object_count ws)
      → (r' : Round) × (insert_parent ws o r ≡ some r') × Grown ws r r'
  unfolding insert_parent
  insert_parent-Grown none r le = (r, refl, Grown-refl ws r)
  insert_parent-Grown (some zero) r le = (r, refl, Grown-refl ws r)
  insert_parent-Grown (some (suc p)) r le =
      let bound = le (suc p) refl in
      let (name, known) = row_known p (omega arith) in
      (insert_key name r, rw known refl, insert_key-Grown ws p name r (omega arith) known)

  close_row-Grown :
      (i : ℕ) (r : Round)
      → i < object_count ws
      → (r' : Round) × (close_row ws i r ≡ some r') × Grown ws r r'
  unfolding close_row
  close_row-Grown i r lt =
      let (name, known) = row_known i lt in
      elim (Bool-cases (mem_text name r.0 && is_trigger_row ws i)) [
        | inl t ↦
            let (r', p, g) =
              insert_parent-Grown (parent_ref_for_row ws (row_id_at i)) r
                (aligned.parents (row_id_at i)) in
            (r', rw known (rw t p), g)
        | inr f ↦ (r, rw known (rw f refl), Grown-refl ws r)
      ]

  -- A round succeeds; if it adds no key, then no row of it changes anything.
  close_rows-Grown :
      (k i : ℕ) (r : Round)
      → k + i ≤ object_count ws
      → (r' : Round) × (close_rows ws k i r ≡ some r')
        × Grown ws r r'
        × (r'.1 ≡ r.1 → (j : ℕ) → i ≤ j → j < k + i → close_row ws j r ≡ some r)
  unfolding close_rows
  close_rows-Grown zero i r le =
      (r, refl, Grown-refl ws r, λ same j low high. absurd (omega (arith, low, high)))
  close_rows-Grown (suc k) i r le =
      let (mid, p, g) = close_row-Grown i r (omega arith) in
      let (r', q, h, rest) = close_rows-Grown k (suc i) mid (omega arith) in
      (
        r',
        rw p q,
        Grown-trans ws r mid r' g h,
        λ same j low high.
            let quiet : mid ≡ r = g.still (omega (arith, same, g.grows, h.grows)) in
            elim (Bool-cases (i == j)) [
              | inl e ↦
                  let here : i ≡ j = ground arith in
                  ap (λ m. close_row ws m r) (sym here) ∙ p ∙ ap some quiet
              | inr e ↦
                  ap (close_row ws j) (sym quiet)
                  ∙ rest (omega (arith, same, g.grows, h.grows)) j (ground arith)
                      (omega (arith, high))
                  ∙ ap some quiet
            ],
      )

-- The parent's row of each trigger row in the delta is in the delta too.
pub record IsClosed (ws : Workspace) (delta : List Text) : Type 0 where
  pub parents :
      (i p : ℕ) (name parent : Text)
      → i < object_count ws
      → row_name ws i ≡ some name
      → mem_text name delta ≡ true
      → is_trigger_row ws i ≡ true
      → parent_ref_for_row ws (row_id_at i) ≡ some (suc p)
      → row_name ws p ≡ some parent
      → mem_text parent delta ≡ true

insert_key-still :
    (k : Text) (delta : List Text) (a : ℕ)
    → insert_key k (delta, a) ≡ (delta, a)
    → mem_text k delta ≡ true
unfolding insert_key
insert_key-still k delta a h = elim (Bool-cases (mem_text k delta)) [
  | inl e ↦ e
  | inr e ↦
      let grown : insert_key k (delta, a) ≡ (k ∷ delta, a + 1) = rw (e, insert_key) refl in
      absurd (omega (arith, ap (λ r. r.1) (sym grown ∙ h)))
]

still-IsClosed :
    (ws : Workspace) (delta : List Text) (a : ℕ)
    → ((j : ℕ) → j < object_count ws → close_row ws j (delta, a) ≡ some (delta, a))
    → IsClosed ws delta
unfolding close_row insert_parent
still-IsClosed ws delta a still = record {
  parents = λ i p name parent lt named inside trigger ref parent_named.
      let gate : (mem_text name delta && is_trigger_row ws i) ≡ true = rw (inside, trigger) refl in
      let step : close_row ws i (delta, a) ≡ some (insert_key parent (delta, a)) =
        rw named (rw gate (rw ref (rw parent_named refl))) in
      let same : some (insert_key parent (delta, a)) ≡ some (delta, a) = sym step ∙ still i lt in
      insert_key-still parent delta a (ground arith);
}

close_loop-round :
    (ws : Workspace) (fuel : ℕ) (delta : List Text) (r : Round)
    → close_rows ws (object_count ws) 0 (delta, 0) ≡ some r
    → close_loop ws (suc fuel) delta ≡ (if r.1 == 0 then some r.0 else close_loop ws fuel r.0)
unfolding close_loop
close_loop-round ws fuel delta r h = rw (h, close_loop) refl

module _ (ws : Workspace) (aligned : IsAligned ws) where
  close_loop-IsClosed :
      (fuel : ℕ) (delta : List Text)
      → missing ws (object_count ws) delta < fuel
      → (out : List Text) × (close_loop ws fuel delta ≡ some out)
        × IsClosed ws out
        × ((k : Text) → mem_text k delta ≡ true → mem_text k out ≡ true)
  unfolding close_loop
  close_loop-IsClosed zero delta enough = elim enough [ ]
  close_loop-IsClosed (suc fuel) delta enough =
      let ((delta', added), p, g, quiet) =
        close_rows-Grown ws aligned (object_count ws) 0 (delta, 0) (omega arith) in
      elim (Bool-cases (added == 0)) [
        | inl e ↦
            let none_added : added ≡ 0 = ground arith in
            let same = g.still none_added in
            (
              delta',
              close_loop-round ws fuel delta (delta', added) p ∙ rw e refl,
              still-IsClosed ws delta' added (λ j lt.
                  ap (close_row ws j) same
                  ∙ quiet none_added j (omega arith) (omega (arith, lt))
                  ∙ ap some (sym same)),
              g.keeps,
            )
        | inr e ↦
            let some_added : 0 < added = ground arith in
            let (out, q, closed, keeps) =
              close_loop-IsClosed fuel delta' (omega (arith, g.measure, enough, some_added)) in
            (
              out,
              close_loop-round ws fuel delta (delta', added) p ∙ rw e q,
              closed,
              λ k m. keeps k (g.keeps k m),
            )
      ]

members_kept :
    (out keys : List Text)
    → ((k : Text) → mem_text k keys ≡ true → mem_text k out ≡ true)
    → All (λ k. mem_text k out ≡ true) keys
unfolding mem_text
members_kept out [] kept = tt
members_kept out (k ∷ keys) kept =
    (kept k (ground (arith, eq_text_refl k)), members_kept out keys (λ j m. kept j (ground arith)))

-- On an aligned workspace the rounds over the delta end, and leave a delta that has every key it had
-- and, with each trigger row, the row of its parent.
pub expand_delta-IsClosed :
    (ws : Workspace) (delta : List Text)
    → IsAligned ws
    → (out : List Text) × (expand_delta_closure ws delta ≡ some out)
      × IsClosed ws out
      × All (λ k. mem_text k out ≡ true) delta
unfolding expand_delta_closure mem_text
expand_delta-IsClosed ws [] aligned =
    ([], refl, record { parents = λ i p name parent lt n m t r q. absurd (ground arith) }, tt)
expand_delta-IsClosed ws (k ∷ delta) aligned =
    let (out, p, closed, keeps) =
      close_loop-IsClosed ws aligned (object_count ws + 1) (k ∷ delta)
        (omega (arith, missing-le ws (object_count ws) (k ∷ delta))) in
    (out, p, closed, members_kept out (k ∷ delta) keeps)
