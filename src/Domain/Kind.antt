-- ===== src/Domain/Kind.antt =====
-- Kinds of database objects: crates/core/src/domain/kind_code.rs, the classification of
-- crates/core/src/domain/action.rs and the list of crates/core/src/scan/parse_object.rs.
use mssql_migrator.Prelude.{
  mem_text-all, ℕ, ◌≡◌, refl, ◌≢◌, Bool, true, not, ◌||◌, List, [], ◌∷◌, arith, ◌==◌, if◌then◌else◌,
  Text, codes, eq_text, mem_text,
}

abbrev pub kind_types : ℕ
kind_types = 1

abbrev pub kind_sequences : ℕ
kind_sequences = 2

abbrev pub kind_tables : ℕ
kind_tables = 3

abbrev pub kind_synonyms : ℕ
kind_synonyms = 4

abbrev pub kind_indexes : ℕ
kind_indexes = 5

abbrev pub kind_views : ℕ
kind_views = 6

abbrev pub kind_functions : ℕ
kind_functions = 7

abbrev pub kind_procedures : ℕ
kind_procedures = 8

abbrev pub kind_triggers : ℕ
kind_triggers = 9

unfoldable pub kind_code : Text → ℕ
kind_code kind =
    if eq_text kind (codes "types")
    then kind_types
    else if eq_text kind (codes "sequences")
    then kind_sequences
    else if eq_text kind (codes "tables")
    then kind_tables
    else if eq_text kind (codes "synonyms")
    then kind_synonyms
    else if eq_text kind (codes "indexes")
    then kind_indexes
    else if eq_text kind (codes "views")
    then kind_views
    else if eq_text kind (codes "functions")
    then kind_functions
    else if eq_text kind (codes "procedures")
    then kind_procedures
    else if eq_text kind (codes "triggers")
    then kind_triggers
    else 0

unfoldable pub is_module_kind_code : ℕ → Bool
is_module_kind_code code =
    code == kind_views || code == kind_functions || code == kind_procedures || code == kind_triggers

unfoldable pub is_transactional_kind : Text → Bool
is_transactional_kind kind =
    eq_text kind (codes "tables")
    || eq_text kind (codes "indexes")
    || eq_text kind (codes "types")
    || eq_text kind (codes "sequences")
    || eq_text kind (codes "synonyms")

-- `KINDS` of the scanner: the object-type folders.
abbrev pub kinds : List Text
kinds =
    codes "tables"
    ∷ codes "views"
    ∷ codes "procedures"
    ∷ codes "functions"
    ∷ codes "triggers"
    ∷ codes "indexes"
    ∷ codes "types"
    ∷ codes "sequences"
    ∷ codes "synonyms"
    ∷ []

-- Every folder that the scanner admits has a kind code, and the planner's modules are exactly the
-- admitted kinds that the executor does not batch as transactional.
pub kinds_partition :
    (kind : Text)
    → mem_text kind kinds ≡ true
    → (kind_code kind ≢ 0)
      × (is_module_kind_code (kind_code kind) ≡ not (is_transactional_kind kind))
unfolding kind_code is_module_kind_code is_transactional_kind eq_text
kinds_partition = mem_text-all _ kinds (
  ((λ e. omega arith), refl),
  (
    ((λ e. omega arith), refl),
    (
      ((λ e. omega arith), refl),
      (
        ((λ e. omega arith), refl),
        (
          ((λ e. omega arith), refl),
          (
            ((λ e. omega arith), refl),
            (
              ((λ e. omega arith), refl),
              (((λ e. omega arith), refl), (((λ e. omega arith), refl), tt)),
            ),
          ),
        ),
      ),
    ),
  ),
)
