-- ===== src/Apply/Execute/Classified.antt =====
-- What the classification of a plan's objects (crates/core/src/apply/objects.rs) counts and batches.
use mssql_migrator.Domain.Kind.{is_transactional_kind}
use mssql_migrator.Domain.Action.{adopt_existing, eq_action}
use mssql_migrator.Export.PlanJson.{PlannedObject}
use mssql_migrator.Apply.Conn.{HistoryRecord, Run, push_error, count_skipped}
use mssql_migrator.Apply.Objects.{
  should_apply, should_count_skip, is_unappliable, Classified, stopped, batches, classify,
}
use mssql_migrator.Prelude.{
  ℕ, ◌+◌, ◌<◌, ◌≡◌, refl, inl, inr, true, false, List, [], ◌∷◌, ◌++◌, arith, if◌then◌else◌,
  Bool-cases, length, length-append,
}

-- The objects to create or to update in place.
pub objects_to_apply : List PlannedObject → ℕ
objects_to_apply [] = 0
objects_to_apply (obj ∷ r) = (if should_apply obj.planned_action then 1 else 0) + objects_to_apply r

-- Classifying applies nothing; unless it stops with a failure, it batches each such object.
abbrev pub ClassifyCounts :
    List PlannedObject → Run → List PlannedObject → List PlannedObject → Classified → Type 0
ClassifyCounts objects st tx modules (stopped st') = st.result.failed < st'.result.failed
ClassifyCounts objects st tx modules (batches st' tx' modules' adopted') =
    (st'.result.failed ≡ st.result.failed)
    × (st'.result.applied ≡ st.result.applied)
    × (length tx' + length modules' ≡ length tx + length modules + objects_to_apply objects)

classify-skip :
    (obj : PlannedObject) (objects : List PlannedObject) (st st' : Run)
    (tx modules : List PlannedObject) (c : Classified)
    → should_apply obj.planned_action ≡ false
    → st'.result.failed ≡ st.result.failed
    → st'.result.applied ≡ st.result.applied
    → ClassifyCounts objects st' tx modules c
    → ClassifyCounts (obj ∷ objects) st tx modules c
unfolding objects_to_apply
classify-skip obj objects st st' tx modules (stopped end) s f a h = omega arith
classify-skip obj objects st st' tx modules (batches end tx' m' ad) s f a h = ground arith

classify-batch :
    (obj : PlannedObject) (objects : List PlannedObject) (st : Run)
    (tx modules tx1 modules1 : List PlannedObject) (c : Classified)
    → should_apply obj.planned_action ≡ true
    → length tx1 + length modules1 ≡ length tx + length modules + 1
    → ClassifyCounts objects st tx1 modules1 c
    → ClassifyCounts (obj ∷ objects) st tx modules c
unfolding objects_to_apply
classify-batch obj objects st tx modules tx1 modules1 (stopped end) s l h = h
classify-batch obj objects st tx modules tx1 modules1 (batches end tx' m' ad) s l h = ground arith

adopt-not-applied :
    (obj : PlannedObject)
    → eq_action obj.planned_action adopt_existing ≡ true
    → should_apply obj.planned_action ≡ false
unfolding eq_action should_apply
adopt-not-applied obj h = ground arith

pub classify-counts :
    (objects : List PlannedObject) (st : Run) (tx modules : List PlannedObject)
    (adopted : List HistoryRecord)
    → ClassifyCounts objects st tx modules (classify objects st tx modules adopted)
unfolding classify objects_to_apply count_skipped push_error
classify-counts [] st tx modules adopted = (refl, refl, omega arith)
classify-counts (obj ∷ r) st tx modules adopted =
    elim (Bool-cases (eq_action obj.planned_action adopt_existing)) [
      | inl a ↦ rw a (
          classify-skip obj r st (count_skipped st) tx modules _ (adopt-not-applied obj a) refl refl
            (classify-counts r (count_skipped st) tx modules _))
      | inr a ↦ rw a (elim (Bool-cases (is_unappliable obj)) [
        | inl u ↦ rw u (omega arith)
        | inr u ↦ rw u (elim (Bool-cases (should_apply obj.planned_action)) [
          | inl s ↦ rw s (elim (Bool-cases (is_transactional_kind obj.kind)) [
            | inl t ↦ rw t (
                classify-batch obj r st tx modules (tx ++ (obj ∷ [])) modules _ s
                  (omega (arith, length-append {0} tx (obj ∷ [])))
                  (classify-counts r st (tx ++ (obj ∷ [])) modules adopted))
            | inr t ↦ rw t (
                classify-batch obj r st tx modules tx (modules ++ (obj ∷ [])) _ s
                  (omega (arith, length-append {0} modules (obj ∷ [])))
                  (classify-counts r st tx (modules ++ (obj ∷ [])) adopted))
          ])
          | inr s ↦ rw s (elim (Bool-cases (should_count_skip obj.planned_action)) [
            | inl k ↦ rw k (
                classify-skip obj r st (count_skipped st) tx modules _ s refl refl
                  (classify-counts r (count_skipped st) tx modules adopted))
            | inr k ↦ rw k (
                classify-skip obj r st st tx modules _ s refl refl
                  (classify-counts r st tx modules adopted))
          ])
        ])
      ])
    ]
