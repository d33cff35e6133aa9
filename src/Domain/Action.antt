-- ===== src/Domain/Action.antt =====
-- crates/core/src/domain/action.rs: what the plan does with an object or a schema.
use mssql_migrator.Prelude.{ℕ, ◌≡◌, ◌↔◌, Bool, true, Option, none, some, arith, ◌==◌, if◌then◌else◌}

pub data Action : Type 0 where
  create_object adopt_existing skip_unchanged update_existing_module : Action
  reprocess_changed reprocess_changed_blocked fail : Action

pub data SchemaAction : Type 0 where
  create_schema exists_schema : SchemaAction

unfoldable pub as_repr : Action → ℕ
as_repr create_object = 0
as_repr adopt_existing = 1
as_repr skip_unchanged = 2
as_repr update_existing_module = 3
as_repr reprocess_changed = 4
as_repr reprocess_changed_blocked = 5
as_repr fail = 6

unfoldable pub from_repr : ℕ → Option Action
from_repr v =
    if v == 0
    then some create_object
    else if v == 1
    then some adopt_existing
    else if v == 2
    then some skip_unchanged
    else if v == 3
    then some update_existing_module
    else if v == 4
    then some reprocess_changed
    else if v == 5
    then some reprocess_changed_blocked
    else if v == 6
    then some fail
    else none

-- Equality of actions (`derive(PartialEq)`).
unfoldable pub eq_action : Action → Action → Bool
unfolding as_repr
eq_action a b = as_repr a == as_repr b

pub eq_action_iff : (a b : Action) → (eq_action a b ≡ true) ↔ (a ≡ b)
unfolding eq_action
eq_action_iff a b = (ground arith, ground arith)

-- Decoding an encoded action gives it back, and a byte decodes to an action exactly if it is that
-- action's encoding.
pub from_repr-as_repr :
    (a : Action) (v : ℕ)
    → (from_repr (as_repr a) ≡ some a) × ((from_repr v ≡ some a) ↔ (as_repr a ≡ v))
unfolding from_repr as_repr
from_repr-as_repr a v = (ground arith, (λ h. ground arith, λ h. ground arith))
