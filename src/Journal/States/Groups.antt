-- ===== src/Journal/States/Groups.antt =====
-- The states of a route group and the table of their transitions (_GROUP_STATES and
-- _GROUP_TRANSITIONS of src/evm_inventory/journal.py). The source keeps a state as its name; a text
-- that names no state is refused by the operation that is given it.
use evm_garbage_collector.Prelude.{
  ℕ, zero, suc, String, ◌≡◌, refl, sym, ap, ◌∙◌, Bool, true, false, Option, none, some, text_eq,
  ◌==◌, ==_iff, if◌then◌else◌,
}

-- the states of a route group (_GROUP_STATES)
pub data GroupState : Type 0 where
  planned : GroupState
  active : GroupState
  deposit_pending : GroupState
  gas_deferred : GroupState
  completed : GroupState
  manual_review_after_swap : GroupState
  manual_review_group_threshold_exceeded : GroupState
  manual_review_group_halted : GroupState

-- the table: from the first state to the second
unfoldable pub group_may : GroupState → GroupState → Bool
group_may GroupState.planned GroupState.active = true
group_may GroupState.planned GroupState.gas_deferred = true
group_may GroupState.planned GroupState.completed = true
group_may GroupState.planned GroupState.manual_review_after_swap = true
group_may GroupState.planned GroupState.manual_review_group_threshold_exceeded = true
group_may GroupState.planned GroupState.manual_review_group_halted = true
group_may GroupState.active GroupState.deposit_pending = true
group_may GroupState.active GroupState.gas_deferred = true
group_may GroupState.active GroupState.completed = true
group_may GroupState.active GroupState.manual_review_after_swap = true
group_may GroupState.active GroupState.manual_review_group_threshold_exceeded = true
group_may GroupState.active GroupState.manual_review_group_halted = true
group_may GroupState.deposit_pending GroupState.active = true
group_may GroupState.deposit_pending GroupState.deposit_pending = true
group_may GroupState.deposit_pending GroupState.completed = true
group_may GroupState.deposit_pending GroupState.manual_review_group_halted = true
group_may GroupState.gas_deferred GroupState.active = true
group_may GroupState.gas_deferred GroupState.gas_deferred = true
group_may _ _ = false

unfoldable pub group_name : GroupState → String
group_name GroupState.planned = "planned"
group_name GroupState.active = "active"
group_name GroupState.deposit_pending = "deposit_pending"
group_name GroupState.gas_deferred = "gas_deferred"
group_name GroupState.completed = "completed"
group_name GroupState.manual_review_after_swap = "manual_review_after_swap"
group_name GroupState.manual_review_group_threshold_exceeded =
    "manual_review_group_threshold_exceeded"
group_name GroupState.manual_review_group_halted = "manual_review_group_halted"

unfoldable pub group_of_name : String → Option GroupState
group_of_name s =
    if text_eq s "planned"
    then some GroupState.planned
    else if text_eq s "active"
    then some GroupState.active
    else if text_eq s "deposit_pending"
    then some GroupState.deposit_pending
    else if text_eq s "gas_deferred"
    then some GroupState.gas_deferred
    else if text_eq s "completed"
    then some GroupState.completed
    else if text_eq s "manual_review_after_swap"
    then some GroupState.manual_review_after_swap
    else if text_eq s "manual_review_group_threshold_exceeded"
    then some GroupState.manual_review_group_threshold_exceeded
    else if text_eq s "manual_review_group_halted"
    then some GroupState.manual_review_group_halted
    else none

-- a number for each state, by which two are compared
abbrev group_tag : GroupState → ℕ
group_tag GroupState.planned = 0
group_tag GroupState.active = 1
group_tag GroupState.deposit_pending = 2
group_tag GroupState.gas_deferred = 3
group_tag GroupState.completed = 4
group_tag GroupState.manual_review_after_swap = 5
group_tag GroupState.manual_review_group_threshold_exceeded = 6
group_tag GroupState.manual_review_group_halted = 7

group_of_tag : ℕ → GroupState
group_of_tag zero = GroupState.planned
group_of_tag (suc zero) = GroupState.active
group_of_tag (suc (suc zero)) = GroupState.deposit_pending
group_of_tag (suc (suc (suc zero))) = GroupState.gas_deferred
group_of_tag (suc (suc (suc (suc zero)))) = GroupState.completed
group_of_tag (suc (suc (suc (suc (suc zero))))) = GroupState.manual_review_after_swap
group_of_tag (suc (suc (suc (suc (suc (suc zero)))))) =
    GroupState.manual_review_group_threshold_exceeded
group_of_tag _ = GroupState.manual_review_group_halted

group_of_tag-tag : (s : GroupState) → group_of_tag (group_tag s) ≡ s
unfolding group_of_tag
group_of_tag-tag GroupState.planned = refl
group_of_tag-tag GroupState.active = refl
group_of_tag-tag GroupState.deposit_pending = refl
group_of_tag-tag GroupState.gas_deferred = refl
group_of_tag-tag GroupState.completed = refl
group_of_tag-tag GroupState.manual_review_after_swap = refl
group_of_tag-tag GroupState.manual_review_group_threshold_exceeded = refl
group_of_tag-tag GroupState.manual_review_group_halted = refl

unfoldable pub group_eq : GroupState → GroupState → Bool
group_eq s t = group_tag s == group_tag t

pub group_eq→eq : (s t : GroupState) → group_eq s t ≡ true → s ≡ t
unfolding group_eq
group_eq→eq s t h =
    sym (group_of_tag-tag s)
    ∙ ap group_of_tag ((==_iff (group_tag s) (group_tag t)).0 h)
    ∙ group_of_tag-tag t

pub group_of_name-name : (s : GroupState) → group_of_name (group_name s) ≡ some s
unfolding group_of_name group_name
group_of_name-name GroupState.planned = refl
group_of_name-name GroupState.active = refl
group_of_name-name GroupState.deposit_pending = refl
group_of_name-name GroupState.gas_deferred = refl
group_of_name-name GroupState.completed = refl
group_of_name-name GroupState.manual_review_after_swap = refl
group_of_name-name GroupState.manual_review_group_threshold_exceeded = refl
group_of_name-name GroupState.manual_review_group_halted = refl
