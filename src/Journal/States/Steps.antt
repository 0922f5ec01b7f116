-- ===== src/Journal/States/Steps.antt =====
-- The states of a route step and the table of their transitions (_STEP_TRANSITIONS of
-- src/evm_inventory/journal.py).
-- The source keeps a state as its name; a text that names no state
-- is refused by the operation that is given it.
use evm_garbage_collector.Prelude.{
  ℕ, zero, suc, String, ◌≡◌, refl, sym, ap, ◌∙◌, Bool, true, false, Option, none, some, text_eq,
  ◌==◌, ==_iff, if◌then◌else◌,
}

-- the states of a route step
pub data StepState : Type 0 where
  planned : StepState
  submitted : StepState
  deposit_seen : StepState
  confirmed : StepState
  awaiting_bridge : StepState
  bridge_timeout : StepState
  requote_required : StepState
  credited : StepState
  completed : StepState
  reverted : StepState
  failed : StepState
  manual_review : StepState

-- the table: from the first state to the second
unfoldable pub step_may : StepState → StepState → Bool
step_may StepState.planned StepState.submitted = true
step_may StepState.planned StepState.failed = true
step_may StepState.planned StepState.manual_review = true
step_may StepState.submitted StepState.deposit_seen = true
step_may StepState.submitted StepState.confirmed = true
step_may StepState.submitted StepState.bridge_timeout = true
step_may StepState.submitted StepState.reverted = true
step_may StepState.submitted StepState.failed = true
step_may StepState.submitted StepState.manual_review = true
step_may StepState.deposit_seen StepState.credited = true
step_may StepState.deposit_seen StepState.failed = true
step_may StepState.deposit_seen StepState.manual_review = true
step_may StepState.confirmed StepState.awaiting_bridge = true
step_may StepState.confirmed StepState.bridge_timeout = true
step_may StepState.confirmed StepState.credited = true
step_may StepState.confirmed StepState.completed = true
step_may StepState.confirmed StepState.manual_review = true
step_may StepState.awaiting_bridge StepState.bridge_timeout = true
step_may StepState.awaiting_bridge StepState.credited = true
step_may StepState.awaiting_bridge StepState.manual_review = true
step_may StepState.bridge_timeout StepState.requote_required = true
step_may StepState.bridge_timeout StepState.credited = true
step_may StepState.bridge_timeout StepState.manual_review = true
step_may StepState.requote_required StepState.submitted = true
step_may StepState.requote_required StepState.manual_review = true
step_may _ _ = false

unfoldable pub step_name : StepState → String
step_name StepState.planned = "planned"
step_name StepState.submitted = "submitted"
step_name StepState.deposit_seen = "deposit_seen"
step_name StepState.confirmed = "confirmed"
step_name StepState.awaiting_bridge = "awaiting_bridge"
step_name StepState.bridge_timeout = "bridge_timeout"
step_name StepState.requote_required = "requote_required"
step_name StepState.credited = "credited"
step_name StepState.completed = "completed"
step_name StepState.reverted = "reverted"
step_name StepState.failed = "failed"
step_name StepState.manual_review = "manual_review"

unfoldable pub step_of_name : String → Option StepState
step_of_name s =
    if text_eq s "planned"
    then some StepState.planned
    else if text_eq s "submitted"
    then some StepState.submitted
    else if text_eq s "deposit_seen"
    then some StepState.deposit_seen
    else if text_eq s "confirmed"
    then some StepState.confirmed
    else if text_eq s "awaiting_bridge"
    then some StepState.awaiting_bridge
    else if text_eq s "bridge_timeout"
    then some StepState.bridge_timeout
    else if text_eq s "requote_required"
    then some StepState.requote_required
    else if text_eq s "credited"
    then some StepState.credited
    else if text_eq s "completed"
    then some StepState.completed
    else if text_eq s "reverted"
    then some StepState.reverted
    else if text_eq s "failed"
    then some StepState.failed
    else if text_eq s "manual_review"
    then some StepState.manual_review
    else none

-- a number for each state, by which two are compared
abbrev step_tag : StepState → ℕ
step_tag StepState.planned = 0
step_tag StepState.submitted = 1
step_tag StepState.deposit_seen = 2
step_tag StepState.confirmed = 3
step_tag StepState.awaiting_bridge = 4
step_tag StepState.bridge_timeout = 5
step_tag StepState.requote_required = 6
step_tag StepState.credited = 7
step_tag StepState.completed = 8
step_tag StepState.reverted = 9
step_tag StepState.failed = 10
step_tag StepState.manual_review = 11

step_of_tag : ℕ → StepState
step_of_tag zero = StepState.planned
step_of_tag (suc zero) = StepState.submitted
step_of_tag (suc (suc zero)) = StepState.deposit_seen
step_of_tag (suc (suc (suc zero))) = StepState.confirmed
step_of_tag (suc (suc (suc (suc zero)))) = StepState.awaiting_bridge
step_of_tag (suc (suc (suc (suc (suc zero))))) = StepState.bridge_timeout
step_of_tag (suc (suc (suc (suc (suc (suc zero)))))) = StepState.requote_required
step_of_tag (suc (suc (suc (suc (suc (suc (suc zero))))))) = StepState.credited
step_of_tag (suc (suc (suc (suc (suc (suc (suc (suc zero)))))))) = StepState.completed
step_of_tag (suc (suc (suc (suc (suc (suc (suc (suc (suc zero))))))))) = StepState.reverted
step_of_tag (suc (suc (suc (suc (suc (suc (suc (suc (suc (suc zero)))))))))) = StepState.failed
step_of_tag _ = StepState.manual_review

step_of_tag-tag : (s : StepState) → step_of_tag (step_tag s) ≡ s
unfolding step_of_tag
step_of_tag-tag StepState.planned = refl
step_of_tag-tag StepState.submitted = refl
step_of_tag-tag StepState.deposit_seen = refl
step_of_tag-tag StepState.confirmed = refl
step_of_tag-tag StepState.awaiting_bridge = refl
step_of_tag-tag StepState.bridge_timeout = refl
step_of_tag-tag StepState.requote_required = refl
step_of_tag-tag StepState.credited = refl
step_of_tag-tag StepState.completed = refl
step_of_tag-tag StepState.reverted = refl
step_of_tag-tag StepState.failed = refl
step_of_tag-tag StepState.manual_review = refl

unfoldable pub step_eq : StepState → StepState → Bool
step_eq s t = step_tag s == step_tag t

pub step_eq→eq : (s t : StepState) → step_eq s t ≡ true → s ≡ t
unfolding step_eq
step_eq→eq s t h =
    sym (step_of_tag-tag s)
    ∙ ap step_of_tag ((==_iff (step_tag s) (step_tag t)).0 h)
    ∙ step_of_tag-tag t

pub step_of_name-name : (s : StepState) → step_of_name (step_name s) ≡ some s
unfolding step_of_name step_name
step_of_name-name StepState.planned = refl
step_of_name-name StepState.submitted = refl
step_of_name-name StepState.deposit_seen = refl
step_of_name-name StepState.confirmed = refl
step_of_name-name StepState.awaiting_bridge = refl
step_of_name-name StepState.bridge_timeout = refl
step_of_name-name StepState.requote_required = refl
step_of_name-name StepState.credited = refl
step_of_name-name StepState.completed = refl
step_of_name-name StepState.reverted = refl
step_of_name-name StepState.failed = refl
step_of_name-name StepState.manual_review = refl
