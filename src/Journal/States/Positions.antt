-- ===== src/Journal/States/Positions.antt =====
-- The states of a route position and the table of their transitions (_POSITION_TRANSITIONS of
-- src/evm_inventory/journal.py).
-- The source keeps a state as its name; a text that names no state
-- is refused by the operation that is given it.
use evm_garbage_collector.Prelude.{
  ℕ, zero, suc, String, ◌≡◌, refl, sym, ap, ◌∙◌, Bool, true, false, Option, none, some, text_eq,
  ◌==◌, ==_iff, if◌then◌else◌,
}

-- the states of a route position
pub data PositionState : Type 0 where
  planned : PositionState
  swap_submitted : PositionState
  source_asset_converted_bridge_pending : PositionState
  requote_required : PositionState
  bridge_submitted : PositionState
  bridge_timeout : PositionState
  direct_deposit_submitted : PositionState
  deposit_pending : PositionState
  gas_deferred : PositionState
  completed : PositionState
  manual_review_after_swap : PositionState
  manual_review_group_threshold_exceeded : PositionState
  manual_review_group_halted : PositionState
  manual_review : PositionState

-- the table: from the first state to the second
unfoldable pub position_may : PositionState → PositionState → Bool
position_may PositionState.planned PositionState.swap_submitted = true
position_may PositionState.planned PositionState.source_asset_converted_bridge_pending = true
position_may PositionState.planned PositionState.bridge_submitted = true
position_may PositionState.planned PositionState.direct_deposit_submitted = true
position_may PositionState.planned PositionState.gas_deferred = true
position_may PositionState.planned PositionState.completed = true
position_may PositionState.planned PositionState.manual_review_after_swap = true
position_may PositionState.planned PositionState.manual_review_group_threshold_exceeded = true
position_may PositionState.planned PositionState.manual_review_group_halted = true
position_may PositionState.planned PositionState.manual_review = true
position_may PositionState.swap_submitted PositionState.source_asset_converted_bridge_pending = true
position_may PositionState.swap_submitted PositionState.manual_review_after_swap = true
position_may PositionState.swap_submitted PositionState.manual_review_group_threshold_exceeded =
    true
position_may PositionState.swap_submitted PositionState.manual_review_group_halted = true
position_may PositionState.swap_submitted PositionState.manual_review = true
position_may PositionState.source_asset_converted_bridge_pending PositionState.requote_required =
    true
position_may PositionState.source_asset_converted_bridge_pending PositionState.bridge_submitted =
    true
position_may PositionState.source_asset_converted_bridge_pending PositionState.deposit_pending =
    true
position_may PositionState.source_asset_converted_bridge_pending PositionState.completed = true
position_may PositionState.source_asset_converted_bridge_pending
      PositionState.manual_review_after_swap =
    true
position_may PositionState.source_asset_converted_bridge_pending
      PositionState.manual_review_group_threshold_exceeded =
    true
position_may PositionState.source_asset_converted_bridge_pending
      PositionState.manual_review_group_halted =
    true
position_may PositionState.source_asset_converted_bridge_pending PositionState.manual_review = true
position_may PositionState.requote_required PositionState.bridge_submitted = true
position_may PositionState.requote_required PositionState.manual_review_after_swap = true
position_may PositionState.requote_required PositionState.manual_review_group_threshold_exceeded =
    true
position_may PositionState.bridge_submitted PositionState.source_asset_converted_bridge_pending =
    true
position_may PositionState.bridge_submitted PositionState.bridge_timeout = true
position_may PositionState.bridge_submitted PositionState.deposit_pending = true
position_may PositionState.bridge_submitted PositionState.completed = true
position_may PositionState.bridge_submitted PositionState.manual_review_after_swap = true
position_may PositionState.bridge_submitted PositionState.manual_review_group_threshold_exceeded =
    true
position_may PositionState.bridge_submitted PositionState.manual_review_group_halted = true
position_may PositionState.bridge_submitted PositionState.manual_review = true
position_may PositionState.bridge_timeout PositionState.requote_required = true
position_may PositionState.bridge_timeout PositionState.completed = true
position_may PositionState.bridge_timeout PositionState.manual_review_after_swap = true
position_may PositionState.bridge_timeout PositionState.manual_review_group_halted = true
position_may PositionState.direct_deposit_submitted PositionState.deposit_pending = true
position_may PositionState.direct_deposit_submitted PositionState.gas_deferred = true
position_may PositionState.direct_deposit_submitted PositionState.completed = true
position_may PositionState.direct_deposit_submitted
      PositionState.manual_review_group_threshold_exceeded =
    true
position_may PositionState.direct_deposit_submitted PositionState.manual_review_group_halted = true
position_may PositionState.direct_deposit_submitted PositionState.manual_review = true
position_may PositionState.deposit_pending PositionState.completed = true
position_may PositionState.deposit_pending PositionState.manual_review = true
position_may PositionState.gas_deferred PositionState.swap_submitted = true
position_may PositionState.gas_deferred PositionState.bridge_submitted = true
position_may PositionState.gas_deferred PositionState.direct_deposit_submitted = true
position_may PositionState.gas_deferred PositionState.gas_deferred = true
position_may PositionState.gas_deferred PositionState.manual_review = true
position_may _ _ = false

unfoldable pub position_name : PositionState → String
position_name PositionState.planned = "planned"
position_name PositionState.swap_submitted = "swap_submitted"
position_name PositionState.source_asset_converted_bridge_pending =
    "source_asset_converted_bridge_pending"
position_name PositionState.requote_required = "requote_required"
position_name PositionState.bridge_submitted = "bridge_submitted"
position_name PositionState.bridge_timeout = "bridge_timeout"
position_name PositionState.direct_deposit_submitted = "direct_deposit_submitted"
position_name PositionState.deposit_pending = "deposit_pending"
position_name PositionState.gas_deferred = "gas_deferred"
position_name PositionState.completed = "completed"
position_name PositionState.manual_review_after_swap = "manual_review_after_swap"
position_name PositionState.manual_review_group_threshold_exceeded =
    "manual_review_group_threshold_exceeded"
position_name PositionState.manual_review_group_halted = "manual_review_group_halted"
position_name PositionState.manual_review = "manual_review"

unfoldable pub position_of_name : String → Option PositionState
position_of_name s =
    if text_eq s "planned"
    then some PositionState.planned
    else if text_eq s "swap_submitted"
    then some PositionState.swap_submitted
    else if text_eq s "source_asset_converted_bridge_pending"
    then some PositionState.source_asset_converted_bridge_pending
    else if text_eq s "requote_required"
    then some PositionState.requote_required
    else if text_eq s "bridge_submitted"
    then some PositionState.bridge_submitted
    else if text_eq s "bridge_timeout"
    then some PositionState.bridge_timeout
    else if text_eq s "direct_deposit_submitted"
    then some PositionState.direct_deposit_submitted
    else if text_eq s "deposit_pending"
    then some PositionState.deposit_pending
    else if text_eq s "gas_deferred"
    then some PositionState.gas_deferred
    else if text_eq s "completed"
    then some PositionState.completed
    else if text_eq s "manual_review_after_swap"
    then some PositionState.manual_review_after_swap
    else if text_eq s "manual_review_group_threshold_exceeded"
    then some PositionState.manual_review_group_threshold_exceeded
    else if text_eq s "manual_review_group_halted"
    then some PositionState.manual_review_group_halted
    else if text_eq s "manual_review"
    then some PositionState.manual_review
    else none

-- a number for each state, by which two are compared
abbrev position_tag : PositionState → ℕ
position_tag PositionState.planned = 0
position_tag PositionState.swap_submitted = 1
position_tag PositionState.source_asset_converted_bridge_pending = 2
position_tag PositionState.requote_required = 3
position_tag PositionState.bridge_submitted = 4
position_tag PositionState.bridge_timeout = 5
position_tag PositionState.direct_deposit_submitted = 6
position_tag PositionState.deposit_pending = 7
position_tag PositionState.gas_deferred = 8
position_tag PositionState.completed = 9
position_tag PositionState.manual_review_after_swap = 10
position_tag PositionState.manual_review_group_threshold_exceeded = 11
position_tag PositionState.manual_review_group_halted = 12
position_tag PositionState.manual_review = 13

position_of_tag : ℕ → PositionState
position_of_tag zero = PositionState.planned
position_of_tag (suc zero) = PositionState.swap_submitted
position_of_tag (suc (suc zero)) = PositionState.source_asset_converted_bridge_pending
position_of_tag (suc (suc (suc zero))) = PositionState.requote_required
position_of_tag (suc (suc (suc (suc zero)))) = PositionState.bridge_submitted
position_of_tag (suc (suc (suc (suc (suc zero))))) = PositionState.bridge_timeout
position_of_tag (suc (suc (suc (suc (suc (suc zero)))))) = PositionState.direct_deposit_submitted
position_of_tag (suc (suc (suc (suc (suc (suc (suc zero))))))) = PositionState.deposit_pending
position_of_tag (suc (suc (suc (suc (suc (suc (suc (suc zero)))))))) = PositionState.gas_deferred
position_of_tag (suc (suc (suc (suc (suc (suc (suc (suc (suc zero))))))))) = PositionState.completed
position_of_tag (suc (suc (suc (suc (suc (suc (suc (suc (suc (suc zero)))))))))) =
    PositionState.manual_review_after_swap
position_of_tag (suc (suc (suc (suc (suc (suc (suc (suc (suc (suc (suc zero))))))))))) =
    PositionState.manual_review_group_threshold_exceeded
position_of_tag (suc (suc (suc (suc (suc (suc (suc (suc (suc (suc (suc (suc zero)))))))))))) =
    PositionState.manual_review_group_halted
position_of_tag _ = PositionState.manual_review

position_of_tag-tag : (s : PositionState) → position_of_tag (position_tag s) ≡ s
unfolding position_of_tag
position_of_tag-tag PositionState.planned = refl
position_of_tag-tag PositionState.swap_submitted = refl
position_of_tag-tag PositionState.source_asset_converted_bridge_pending = refl
position_of_tag-tag PositionState.requote_required = refl
position_of_tag-tag PositionState.bridge_submitted = refl
position_of_tag-tag PositionState.bridge_timeout = refl
position_of_tag-tag PositionState.direct_deposit_submitted = refl
position_of_tag-tag PositionState.deposit_pending = refl
position_of_tag-tag PositionState.gas_deferred = refl
position_of_tag-tag PositionState.completed = refl
position_of_tag-tag PositionState.manual_review_after_swap = refl
position_of_tag-tag PositionState.manual_review_group_threshold_exceeded = refl
position_of_tag-tag PositionState.manual_review_group_halted = refl
position_of_tag-tag PositionState.manual_review = refl

unfoldable pub position_eq : PositionState → PositionState → Bool
position_eq s t = position_tag s == position_tag t

pub position_eq→eq : (s t : PositionState) → position_eq s t ≡ true → s ≡ t
unfolding position_eq
position_eq→eq s t h =
    sym (position_of_tag-tag s)
    ∙ ap position_of_tag ((==_iff (position_tag s) (position_tag t)).0 h)
    ∙ position_of_tag-tag t

pub position_of_name-name : (s : PositionState) → position_of_name (position_name s) ≡ some s
unfolding position_of_name position_name
position_of_name-name PositionState.planned = refl
position_of_name-name PositionState.swap_submitted = refl
position_of_name-name PositionState.source_asset_converted_bridge_pending = refl
position_of_name-name PositionState.requote_required = refl
position_of_name-name PositionState.bridge_submitted = refl
position_of_name-name PositionState.bridge_timeout = refl
position_of_name-name PositionState.direct_deposit_submitted = refl
position_of_name-name PositionState.deposit_pending = refl
position_of_name-name PositionState.gas_deferred = refl
position_of_name-name PositionState.completed = refl
position_of_name-name PositionState.manual_review_after_swap = refl
position_of_name-name PositionState.manual_review_group_threshold_exceeded = refl
position_of_name-name PositionState.manual_review_group_halted = refl
position_of_name-name PositionState.manual_review = refl
