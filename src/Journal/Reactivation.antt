-- ===== src/Journal/Reactivation.antt =====
-- The recoveries that step outside the tables of transitions (reactivate_known_direct_deposit,
-- reactivate_legacy_gas_deferral and reactivate_unsigned_retry_group of
-- src/evm_inventory/journal.py, and is_route_preparation_retry_reason of
-- src/evm_inventory/route_preparation.py).
pub mod Retry
use evm_garbage_collector.Prelude.{
  ℕ, String, Bool, true, false, ◌&&◌, ◌||◌, not, Option, none, some, List, [], ◌∷◌, all, any, holds,
  select, map, text_eq, text_eq?, starts_with, if◌then◌else◌,
}
use evm_garbage_collector.Journal.States.Groups.{GroupState, group_eq, group_name}
use evm_garbage_collector.Journal.States.Positions.{PositionState, position_eq}
use evm_garbage_collector.Journal.States.Steps.{StepState}
use evm_garbage_collector.Journal.Value.{Value, text, dict, field, end, get, is_text}
use evm_garbage_collector.Journal.Tables.{
  Group, Position, Step, Db, update_group, update_position, latest_step, has_broadcast,
  has_asset_intent,
}
use evm_garbage_collector.Journal.Session.{
  Session, pure, query, write, commit, transaction, ◌>>=◌, ◌>>◌,
}
use evm_garbage_collector.Journal.Groups.{group}
use evm_garbage_collector.Journal.Positions.{group_positions}
use evm_garbage_collector.Journal.Checkpoints.{
  saved_payload, put_checkpoint, completed_route_credit_verified,
}

-- rows[0], where it is the only member and has this key
unfoldable pub only_member : String → List Position → Option Position
only_member key (p ∷ []) = if text_eq p.position_key key then some p else none
only_member key _ = none

unfoldable pub set_position_state : ℕ → PositionState → Db → Db
set_position_state i state = update_position i (λ p. record p { state = state })

unfoldable pub set_group_state : ℕ → GroupState → Db → Db
set_group_state i state = update_group i (λ g. record g { state = state })

abbrev pub is_closed_step : StepState → Bool
is_closed_step StepState.failed = true
is_closed_step StepState.reverted = true
is_closed_step _ = false

-- the sent deposit that makes a direct deposit known
unfoldable pub is_known_deposit : Position → Db → Bool
is_known_deposit p db =
    (position_eq p.state PositionState.manual_review
      || position_eq p.state PositionState.deposit_pending)
    && holds
        (λ (s : Step). holds (λ h. not (text_eq h "")) s.tx_hash && not (is_closed_step s.state))
        (latest_step p.id "direct_deposit" db)

-- where `known` names a member, the member and its group move to the given states
unfoldable pub reactivate_as : PositionState → GroupState → ℕ → Option Position → Session Bool
reactivate_as to group_to group_id none = pure false
reactivate_as to group_to group_id (some p) = do
  write (set_position_state p.id to)
  write (set_group_state group_id group_to)
  commit
  pure true

keep_if : (Position → Bool) → Option Position → Option Position
keep_if test none = none
keep_if test (some p) = if test p then some p else none

unfoldable pub known_direct_deposit : ℕ → String → Db → Option Position
unfolding keep_if
known_direct_deposit group_id key db =
    keep_if (λ p. is_known_deposit p db) (only_member key (group_positions group_id db))

unfoldable pub reactivate_known_direct_deposit : ℕ → String → Session Bool
reactivate_known_direct_deposit group_id key = do
  found ← query (known_direct_deposit group_id key)
  reactivate_as PositionState.deposit_pending GroupState.deposit_pending group_id found

unfoldable pub is_legacy_deferral : Position → Db → Bool
is_legacy_deferral p db =
    position_eq p.state PositionState.manual_review
    && holds (λ r. starts_with r "ethereum_gas_deferred:") p.reason
    && not (has_broadcast p.id db)

unfoldable pub legacy_gas_deferral : ℕ → String → Db → Option Position
unfolding keep_if
legacy_gas_deferral group_id key db =
    keep_if (λ p. is_legacy_deferral p db) (only_member key (group_positions group_id db))

unfoldable pub reactivate_legacy_gas_deferral : ℕ → String → Session Bool
reactivate_legacy_gas_deferral group_id key = do
  found ← query (legacy_gas_deferral group_id key)
  reactivate_as PositionState.gas_deferred GroupState.gas_deferred group_id found

abbrev pub legacy_preparation_rejection : String
legacy_preparation_rejection =
    "Client error '422 Unprocessable Entity' for url 'https://li.quest/v1/advanced/stepTransaction'\nFor more information check: https://developer.mozilla.org/en-US/docs/Web/HTTP/Status/422"

unfoldable pub is_route_preparation_retry_reason : Option String → Bool
is_route_preparation_retry_reason = holds λ r.
    text_eq r "route_preparation_rejected"
    || text_eq r legacy_preparation_rejection
    || text_eq r "requote_required:missing_gas_estimate"

temporary_reasons : List String
temporary_reasons =
    "requote_required:stale_price" ∷ "native_gas_reserve_unstable"
    ∷ "requote_required:fee_cap_changed" ∷ "requote_required:target_minimum_changed" ∷ []

is_fee_cap_failure : Option Value → Bool
is_fee_cap_failure proof =
    is_text "legacy_fee_cap_revalidation" (get "phase" proof)
    && is_text "requote_required:fee_cap_changed" (get "reason" proof)

usual_retry_reason : Option String → Bool
unfolding temporary_reasons
usual_retry_reason reason =
    holds (λ r. any (text_eq r) temporary_reasons) reason
    || is_route_preparation_retry_reason reason

-- the reason of the group, or what the only member saved of its failure
unfoldable pub is_retry_reason : Option String → List Position → Db → Bool
unfolding usual_retry_reason is_fee_cap_failure
is_retry_reason reason (p ∷ []) db =
    if text_eq? reason (some "execution_error:ValueError")
    then is_fee_cap_failure (saved_payload p.id "execution_failure" db)
    else usual_retry_reason reason
is_retry_reason reason _ db = usual_retry_reason reason

-- the two lists have the same members
unfoldable pub same_keys : List String → List String → Bool
same_keys xs ys = all (λ x. any (text_eq x) ys) xs && all (λ y. any (text_eq y) xs) ys

unfoldable pub is_finished : Position → Bool
is_finished p = position_eq p.state PositionState.completed

-- a halted member with the group's reason and no asset intent
unfoldable pub is_retryable : Option String → Db → Position → Bool
is_retryable reason db p =
    (position_eq p.state PositionState.manual_review
      || position_eq p.state PositionState.manual_review_group_halted)
    && text_eq? p.reason reason
    && not (has_asset_intent p.id db)

abbrev pub unfinished : List Position → List Position
unfinished = select (λ p. not (is_finished p))

abbrev is_some_row : List Position → Bool
is_some_row [] = false
is_some_row (p ∷ ps) = true

-- the negation of the condition under which the source returns False
unfoldable pub may_retry : Group → List Position → List String → Db → Bool
may_retry g rows keys db =
    group_eq g.state GroupState.manual_review_group_halted
    && is_retry_reason g.reason rows db
    && is_some_row rows
    && same_keys (map (λ (p : Position). p.position_key) rows) keys
    && is_some_row (unfinished rows)
    && all (λ p. completed_route_credit_verified p.id db) (select is_finished rows)
    && all (is_retryable g.reason db) (unfinished rows)

abbrev reason_text : Option String → Value
reason_text none = Value.null
reason_text (some r) = text r

-- {"reason": reason, "recovered_from": group["state"]}
retry_payload : Group → Value
retry_payload g =
    dict (
      field "reason" (reason_text g.reason)
        (field "recovered_from" (text (group_name g.state)) end))

-- one member: its checkpoint, then its state and reason
unfoldable pub retry_member : Group → Position → Db → Db
unfolding retry_payload
retry_member g p db =
    update_position p.id (λ r. record r { state = PositionState.planned; reason = none })
      (put_checkpoint p.id "automatic_retry" (retry_payload g) db)

unfoldable pub retry_members : Group → List Position → Db → Db
retry_members g [] db = db
retry_members g (p ∷ ps) db = retry_members g ps (retry_member g p db)

unfoldable pub retry_group : Group → List Position → Session Bool
retry_group g rows = do
  write (retry_members g (unfinished rows))
  write (update_group g.id (λ r. record r { state = GroupState.active; reason = none }))
  pure true

unfoldable pub retry_when_allowed : Group → List String → Session Bool
unfolding retry_group
retry_when_allowed g keys = do
  rows ← query (group_positions g.id)
  allowed ← query (may_retry g rows keys)
  if allowed then retry_group g rows else pure false

unfoldable pub reactivate_unsigned_retry_group : ℕ → List String → Session Bool
unfolding group
reactivate_unsigned_retry_group group_id keys =
    transaction (do g ← group group_id; retry_when_allowed g keys)
