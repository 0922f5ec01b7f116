-- ===== src/Tests/Retry.antt =====
-- A halted group that is retried (src/evm_inventory/journal.py).
use evm_garbage_collector.Prelude.{◌≡◌, refl, true, false, none, some, [], ◌∷◌, all}
use evm_garbage_collector.Prelude.Int.{pos}
use evm_garbage_collector.Journal.States.Groups.{GroupState, group_eq}
use evm_garbage_collector.Journal.States.Positions.{PositionState, position_eq}
use evm_garbage_collector.Journal.Tables.{Group, Position, empty_db, find_group, has_asset_intent}
use evm_garbage_collector.Journal.Session.{Connection, ok, transaction}
use evm_garbage_collector.Journal.Positions.{group_positions}
use evm_garbage_collector.Journal.Reactivation.{
  reactivate_unsigned_retry_group, retry_when_allowed, may_retry, is_retry_reason, same_keys,
  is_finished, is_retryable,
}
use evm_garbage_collector.Journal.Reactivation.Retry.{
  is_unsigned, reactivate_unsigned_retry_group_unsigned,
}

abbrev halted : Group
halted = record {
  id = 3;
  group_key = "wallet:1";
  wallet = "0x22";
  source_chain_id = pos 1;
  loss_budget_pct = 15;
  source_usd = 40;
  projected_loss_usd = none;
  projected_loss_pct = none;
  realized_loss_usd = 0;
  state = GroupState.manual_review_group_halted;
  reason = some "native_gas_reserve_unstable";
}

abbrev member : Position
member = record {
  id = 4;
  position_key = "wallet:1:native";
  wallet = "0x22";
  group_id = some 3;
  source_asset_id = none;
  source_amount_raw = none;
  actual_asset_id = none;
  actual_balance_raw = none;
  accounted_loss_usd = none;
  reason = some "native_gas_reserve_unstable";
  state = PositionState.manual_review;
}

abbrev stopped : Connection
stopped =
    let db = record empty_db { groups = halted ∷ []; positions = member ∷ [] } in
    record { saved = db; work = db; in_transaction = false }

stopped_retries : (reactivate_unsigned_retry_group 3 ("wallet:1:native" ∷ []) stopped).0 ≡ ok true
unfolding reactivate_unsigned_retry_group transaction find_group retry_when_allowed may_retry
    group_eq is_retry_reason group_positions same_keys is_finished position_eq is_retryable
    has_asset_intent
stopped_retries = refl

reactivate_unsigned_retry_group_unsigned_example :
    (g : Group) × (find_group 3 stopped.work ≡ some g)
    × (group_eq g.state GroupState.manual_review_group_halted ≡ true)
    × (all (is_unsigned stopped.work) (group_positions 3 stopped.work) ≡ true)
reactivate_unsigned_retry_group_unsigned_example =
    reactivate_unsigned_retry_group_unsigned 3 ("wallet:1:native" ∷ []) stopped stopped_retries
