-- ===== src/Tests/Planning.antt =====
-- A fee plan of src/evm_inventory/fee_planner.py and a batch of src/evm_inventory/route_batch.py at
-- concrete inputs.
use evm_garbage_collector.Prelude.{
  ℕ, ◌*◌, ◌≤◌, ◌<◌, String, ◌≡◌, refl, true, none, some, List, [], ◌∷◌, text_eq, lower,
  if◌then◌else◌,
}
use evm_garbage_collector.Prelude.Int.{pos}
use evm_garbage_collector.Rpc.{Endpoint, returned, reading, quantity}
use evm_garbage_collector.Journal.Value.{text, null, dict, field, end, get, is_dict}
use evm_garbage_collector.Journal.Session.{Result, ok}
use evm_garbage_collector.Executor.Request.{
  TransactionRequest, maximum_fee_per_gas_wei, max_total_fee_wei,
}
use evm_garbage_collector.Executor.Gas.{is_planned_price_valid}
use evm_garbage_collector.Fees.{
  Encoding, default_policy, checked_policy, check_fee_cap, is_within_cap, read_or, priority_fee,
  op_stack_l1_fee, replacement_fee_floor,
}
use evm_garbage_collector.Fees.Plan.{plan, fee_cap, priced, market_prices, old_tip}
use evm_garbage_collector.Fees.Plan.Sound.{plan_sound, plan-outbids}
use evm_garbage_collector.Routing.{
  Position, DepositTarget, Status, PositionDecision, BatchQuoteResult, Answers, Each,
  classify_position, quote_required_positions, is_target, meets, decide, quote_one,
  quote_required_positions-Each,
}
use evm_garbage_collector.Tests.Sending.{request}

abbrev encoding : Encoding
encoding = record {
  estimate_gas = λ s r. s;
  fee_history = λ p. "history";
  scroll_l1_fee = λ r q. "scroll";
  l1_fee_upper_bound = λ r q. "upper";
  l1_fee = λ r q. "fee";
}

-- a gas estimate of 21000, a base fee of 10 wei and a tip of 2
abbrev endpoint : Endpoint
endpoint method params =
    if text_eq method "eth_estimateGas"
    then returned (text "0x5208")
    else if text_eq method "eth_getBlockByNumber"
    then returned (dict (field "number" (text "0x10") (field "baseFeePerGas" (text "0xa") end)))
    else if text_eq method "eth_maxPriorityFeePerGas"
    then returned (text "0x2")
    else returned null

abbrev sender : String
sender = "0x1111111111111111111111111111111111111111"

abbrev planned : Result TransactionRequest
planned = plan endpoint encoding default_policy request sender none (some request)

abbrev expected : TransactionRequest
expected = record request {
  gas_limit = 25201;
  gas_price_wei = none;
  max_fee_per_gas_wei = some 13;
  max_priority_fee_per_gas_wei = some 4;
  gas_estimate = some 21000;
  fee_quote_block_number = some 16;
  base_fee_per_gas_wei = some 10;
  fee_quote_method = some "eth_maxPriorityFeePerGas+ethereum_base_fee_1_3";
  fee_quote_fallback_reason = some "eth_feeHistory";
}

planned-expected : planned ≡ ok expected
unfolding plan read_or reading quantity is_dict get priority_fee maximum_fee_per_gas_wei
    op_stack_l1_fee check_fee_cap priced market_prices replacement_fee_floor old_tip
planned-expected = refl

default_policy_checked : checked_policy default_policy ≡ ok default_policy
unfolding checked_policy
default_policy_checked = refl

plan_sound_example :
    (is_planned_price_valid expected ≡ true)
    × (expected.max_total_fee_cap_wei ≡ fee_cap none request)
    × (is_within_cap expected.max_total_fee_cap_wei (max_total_fee_wei expected) ≡ true)
    × ((estimate : ℕ) × (expected.gas_estimate ≡ some estimate)
        × (estimate < expected.gas_limit)
        × (expected.gas_limit ≤ default_policy.max_gas_limit))
    × (expected.to ≡ request.to)
    × (expected.value ≡ request.value)
    × (expected.calldata ≡ request.calldata)
plan_sound_example =
    plan_sound endpoint encoding default_policy request sender none (some request) expected
      default_policy_checked planned-expected

request_fee : maximum_fee_per_gas_wei request ≡ some 3
unfolding maximum_fee_per_gas_wei
request_fee = refl

plan-outbids_example :
    (offered : ℕ) × (maximum_fee_per_gas_wei expected ≡ some offered) × (3 * 9 ≤ offered * 8)
plan-outbids_example =
    plan-outbids endpoint encoding default_policy request sender none (some request) expected
      request 3 refl request_fee planned-expected

abbrev targets : List DepositTarget
targets = record { chain_id = pos 1; asset_id = "native"; minimum_raw = pos 100 } ∷ []

abbrev owned : ℕ → Position
owned n = record { chain_id = pos 1; asset_id = "NATIVE"; raw_balance = pos n }

abbrev required : PositionDecision
required = record { status = Status.quote_required; requires_quote = true }

owned-required : classify_position targets (pos 50) (owned 60) ≡ ok required
unfolding classify_position decide meets is_target lower
owned-required = refl

-- a callback whose quote is 9
abbrev ask : Position → Result ℕ
ask p = ok 9

abbrev answers : List (BatchQuoteResult ℕ)
answers =
    record { position = owned 60; status = Status.quoted; quote = some 9 }
    ∷ record { position = owned 10; status = Status.dust; quote = none }
    ∷ []

batch_answers :
    quote_required_positions ask targets (pos 50) (owned 60 ∷ owned 10 ∷ []) ≡ ok answers
unfolding quote_required_positions quote_one classify_position decide meets is_target lower
batch_answers = refl

quote_required_positions-Each_example :
    Each (Answers ask targets (pos 50)) (owned 60 ∷ owned 10 ∷ []) answers
quote_required_positions-Each_example =
    quote_required_positions-Each ask targets (pos 50) (owned 60 ∷ owned 10 ∷ []) answers
      batch_answers
