-- ===== src/Fees.antt =====
-- The fee planner's parts (src/evm_inventory/fee_planner.py, all but FeePlanner.plan, which is in
-- Fees/Plan). The texts of calls, which json, eth_abi and rlp encode, are those of an `Encoding`.
-- Amounts are unsigned: the callers have no negative ones.
pub mod Plan
use Prim.Native.Char.{Char}
use evm_garbage_collector.Prelude.{
  ℕ, ◌+◌, ◌-◌, ◌*◌, ◌/◌, max, String, Bool, true, false, ◌&&◌, ◌||◌, not, Option, none, some, List,
  [], ◌∷◌, any, length, get_or, sort, leb, ltb, ◌==◌, if◌then◌else◌,
}
use evm_garbage_collector.Rpc.{
  Fault, Answer, Endpoint, raised, returned, Reading, read, deadline, failed, quantity, uint256,
  reading,
}
use evm_garbage_collector.Journal.Value.{Value, Values, null, list, nil, cons, get}
use evm_garbage_collector.Journal.Session.{
  Error, Result, ok, err, on_ok, refuse_if, value_error, stage_deadline_exceeded,
}
use evm_garbage_collector.Executor.Request.{TransactionRequest, max_total_fee_wei}

pub record FeePolicy : Type 0 where
  pub gas_buffer_numerator : ℕ
  pub gas_buffer_denominator : ℕ
  pub max_gas_limit : ℕ
  pub base_fee_horizon_blocks : ℕ
  pub fee_history_blocks : ℕ
  pub priority_percentile : ℕ
  pub minimum_priority_fee_wei : ℕ

abbrev pub default_policy : FeePolicy
default_policy = record {
  gas_buffer_numerator = 12;
  gas_buffer_denominator = 10;
  max_gas_limit = 30000000;
  base_fee_horizon_blocks = 2;
  fee_history_blocks = 5;
  priority_percentile = 50;
  minimum_priority_fee_wei = 0;
}

-- __post_init__
unfoldable pub checked_policy : FeePolicy → Result FeePolicy
checked_policy p =
    refuse_if
      (ltb p.gas_buffer_numerator p.gas_buffer_denominator || leb p.gas_buffer_denominator 0)
      (value_error "invalid_gas_buffer")
      (refuse_if (leb p.max_gas_limit 0) (value_error "invalid_fee_policy") (
        refuse_if (leb p.fee_history_blocks 0 || not (leb p.priority_percentile 100))
          (value_error "invalid_fee_history_policy") (ok p)))

-- what a fee oracle is asked about
pub record FeeQuote : Type 0 where
  pub gas_limit : ℕ
  pub max_fee_per_gas : ℕ
  pub priority_fee_per_gas : ℕ
  pub eip1559 : Bool

-- the parameters of the calls, encoded
pub record Encoding : Type 0 where
  pub estimate_gas : String → TransactionRequest → String
  pub fee_history : FeePolicy → String
  pub scroll_l1_fee : TransactionRequest → FeeQuote → String
  pub l1_fee_upper_bound : TransactionRequest → FeeQuote → String
  pub l1_fee : TransactionRequest → FeeQuote → String

abbrev pub op_stack_chain_ids : List ℕ
op_stack_chain_ids =
    10 ∷ 130 ∷ 204 ∷ 252 ∷ 254 ∷ 288 ∷ 291 ∷ 360 ∷ 480 ∷ 690 ∷ 957 ∷ 1135 ∷ 1750 ∷ 1868 ∷ 5330
    ∷ 5371 ∷ 6805 ∷ 7560 ∷ 8008 ∷ 8453 ∷ 33979 ∷ 34443 ∷ 57073 ∷ 60808 ∷ 81457 ∷ 380929 ∷ 2702128
    ∷ 7777777 ∷ []

abbrev pub scroll : ℕ
scroll = 534352

unfoldable pub is_op_stack : ℕ → Bool
is_op_stack chain_id = any (λ i. i == chain_id) op_stack_chain_ids

unfoldable pub replacement_fee_floor : ℕ → ℕ
replacement_fee_floor previous = max 1 ((previous * 9 + 7) / 8)

-- a request whose cap, where it has one, covers its total fee
unfoldable pub is_within_cap : Option ℕ → Option ℕ → Bool
is_within_cap none _ = true
is_within_cap (some cap) none = false
is_within_cap (some cap) (some total) = leb total cap

unfoldable pub check_fee_cap : TransactionRequest → Result TransactionRequest
unfolding is_within_cap
check_fee_cap r =
    if is_within_cap r.max_total_fee_cap_wei (max_total_fee_wei r)
    then ok r
    else err (value_error "estimated DeFi transaction exceeds gas cap:")

-- an exception other than the deadline becomes this ValueError
unfoldable pub read_or : String → Reading → Result ℕ
read_or message (read n) = ok n
read_or message deadline = err (stage_deadline_exceeded "stage")
read_or message (failed f) = err (value_error message)

-- int(statistics.median(rewards)), where the float of a half of an odd sum is exact (below 2 ^ 53)
unfoldable pub median : List ℕ → ℕ
median ns =
    let k = length ns / 2 in
    if k + k == length ns
    then (get_or (sort ns) (k - 1) 0 + get_or (sort ns) k 0) / 2
    else get_or (sort ns) k 0

-- one row's first item, before the other rows; `none` where quantity raises
reward : Value → Option (List ℕ) → Option (List ℕ)
reward null rest = rest
reward v rest = elim rest [
  | none ↦ none
  | some ns ↦ elim (quantity v) [ none ↦ none | some n ↦ some (n ∷ ns) ]
]

rewards : Values → Option (List ℕ)
unfolding reward
rewards nil = some []
rewards (cons (list (cons v vs)) rows) = reward v (rewards rows)
rewards (cons _ rows) = rewards rows

-- the rewards of a history that is a dict with a list of them
history_rewards : Option Value → Option (List ℕ)
unfolding rewards
history_rewards (some (list rows)) = rewards rows
history_rewards _ = none

history_fee : ℕ → Option (List ℕ) → Reading
history_fee minimum none = failed Fault.other
history_fee minimum (some []) = failed Fault.other
history_fee minimum (some (n ∷ ns)) = read (max minimum (median (n ∷ ns)))

-- eth_feeHistory: a fee, the deadline, or any failure
fee_history : ℕ → Answer → Reading
unfolding history_rewards history_fee
fee_history minimum (raised Fault.stage_deadline) = deadline
fee_history minimum (raised f) = failed f
fee_history minimum (returned v) = history_fee minimum (history_rewards (get "reward" (some v)))

pub record PriorityFee : Type 0 where
  pub fee : ℕ
  pub source : String
  pub fallback_reason : Option String

module _ (call : Endpoint) where
  unfoldable pub legacy_price : Result ℕ
  legacy_price =
      on_ok (read_or "gas_price_rpc_error:" (reading quantity (call "eth_gasPrice" "[]")))
        (λ price. refuse_if (leb price 0) (value_error "invalid_rpc_gas_price") (ok price))

  -- the last resort
  gas_price_fallback : Result PriorityFee
  gas_price_fallback = on_ok legacy_price (λ price. ok (record {
    fee = price;
    source = "eth_gasPrice_fallback";
    fallback_reason = some "eth_feeHistory;eth_maxPriorityFeePerGas";
  }))

  -- from eth_maxPriorityFeePerGas
  tip_or_price : FeePolicy → Reading → Result PriorityFee
  unfolding gas_price_fallback
  tip_or_price p deadline = err (stage_deadline_exceeded "stage")
  tip_or_price p (failed f) = gas_price_fallback
  tip_or_price p (read tip) = ok (record {
    fee = max p.minimum_priority_fee_wei tip;
    source = "eth_maxPriorityFeePerGas";
    fallback_reason = some "eth_feeHistory";
  })

  history_or_tip : FeePolicy → Reading → Result PriorityFee
  unfolding tip_or_price
  history_or_tip p deadline = err (stage_deadline_exceeded "stage")
  history_or_tip p (failed f) =
      tip_or_price p (reading quantity (call "eth_maxPriorityFeePerGas" "[]"))
  history_or_tip p (read fee) =
      ok (record { fee = fee; source = "eth_feeHistory"; fallback_reason = none })

  -- _priority_fee
  unfoldable pub priority_fee : Encoding → FeePolicy → Result PriorityFee
  unfolding history_or_tip fee_history
  priority_fee encoding p =
      history_or_tip p
        (fee_history p.minimum_priority_fee_wei (call "eth_feeHistory" (encoding.fee_history p)))

  positive_or : Reading → Reading → Result ℕ
  positive_or (read (ℕ.suc n)) _ = ok (ℕ.suc n)
  positive_or deadline _ = err (stage_deadline_exceeded "stage")
  positive_or _ (read (ℕ.suc n)) = ok (ℕ.suc n)
  positive_or _ deadline = err (stage_deadline_exceeded "stage")
  positive_or _ _ = err (value_error "op_stack_l1_fee_estimation_failed:")

  scroll_fee : Reading → Result ℕ
  scroll_fee (read (ℕ.suc n)) = ok ((ℕ.suc n * 12 + 9) / 10)
  scroll_fee deadline = err (stage_deadline_exceeded "stage")
  scroll_fee _ = err (value_error "scroll_l1_fee_estimation_failed:")

  -- _op_stack_l1_fee
  unfoldable pub op_stack_l1_fee : Encoding → TransactionRequest → FeeQuote → Result ℕ
  unfolding positive_or scroll_fee is_op_stack
  op_stack_l1_fee encoding r q =
      if r.chain_id == scroll
      then scroll_fee (reading uint256 (call "eth_call" (encoding.scroll_l1_fee r q)))
      else if is_op_stack r.chain_id
      then positive_or (reading uint256 (call "eth_call" (encoding.l1_fee_upper_bound r q)))
          (reading uint256 (call "eth_call" (encoding.l1_fee r q)))
      else ok 0
