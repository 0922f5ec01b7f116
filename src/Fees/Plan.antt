-- ===== src/Fees/Plan.antt =====
-- FeePlanner.plan of src/evm_inventory/fee_planner.py.
pub mod Parts
pub mod Sound
use Prim.Native.String.{◌++◌}
use evm_garbage_collector.Prelude.{
  ℕ, zero, suc, ◌+◌, ◌-◌, ◌*◌, ◌/◌, min, max, String, Bool, true, false, ◌&&◌, ◌||◌, not, Option,
  none, some, leb, ltb, ◌==◌, text_eq, starts_with, if◌then◌else◌,
}
use evm_garbage_collector.Rpc.{Answer, Endpoint, raised, returned, reading, Reading, quantity}
use evm_garbage_collector.Journal.Value.{Value, null, get, is_dict}
use evm_garbage_collector.Journal.Session.{Error, Result, ok, err, on_ok, refuse_if, value_error}
use evm_garbage_collector.Executor.Request.{TransactionRequest, maximum_fee_per_gas_wei}
use evm_garbage_collector.Executor.Broadcast.{error_of}
use evm_garbage_collector.Fees.{
  FeePolicy, FeeQuote, Encoding, PriorityFee, scroll, replacement_fee_floor, check_fee_cap, read_or,
  legacy_price, priority_fee, op_stack_l1_fee,
}

-- the number of characters
text_length : String → ℕ
text_length String.[] = 0
text_length (String.◌∷◌ c s) = suc (text_length s)

unfoldable pub is_sender : String → Bool
unfolding text_length
is_sender s = starts_with s "0x" && text_length s == 42

-- the fees that a plan chooses, before its fee on L1
pub record Prices : Type 0 where
  pub max_fee : ℕ
  pub priority : ℕ
  pub eip1559 : Bool
  pub method : String
  pub fallback_reason : Option String

-- what is read before the fees
pub record Measured : Type 0 where
  pub estimate : ℕ
  pub gas_limit : ℕ
  pub block_number : ℕ
  pub base_fee : Option ℕ

-- the base fee after some full blocks
unfoldable pub projected : ℕ → ℕ → ℕ
projected zero base = base
projected (suc blocks) base = projected blocks ((base * 9 + 7) / 8)

unfoldable pub market_prices : FeePolicy → ℕ → ℕ → PriorityFee → Prices
market_prices p chain_id base t =
    if chain_id == 1
    then (let max_fee = (base * 13 + 9) / 10 in
        record {
          max_fee = max_fee;
          priority = min t.fee (max_fee - base);
          eip1559 = true;
          method = t.source ++ "+ethereum_base_fee_1_3";
          fallback_reason = t.fallback_reason;
        })
    else if text_eq t.source "eth_gasPrice_fallback"
    then record {
      max_fee = t.fee;
      priority = t.fee;
      eip1559 = false;
      method = t.source;
      fallback_reason = t.fallback_reason;
    }
    else record {
      max_fee = projected p.base_fee_horizon_blocks base + t.fee;
      priority = t.fee;
      eip1559 = true;
      method = t.source;
      fallback_reason = t.fallback_reason;
    }

unfoldable pub old_tip : TransactionRequest → ℕ
old_tip r = elim r.max_priority_fee_per_gas_wei [
  | some tip ↦ tip
  | none ↦ elim r.gas_price_wei [ none ↦ 0 | some price ↦ price ]
]

-- over the maximum fee of the transaction that is replaced
raised_above : TransactionRequest → ℕ → Prices → Prices
raised_above old fee p =
    let max_fee = max p.max_fee (replacement_fee_floor fee) in
    let priority = max p.priority (replacement_fee_floor (old_tip old)) in
    if p.eip1559
    then record p { max_fee = max max_fee priority; priority = priority }
    else record p { max_fee = max_fee }

-- `replacement_for`
unfoldable pub outbid : Option TransactionRequest → Prices → Result Prices
unfolding raised_above
outbid none p = ok p
outbid (some old) p = elim (maximum_fee_per_gas_wei old) [
  | none ↦ err (value_error "transaction fee quote is missing")
  | some fee ↦ ok (raised_above old fee p)
]

-- header.get("baseFeePerGas"), which may be absent
base_fee_of : Option Value → Result (Option ℕ)
base_fee_of none = ok none
base_fee_of (some null) = ok none
base_fee_of (some v) = elim (quantity v) [
  | none ↦ err (value_error "invalid_latest_base_fee")
  | some n ↦ ok (some n)
]

block_number_of : Option Value → Result ℕ
block_number_of none = err (value_error "invalid_latest_block_number_for_fee_quote")
block_number_of (some v) = elim (quantity v) [
  | none ↦ err (value_error "invalid_latest_block_number_for_fee_quote")
  | some n ↦ ok n
]

-- the latest block's number and base fee
unfoldable pub header_of : Answer → Result (ℕ × Option ℕ)
unfolding base_fee_of block_number_of
header_of (raised f) = err (error_of f)
header_of (returned v) =
    refuse_if (not (is_dict (some v))) (value_error "latest_block_unavailable_for_fee_quote") (
      on_ok (block_number_of (get "number" (some v)))
        (λ number. on_ok (base_fee_of (get "baseFeePerGas" (some v))) (λ base. ok (number, base))))

-- estimate * numerator // denominator + 1, within the ceiling
unfoldable pub buffered : FeePolicy → ℕ → Result ℕ
buffered p estimate =
    let gas_limit = estimate * p.gas_buffer_numerator / p.gas_buffer_denominator + 1 in
    refuse_if (leb estimate 0) (value_error "invalid_gas_estimate") (
      refuse_if (ltb p.max_gas_limit gas_limit) (value_error "gas_limit_exceeds_network_ceiling:")
        (ok gas_limit))

l1_fee_suffix : ℕ → String
l1_fee_suffix chain_id =
    if chain_id == scroll then "+scroll_l1_fee_size_bound" else "+op_l1_fee_upper_bound"

-- the planned request
unfoldable pub priced : TransactionRequest → Option ℕ → Measured → Prices → ℕ → TransactionRequest
unfolding l1_fee_suffix
priced r cap m p additional = record r {
  gas_limit = m.gas_limit;
  gas_price_wei = if p.eip1559 then none else some p.max_fee;
  max_fee_per_gas_wei = if p.eip1559 then some p.max_fee else none;
  max_priority_fee_per_gas_wei = if p.eip1559 then some p.priority else none;
  additional_fee_wei = additional;
  gas_estimate = some m.estimate;
  fee_quote_block_number = some m.block_number;
  base_fee_per_gas_wei = m.base_fee;
  fee_quote_method =
      some (if additional == 0 then p.method else p.method ++ l1_fee_suffix r.chain_id);
  fee_quote_fallback_reason = p.fallback_reason;
  max_total_fee_cap_wei = cap;
}

unfoldable pub fee_cap : Option ℕ → TransactionRequest → Option ℕ
fee_cap (some cap) r = some cap
fee_cap none r = r.max_total_fee_cap_wei

-- fee_cap is not None and fee_cap <= 0
unfoldable pub is_cap_invalid : Option ℕ → Bool
is_cap_invalid none = false
is_cap_invalid (some cap) = leb cap 0

module _ (call : Endpoint) (encoding : Encoding) (p : FeePolicy) where
  unfoldable pub measure : String → TransactionRequest → Result Measured
  unfolding header_of buffered
  measure sender r =
      on_ok
        (read_or "estimate_gas_rpc_error:"
          (reading quantity (call "eth_estimateGas" (encoding.estimate_gas sender r))))
        (λ estimate. on_ok (buffered p estimate) (λ gas_limit.
          on_ok (header_of (call "eth_getBlockByNumber" "[\"latest\",false]")) (λ h. ok (record {
            estimate = estimate;
            gas_limit = gas_limit;
            block_number = h.0;
            base_fee = h.1;
          }))))

  legacy_prices : Option String → Result Prices
  legacy_prices reason = on_ok (legacy_price call) (λ price. ok (record {
    max_fee = price;
    priority = 0;
    eip1559 = false;
    method = "eth_gasPrice";
    fallback_reason = reason;
  }))

  -- by the base fee of the latest block
  unfoldable pub base_prices : ℕ → Option ℕ → Result Prices
  unfolding legacy_prices
  base_prices chain_id none = legacy_prices none
  base_prices chain_id (some zero) = legacy_prices (some "zero_base_fee")
  base_prices chain_id (some (suc n)) =
      on_ok (priority_fee call encoding p) (λ t. ok (market_prices p chain_id (suc n) t))

  -- the fee on L1, and the check of the cap
  unfoldable pub finish :
      TransactionRequest → Option ℕ → Measured → Prices → Result TransactionRequest
  finish r cap m prices =
      on_ok
        (op_stack_l1_fee call encoding r (record {
          gas_limit = m.gas_limit;
          max_fee_per_gas = prices.max_fee;
          priority_fee_per_gas = prices.priority;
          eip1559 = prices.eip1559;
        }))
        (λ additional. check_fee_cap (priced r cap m prices additional))

  unfoldable pub plan :
      TransactionRequest → String → Option ℕ → Option TransactionRequest → Result TransactionRequest
  unfolding is_sender measure base_prices outbid finish fee_cap is_cap_invalid
  plan r sender max_total replacement_for =
      let cap = fee_cap max_total r in
      refuse_if (not (is_sender sender)) (value_error "invalid_fee_sender") (
        refuse_if (is_cap_invalid cap) (value_error "invalid_total_fee_cap") (
          on_ok (measure sender r) (λ m.
            on_ok (base_prices r.chain_id m.base_fee)
              (λ prices. on_ok (outbid replacement_for prices) (λ chosen. finish r cap m chosen)))))
