-- ===== src/Executor/Gas.antt =====
-- The gas checks of src/evm_inventory/executor.py (require_native_reserve,
-- require_ethereum_gas_below_limit and require_ethereum_planned_gas_price_valid).
use evm_garbage_collector.Prelude.{
  ℕ, ◌*◌, ◌<◌, String, ◌≡◌, Bool, true, false, ◌&&◌, ◌||◌, not, Option, none, some, is_some, arith,
  ltb, leb, ◌==◌, if◌then◌else◌,
}
use evm_garbage_collector.Prelude.Int.{ℤ, is_negative, pos_part}
use evm_garbage_collector.Rpc.{Endpoint, Reading, read, deadline, failed, quantity, reading}
use evm_garbage_collector.Journal.Session.{
  Result, ok, err, on_ok, refuse_if, value_error, gas_deferred, stage_deadline_exceeded,
}
use evm_garbage_collector.Executor.Request.{TransactionRequest, maximum_fee_per_gas_wei}

-- require_native_reserve: the retained balance
unfoldable pub require_native_reserve : ℤ → ℤ → ℤ → Result ℕ
require_native_reserve balance gas_cost multiplier =
    let retained = pos_part gas_cost * pos_part multiplier in
    refuse_if (is_negative balance || is_negative gas_cost || leb (pos_part multiplier) 0)
      (value_error "invalid gas reserve inputs")
      (refuse_if (ltb (pos_part balance) retained)
        (value_error "insufficient native balance for gas reserve: ") (ok retained))

-- the prices of the plan: exactly one model, and a tip within the fee. A price is an int here,
-- and no bool.
unfoldable pub is_planned_price_valid : TransactionRequest → Bool
is_planned_price_valid r = elim r.max_fee_per_gas_wei [
  | none ↦ not (is_some r.max_priority_fee_per_gas_wei) && is_some r.gas_price_wei
  | some fee ↦ elim r.max_priority_fee_per_gas_wei [
    | none ↦ false
    | some tip ↦ not (is_some r.gas_price_wei) && leb tip fee
  ]
]

unfoldable pub require_ethereum_planned_gas_price_valid : TransactionRequest → Result (Unit {0})
unfolding is_planned_price_valid
require_ethereum_planned_gas_price_valid r =
    if r.chain_id == 1
    then refuse_if (not (is_planned_price_valid r)) (gas_deferred "source=plan_error") (ok tt)
    else ok tt

-- the reading of a probe; an error other than the deadline defers
probe : String → Reading → Result ℕ
probe source (read n) = ok n
probe source deadline = err (stage_deadline_exceeded "stage")
probe source (failed f) = err (gas_deferred source)

-- the last test: the fee of the plan
plan_below : ℕ → Option ℕ → Result (Unit {0})
plan_below limit none = err (value_error "transaction fee quote is missing")
plan_below limit (some fee) = refuse_if (leb limit fee) (gas_deferred "source=plan") (ok tt)

-- for a limit in wei, read from the environment by _ethereum_gas_price_limit_wei
unfoldable pub require_ethereum_gas_below_limit :
    Endpoint → ℕ → TransactionRequest → Result (Unit {0})
unfolding probe plan_below require_ethereum_planned_gas_price_valid
require_ethereum_gas_below_limit call limit r =
    if r.chain_id == 1
    then on_ok (probe "source=chain_probe_error" (reading quantity (call "eth_chainId" "[]")))
        (λ endpoint_chain_id.
          refuse_if (not (endpoint_chain_id == 1)) (gas_deferred "source=chain_id") (
            on_ok (probe "source=rpc_probe_error" (reading quantity (call "eth_gasPrice" "[]")))
              (λ rpc_gas_price. refuse_if (leb limit rpc_gas_price) (gas_deferred "source=rpc") (
                on_ok (require_ethereum_planned_gas_price_valid r)
                  (λ _. plan_below limit (maximum_fee_per_gas_wei r))))))
    else ok tt

-- On Ethereum a transaction passes only where the endpoint is on chain 1, its gas price is below
-- the limit, and the plan has a fee of one model below the limit.
pub gas_below_limit_sound :
    (call : Endpoint) (limit : ℕ) (r : TransactionRequest)
    → r.chain_id ≡ 1
    → require_ethereum_gas_below_limit call limit r ≡ ok tt
    → (reading quantity (call "eth_chainId" "[]") ≡ read 1)
      × ((price : ℕ) × (reading quantity (call "eth_gasPrice" "[]") ≡ read price) × (price < limit))
      × (is_planned_price_valid r ≡ true)
      × ((fee : ℕ) × (maximum_fee_per_gas_wei r ≡ some fee) × (fee < limit))
unfolding require_ethereum_gas_below_limit
gas_below_limit_sound call limit r mainnet h = ground arith
