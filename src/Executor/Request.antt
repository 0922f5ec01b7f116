-- ===== src/Executor/Request.antt =====
-- TransactionRequest of src/evm_inventory/lifi.py. Quantities are unsigned: the planners build them
-- from `quantity`. `maximum_fee_per_gas_wei` raises where no fee is quoted: here `none`.
use evm_garbage_collector.Prelude.{ℕ, ◌+◌, ◌*◌, String, Option, none, some}

pub record TransactionRequest : Type 0 where
  pub chain_id : ℕ
  pub to : String
  pub calldata : String
  pub value : ℕ
  pub gas_limit : ℕ
  pub gas_price_wei : Option ℕ
  pub max_fee_per_gas_wei : Option ℕ
  pub max_priority_fee_per_gas_wei : Option ℕ
  pub additional_fee_wei : ℕ
  pub fee_quote_method : Option String
  pub fee_quote_fallback_reason : Option String
  pub max_total_fee_cap_wei : Option ℕ
  pub gas_estimate : Option ℕ
  pub fee_quote_block_number : Option ℕ
  pub base_fee_per_gas_wei : Option ℕ

unfoldable pub maximum_fee_per_gas_wei : TransactionRequest → Option ℕ
maximum_fee_per_gas_wei r = elim r.max_fee_per_gas_wei [
  | some fee ↦ some fee
  | none ↦ r.gas_price_wei
]

-- for a request that has a fee
unfoldable pub max_total_fee_wei : TransactionRequest → Option ℕ
unfolding maximum_fee_per_gas_wei
max_total_fee_wei r = elim (maximum_fee_per_gas_wei r) [
  | none ↦ none
  | some fee ↦ some (r.gas_limit * fee + r.additional_fee_wei)
]
