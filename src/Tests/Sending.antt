-- ===== src/Tests/Sending.antt =====
-- Broadcasts and gas checks of src/evm_inventory/executor.py at concrete inputs.
use evm_garbage_collector.Prelude.{ℕ, ◌<◌, String, ◌≡◌, refl, true, none, some, []}
use evm_garbage_collector.Prelude.Int.{pos}
use evm_garbage_collector.Rpc.{Endpoint, returned, reading, quantity, read}
use evm_garbage_collector.Journal.Value.{text, null}
use evm_garbage_collector.Journal.States.Steps.{StepState}
use evm_garbage_collector.Journal.Tables.{latest_step}
use evm_garbage_collector.Journal.Session.{opened, ok}
use evm_garbage_collector.Journal.Ledger.History.{opened-IsSound}
use evm_garbage_collector.Executor.Request.{TransactionRequest, maximum_fee_per_gas_wei}
use evm_garbage_collector.Executor.Gas.{
  require_ethereum_gas_below_limit, gas_below_limit_sound, is_planned_price_valid,
}
use evm_garbage_collector.Executor.Broadcast.{
  World, Transaction, existing_hash, broadcast_durable_transaction,
}
use evm_garbage_collector.Executor.Broadcast.Durable.{
  Sends, broadcast_persists_first, broadcast_never_again,
}
use evm_garbage_collector.Tests.Store.{holding}

-- a digest that is the text itself, and an endpoint that knows no transaction
abbrev same_text : String → String
same_text s = s

abbrev silent : Endpoint
silent method params = returned null

abbrev transaction : Transaction
transaction = record {
  position_id = 4;
  step_key = "swap";
  nonce = pos 7;
  calldata = "0xabcd";
  signed_transaction = "0x02f8";
  tx_hash = "0x11";
  balance_baseline_raw = none;
  expected_delta_raw = none;
}

abbrev fresh : World
fresh = record { connection = opened; sent = [] }

abbrev submitted : World
submitted = record { connection = holding StepState.submitted; sent = [] }

broadcast_persists_first_example :
    Sends same_text transaction fresh
      (broadcast_durable_transaction same_text silent transaction fresh).1
broadcast_persists_first_example =
    broadcast_persists_first same_text transaction silent fresh opened-IsSound

submitted_saved :
    existing_hash (pos 7) (latest_step 4 "swap" submitted.connection.work) ≡ some "0x11"
unfolding existing_hash latest_step
submitted_saved = refl

broadcast_never_again_example :
    (broadcast_durable_transaction same_text silent transaction submitted).1.sent ≡ []
broadcast_never_again_example =
    broadcast_never_again same_text transaction silent submitted "0x11" submitted_saved

abbrev pub request : TransactionRequest
request = record {
  chain_id = 1;
  to = "0x00";
  calldata = "0x";
  value = 5;
  gas_limit = 21000;
  gas_price_wei = some 3;
  max_fee_per_gas_wei = none;
  max_priority_fee_per_gas_wei = none;
  additional_fee_wei = 0;
  fee_quote_method = none;
  fee_quote_fallback_reason = none;
  max_total_fee_cap_wei = none;
  gas_estimate = none;
  fee_quote_block_number = none;
  base_fee_per_gas_wei = none;
}

abbrev mainnet : Endpoint
mainnet method params = returned (text "0x1")

request_passes : require_ethereum_gas_below_limit mainnet 10 request ≡ ok tt
unfolding require_ethereum_gas_below_limit reading quantity maximum_fee_per_gas_wei
request_passes = refl

gas_below_limit_sound_example :
    (reading quantity (mainnet "eth_chainId" "[]") ≡ read 1)
    × ((price : ℕ) × (reading quantity (mainnet "eth_gasPrice" "[]") ≡ read price) × (price < 10))
    × (is_planned_price_valid request ≡ true)
    × ((fee : ℕ) × (maximum_fee_per_gas_wei request ≡ some fee) × (fee < 10))
gas_below_limit_sound_example = gas_below_limit_sound mainnet 10 request refl request_passes
