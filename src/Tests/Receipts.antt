-- ===== src/Tests/Receipts.antt =====
-- A receipt that is there in the third round (src/evm_inventory/executor.py).
use evm_garbage_collector.Prelude.{
  ℕ, ◌+◌, ◌*◌, ◌<◌, ◌≡◌, refl, false, some, ltb, if◌then◌else◌, arith,
}
use evm_garbage_collector.Rpc.{returned, quantity}
use evm_garbage_collector.Journal.Value.{Value, null, text, dict, field, end, get}
use evm_garbage_collector.Journal.Session.{Result, ok}
use evm_garbage_collector.Executor.Receipt.{
  Round, status_of, check_receipt, read_receipt, read_round, end_round, wait_loop, wait_for_receipt,
  wait_for_receipt_ends, wait_for_receipt_success,
}

abbrev receipt : Value
receipt = dict (field "status" (text "0x1") end)

abbrev rounds : ℕ → Round
rounds k = record {
  clock = 3 + 10 * k;
  is_over = false;
  answer = returned (if ltb k 2 then null else receipt);
}

wait_for_receipt_ends_example : (x : Result Value) × (wait_for_receipt rounds false 3 40 ≡ some x)
wait_for_receipt_ends_example =
    wait_for_receipt_ends rounds false 3 40 (λ i. omega arith) omega arith

found : wait_for_receipt rounds false 3 40 ≡ some (ok receipt)
unfolding wait_for_receipt wait_loop end_round read_round read_receipt check_receipt status_of get
    quantity
found = refl

wait_for_receipt_success_example :
    (i : ℕ) × ((rounds i).clock < 3 + 40)
    × ((rounds i).answer ≡ returned receipt)
    × (status_of receipt ≡ some 1)
wait_for_receipt_success_example = wait_for_receipt_success rounds false 3 40 receipt found
