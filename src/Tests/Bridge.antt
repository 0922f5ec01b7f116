-- ===== src/Tests/Bridge.antt =====
-- A wait that polls a bridge twice (src/evm_inventory/route_execution.py).
use evm_garbage_collector.Prelude.{◌≡◌, refl, false, some, [], ◌∷◌, lower}
use evm_garbage_collector.Prelude.Int.{ℤ}
use evm_garbage_collector.Journal.States.Steps.{StepState}
use evm_garbage_collector.Journal.Tables.{find_step, latest_step}
use evm_garbage_collector.Journal.Inputs.{is_address}
use evm_garbage_collector.Journal.Session.{ok}
use evm_garbage_collector.Bridge.{
  Status, Token, Transfer, arrived, pending, raw_amount, read_status, read_sent, read_done,
  read_receiving, check_token, asset_identity, token_address, is_other_asset, is_other_sender,
  is_finished,
}
use evm_garbage_collector.Bridge.Delivery.{
  Answer, Poll, await_transfer, read_poll, read_answer, confirmed_arrival, seen_in_balance,
}
use evm_garbage_collector.Bridge.Sound.{Seen, Among, await_transfer-Seen}
use evm_garbage_collector.Bridge.Arrival.{await_transfer_credits}
use evm_garbage_collector.Tests.Store.{holding, step_in}

abbrev transfer : Transfer
transfer = record {
  position_id = 4;
  step_key = "swap";
  tx_hash = "0xAA";
  destination = record { chain_id = 10; contract_address = "native"; decimals = 18 };
  sender = "0xB1";
  recipient = "0xB1";
  baseline_raw = some 5;
}

abbrev done : Status
done = record {
  state = "DONE";
  substatus = "COMPLETED";
  sending = some (some "0xaa");
  from_address = some "0xb1";
  to_address = "0xb1";
  receiving = some (record {
    tx_hash = some "0xcc";
    amount = some (ℤ.pos 70);
    token = Token.identified 10 "0x0000000000000000000000000000000000000000" 18;
  });
}

abbrev unknown_yet : Poll
unknown_yet = record { is_over = false; answer = Answer.http_status_error 429; balance = ok 5 }

abbrev seen : Poll
seen = record { is_over = false; answer = Answer.status done; balance = ok 80 }

seen_arrives : read_poll transfer seen ≡ ok (arrived "0xcc" 70)
unfolding read_poll read_answer read_status read_sent read_done read_receiving check_token
    asset_identity token_address is_other_asset is_other_sender is_finished raw_amount
    confirmed_arrival seen_in_balance lower is_address
seen_arrives = refl

unknown_yet-pending : read_poll transfer unknown_yet ≡ ok pending
unfolding read_poll read_answer confirmed_arrival
unknown_yet-pending = refl

latest_found :
    latest_step 4 "swap" (holding StepState.awaiting_bridge).work
    ≡ some (step_in StepState.awaiting_bridge)
unfolding latest_step
latest_found = refl

found :
    find_step 1 (holding StepState.awaiting_bridge).work ≡ some (step_in StepState.awaiting_bridge)
unfolding find_step
found = refl

await_transfer_credits_example :
    let (r, c') =
      await_transfer false transfer (unknown_yet ∷ seen ∷ []) (holding StepState.awaiting_bridge) in
    (r ≡ ok (some 70)) × (find_step 1 c'.saved ≡ some (step_in StepState.credited))
await_transfer_credits_example =
    await_transfer_credits transfer (unknown_yet ∷ []) [] seen "0xcc" 70
      (holding StepState.awaiting_bridge) (step_in StepState.awaiting_bridge) latest_found found
      refl (unknown_yet-pending, tt) seen_arrives

await_transfer-Seen_example : Among (unknown_yet ∷ seen ∷ []) (Seen transfer 70)
await_transfer-Seen_example =
    await_transfer-Seen false transfer (unknown_yet ∷ seen ∷ []) (holding StepState.awaiting_bridge)
      70 await_transfer_credits_example.0
