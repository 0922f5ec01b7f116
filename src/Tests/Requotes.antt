-- ===== src/Tests/Requotes.antt =====
-- A requote after a swap, and another one later (src/evm_inventory/journal.py).
use evm_garbage_collector.Prelude.{◌≡◌, refl, false, none, List, [], ◌∷◌}
use evm_garbage_collector.Journal.States.Positions.{PositionState, position_may}
use evm_garbage_collector.Journal.Inputs.{RawInput, is_sha256, raw_amount_text}
use evm_garbage_collector.Journal.Tables.{Position, empty_db, find_position, next_id}
use evm_garbage_collector.Journal.Session.{Connection, Error, ok, err}
use evm_garbage_collector.Journal.Positions.{
  Requote, position, checked_requote, is_settled_swap, record_requote_after_swap,
}
use evm_garbage_collector.Journal.Ledger.{PositionCommand, Command, run_all}
use evm_garbage_collector.Journal.Positions.Requotes.{record_requote_after_swap_once}

abbrev swapped : Position
swapped = record {
  id = 4;
  position_key = "wallet:1:token";
  wallet = "0x22";
  group_id = none;
  source_asset_id = none;
  source_amount_raw = none;
  actual_asset_id = none;
  actual_balance_raw = none;
  accounted_loss_usd = none;
  reason = none;
  state = PositionState.bridge_timeout;
}

abbrev timed_out : Connection
timed_out =
    let db = record empty_db { positions = swapped ∷ [] } in
    record { saved = db; work = db; in_transaction = false }

abbrev requote : Requote
requote = record {
  old_route_id = "a";
  old_payload_hash = "0123456789abcdef0123456789abcdef0123456789abcdef0123456789abcdef";
  new_route_id = "b";
  new_payload_hash = "fedcba9876543210fedcba9876543210fedcba9876543210fedcba9876543210";
  input_amount_raw = RawInput.digits_text "250";
  actual_asset_id = "native";
  reason = none;
}

timed_out_requoted : (record_requote_after_swap 4 requote timed_out).0 ≡ ok 1
unfolding record_requote_after_swap position find_position checked_requote is_sha256 raw_amount_text
    is_settled_swap position_may next_id
timed_out_requoted = refl

-- the position comes back to a state in which its swap is settled
abbrev bridged : List Command
bridged =
    Command.on_position (PositionCommand.position_state 4 "bridge_submitted" none none none)
    ∷ Command.crash
    ∷ Command.on_position (PositionCommand.position_state 4 "bridge_timeout" none none none)
    ∷ []

record_requote_after_swap_once_example :
    (e : Error) × ((record_requote_after_swap 4 requote
        (run_all bridged (record_requote_after_swap 4 requote timed_out).1)).0
      ≡ err e)
record_requote_after_swap_once_example =
    record_requote_after_swap_once 4 1 requote requote timed_out bridged refl timed_out_requoted
