-- ===== src/Tests/Store.antt =====
-- Runs of the journal of src/evm_inventory/journal.py on a table with one step.
use evm_garbage_collector.Prelude.{◌≡◌, refl, true, none, some, List, [], ◌∷◌, arith, false}
use evm_garbage_collector.Prelude.Int.{pos}
use evm_garbage_collector.Journal.States.Steps.{StepState}
use evm_garbage_collector.Journal.Tables.{Step, empty_db, find_step}
use evm_garbage_collector.Journal.Session.{Connection, Leaves, opened}
use evm_garbage_collector.Journal.Steps.{record_step_intent}
use evm_garbage_collector.Journal.History.Paths.{Evolves, is_terminal}
use evm_garbage_collector.Journal.History.Durable.{Returns, Stored, record_step_intent_durable}
use evm_garbage_collector.Journal.Ledger.{Command, StepCommand, run, run_all}
use evm_garbage_collector.Journal.Ledger.Atomic.{run_atomic}
use evm_garbage_collector.Journal.Ledger.History.{IsSound, run_all-Evolves, run_all_terminal}

abbrev pub step_in : StepState → Step
step_in s = record {
  id = 1;
  position_id = 4;
  step_key = "swap";
  nonce = 7;
  state = s;
  calldata_digest = "0xabcd";
  signed_payload_digest = "0x02f8";
  tx_hash = some "0x11";
  broadcast_attempts = 1;
  receipt_status = none;
  finality_block = none;
  balance_baseline_raw = none;
  expected_delta_raw = none;
  balance_baseline_raw_text = none;
  expected_delta_raw_text = none;
  timeout_report = none;
}

abbrev pub holding : StepState → Connection
holding s =
    let db = record empty_db { steps = step_in s ∷ [] } in
    record { saved = db; work = db; in_transaction = false }

pub holding-IsSound : (s : StepState) → IsSound (holding s)
holding-IsSound s = record { settled = refl; ordered = (omega arith, tt) }

step_in_found : (s : StepState) → find_step 1 (holding s).work ≡ some (step_in s)
unfolding find_step
step_in_found s = refl

abbrev commands : List Command
commands =
    Command.on_step (StepCommand.broadcast_attempt 1 "0x22")
    ∷ Command.crash
    ∷ Command.on_step (StepCommand.receipt 1 "confirmed" (some (pos 9)))
    ∷ Command.on_step (StepCommand.step_state 1 "planned")
    ∷ []

run_all-Evolves_example :
    (y : Step) × (find_step 1 (run_all commands (holding StepState.submitted)).saved ≡ some y)
    × Evolves (step_in StepState.submitted) y
run_all-Evolves_example =
    run_all-Evolves commands (holding StepState.submitted) 1 (step_in StepState.submitted)
      (holding-IsSound StepState.submitted) (step_in_found StepState.submitted)

credited-is_terminal : is_terminal StepState.credited ≡ true
unfolding is_terminal
credited-is_terminal = refl

run_all_terminal_example :
    (y : Step) × (find_step 1 (run_all commands (holding StepState.credited)).saved ≡ some y)
    × (y.state ≡ StepState.credited)
run_all_terminal_example =
    run_all_terminal commands (holding StepState.credited) 1 (step_in StepState.credited)
      (holding-IsSound StepState.credited) (step_in_found StepState.credited) credited-is_terminal

run_atomic_example :
    Leaves
      (holding StepState.credited)
      (run (Command.on_step (StepCommand.broadcast_attempt 1 "0x22")) (holding StepState.credited))
run_atomic_example =
    run_atomic (holding StepState.credited) refl
      (Command.on_step (StepCommand.broadcast_attempt 1 "0x22"))

record_step_intent_durable_example :
    Returns
      (λ y d.
        Stored
          (record {
            position_id = 4;
            step_key = "swap";
            nonce = 7;
            calldata_digest = "0xabcd";
            signed_payload_digest = "0x02f8";
          })
          (some "0x11")
          d.saved
          y)
      (record_step_intent 4 "swap" (pos 7) "0xabcd" "0x02f8" (some "0x11") opened)
record_step_intent_durable_example =
    record_step_intent_durable 4 "swap" (pos 7) "0xabcd" "0x02f8" (some "0x11") opened tt
