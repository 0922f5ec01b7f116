-- ===== src/Journal/Ledger.antt =====
-- Every operation of the journal as a command, and their runs, in any order and number
-- (src/evm_inventory/journal.py). `crash` is the loss of the process between two operations.
pub mod Atomic
pub mod History
pub mod Events
use evm_garbage_collector.Prelude.{
  ℕ, String, ◌≡◌, Bool, true, false, Option, none, some, List, [], ◌∷◌,
}
use evm_garbage_collector.Prelude.Int.{ℤ}
use evm_garbage_collector.Journal.Value.{Value}
use evm_garbage_collector.Journal.Inputs.{DecimalInput, RawInput}
use evm_garbage_collector.Journal.Session.{
  Connection, Result, ok, err, Session, rolled_back, opened,
}
use evm_garbage_collector.Journal.Operations.{
  Change, create_operation, record_transaction, record_deposit_status, record_deferred,
  record_approval_hash, record_approval_completed_route_deferred,
}
use evm_garbage_collector.Journal.Groups.{
  get_or_create_group, record_group_projection, record_group_realized_loss, record_group_state,
}
use evm_garbage_collector.Journal.Positions.{
  get_or_create_position, record_position_state, Requote, record_requote_after_swap,
  record_requote_after_bridge,
}
use evm_garbage_collector.Journal.Steps.{
  record_step_intent, record_broadcast_attempt, record_receipt, record_balance_baseline,
  record_timeout_report, record_step_state,
}
use evm_garbage_collector.Journal.Checkpoints.{save_checkpoint}
use evm_garbage_collector.Journal.Reactivation.{
  reactivate_known_direct_deposit, reactivate_legacy_gas_deferral, reactivate_unsigned_retry_group,
}

pub data StepCommand : Type 0 where
  intent : ℕ → String → ℤ → String → String → Option String → StepCommand
  broadcast_attempt : ℕ → String → StepCommand
  receipt : ℕ → String → Option ℤ → StepCommand
  balance_baseline : ℕ → RawInput → RawInput → StepCommand
  timeout_report : ℕ → String → StepCommand
  step_state : ℕ → String → StepCommand

pub data GroupCommand : Type 0 where
  open_group : String → String → ℤ → DecimalInput → DecimalInput → GroupCommand
  projection : ℕ → DecimalInput → DecimalInput → GroupCommand
  realized_loss : ℕ → DecimalInput → GroupCommand
  group_state : ℕ → String → Option String → GroupCommand
  known_direct_deposit : ℕ → String → GroupCommand
  legacy_gas_deferral : ℕ → String → GroupCommand
  unsigned_retry : ℕ → List String → GroupCommand

pub data PositionCommand : Type 0 where
  open_position : String → String → Option ℕ → Option String → Option RawInput → PositionCommand
  position_state : ℕ → String → Option String → Option RawInput → Option String → PositionCommand
  requote_after_swap : ℕ → Requote → PositionCommand
  requote_after_bridge : ℕ → Requote → PositionCommand
  checkpoint : ℕ → String → Value → PositionCommand

pub data OperationCommand : Type 0 where
  create : String → String → OperationCommand
  transaction_hash : ℕ → String → OperationCommand
  deposit_status : ℕ → String → Option String → OperationCommand
  deferred : ℕ → String → OperationCommand
  approval_hash : ℕ → String → OperationCommand
  approval_completed : ℕ → String → String → OperationCommand

pub data Command : Type 0 where
  on_step : StepCommand → Command
  on_group : GroupCommand → Command
  on_position : PositionCommand → Command
  on_operation : OperationCommand → Command
  crash : Command

-- what an operation leaves, and whether it raised
abbrev pub outcome : {A : Type 0} → Result A × Connection → Result (Unit {0}) × Connection
outcome (ok a, c) = (ok tt, c)
outcome (err e, c) = (err e, c)

unfoldable pub run_step : StepCommand → Session (Unit {0})
run_step (intent p key n d s h) c = outcome (record_step_intent p key n d s h c)
run_step (broadcast_attempt i h) c = record_broadcast_attempt i h c
run_step (receipt i s b) c = record_receipt i s b c
run_step (balance_baseline i b d) c = record_balance_baseline i b d c
run_step (timeout_report i r) c = record_timeout_report i r c
run_step (step_state i s) c = record_step_state i s c

unfoldable pub run_group : GroupCommand → Session (Unit {0})
run_group (open_group k w n b u) c = outcome (get_or_create_group k w n b u c)
run_group (projection i l p) c = record_group_projection i l p c
run_group (realized_loss i l) c = record_group_realized_loss i l c
run_group (group_state i s r) c = record_group_state i s r c
run_group (known_direct_deposit i k) c = outcome (reactivate_known_direct_deposit i k c)
run_group (legacy_gas_deferral i k) c = outcome (reactivate_legacy_gas_deferral i k c)
run_group (unsigned_retry i ks) c = outcome (reactivate_unsigned_retry_group i ks c)

unfoldable pub run_position : PositionCommand → Session (Unit {0})
run_position (open_position k w g a n) c = outcome (get_or_create_position k w g a n c)
run_position (position_state i s a b r) c = record_position_state i s a b r c
run_position (requote_after_swap i q) c = outcome (record_requote_after_swap i q c)
run_position (requote_after_bridge i q) c = outcome (record_requote_after_bridge i q c)
run_position (checkpoint i k v) c = save_checkpoint i k v c

unfoldable pub run_operation : OperationCommand → Session (Unit {0})
run_operation (create w a) c = outcome (create_operation w a c)
run_operation (transaction_hash i h) c = record_transaction i h c
run_operation (deposit_status i s r) c = record_deposit_status i s r c
run_operation (deferred i r) c = record_deferred i r c
run_operation (approval_hash i h) c = record_approval_hash i h c
run_operation (approval_completed i h r) c = record_approval_completed_route_deferred i h r c

unfoldable pub run : Command → Session (Unit {0})
run (on_step m) c = run_step m c
run (on_group m) c = run_group m c
run (on_position m) c = run_position m c
run (on_operation m) c = run_operation m c
run crash c = (ok tt, rolled_back c)

-- the callers go on after a raise
unfoldable pub run_all : List Command → Connection → Connection
run_all [] c = c
run_all (m ∷ ms) c = run_all ms (run m c).1
