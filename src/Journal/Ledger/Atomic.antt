-- ===== src/Journal/Ledger/Atomic.antt =====
-- The atomicity of runs of the journal's operations (src/evm_inventory/journal.py).
use evm_garbage_collector.Prelude.{refl}
use evm_garbage_collector.Journal.Session.{Connection, IsSettled, Leaves, Result, ok, err}
use evm_garbage_collector.Journal.Operations.{
  record_transaction, record_deposit_status, record_deferred, record_approval_hash,
  record_approval_completed_route_deferred,
}
use evm_garbage_collector.Journal.Atomic.Groups
use evm_garbage_collector.Journal.Atomic.Positions
use evm_garbage_collector.Journal.Atomic.Steps
use evm_garbage_collector.Journal.Atomic.Recovery
use evm_garbage_collector.Journal.Ledger.{
  StepCommand, GroupCommand, PositionCommand, OperationCommand, Command, outcome, run_step,
  run_group, run_position, run_operation, run,
}

outcome-Leaves :
    {A : Type 0} (c : Connection) (r : Result A × Connection) → Leaves c r → Leaves c (outcome r)
outcome-Leaves c (ok a, d) h = h
outcome-Leaves c (err e, d) h = h

module _ (c : Connection) (settled : IsSettled c) where
  run_step-Leaves : (m : StepCommand) → Leaves c (run_step m c)
  unfolding run_step
  run_step-Leaves (StepCommand.intent p key n d s h) =
      outcome-Leaves c _ (Steps.record_step_intent-Leaves c settled p key n d s h)
  run_step-Leaves (StepCommand.broadcast_attempt i h) =
      Steps.record_broadcast_attempt-Leaves c settled i h
  run_step-Leaves (StepCommand.receipt i s b) = Steps.record_receipt-Leaves c settled i s b
  run_step-Leaves (StepCommand.balance_baseline i b d) =
      Steps.record_balance_baseline-Leaves c settled i b d
  run_step-Leaves (StepCommand.timeout_report i r) =
      Steps.record_timeout_report-Leaves c settled i r
  run_step-Leaves (StepCommand.step_state i s) = Steps.record_step_state-Leaves c settled i s

  run_group-Leaves : (m : GroupCommand) → Leaves c (run_group m c)
  unfolding run_group
  run_group-Leaves (GroupCommand.open_group k w n b u) =
      outcome-Leaves c _ (Groups.get_or_create_group-Leaves c settled k w n b u)
  run_group-Leaves (GroupCommand.projection i l p) =
      Groups.record_group_projection-Leaves c settled i l p
  run_group-Leaves (GroupCommand.realized_loss i l) =
      Groups.record_group_realized_loss-Leaves c settled i l
  run_group-Leaves (GroupCommand.group_state i s r) =
      Groups.record_group_state-Leaves c settled i s r
  run_group-Leaves (GroupCommand.known_direct_deposit i k) =
      outcome-Leaves c _ (Recovery.reactivate_known_direct_deposit-Leaves c settled i k)
  run_group-Leaves (GroupCommand.legacy_gas_deferral i k) =
      outcome-Leaves c _ (Recovery.reactivate_legacy_gas_deferral-Leaves c settled i k)
  run_group-Leaves (GroupCommand.unsigned_retry i ks) =
      outcome-Leaves c _ (Recovery.reactivate_unsigned_retry_group-Leaves c settled i ks)

  run_position-Leaves : (m : PositionCommand) → Leaves c (run_position m c)
  unfolding run_position
  run_position-Leaves (PositionCommand.open_position k w g a n) =
      outcome-Leaves c _ (Positions.get_or_create_position-Leaves c settled k w g a n)
  run_position-Leaves (PositionCommand.position_state i s a b r) =
      Positions.record_position_state-Leaves c settled i s a b r
  run_position-Leaves (PositionCommand.requote_after_swap i q) =
      outcome-Leaves c _ (Positions.record_requote_after_swap-Leaves c settled i q)
  run_position-Leaves (PositionCommand.requote_after_bridge i q) =
      outcome-Leaves c _ (Positions.record_requote_after_bridge-Leaves c settled i q)
  run_position-Leaves (PositionCommand.checkpoint i k v) =
      Recovery.save_checkpoint-Leaves c settled i k v

  run_operation-Leaves : (m : OperationCommand) → Leaves c (run_operation m c)
  unfolding run_operation record_transaction record_deposit_status record_deferred
      record_approval_hash record_approval_completed_route_deferred
  run_operation-Leaves (OperationCommand.create w a) =
      outcome-Leaves c _ (Recovery.create_operation-Leaves c settled w a)
  run_operation-Leaves (OperationCommand.transaction_hash i h) =
      Recovery.update-Leaves c settled i _ _ _
  run_operation-Leaves (OperationCommand.deposit_status i s r) =
      Recovery.update-Leaves c settled i _ _ _
  run_operation-Leaves (OperationCommand.deferred i r) = Recovery.update-Leaves c settled i _ _ _
  run_operation-Leaves (OperationCommand.approval_hash i h) =
      Recovery.update-Leaves c settled i _ _ _
  run_operation-Leaves (OperationCommand.approval_completed i h r) =
      Recovery.update-Leaves c settled i _ _ _

  -- On a connection that has nothing uncommitted, every operation leaves nothing uncommitted
  -- behind it, and one that raises leaves the committed tables exactly as they were.
  pub run_atomic : (m : Command) → Leaves c (run m c)
  unfolding run
  run_atomic (Command.on_step m) = run_step-Leaves m
  run_atomic (Command.on_group m) = run_group-Leaves m
  run_atomic (Command.on_position m) = run_position-Leaves m
  run_atomic (Command.on_operation m) = run_operation-Leaves m
  run_atomic Command.crash = refl

pub Leaves-IsSettled :
    {A : Type 0} (c : Connection) (r : Result A × Connection) → Leaves c r → IsSettled r.1
Leaves-IsSettled c (ok a, d) h = h
Leaves-IsSettled c (err e, d) h = h.0

pub run-IsSettled : (m : Command) (c : Connection) → IsSettled c → IsSettled (run m c).1
run-IsSettled m c settled = Leaves-IsSettled c (run m c) (run_atomic c settled m)
