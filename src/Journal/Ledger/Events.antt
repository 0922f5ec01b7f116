-- ===== src/Journal/Ledger/Events.antt =====
-- Stored events over any run of the journal's operations (src/evm_inventory/journal.py).
use evm_garbage_collector.Prelude.{
  ℕ, String, ◌≡◌, refl, Bool, true, none, lower, List, [], ◌∷◌, any, any_appended, arith, ◌∙◌,
}
use evm_garbage_collector.Journal.Tables.{Event, EventType, Db, update_position}
use evm_garbage_collector.Journal.Session.{Connection, IsSettled, Result, ok, err}
use evm_garbage_collector.Journal.Operations.{
  record_transaction, record_deposit_status, record_deferred, record_approval_hash,
  record_approval_completed_route_deferred,
}
use evm_garbage_collector.Journal.Operations.{create_operation}
use evm_garbage_collector.Journal.Groups.{
  get_or_create_group, record_group_projection, record_group_realized_loss, record_group_state,
}
use evm_garbage_collector.Journal.Positions.{
  insert_event, position, Requote, checked_requote, get_or_create_position, record_position_state,
  record_requote_after_swap, record_requote_after_bridge,
}
use evm_garbage_collector.Journal.Steps.{
  record_step_intent, record_broadcast_attempt, record_receipt, record_balance_baseline,
  record_timeout_report, record_step_state,
}
use evm_garbage_collector.Journal.Checkpoints.{save_checkpoint}
use evm_garbage_collector.Journal.Reactivation.{
  reactivate_known_direct_deposit, reactivate_legacy_gas_deferral, reactivate_unsigned_retry_group,
}
use evm_garbage_collector.Journal.History.Events
use evm_garbage_collector.Journal.History.StepEvents
use evm_garbage_collector.Journal.History.Events.{KeepsEvents}
use evm_garbage_collector.Journal.Ledger.Atomic.{run-IsSettled}
use evm_garbage_collector.Journal.Ledger.{
  StepCommand, GroupCommand, PositionCommand, OperationCommand, Command, outcome, run_step,
  run_group, run_position, run_operation, run, run_all,
}

module _ (p : Event → Bool) where
  -- what an operation does to an event that is stored
  abbrev Saw : Connection → Connection → Type 0
  Saw c d = any p c.work.events ≡ true → any p d.work.events ≡ true

  outcome-Saw :
      {A : Type 0} (c : Connection) (r : Result A × Connection) → Saw c r.1 → Saw c (outcome r).1
  outcome-Saw c (ok a, d) h = h
  outcome-Saw c (err e, d) h = h

  same-Saw : {A : Type 0} (c : Connection) (r : Result A × Connection) → KeepsEvents c r → Saw c r.1
  same-Saw c (r, d) h seen = rw h seen

  raised-Saw :
      {A : Type 0} (c : Connection) (r : Result A × Connection)
      → KeepsEvents c r
      → Saw c (outcome r).1
  raised-Saw c r h = outcome-Saw c r (same-Saw c r h)

  inserted_more :
      (i n : ℕ) (kind : EventType) (q : Requote) (asset : String) (db : Db)
      → any p db.events ≡ true
      → any p (insert_event i kind q n asset db).events ≡ true
  unfolding insert_event
  inserted_more i n kind q asset db seen = any_appended p db.events _ ∙ rw seen refl

  module _ (c : Connection) where
    swap-Saw : (i : ℕ) (q : Requote) → Saw c (record_requote_after_swap i q c).1
    unfolding record_requote_after_swap position checked_requote update_position
    swap-Saw i q seen = grind (
      arith,
      λ (n : ℕ). inserted_more i n EventType.requote_after_swap q q.actual_asset_id c.work seen,
    )

    bridge-Saw : (i : ℕ) (q : Requote) → Saw c (record_requote_after_bridge i q c).1
    unfolding record_requote_after_bridge position checked_requote
    bridge-Saw i q seen = grind (
      arith,
      λ (n : ℕ).
          inserted_more i n EventType.requote_after_bridge (record q { reason = none })
            (lower q.actual_asset_id) c.work seen,
    )

    run_step-Saw : (m : StepCommand) → Saw c (run_step m c).1
    unfolding run_step
    run_step-Saw (StepCommand.intent o key n d s h) =
        raised-Saw c (record_step_intent o key n d s h c)
          (StepEvents.record_step_intent-KeepsEvents c o key n d s h)
    run_step-Saw (StepCommand.broadcast_attempt i h) =
        same-Saw c (record_broadcast_attempt i h c)
          (StepEvents.record_broadcast_attempt-KeepsEvents c i h)
    run_step-Saw (StepCommand.receipt i s b) =
        same-Saw c (record_receipt i s b c) (StepEvents.record_receipt-KeepsEvents c i s b)
    run_step-Saw (StepCommand.balance_baseline i b d) =
        same-Saw c (record_balance_baseline i b d c)
          (StepEvents.record_balance_baseline-KeepsEvents c i b d)
    run_step-Saw (StepCommand.timeout_report i r) =
        same-Saw c (record_timeout_report i r c)
          (StepEvents.record_timeout_report-KeepsEvents c i r)
    run_step-Saw (StepCommand.step_state i s) =
        same-Saw c (record_step_state i s c) (StepEvents.record_step_state-KeepsEvents c i s)

    run_group-Saw : IsSettled c → (m : GroupCommand) → Saw c (run_group m c).1
    unfolding run_group
    run_group-Saw settled (GroupCommand.open_group k w n b u) =
        raised-Saw c (get_or_create_group k w n b u c)
          (Events.get_or_create_group-KeepsEvents c k w n b u)
    run_group-Saw settled (GroupCommand.projection i l p) =
        same-Saw c (record_group_projection i l p c)
          (Events.record_group_projection-KeepsEvents c i l p)
    run_group-Saw settled (GroupCommand.realized_loss i l) =
        same-Saw c (record_group_realized_loss i l c)
          (Events.record_group_realized_loss-KeepsEvents c i l)
    run_group-Saw settled (GroupCommand.group_state i s r) =
        same-Saw c (record_group_state i s r c) (Events.record_group_state-KeepsEvents c i s r)
    run_group-Saw settled (GroupCommand.known_direct_deposit i k) =
        raised-Saw c (reactivate_known_direct_deposit i k c)
          (Events.reactivate_known_direct_deposit-KeepsEvents c i k)
    run_group-Saw settled (GroupCommand.legacy_gas_deferral i k) =
        raised-Saw c (reactivate_legacy_gas_deferral i k c)
          (Events.reactivate_legacy_gas_deferral-KeepsEvents c i k)
    run_group-Saw settled (GroupCommand.unsigned_retry i ks) =
        raised-Saw c (reactivate_unsigned_retry_group i ks c)
          (Events.reactivate_unsigned_retry_group-KeepsEvents c settled i ks)

    run_position-Saw : (m : PositionCommand) → Saw c (run_position m c).1
    unfolding run_position
    run_position-Saw (PositionCommand.open_position k w g a n) =
        raised-Saw c (get_or_create_position k w g a n c)
          (Events.get_or_create_position-KeepsEvents c k w g a n)
    run_position-Saw (PositionCommand.position_state i s a b r) =
        same-Saw c (record_position_state i s a b r c)
          (Events.record_position_state-KeepsEvents c i s a b r)
    run_position-Saw (PositionCommand.requote_after_swap i q) =
        outcome-Saw c (record_requote_after_swap i q c) (swap-Saw i q)
    run_position-Saw (PositionCommand.requote_after_bridge i q) =
        outcome-Saw c (record_requote_after_bridge i q c) (bridge-Saw i q)
    run_position-Saw (PositionCommand.checkpoint i k v) =
        same-Saw c (save_checkpoint i k v c) (Events.save_checkpoint-KeepsEvents c i k v)

    run_operation-Saw : (m : OperationCommand) → Saw c (run_operation m c).1
    unfolding run_operation record_transaction record_deposit_status record_deferred
        record_approval_hash record_approval_completed_route_deferred
    run_operation-Saw (OperationCommand.create w a) =
        raised-Saw c (create_operation w a c) (Events.create_operation-KeepsEvents c w a)
    run_operation-Saw (OperationCommand.transaction_hash i h) =
        same-Saw c (record_transaction i h c) refl
    run_operation-Saw (OperationCommand.deposit_status i s r) =
        same-Saw c (record_deposit_status i s r c) refl
    run_operation-Saw (OperationCommand.deferred i r) = same-Saw c (record_deferred i r c) refl
    run_operation-Saw (OperationCommand.approval_hash i h) =
        same-Saw c (record_approval_hash i h c) refl
    run_operation-Saw (OperationCommand.approval_completed i h r) =
        same-Saw c (record_approval_completed_route_deferred i h r c) refl

  run-Saw : (m : Command) (c : Connection) → IsSettled c → Saw c (run m c).1
  unfolding run
  run-Saw (Command.on_step m) c settled = run_step-Saw c m
  run-Saw (Command.on_group m) c settled = run_group-Saw c settled m
  run-Saw (Command.on_position m) c settled = run_position-Saw c m
  run-Saw (Command.on_operation m) c settled = run_operation-Saw c m
  run-Saw Command.crash c settled = λ seen. rw (← settled) seen

  -- An event that is stored in a settled journal is stored after any operations, crashes included.
  pub run_all-events :
      (ms : List Command) (c : Connection)
      → IsSettled c
      → any p c.work.events ≡ true
      → any p (run_all ms c).work.events ≡ true
  unfolding run_all
  run_all-events [] c settled seen = seen
  run_all-events (m ∷ ms) c settled seen =
      run_all-events ms (run m c).1 (run-IsSettled m c settled) (run-Saw m c settled seen)
