-- ===== src/Journal/Ledger/History.antt =====
-- Stored steps over any run of the journal's operations (src/evm_inventory/journal.py).
use evm_garbage_collector.Prelude.{ℕ, ◌≡◌, refl, true, some, List, [], ◌∷◌}
use evm_garbage_collector.Journal.Tables.{Step, find_step}
use evm_garbage_collector.Journal.Session.{Connection, IsSettled, Result, ok, err, opened}
use evm_garbage_collector.Journal.Operations.{
  record_transaction, record_deposit_status, record_deferred, record_approval_hash,
  record_approval_completed_route_deferred,
}
use evm_garbage_collector.Journal.Operations.{create_operation}
use evm_garbage_collector.Journal.Groups.{
  get_or_create_group, record_group_projection, record_group_realized_loss, record_group_state,
}
use evm_garbage_collector.Journal.Positions.{
  get_or_create_position, record_position_state, record_requote_after_swap,
  record_requote_after_bridge,
}
use evm_garbage_collector.Journal.Checkpoints.{save_checkpoint}
use evm_garbage_collector.Journal.Reactivation.{
  reactivate_known_direct_deposit, reactivate_legacy_gas_deferral, reactivate_unsigned_retry_group,
}
use evm_garbage_collector.Journal.History.Paths.{Evolves, StepPath-terminal, is_terminal}
use evm_garbage_collector.Journal.History.Later.{Above, Later, Later-refl, Later-trans}
use evm_garbage_collector.Journal.History.Steps
use evm_garbage_collector.Journal.History.Steps.{Grows}
use evm_garbage_collector.Journal.History.Intents
use evm_garbage_collector.Journal.History.Others
use evm_garbage_collector.Journal.History.Others.{KeepsSteps}
use evm_garbage_collector.Journal.Ledger.Atomic.{run-IsSettled}
use evm_garbage_collector.Journal.Ledger.{
  StepCommand, GroupCommand, PositionCommand, OperationCommand, Command, outcome, run_step,
  run_group, run_position, run_operation, run, run_all,
}

outcome-Grows :
    {A : Type 0} (c : Connection) (r : Result A × Connection) → Grows c r.1 → Grows c (outcome r).1
outcome-Grows c (ok a, d) h = h
outcome-Grows c (err e, d) h = h

same-Grows :
    {A : Type 0} (c : Connection) (r : Result A × Connection) → KeepsSteps c r → Grows c r.1
same-Grows c (r, d) h above = rw h (Later-refl c.work.steps above)

raised-Grows :
    {A : Type 0} (c : Connection) (r : Result A × Connection)
    → KeepsSteps c r
    → Grows c (outcome r).1
raised-Grows c r h = outcome-Grows c r (same-Grows c r h)

module _ (c : Connection) where
  run_step-Grows : (m : StepCommand) → Grows c (run_step m c).1
  unfolding run_step
  run_step-Grows (StepCommand.intent p key n d s h) =
      outcome-Grows c _ (Intents.record_step_intent-Grows p key n d s h c)
  run_step-Grows (StepCommand.broadcast_attempt i h) = Steps.record_broadcast_attempt-Grows i c h
  run_step-Grows (StepCommand.receipt i s b) = Steps.record_receipt-Grows i c s b
  run_step-Grows (StepCommand.balance_baseline i b d) = Steps.record_balance_baseline-Grows i c b d
  run_step-Grows (StepCommand.timeout_report i r) = Steps.record_timeout_report-Grows i c r
  run_step-Grows (StepCommand.step_state i s) = Steps.record_step_state-Grows i c s

  run_group-Grows : IsSettled c → (m : GroupCommand) → Grows c (run_group m c).1
  unfolding run_group
  run_group-Grows settled (GroupCommand.open_group k w n b u) =
      raised-Grows c (get_or_create_group k w n b u c)
        (Others.get_or_create_group-KeepsSteps c k w n b u)
  run_group-Grows settled (GroupCommand.projection i l p) =
      same-Grows c (record_group_projection i l p c)
        (Others.record_group_projection-KeepsSteps c i l p)
  run_group-Grows settled (GroupCommand.realized_loss i l) =
      same-Grows c (record_group_realized_loss i l c)
        (Others.record_group_realized_loss-KeepsSteps c i l)
  run_group-Grows settled (GroupCommand.group_state i s r) =
      same-Grows c (record_group_state i s r c) (Others.record_group_state-KeepsSteps c i s r)
  run_group-Grows settled (GroupCommand.known_direct_deposit i k) =
      raised-Grows c (reactivate_known_direct_deposit i k c)
        (Others.reactivate_known_direct_deposit-KeepsSteps c i k)
  run_group-Grows settled (GroupCommand.legacy_gas_deferral i k) =
      raised-Grows c (reactivate_legacy_gas_deferral i k c)
        (Others.reactivate_legacy_gas_deferral-KeepsSteps c i k)
  run_group-Grows settled (GroupCommand.unsigned_retry i ks) =
      raised-Grows c (reactivate_unsigned_retry_group i ks c)
        (Others.reactivate_unsigned_retry_group-KeepsSteps c settled i ks)

  run_position-Grows : (m : PositionCommand) → Grows c (run_position m c).1
  unfolding run_position
  run_position-Grows (PositionCommand.open_position k w g a n) =
      raised-Grows c (get_or_create_position k w g a n c)
        (Others.get_or_create_position-KeepsSteps c k w g a n)
  run_position-Grows (PositionCommand.position_state i s a b r) =
      same-Grows c (record_position_state i s a b r c)
        (Others.record_position_state-KeepsSteps c i s a b r)
  run_position-Grows (PositionCommand.requote_after_swap i q) =
      raised-Grows c (record_requote_after_swap i q c)
        (Others.record_requote_after_swap-KeepsSteps c i q)
  run_position-Grows (PositionCommand.requote_after_bridge i q) =
      raised-Grows c (record_requote_after_bridge i q c)
        (Others.record_requote_after_bridge-KeepsSteps c i q)
  run_position-Grows (PositionCommand.checkpoint i k v) =
      same-Grows c (save_checkpoint i k v c) (Others.save_checkpoint-KeepsSteps c i k v)

  run_operation-Grows : (m : OperationCommand) → Grows c (run_operation m c).1
  unfolding run_operation record_transaction record_deposit_status record_deferred
      record_approval_hash record_approval_completed_route_deferred
  run_operation-Grows (OperationCommand.create w a) =
      raised-Grows c (create_operation w a c) (Others.create_operation-KeepsSteps c w a)
  run_operation-Grows (OperationCommand.transaction_hash i h) =
      same-Grows c (record_transaction i h c) refl
  run_operation-Grows (OperationCommand.deposit_status i s r) =
      same-Grows c (record_deposit_status i s r c) refl
  run_operation-Grows (OperationCommand.deferred i r) = same-Grows c (record_deferred i r c) refl
  run_operation-Grows (OperationCommand.approval_hash i h) =
      same-Grows c (record_approval_hash i h c) refl
  run_operation-Grows (OperationCommand.approval_completed i h r) =
      same-Grows c (record_approval_completed_route_deferred i h r c) refl

run-Grows : (m : Command) (c : Connection) → IsSettled c → Grows c (run m c).1
unfolding run
run-Grows (Command.on_step m) c settled = run_step-Grows c m
run-Grows (Command.on_group m) c settled = run_group-Grows c settled m
run-Grows (Command.on_position m) c settled = run_position-Grows c m
run-Grows (Command.on_operation m) c settled = run_operation-Grows c m
run-Grows Command.crash c settled = λ above. rw (← settled) (Later-refl c.work.steps above)

-- What holds of a connection between operations: it is settled, and ids ascend.
pub record IsSound (c : Connection) : Type 0 where
  pub settled : IsSettled c
  pub ordered : Above 0 c.work.steps

pub opened-IsSound : IsSound opened
opened-IsSound = record { settled = refl; ordered = tt }

pub run_all-Later :
    (ms : List Command) (c : Connection)
    → IsSound c
    → IsSound (run_all ms c) × Later c.work.steps (run_all ms c).work.steps
unfolding run_all
run_all-Later [] c s = (s, Later-refl c.work.steps s.ordered)
run_all-Later (m ∷ ms) c s =
    let d = (run m c).1 in
    let first = run-Grows m c s.settled s.ordered in
    let rest =
      run_all-Later ms d
        (record { settled = run-IsSettled m c s.settled; ordered = first.ordered }) in
    (rest.0, Later-trans c.work.steps d.work.steps (run_all ms d).work.steps first rest.1)

-- From a sound journal, after any operations, crashes included, a stored step is still there under
-- its id: its position, key, nonce and digests are the same, a transaction hash that it had it
-- still has, its broadcast attempts have not decreased, and its state was reached through the table
-- of transitions.
pub run_all-Evolves :
    (ms : List Command) (c : Connection) (i : ℕ) (x : Step)
    → IsSound c
    → find_step i c.work ≡ some x
    → (y : Step) × (find_step i (run_all ms c).saved ≡ some y) × Evolves x y
unfolding find_step
run_all-Evolves ms c i x s found =
    let (sound, later) = run_all-Later ms c s in rw (← sound.settled) (later.kept i x found)

-- In a sound journal, a step that is credited, completed, reverted, failed or under manual review
-- keeps that state whatever operations follow.
pub run_all_terminal :
    (ms : List Command) (c : Connection) (i : ℕ) (x : Step)
    → IsSound c
    → find_step i c.work ≡ some x
    → is_terminal x.state ≡ true
    → (y : Step) × (find_step i (run_all ms c).saved ≡ some y) × (y.state ≡ x.state)
run_all_terminal ms c i x s found final =
    let (y, there, e) = run_all-Evolves ms c i x s found in
    (y, there, StepPath-terminal e.path final)
