-- ===== src/Journal/Atomic/Recovery.antt =====
-- Atomicity of the recoveries and of the operations on checkpoints and on the operations table
-- (src/evm_inventory/journal.py).
use evm_garbage_collector.Prelude.{ℕ, String, ◌≡◌, true, List, arith}
use evm_garbage_collector.Journal.Value.{Value}
use evm_garbage_collector.Journal.Session.{Connection, IsSettled, Leaves, Session, transaction}
use evm_garbage_collector.Journal.Checkpoints.{save_checkpoint}
use evm_garbage_collector.Journal.Reactivation.{
  reactivate_as, retry_when_allowed, reactivate_known_direct_deposit,
  reactivate_legacy_gas_deferral, reactivate_unsigned_retry_group,
}
use evm_garbage_collector.Journal.Operations.{create_operation, Change, update}

-- the body of a transaction does not commit, so that a roll-back restores all of it
abbrev KeepsSaved : {A : Type 0} → Session A → Type 0
KeepsSaved m = (c : Connection) → (m c).1.saved ≡ c.saved

transaction-Leaves :
    {A : Type 0} (m : Session A)
    → KeepsSaved m
    → (c : Connection) → IsSettled c
    → Leaves c (transaction m c)
unfolding transaction
transaction-Leaves m keeps c settled = ground (arith, keeps (record c { in_transaction = true }))

module _ (c : Connection) (settled : IsSettled c) where
  pub save_checkpoint-Leaves :
      (i : ℕ) (key : String) (v : Value) → Leaves c (save_checkpoint i key v c)
  unfolding save_checkpoint
  save_checkpoint-Leaves i key v = ground arith

  pub create_operation-Leaves :
      (wallet action : String) → Leaves c (create_operation wallet action c)
  unfolding create_operation
  create_operation-Leaves wallet action = ground arith

  pub update-Leaves :
      (i : ℕ) (state : String) (ch : Change) (unless_states : List String)
      → Leaves c (update i state ch unless_states c)
  unfolding update
  update-Leaves i state ch unless_states = ground arith

  pub reactivate_known_direct_deposit-Leaves :
      (i : ℕ) (key : String) → Leaves c (reactivate_known_direct_deposit i key c)
  unfolding reactivate_known_direct_deposit reactivate_as
  reactivate_known_direct_deposit-Leaves i key = ground arith

  pub reactivate_legacy_gas_deferral-Leaves :
      (i : ℕ) (key : String) → Leaves c (reactivate_legacy_gas_deferral i key c)
  unfolding reactivate_legacy_gas_deferral reactivate_as
  reactivate_legacy_gas_deferral-Leaves i key = ground arith

  pub reactivate_unsigned_retry_group-Leaves :
      (i : ℕ) (keys : List String) → Leaves c (reactivate_unsigned_retry_group i keys c)
  unfolding reactivate_unsigned_retry_group retry_when_allowed
  reactivate_unsigned_retry_group-Leaves i keys = transaction-Leaves _ (λ d. ground arith) c settled
