-- ===== src/Journal/History/Events.antt =====
-- The operations that write no event, and the events (src/evm_inventory/journal.py).
use evm_garbage_collector.Prelude.{
  ℕ, String, ◌≡◌, refl, true, Option, List, [], ◌∷◌, arith, Option-cases, inl, inr,
}
use evm_garbage_collector.Prelude.Int.{ℤ}
use evm_garbage_collector.Journal.Value.{Value}
use evm_garbage_collector.Journal.Inputs.{DecimalInput, RawInput}
use evm_garbage_collector.Journal.Tables.{
  Db, Group, Position, update_group, update_position, find_group,
}
use evm_garbage_collector.Journal.Session.{
  Connection, IsSettled, Session, Result, transaction, ◌>>=◌,
}
use evm_garbage_collector.Journal.Operations.{create_operation}
use evm_garbage_collector.Journal.Groups.{
  insert_group, store_group, get_or_create_group, record_group_projection,
  record_group_realized_loss, record_group_state, group,
}
use evm_garbage_collector.Journal.Positions.{
  insert_position, store_position, get_or_create_position, record_position_state, group_positions,
}
use evm_garbage_collector.Journal.Checkpoints.{put_checkpoint, save_checkpoint}
use evm_garbage_collector.Journal.Reactivation.{
  set_position_state, set_group_state, reactivate_as, reactivate_known_direct_deposit,
  reactivate_legacy_gas_deferral, reactivate_unsigned_retry_group, retry_when_allowed,
  retry_members, retry_member, unfinished,
}

retry_members-events :
    (g : Group) (ps : List Position) (db : Db) → (retry_members g ps db).events ≡ db.events
unfolding retry_members retry_member update_position put_checkpoint
retry_members-events g [] db = refl
retry_members-events g (p ∷ ps) db = retry_members-events g ps (retry_member g p db)

abbrev pub KeepsEvents : {A : Type 0} → Connection → Result A × Connection → Type 0
KeepsEvents c (r, d) = d.work.events ≡ c.work.events

retry_when_allowed-KeepsEvents :
    (g : Group) (keys : List String) (c : Connection) → KeepsEvents c (retry_when_allowed g keys c)
unfolding retry_when_allowed update_group
retry_when_allowed-KeepsEvents g keys c =
    ground (arith, retry_members-events g (unfinished (group_positions g.id c.work)) c.work)

retry_body-KeepsEvents :
    (i : ℕ) (keys : List String) (c : Connection)
    → KeepsEvents c ((group i >>= λ g. retry_when_allowed g keys) c)
unfolding group
retry_body-KeepsEvents i keys c = elim (Option-cases (find_group i c.work)) [
  | inl absent ↦ rw absent
  | inr (g, found) ↦ rw found (retry_when_allowed-KeepsEvents g keys c)
]

-- A transaction that is rolled back restores the steps, too.
transaction-KeepsEvents :
    {A : Type 0} (m : Session A)
    → ((d : Connection) → KeepsEvents d (m d))
    → ((d : Connection) → (m d).1.saved ≡ d.saved)
    → (c : Connection) → IsSettled c
    → KeepsEvents c (transaction m c)
unfolding transaction
transaction-KeepsEvents m keeps same c settled =
    let d = record c { in_transaction = true } in ground (arith, keeps d, same d)

module _ (c : Connection) where
  pub create_operation-KeepsEvents :
      (wallet action : String) → KeepsEvents c (create_operation wallet action c)
  unfolding create_operation
  create_operation-KeepsEvents wallet action = ground arith

  pub get_or_create_group-KeepsEvents :
      (key wallet : String) (chain : ℤ) (budget usd : DecimalInput)
      → KeepsEvents c (get_or_create_group key wallet chain budget usd c)
  unfolding get_or_create_group store_group insert_group
  get_or_create_group-KeepsEvents key wallet chain budget usd = ground arith

  pub record_group_projection-KeepsEvents :
      (i : ℕ) (loss pct : DecimalInput) → KeepsEvents c (record_group_projection i loss pct c)
  unfolding record_group_projection update_group
  record_group_projection-KeepsEvents i loss pct = ground arith

  pub record_group_realized_loss-KeepsEvents :
      (i : ℕ) (loss : DecimalInput) → KeepsEvents c (record_group_realized_loss i loss c)
  unfolding record_group_realized_loss update_group
  record_group_realized_loss-KeepsEvents i loss = ground arith

  pub record_group_state-KeepsEvents :
      (i : ℕ) (state : String) (reason : Option String)
      → KeepsEvents c (record_group_state i state reason c)
  unfolding record_group_state update_group
  record_group_state-KeepsEvents i state reason = ground arith

  pub get_or_create_position-KeepsEvents :
      (key wallet : String) (group_id : Option ℕ) (asset : Option String) (amount : Option RawInput)
      → KeepsEvents c (get_or_create_position key wallet group_id asset amount c)
  unfolding get_or_create_position store_position insert_position
  get_or_create_position-KeepsEvents key wallet group_id asset amount = ground arith

  pub record_position_state-KeepsEvents :
      (i : ℕ) (state : String) (asset : Option String) (balance : Option RawInput)
      (reason : Option String)
      → KeepsEvents c (record_position_state i state asset balance reason c)
  unfolding record_position_state update_position
  record_position_state-KeepsEvents i state asset balance reason = ground arith

  pub save_checkpoint-KeepsEvents :
      (i : ℕ) (key : String) (v : Value) → KeepsEvents c (save_checkpoint i key v c)
  unfolding save_checkpoint put_checkpoint
  save_checkpoint-KeepsEvents i key v = ground arith

  pub reactivate_known_direct_deposit-KeepsEvents :
      (i : ℕ) (key : String) → KeepsEvents c (reactivate_known_direct_deposit i key c)
  unfolding reactivate_known_direct_deposit reactivate_as set_position_state set_group_state
      update_group update_position
  reactivate_known_direct_deposit-KeepsEvents i key = ground arith

  pub reactivate_legacy_gas_deferral-KeepsEvents :
      (i : ℕ) (key : String) → KeepsEvents c (reactivate_legacy_gas_deferral i key c)
  unfolding reactivate_legacy_gas_deferral reactivate_as set_position_state set_group_state
      update_group update_position
  reactivate_legacy_gas_deferral-KeepsEvents i key = ground arith

  pub reactivate_unsigned_retry_group-KeepsEvents :
      IsSettled c
      → (i : ℕ) (keys : List String) → KeepsEvents c (reactivate_unsigned_retry_group i keys c)
  unfolding reactivate_unsigned_retry_group retry_when_allowed
  reactivate_unsigned_retry_group-KeepsEvents settled i keys =
      transaction-KeepsEvents (group i >>= λ g. retry_when_allowed g keys)
        (retry_body-KeepsEvents i keys) (λ d. ground arith) c settled
