-- ===== src/Journal/History/Others.antt =====
-- The operations on the other tables, and the steps (src/evm_inventory/journal.py).
use evm_garbage_collector.Prelude.{
  ℕ, String, ◌≡◌, refl, true, Option, List, [], ◌∷◌, arith, Option-cases, inl, inr,
}
use evm_garbage_collector.Prelude.Int.{ℤ}
use evm_garbage_collector.Journal.Value.{Value}
use evm_garbage_collector.Journal.Inputs.{DecimalInput, RawInput}
use evm_garbage_collector.Journal.Tables.{
  Db, Group, Position, update_group, update_position, find_group,
}
use evm_garbage_collector.Journal.Session.{
  Connection, IsSettled, Session, Result, transaction, ◌>>=◌, ◌>>=◌,
}
use evm_garbage_collector.Journal.Operations.{create_operation}
use evm_garbage_collector.Journal.Groups.{
  insert_group, store_group, get_or_create_group, record_group_projection,
  record_group_realized_loss, record_group_state, group,
}
use evm_garbage_collector.Journal.Positions.{
  insert_position, store_position, get_or_create_position, record_position_state, group_positions,
  Requote, insert_event, record_requote_after_swap, record_requote_after_bridge,
}
use evm_garbage_collector.Journal.Checkpoints.{put_checkpoint, save_checkpoint}
use evm_garbage_collector.Journal.Reactivation.{
  set_position_state, set_group_state, reactivate_as, reactivate_known_direct_deposit,
  reactivate_legacy_gas_deferral, reactivate_unsigned_retry_group, retry_when_allowed,
  retry_members, retry_member, unfinished,
}

retry_members-steps :
    (g : Group) (ps : List Position) (db : Db) → (retry_members g ps db).steps ≡ db.steps
unfolding retry_members retry_member update_position put_checkpoint
retry_members-steps g [] db = refl
retry_members-steps g (p ∷ ps) db = retry_members-steps g ps (retry_member g p db)

abbrev pub KeepsSteps : {A : Type 0} → Connection → Result A × Connection → Type 0
KeepsSteps c (r, d) = d.work.steps ≡ c.work.steps

retry_when_allowed-KeepsSteps :
    (g : Group) (keys : List String) (c : Connection) → KeepsSteps c (retry_when_allowed g keys c)
unfolding retry_when_allowed update_group
retry_when_allowed-KeepsSteps g keys c =
    ground (arith, retry_members-steps g (unfinished (group_positions g.id c.work)) c.work)

retry_body-KeepsSteps :
    (i : ℕ) (keys : List String) (c : Connection)
    → KeepsSteps c ((group i >>= λ g. retry_when_allowed g keys) c)
unfolding group
retry_body-KeepsSteps i keys c = elim (Option-cases (find_group i c.work)) [
  | inl absent ↦ rw absent
  | inr (g, found) ↦ rw found (retry_when_allowed-KeepsSteps g keys c)
]

-- A transaction that is rolled back restores the steps, too.
transaction-KeepsSteps :
    {A : Type 0} (m : Session A)
    → ((d : Connection) → KeepsSteps d (m d))
    → ((d : Connection) → (m d).1.saved ≡ d.saved)
    → (c : Connection) → IsSettled c
    → KeepsSteps c (transaction m c)
unfolding transaction
transaction-KeepsSteps m keeps same c settled =
    let d = record c { in_transaction = true } in ground (arith, keeps d, same d)

module _ (c : Connection) where
  pub create_operation-KeepsSteps :
      (wallet action : String) → KeepsSteps c (create_operation wallet action c)
  unfolding create_operation
  create_operation-KeepsSteps wallet action = ground arith

  pub get_or_create_group-KeepsSteps :
      (key wallet : String) (chain : ℤ) (budget usd : DecimalInput)
      → KeepsSteps c (get_or_create_group key wallet chain budget usd c)
  unfolding get_or_create_group store_group insert_group
  get_or_create_group-KeepsSteps key wallet chain budget usd = ground arith

  pub record_group_projection-KeepsSteps :
      (i : ℕ) (loss pct : DecimalInput) → KeepsSteps c (record_group_projection i loss pct c)
  unfolding record_group_projection update_group
  record_group_projection-KeepsSteps i loss pct = ground arith

  pub record_group_realized_loss-KeepsSteps :
      (i : ℕ) (loss : DecimalInput) → KeepsSteps c (record_group_realized_loss i loss c)
  unfolding record_group_realized_loss update_group
  record_group_realized_loss-KeepsSteps i loss = ground arith

  pub record_group_state-KeepsSteps :
      (i : ℕ) (state : String) (reason : Option String)
      → KeepsSteps c (record_group_state i state reason c)
  unfolding record_group_state update_group
  record_group_state-KeepsSteps i state reason = ground arith

  pub get_or_create_position-KeepsSteps :
      (key wallet : String) (group_id : Option ℕ) (asset : Option String) (amount : Option RawInput)
      → KeepsSteps c (get_or_create_position key wallet group_id asset amount c)
  unfolding get_or_create_position store_position insert_position
  get_or_create_position-KeepsSteps key wallet group_id asset amount = ground arith

  pub record_position_state-KeepsSteps :
      (i : ℕ) (state : String) (asset : Option String) (balance : Option RawInput)
      (reason : Option String)
      → KeepsSteps c (record_position_state i state asset balance reason c)
  unfolding record_position_state update_position
  record_position_state-KeepsSteps i state asset balance reason = ground arith

  pub record_requote_after_swap-KeepsSteps :
      (i : ℕ) (q : Requote) → KeepsSteps c (record_requote_after_swap i q c)
  unfolding record_requote_after_swap insert_event update_position
  record_requote_after_swap-KeepsSteps i q = ground arith

  pub record_requote_after_bridge-KeepsSteps :
      (i : ℕ) (q : Requote) → KeepsSteps c (record_requote_after_bridge i q c)
  unfolding record_requote_after_bridge insert_event
  record_requote_after_bridge-KeepsSteps i q = ground arith

  pub save_checkpoint-KeepsSteps :
      (i : ℕ) (key : String) (v : Value) → KeepsSteps c (save_checkpoint i key v c)
  unfolding save_checkpoint put_checkpoint
  save_checkpoint-KeepsSteps i key v = ground arith

  pub reactivate_known_direct_deposit-KeepsSteps :
      (i : ℕ) (key : String) → KeepsSteps c (reactivate_known_direct_deposit i key c)
  unfolding reactivate_known_direct_deposit reactivate_as set_position_state set_group_state
      update_group update_position
  reactivate_known_direct_deposit-KeepsSteps i key = ground arith

  pub reactivate_legacy_gas_deferral-KeepsSteps :
      (i : ℕ) (key : String) → KeepsSteps c (reactivate_legacy_gas_deferral i key c)
  unfolding reactivate_legacy_gas_deferral reactivate_as set_position_state set_group_state
      update_group update_position
  reactivate_legacy_gas_deferral-KeepsSteps i key = ground arith

  pub reactivate_unsigned_retry_group-KeepsSteps :
      IsSettled c
      → (i : ℕ) (keys : List String) → KeepsSteps c (reactivate_unsigned_retry_group i keys c)
  unfolding reactivate_unsigned_retry_group retry_when_allowed
  reactivate_unsigned_retry_group-KeepsSteps settled i keys =
      transaction-KeepsSteps (group i >>= λ g. retry_when_allowed g keys)
        (retry_body-KeepsSteps i keys) (λ d. ground arith) c settled
