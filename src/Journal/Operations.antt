-- ===== src/Journal/Operations.antt =====
-- The operations table (create_operation … operation and _update of
-- src/evm_inventory/journal.py).
use evm_garbage_collector.Prelude.{
  ℕ, String, Bool, Option, none, some, List, [], ◌∷◌, ◌++◌, any, not, ◌&&◌, ◌==◌, coalesce, text_eq,
  lower, update_where, if◌then◌else◌,
}
use evm_garbage_collector.Journal.Tables.{Operation, Db, next_id, find_operation}
use evm_garbage_collector.Journal.Session.{
  Session, pure, query, or_raise, write, commit, key_error, ◌>>=◌, ◌>>◌,
}

new_operation : ℕ → String → String → Operation
new_operation i wallet action = record {
  id = i;
  wallet = wallet;
  action = action;
  state = "planned";
  tx_hash = none;
  deposit_status = none;
  reason = none;
  approval_tx_hash = none;
}

insert_operation : String → String → Db → Db
unfolding new_operation
insert_operation wallet action db =
    let i = next_id (λ (o : Operation). o.id) db.operations in
    record db { operations = db.operations ++ new_operation i wallet action ∷ [] }

-- the id is `cursor.lastrowid`, that of the inserted row
unfoldable pub create_operation : String → String → Session ℕ
unfolding insert_operation
create_operation wallet action = do
  i ← query (λ db. next_id (λ (o : Operation). o.id) db.operations)
  write (insert_operation (lower wallet) action)
  commit
  pure i

-- the columns that `_update` sets where it is given a value
pub record Change : Type 0 where
  pub tx_hash : Option String
  pub status : Option String
  pub reason : Option String
  pub approval_tx_hash : Option String

abbrev pub no_change : Change
no_change = record { tx_hash = none; status = none; reason = none; approval_tx_hash = none }

unfoldable pub changed : String → Change → Operation → Operation
changed state ch o = record o {
  state = state;
  tx_hash = coalesce ch.tx_hash o.tx_hash;
  approval_tx_hash = coalesce ch.approval_tx_hash o.approval_tx_hash;
  deposit_status = coalesce ch.status o.deposit_status;
  reason = coalesce ch.reason o.reason;
}

-- WHERE id=? AND state NOT IN (…)
unfoldable pub may_update : ℕ → List String → Operation → Bool
may_update i unless_states o = o.id == i && not (any (text_eq o.state) unless_states)

update_operations : ℕ → String → Change → List String → Db → Db
update_operations i state ch unless_states db = record db {
  operations = update_where (may_update i unless_states) (changed state ch) db.operations;
}

unfoldable pub update : ℕ → String → Change → List String → Session (Unit {0})
unfolding update_operations
update i state ch unless_states = do write (update_operations i state ch unless_states); commit

abbrev pub kept_states : List String
kept_states = "deferred" ∷ "approval_completed_route_deferred" ∷ []

unfoldable pub record_transaction : ℕ → String → Session (Unit {0})
unfolding update
record_transaction i tx_hash =
    update i "submitted" (record no_change { tx_hash = some tx_hash }) kept_states

unfoldable pub record_deposit_status : ℕ → String → Option String → Session (Unit {0})
unfolding update
record_deposit_status i status reason =
    let state : String = if text_eq status "success" then "completed" else "deposit_pending" in
    update i state (record no_change { status = some status; reason = reason }) kept_states

unfoldable pub record_deferred : ℕ → String → Session (Unit {0})
unfolding update
record_deferred i reason = update i "deferred" (record no_change { reason = some reason }) []

unfoldable pub record_approval_hash : ℕ → String → Session (Unit {0})
unfolding update
record_approval_hash i hash =
    update i "submitted" (record no_change { approval_tx_hash = some hash }) []

unfoldable pub record_approval_completed_route_deferred : ℕ → String → String → Session (Unit {0})
unfolding update
record_approval_completed_route_deferred i hash reason =
    update i "approval_completed_route_deferred"
      (record no_change { approval_tx_hash = some hash; reason = some reason }) []

unfoldable pub operation : ℕ → Session Operation
operation i = do found ← query (find_operation i); or_raise key_error found
