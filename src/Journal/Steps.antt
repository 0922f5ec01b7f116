-- ===== src/Journal/Steps.antt =====
-- The route_steps table (record_step_intent … _transition_step of src/evm_inventory/journal.py).
use evm_garbage_collector.Prelude.{
  ℕ, ◌+◌, String, Bool, ◌&&◌, ◌||◌, not, Option, none, some, List, [], ◌∷◌, ◌++◌, coalesce, find,
  is_empty, is_some, ◌==◌, text_eq, if◌then◌else◌,
}
use evm_garbage_collector.Prelude.Int.{ℤ, is_negative, pos_part}
use evm_garbage_collector.Journal.States.Steps.{StepState, step_may, step_eq, step_of_name}
use evm_garbage_collector.Journal.Tables.{Step, Db, next_id, find_step, update_step}
use evm_garbage_collector.Journal.Inputs.{RawInput, raw_amount_text, sqlite_integer}
use evm_garbage_collector.Journal.Session.{
  Result, ok, refuse_if, Session, pure, query, lift, or_raise, raise_if, write, commit, key_error,
  value_error, ◌>>=◌, ◌>>◌,
}

-- what is stored of an intent before its broadcast
pub record StepIntent : Type 0 where
  pub position_id : ℕ
  pub step_key : String
  pub nonce : ℕ
  pub calldata_digest : String
  pub signed_payload_digest : String

unfoldable pub new_step : ℕ → StepIntent → Step
new_step i k = record {
  id = i;
  position_id = k.position_id;
  step_key = k.step_key;
  nonce = k.nonce;
  state = StepState.planned;
  calldata_digest = k.calldata_digest;
  signed_payload_digest = k.signed_payload_digest;
  tx_hash = none;
  broadcast_attempts = 0;
  receipt_status = none;
  finality_block = none;
  balance_baseline_raw = none;
  expected_delta_raw = none;
  balance_baseline_raw_text = none;
  expected_delta_raw_text = none;
  timeout_report = none;
}

unfoldable pub find_intent : StepIntent → List Step → Option Step
find_intent k = find (λ (s : Step).
    s.position_id == k.position_id && text_eq s.step_key k.step_key && s.nonce == k.nonce)

-- INSERT OR IGNORE: (position_id, step_key, nonce) is unique
unfoldable pub insert_step : StepIntent → Db → Db
insert_step k db =
    if is_some (find_intent k db.steps)
    then db
    else record db { steps = db.steps ++ new_step (next_id (λ (s : Step). s.id) db.steps) k ∷ [] }

-- the two tests of _transition_step
unfoldable pub step_allows : StepState → StepState → Bool
step_allows current state = step_eq state current || step_may current state

unfoldable pub step : ℕ → Session Step
step i = do found ← query (find_step i); or_raise key_error found

unfoldable pub transition_step : ℕ → String → Session (Unit {0})
unfolding step
transition_step i state = do
  row ← step i
  new ← or_raise (value_error "invalid route step state") (step_of_name state)
  raise_if (not (step_allows row.state new)) (value_error "invalid route step transition")
  write (update_step i (λ r. record r { state = new }))

-- what follows the test of the saved hash, the first argument
unfoldable pub attach_missing : Option String → Step → String → Session (Unit {0})
unfolding transition_step
attach_missing (some saved) row hash =
    raise_if (not (text_eq saved hash)) (value_error "conflicting durable transaction hash")
attach_missing none row hash = do
  transition_step row.id "submitted"
  write (update_step row.id (λ r. record r { tx_hash = some hash }))

-- the part of record_step_intent that is given a transaction hash
unfoldable pub attach_hash : Step → Option String → Session (Unit {0})
unfolding attach_missing
attach_hash row none = pure tt
attach_hash row (some hash) = attach_missing row.tx_hash row hash

-- the digests that were stored with the intent, and those of this call
unfoldable pub same_digests : StepIntent → Step → Bool
same_digests k row =
    text_eq row.calldata_digest k.calldata_digest
    && text_eq row.signed_payload_digest k.signed_payload_digest

-- the row that is found, the comparison, the hash and the commit
unfoldable pub complete_intent : StepIntent → Option String → Session Step
unfolding step attach_hash
complete_intent k tx_hash = do
  found ← query (λ db. find_intent k db.steps)
  row ← or_raise (value_error "assert row is not None") found
  raise_if (not (same_digests k row)) (value_error "conflicting durable step intent")
  attach_hash row tx_hash
  commit
  step row.id

unfoldable pub store_intent : StepIntent → Option String → Session Step
unfolding complete_intent
store_intent k tx_hash = do write (insert_step k); complete_intent k tx_hash

unfoldable pub checked_intent : ℕ → String → ℤ → String → String → Result StepIntent
checked_intent position_id step_key nonce calldata_digest signed_payload_digest =
    refuse_if
      (is_empty step_key
        || is_negative nonce
        || is_empty calldata_digest
        || is_empty signed_payload_digest)
      (value_error "invalid durable step intent")
      (ok (record {
        position_id = position_id;
        step_key = step_key;
        nonce = pos_part nonce;
        calldata_digest = calldata_digest;
        signed_payload_digest = signed_payload_digest;
      }))

unfoldable pub record_step_intent : ℕ → String → ℤ → String → String → Option String → Session Step
record_step_intent position_id step_key nonce calldata_digest signed_payload_digest tx_hash = do
  k ← lift (checked_intent position_id step_key nonce calldata_digest signed_payload_digest)
  store_intent k tx_hash

unfoldable pub record_broadcast_attempt : ℕ → String → Session (Unit {0})
unfolding transition_step
record_broadcast_attempt i tx_hash = do
  transition_step i "submitted"
  write (
      update_step i (λ r. record r {
        tx_hash = coalesce r.tx_hash (some tx_hash);
        broadcast_attempts = r.broadcast_attempts + 1;
      }))
  commit

unfoldable pub record_receipt : ℕ → String → Option ℤ → Session (Unit {0})
unfolding transition_step
record_receipt i status finality_block = do
  transition_step i status
  write (
      update_step i
        (λ r. record r { receipt_status = some status; finality_block = finality_block }))
  commit

unfoldable pub record_balance_baseline : ℕ → RawInput → RawInput → Session (Unit {0})
record_balance_baseline i balance_raw expected_delta_raw = do
  baseline ← lift (raw_amount_text balance_raw)
  expected ← lift (raw_amount_text expected_delta_raw)
  write (
      update_step i (λ r. record r {
        balance_baseline_raw = coalesce r.balance_baseline_raw (sqlite_integer baseline);
        expected_delta_raw = coalesce r.expected_delta_raw (sqlite_integer expected);
        balance_baseline_raw_text = coalesce r.balance_baseline_raw_text (some baseline);
        expected_delta_raw_text = coalesce r.expected_delta_raw_text (some expected);
      }))
  commit

unfoldable pub record_timeout_report : ℕ → String → Session (Unit {0})
unfolding transition_step
record_timeout_report i report = do
  transition_step i "bridge_timeout"
  write (update_step i (λ r. record r { timeout_report = some report }))
  commit

unfoldable pub record_step_state : ℕ → String → Session (Unit {0})
unfolding transition_step
record_step_state i state = do transition_step i state; commit
