-- ===== src/Executor/Broadcast.antt =====
-- The durable broadcast (recover_durable_broadcast, broadcast_signed_transaction and
-- broadcast_durable_transaction of src/evm_inventory/executor.py). The state is the journal's
-- connection and the list of what was sent, latest first, each with the tables that a crash at that
-- moment would have left. `sha256` is the digest of hashlib; the endpoint answers what it likes.
pub mod Durable
use evm_garbage_collector.Prelude.{
  ℕ, String, Bool, true, false, ◌&&◌, ◌||◌, not, Option, none, some, List, [], ◌∷◌, holds, ltb,
  ◌==◌, text_eq, lower, is_empty, if◌then◌else◌,
}
use evm_garbage_collector.Prelude.Int.{ℤ, eq_ℤ, pos}
use evm_garbage_collector.Rpc.{Fault, Answer, Endpoint, raised, returned, hex_length}
use evm_garbage_collector.Journal.Value.{Value, text, get, as_text, is_dict}
use evm_garbage_collector.Journal.Tables.{Db, Step, latest_step}
use evm_garbage_collector.Journal.Inputs.{RawInput}
use evm_garbage_collector.Journal.Session.{
  Connection, Error, Result, ok, err, Session, value_error, rpc_error, request_error, timeout_error,
  stage_deadline_exceeded, ambiguous_broadcast, key_error,
}
use evm_garbage_collector.Journal.Steps.{
  record_step_intent, record_broadcast_attempt, record_balance_baseline,
}

pub record Sent : Type 0 where
  pub raw_transaction : String
  pub saved : Db

pub record World : Type 0 where
  pub connection : Connection
  pub sent : List Sent

abbrev pub Action : Type 0 → Type 0
Action A = World → Result A × World

abbrev pub and_then : {A B : Type 0} → Result A → (A → Action B) → Action B
and_then (ok a) f w = f a w
and_then (err e) f w = (err e, w)

infixl 5 ◌>>=◌ ◌>>◌
abbrev pub ◌>>=◌ : {A B : Type 0} → Action A → (A → Action B) → Action B
◌>>=◌ m f w = let (r, w') = m w in and_then r f w'

abbrev pub ◌>>◌ : {A B : Type 0} → Action A → Action B → Action B
m >> k = m >>= λ _. k

abbrev pub pure : {A : Type 0} → A → Action A
pure a w = (ok a, w)

abbrev pub raise : {A : Type 0} → Error → Action A
raise e w = (err e, w)

-- an operation of the journal
abbrev pub journal : {A : Type 0} → Session A → Action A
journal m w = let (r, c) = m w.connection in (r, record w { connection = c })

abbrev pub latest : ℕ → String → Action (Option Step)
latest position_id key w = (ok (latest_step position_id key w.connection.work), w)

abbrev pub error_of : Fault → Error
error_of Fault.stage_deadline = stage_deadline_exceeded "stage"
error_of Fault.timeout = timeout_error "timeout"
error_of Fault.rpc_error = rpc_error "rpc_error"
error_of Fault.request_error = request_error "request_error"
error_of Fault.other = value_error "unexpected"

-- re.fullmatch(r"0x[0-9a-fA-F]+", raw_transaction) and r"0x[0-9a-fA-F]{64}"
unfoldable pub is_payload : String → Bool
is_payload s = holds (ltb 0) (hex_length s)

unfoldable pub is_hash : String → Bool
is_hash s = holds (λ n. n == 64) (hex_length s)

-- an optional text that is not empty
abbrev pub non_empty : Option String → Option String
non_empty none = none
non_empty (some s) = if is_empty s then none else some s

abbrev pub hash_of : Option Step → Option String
hash_of none = none
hash_of (some s) = non_empty s.tx_hash

-- the arguments of broadcast_durable_transaction
pub record Transaction : Type 0 where
  pub position_id : ℕ
  pub step_key : String
  pub nonce : ℤ
  pub calldata : String
  pub signed_transaction : String
  pub tx_hash : String
  pub balance_baseline_raw : Option RawInput
  pub expected_delta_raw : Option RawInput

-- previous["tx_hash"] if previous and previous["nonce"] == nonce
unfoldable pub existing_hash : ℤ → Option Step → Option String
existing_hash nonce none = none
existing_hash nonce (some s) = if eq_ℤ (pos s.nonce) nonce then non_empty s.tx_hash else none

module _ (sha256 : String → String) (call : Endpoint) where
  -- eth_getTransactionByHash finds a transaction whose hash, in lower case, is this text
  unfoldable pub is_observed : String → Answer → Result Bool
  is_observed hash (raised f) = err (error_of f)
  is_observed hash (returned v) =
      ok (elim (as_text (get "hash" (some v))) [ none ↦ false | some h ↦ text_eq (lower h) hash ])

  unfoldable pub observe : String → Action Bool
  unfolding is_observed
  observe hash w = (is_observed hash (call "eth_getTransactionByHash" hash), w)

  recover_saved : Option String → Action (Option String)
  unfolding observe
  recover_saved none = pure none
  recover_saved (some hash) = do
    seen ← observe hash
    if seen then pure (some hash) else raise (ambiguous_broadcast hash)

  unfoldable pub recover_durable_broadcast : ℕ → String → Action (Option String)
  unfolding recover_saved
  recover_durable_broadcast position_id key = do
    step ← latest position_id key
    recover_saved (hash_of step)

  -- the hash that eth_sendRawTransaction returns
  returned_hash : Answer → Result String
  returned_hash (raised f) = err (error_of f)
  returned_hash (returned v) = elim (as_text (some v)) [
    | none ↦ err (value_error "RPC did not return a transaction hash")
    | some h ↦
        if is_hash h
        then ok (lower h)
        else err (value_error "RPC did not return a transaction hash")
  ]

  -- the call itself, which is recorded whatever it answers
  send : String → Action String
  unfolding returned_hash
  send raw w = (
    returned_hash (call "eth_sendRawTransaction" raw),
    record w { sent = record { raw_transaction = raw; saved = w.connection.saved } ∷ w.sent },
  )

  unfoldable pub broadcast_signed_transaction : String → Action String
  unfolding send
  broadcast_signed_transaction raw =
      if is_payload raw then send raw else raise (value_error "invalid signed transaction")

  -- except (TimeoutError, RpcError): return None
  caught : String → Result String → Result (Option String)
  caught hash (ok h) =
      if text_eq h (lower hash)
      then ok (some h)
      else err (value_error "RPC transaction hash does not match durable intent")
  caught hash (err (timeout_error m)) = ok none
  caught hash (err (stage_deadline_exceeded m)) = ok none
  caught hash (err (rpc_error m)) = ok none
  caught hash (err e) = err e

  send_new : Transaction → Action (Option String)
  unfolding caught broadcast_signed_transaction
  send_new t w =
      let (r, w') = broadcast_signed_transaction t.signed_transaction w in (caught t.tx_hash r, w')

  observe_saved : String → Action (Option String)
  unfolding observe
  observe_saved hash = do seen ← observe hash; if seen then pure (some hash) else pure none

  -- where both amounts are given
  unfoldable pub record_baseline : Option RawInput → Option RawInput → ℕ → Action (Unit {0})
  record_baseline (some balance) (some delta) i = journal (record_balance_baseline i balance delta)
  record_baseline _ _ i = pure tt

  -- what follows the intent, by the hash that was saved before it
  unfoldable pub after_intent : Transaction → ℕ → Option String → Action (Option String)
  unfolding observe_saved send_new
  after_intent t i (some hash) = observe_saved hash
  after_intent t i none = do journal (record_broadcast_attempt i t.tx_hash); send_new t

  unfoldable pub record_intent : Transaction → Action Step
  record_intent t = journal (
      record_step_intent t.position_id t.step_key t.nonce (sha256 t.calldata)
        (sha256 t.signed_transaction) (some t.tx_hash))

  unfoldable pub broadcast_durable_transaction : Transaction → Action (Option String)
  unfolding record_intent record_baseline after_intent
  broadcast_durable_transaction t = do
    previous ← latest t.position_id t.step_key
    intent ← record_intent t
    record_baseline t.balance_baseline_raw t.expected_delta_raw intent.id
    after_intent t intent.id (existing_hash t.nonce previous)
