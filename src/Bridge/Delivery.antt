-- ===== src/Bridge/Delivery.antt =====
-- The loop of _await_cross_chain_transfer (src/evm_inventory/route_execution.py) over the journal's
-- connection. `polls` are the rounds of the loop in order, each with what it reads; where they are
-- over the wait goes on, and the result is `none`.
use evm_garbage_collector.Prelude.{
  ℕ, ◌+◌, String, Bool, true, false, ◌||◌, Option, none, some, List, [], ◌∷◌, lower, ltb, ◌==◌,
  text_eq, if◌then◌else◌,
}
use evm_garbage_collector.Prelude.Int.{ℤ}
use evm_garbage_collector.Journal.Value.{Value, dict, field, end, text, number}
use evm_garbage_collector.Journal.States.Steps.{StepState}
use evm_garbage_collector.Journal.Tables.{Step, latest_step}
use evm_garbage_collector.Journal.Session.{
  Session, Error, Result, ok, err, pure, raise, query, value_error, stage_deadline_exceeded, ◌>>=◌,
  ◌>>◌,
}
use evm_garbage_collector.Journal.Steps.{step, record_step_state}
use evm_garbage_collector.Journal.Checkpoints.{save_checkpoint}
use evm_garbage_collector.Bridge.{Status, Transfer, Reading, pending, arrived, read_status}

-- what jumper.transaction_status gives or raises
pub data Answer : Type 0 where
  transport_error : Answer
  http_status_error : ℕ → Answer
  timeout : Answer
  raises : Error → Answer
  status : Status → Answer

-- a round: whether the stage's time is over at its start, the answer, and the balance at the
-- destination, which is read only where the recipient is the sender
pub record Poll : Type 0 where
  pub is_over : Bool
  pub answer : Answer
  pub balance : Result ℕ

abbrev pub is_transient : ℕ → Bool
is_transient code =
    code == 408 || code == 429 || code == 500 || code == 502 || code == 503 || code == 504

-- a round's end: another one, after a sleep, or the arrival
unfoldable pub read_answer : Transfer → Answer → Result Reading
unfolding read_status
read_answer t transport_error = ok pending
read_answer t (http_status_error code) =
    if is_transient code then ok pending else err (value_error "HTTPStatusError")
read_answer t timeout = ok pending
read_answer t (raises e) = err e
read_answer t (status s) = read_status t s

-- the balance has to hold the arrival where the wallet sends to itself
unfoldable pub seen_in_balance : Transfer → String → ℕ → Result ℕ → Result Reading
seen_in_balance t hash amount balance =
    if text_eq (lower t.recipient) (lower t.sender)
    then elim t.baseline_raw [
      | none ↦ err (value_error "lifi_bridge_balance_baseline_missing")
      | some baseline ↦ elim balance [
        | err e ↦ err e
        | ok b ↦ ok (if ltb b (baseline + amount) then pending else arrived hash amount)
      ]
    ]
    else ok (arrived hash amount)

unfoldable pub confirmed_arrival : Transfer → Result ℕ → Result Reading → Result Reading
confirmed_arrival t balance (ok (arrived hash amount)) = seen_in_balance t hash amount balance
confirmed_arrival t balance r = r

unfoldable pub read_poll : Transfer → Poll → Result Reading
unfolding confirmed_arrival
read_poll t p =
    if p.is_over
    then err (stage_deadline_exceeded "stage_deadline_exceeded")
    else confirmed_arrival t p.balance (read_answer t p.answer)

-- the texts one after the other
unfoldable pub join : String → String → String
join String.[] t = t
join (String.◌∷◌ c s) t = String.◌∷◌ c (join s t)

abbrev pub delivery : Transfer → String → ℕ → Value
delivery t hash amount = dict (
    field "source_hash" (text t.tx_hash) (
      field "tx_hash" (text hash) (
        field "recipient" (text t.recipient) (
          field "chain_id" (number (ℤ.pos t.destination.chain_id)) (
            field "asset_id" (text t.destination.contract_address) (
              field "decimals" (number (ℤ.pos t.destination.decimals))
                (field "amount_raw" (number (ℤ.pos amount)) end)))))))

-- the step, on its way to awaiting_bridge
unfoldable pub wait_from : ℕ → StepState → Session (Unit {0})
wait_from i StepState.submitted = do
  record_step_state i "confirmed"
  record_step_state i "awaiting_bridge"
wait_from i StepState.confirmed = record_step_state i "awaiting_bridge"
wait_from i _ = pure tt

unfoldable pub credit_from : ℕ → StepState → Session (Unit {0})
credit_from i StepState.confirmed = do
  record_step_state i "awaiting_bridge"
  record_step_state i "credited"
credit_from i StepState.awaiting_bridge = record_step_state i "credited"
credit_from i _ = pure tt

unfoldable pub credit : Option Step → Session (Unit {0})
unfolding credit_from
credit none = pure tt
credit (some saved) = do row ← step saved.id; credit_from saved.id row.state

unfoldable pub deliver : Transfer → Option Step → String → ℕ → Session (Option ℕ)
deliver t saved hash amount = do
  save_checkpoint t.position_id (join "bridge_delivery:" t.step_key) (delivery t hash amount)
  credit saved
  pure (some amount)

-- a round that found nothing: under a stage it raises, else the loop sleeps and goes on
unfoldable pub after_poll :
    Bool → Transfer → Option Step → Session (Option ℕ) → Result Reading → Session (Option ℕ)
unfolding deliver
after_poll in_stage t saved rest (err e) = raise e
after_poll in_stage t saved rest (ok (arrived hash amount)) = deliver t saved hash amount
after_poll true t saved rest (ok pending) = raise (stage_deadline_exceeded "bridge_pending")
after_poll false t saved rest (ok pending) = rest

unfoldable pub poll_all : Bool → Transfer → Option Step → List Poll → Session (Option ℕ)
unfolding after_poll
poll_all in_stage t saved [] = pure none
poll_all in_stage t saved (p ∷ ps) =
    after_poll in_stage t saved (poll_all in_stage t saved ps) (read_poll t p)

unfoldable pub await_transfer : Bool → Transfer → List Poll → Session (Option ℕ)
unfolding poll_all wait_from
await_transfer in_stage t polls = do
  saved ← query (latest_step t.position_id t.step_key)
  (elim saved as (λ o. Session (Unit {0})) [
    | none ↦ pure tt
    | some row ↦ wait_from row.id row.state
  ])
  poll_all in_stage t saved polls
