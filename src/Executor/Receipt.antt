-- ===== src/Executor/Receipt.antt =====
-- wait_for_receipt of src/evm_inventory/executor.py. The rounds of its loop are a function from
-- their number: each has the clock's reading at the test, whether the stage's time is over then,
-- and the endpoint's answer. `none` is a loop that has run out of fuel.
use evm_garbage_collector.Prelude.{
  ℕ, zero, suc, ◌+◌, ◌≤◌, ◌<◌, ◌≡◌, refl, sym, ap, subst, ◌∙◌, ◌⊎◌, Bool, true, false, Option, none,
  some, ltb, ◌==◌, if◌then◌else◌, arith, Option-cases, Bool-cases, inl, inr,
}
use evm_garbage_collector.Rpc.{Answer, raised, returned, quantity}
use evm_garbage_collector.Journal.Value.{Value, null, bool, number, decimal, text, list, dict, get}
use evm_garbage_collector.Journal.Session.{
  Result, ok, err, value_error, rpc_error, timeout_error, stage_deadline_exceeded,
}
use evm_garbage_collector.Executor.Broadcast.{error_of}

pub record Round : Type 0 where
  pub clock : ℕ
  pub is_over : Bool
  pub answer : Answer

-- quantity(receipt.get("status")), of a dict
unfoldable pub status_of : Value → Option ℕ
status_of receipt = elim (get "status" (some receipt)) [ none ↦ none | some v ↦ quantity v ]

-- a receipt of a transaction that did not revert
unfoldable pub check_receipt : Value → Result (Option Value)
unfolding status_of
check_receipt receipt = elim (status_of receipt) [
  | none ↦ err (rpc_error "invalid_quantity")
  | some n ↦ if n == 1 then ok (some receipt) else err (value_error "transaction reverted")
]

unfoldable pub read_receipt : Answer → Result (Option Value)
unfolding check_receipt
read_receipt (raised f) = err (error_of f)
read_receipt (returned null) = ok none
read_receipt (returned (dict fields)) = check_receipt (dict fields)
read_receipt (returned _) = err (value_error "invalid transaction receipt")

unfoldable pub read_round : Round → Result (Option Value)
unfolding read_receipt
read_round r =
    if r.is_over
    then err (stage_deadline_exceeded "stage_deadline_exceeded")
    else read_receipt r.answer

-- without a receipt the loop sleeps, outside a stage
unfoldable pub end_round :
    Bool → Option (Result Value) → Result (Option Value) → Option (Result Value)
end_round in_stage rest (err e) = some (err e)
end_round in_stage rest (ok (some receipt)) = some (ok receipt)
end_round true rest (ok none) = some (err (stage_deadline_exceeded "receipt_pending"))
end_round false rest (ok none) = rest

module _ (rounds : ℕ → Round) (in_stage : Bool) (deadline : ℕ) where
  unfoldable pub wait_loop : ℕ → ℕ → Option (Result Value)
  unfolding end_round read_round
  wait_loop zero k = none
  wait_loop (suc fuel) k =
      let rest = wait_loop fuel (suc k) in
      if ltb (rounds k).clock deadline
      then end_round in_stage rest (read_round (rounds k))
      else some (err (timeout_error "transaction receipt timeout"))

-- `start` is the clock's reading before the loop
unfoldable pub wait_for_receipt : (ℕ → Round) → Bool → ℕ → ℕ → Option (Result Value)
unfolding wait_loop
wait_for_receipt rounds in_stage start timeout_seconds =
    wait_loop rounds in_stage (start + timeout_seconds) (suc timeout_seconds) 0

end_round-some :
    (in_stage : Bool) (rest : Option (Result Value)) (r : Result (Option Value))
    → (x : Result Value) × (rest ≡ some x)
    → (x : Result Value) × (end_round in_stage rest r ≡ some x)
unfolding end_round
end_round-some in_stage rest (err e) ends = (err e, refl)
end_round-some in_stage rest (ok (some receipt)) ends = (ok receipt, refl)
end_round-some true rest (ok none) ends = (err (stage_deadline_exceeded "receipt_pending"), refl)
end_round-some false rest (ok none) ends = ends

wait_loop-some :
    (rounds : ℕ → Round) (in_stage : Bool) (deadline fuel k : ℕ)
    → ((i : ℕ) → (rounds i).clock < (rounds (suc i)).clock)
    → deadline ≤ (rounds k).clock + fuel
    → (x : Result Value) × (wait_loop rounds in_stage deadline (suc fuel) k ≡ some x)
unfolding wait_loop
wait_loop-some rounds in_stage deadline zero k later h =
    (err (timeout_error "transaction receipt timeout"), ground arith)
wait_loop-some rounds in_stage deadline (suc fuel) k later h =
    elim (Bool-cases (ltb (rounds k).clock deadline)) [
      | inr over ↦ (err (timeout_error "transaction receipt timeout"), rw over refl)
      | inl early ↦
          let next = later k in
          rw early (
            end_round-some in_stage (wait_loop rounds in_stage deadline (suc fuel) (suc k))
              (read_round (rounds k))
              (wait_loop-some rounds in_stage deadline fuel (suc k) later omega arith))
    ]

-- The wait ends: where a round is later than the one before it by a unit of the clock at least,
-- which the sleep between them gives, and the first is not before the start, the loop needs no more
-- rounds than the timeout has units and one, whatever the endpoint answers.
pub wait_for_receipt_ends :
    (rounds : ℕ → Round) (in_stage : Bool) (start timeout_seconds : ℕ)
    → ((i : ℕ) → (rounds i).clock < (rounds (suc i)).clock)
    → start ≤ (rounds 0).clock
    → (x : Result Value) × (wait_for_receipt rounds in_stage start timeout_seconds ≡ some x)
unfolding wait_for_receipt
wait_for_receipt_ends rounds in_stage start timeout_seconds later h =
    wait_loop-some rounds in_stage (start + timeout_seconds) timeout_seconds 0 later omega arith

check_receipt_status :
    (v receipt : Value)
    → check_receipt v ≡ ok (some receipt)
    → (v ≡ receipt) × (status_of v ≡ some 1)
unfolding check_receipt
check_receipt_status v receipt e = elim (Option-cases (status_of v)) [
  | inl missing ↦ absurd (ground arith)
  | inr (n, there) ↦ (ground arith, ground arith)
]

read_receipt_status :
    (a : Answer) (receipt : Value)
    → read_receipt a ≡ ok (some receipt)
    → (a ≡ returned receipt) × (status_of receipt ≡ some 1)
unfolding read_receipt
read_receipt_status (raised f) receipt e = cc
read_receipt_status (returned null) receipt e = cc
read_receipt_status (returned (bool b)) receipt e = cc
read_receipt_status (returned (number n)) receipt e = cc
read_receipt_status (returned (decimal n)) receipt e = cc
read_receipt_status (returned (text s)) receipt e = cc
read_receipt_status (returned (list vs)) receipt e = cc
read_receipt_status (returned (dict fields)) receipt e =
    let (same, status) = check_receipt_status (dict fields) receipt e in
    (ap returned same, subst (λ (v : Value). status_of v ≡ some 1) same status)

round_receipt :
    (r : Round) (receipt : Value)
    → read_round r ≡ ok (some receipt)
    → read_receipt r.answer ≡ ok (some receipt)
unfolding read_round
round_receipt r receipt e = ground arith

end_round_receipt :
    (in_stage : Bool) (rest : Option (Result Value)) (r : Result (Option Value)) (receipt : Value)
    → end_round in_stage rest r ≡ some (ok receipt)
    → (r ≡ ok (some receipt)) ⊎ (rest ≡ some (ok receipt))
unfolding end_round
end_round_receipt in_stage rest (err x) receipt e = cc
end_round_receipt in_stage rest (ok (some v)) receipt e = inl cc
end_round_receipt true rest (ok none) receipt e = cc
end_round_receipt false rest (ok none) receipt e = inr e

wait_loop_receipt :
    (rounds : ℕ → Round) (in_stage : Bool) (deadline fuel k : ℕ) (receipt : Value)
    → wait_loop rounds in_stage deadline fuel k ≡ some (ok receipt)
    → (i : ℕ) × ((rounds i).clock < deadline)
      × ((rounds i).answer ≡ returned receipt)
      × (status_of receipt ≡ some 1)
unfolding wait_loop
wait_loop_receipt rounds in_stage deadline zero k receipt e = cc
wait_loop_receipt rounds in_stage deadline (suc fuel) k receipt e =
    elim (Bool-cases (ltb (rounds k).clock deadline)) [
      | inr over ↦ absurd (ground arith)
      | inl early ↦
          elim (end_round_receipt in_stage (wait_loop rounds in_stage deadline fuel (suc k))
            (read_round (rounds k)) receipt (sym (rw early refl) ∙ e)) [
              | inr later ↦ wait_loop_receipt rounds in_stage deadline fuel (suc k) receipt later
              | inl now ↦
                  let (answered, status) =
                    read_receipt_status (rounds k).answer receipt
                      (round_receipt (rounds k) receipt now) in
                  (k, ground arith, answered, status)
            ]
    ]

-- A receipt that the wait returns is the endpoint's answer in a round before the timeout, and its
-- status is 1: a transaction that reverted, or has no receipt yet, is never taken as done.
pub wait_for_receipt_success :
    (rounds : ℕ → Round) (in_stage : Bool) (start timeout_seconds : ℕ) (receipt : Value)
    → wait_for_receipt rounds in_stage start timeout_seconds ≡ some (ok receipt)
    → (i : ℕ) × ((rounds i).clock < start + timeout_seconds)
      × ((rounds i).answer ≡ returned receipt)
      × (status_of receipt ≡ some 1)
unfolding wait_for_receipt
wait_for_receipt_success rounds in_stage start timeout_seconds receipt e =
    wait_loop_receipt rounds in_stage (start + timeout_seconds) (suc timeout_seconds) 0 receipt e
