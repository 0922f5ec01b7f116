-- ===== src/Journal/History/StepEvents.antt =====
-- The operations on steps, and the events (src/evm_inventory/journal.py).
use evm_garbage_collector.Prelude.{ℕ, String, ◌≡◌, refl, Option, none, some, arith, ◌∙◌}
use evm_garbage_collector.Prelude.Int.{ℤ}
use evm_garbage_collector.Journal.Inputs.{RawInput}
use evm_garbage_collector.Journal.Tables.{Step, update_step, find_step}
use evm_garbage_collector.Journal.Session.{
  Connection, Session, Error, Result, ok, err, key_error, committed, or_raise, raise_if, and_then,
  lift, write, ◌>>=◌,
}
use evm_garbage_collector.Journal.Steps.{
  StepIntent, find_intent, step, insert_step, transition_step, attach_missing, attach_hash,
  complete_intent, store_intent, checked_intent, record_step_intent, record_broadcast_attempt,
  record_receipt, record_balance_baseline, record_timeout_report, record_step_state,
}
use evm_garbage_collector.Journal.History.Events.{KeepsEvents}

bind-KeepsEvents :
    {A B : Type 0} (m : Session A) (f : A → Session B)
    → ((c : Connection) → KeepsEvents c (m c))
    → ((a : A) (c : Connection) → KeepsEvents c (f a c))
    → (c : Connection) → KeepsEvents c ((m >>= f) c)
bind-KeepsEvents {A} {B} m f first rest c = let (r, d) = m c in go r d (first c)
  where
    go :
        (r : Result A) (d : Connection)
        → d.work.events ≡ c.work.events
        → KeepsEvents c (and_then r f d)
    go (ok a) d e = rest a d ∙ e
    go (err x) d e = e

transition_step-KeepsEvents :
    (i : ℕ) (state : String) (c : Connection) → KeepsEvents c (transition_step i state c)
unfolding transition_step step update_step
transition_step-KeepsEvents i state c = ground arith

attach_hash-KeepsEvents :
    (row : Step) (hash : Option String) (c : Connection) → KeepsEvents c (attach_hash row hash c)
unfolding attach_hash attach_missing update_step
attach_hash-KeepsEvents row none c = refl
attach_hash-KeepsEvents row (some h) c =
    ground (arith, transition_step-KeepsEvents row.id "submitted" c)

or_raise-KeepsEvents :
    {A : Type 0} (e : Error) (o : Option A) (c : Connection) → KeepsEvents c (or_raise e o c)
or_raise-KeepsEvents e none c = refl
or_raise-KeepsEvents e (some a) c = refl

step-KeepsEvents : (i : ℕ) (c : Connection) → KeepsEvents c (step i c)
unfolding step
step-KeepsEvents i c = or_raise-KeepsEvents key_error (find_step i c.work) c

complete_intent-KeepsEvents :
    (k : StepIntent) (hash : Option String) (c : Connection)
    → KeepsEvents c (complete_intent k hash c)
unfolding complete_intent
complete_intent-KeepsEvents k hash c =
    bind-KeepsEvents (or_raise _ (find_intent k c.work.steps)) _ (or_raise-KeepsEvents _ _)
      (λ row.
        bind-KeepsEvents (raise_if _ _) _ (λ d. refl)
          (λ _.
            bind-KeepsEvents (attach_hash row hash) _ (attach_hash-KeepsEvents row hash)
              (λ _ d. step-KeepsEvents row.id (committed d))))
      c

module _ (c : Connection) where
  pub record_step_intent-KeepsEvents :
      (position_id : ℕ) (key : String) (nonce : ℤ) (calldata payload : String)
      (hash : Option String)
      → KeepsEvents c (record_step_intent position_id key nonce calldata payload hash c)
  unfolding record_step_intent store_intent insert_step
  record_step_intent-KeepsEvents position_id key nonce calldata payload hash =
      bind-KeepsEvents (lift (checked_intent position_id key nonce calldata payload)) _ (λ d. refl)
        (λ k.
          bind-KeepsEvents (write (insert_step k)) (λ _. complete_intent k hash) (λ d. ground arith)
            (λ _. complete_intent-KeepsEvents k hash))
        c

  pub record_broadcast_attempt-KeepsEvents :
      (i : ℕ) (hash : String) → KeepsEvents c (record_broadcast_attempt i hash c)
  unfolding record_broadcast_attempt update_step
  record_broadcast_attempt-KeepsEvents i hash =
      bind-KeepsEvents (transition_step i "submitted") _ (transition_step-KeepsEvents i "submitted")
        (λ _ d. refl) c

  pub record_receipt-KeepsEvents :
      (i : ℕ) (status : String) (block : Option ℤ) → KeepsEvents c (record_receipt i status block c)
  unfolding record_receipt update_step
  record_receipt-KeepsEvents i status block =
      bind-KeepsEvents (transition_step i status) _ (transition_step-KeepsEvents i status)
        (λ _ d. refl) c

  pub record_timeout_report-KeepsEvents :
      (i : ℕ) (report : String) → KeepsEvents c (record_timeout_report i report c)
  unfolding record_timeout_report update_step
  record_timeout_report-KeepsEvents i report =
      bind-KeepsEvents (transition_step i "bridge_timeout") _
        (transition_step-KeepsEvents i "bridge_timeout") (λ _ d. refl) c

  pub record_step_state-KeepsEvents :
      (i : ℕ) (state : String) → KeepsEvents c (record_step_state i state c)
  unfolding record_step_state
  record_step_state-KeepsEvents i state =
      bind-KeepsEvents (transition_step i state) _ (transition_step-KeepsEvents i state)
        (λ _ d. refl) c

  pub record_balance_baseline-KeepsEvents :
      (i : ℕ) (balance delta : RawInput) → KeepsEvents c (record_balance_baseline i balance delta c)
  unfolding record_balance_baseline update_step
  record_balance_baseline-KeepsEvents i balance delta = ground arith
