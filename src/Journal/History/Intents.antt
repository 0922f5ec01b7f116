-- ===== src/Journal/History/Intents.antt =====
-- A recorded intent and the table of steps (record_step_intent of
-- src/evm_inventory/journal.py).
use evm_garbage_collector.Prelude.{
  ℕ, String, ◌≡◌, refl, false, Option, none, some, arith, Option-cases, Bool-cases, inl, inr,
  ==_refl, is_some,
}
use evm_garbage_collector.Prelude.Int.{ℤ}
use evm_garbage_collector.Journal.States.Steps.{step_of_name}
use evm_garbage_collector.Journal.Tables.{Step, find_step, update_step}
use evm_garbage_collector.Journal.Session.{
  Connection, Result, ok, err, Session, write, commit, lift, ◌>>=◌, ◌>>◌, and_then,
}
use evm_garbage_collector.Journal.Steps.{
  StepIntent, find_intent, insert_step, same_digests, step_allows, attach_hash, step,
  transition_step, checked_intent, complete_intent, store_intent, record_step_intent,
}
use evm_garbage_collector.Journal.History.Paths.{Evolves-of, stay}
use evm_garbage_collector.Journal.History.Later.{
  lookup_found, lookup-update, Later-refl, Later-append,
}
use evm_garbage_collector.Journal.History.Steps.{
  Grows, Grows-refl, Grows-trans, bind-Grows, transition_step-Grows, update_step-Later,
}

-- the rest of an operation, at the connection that the part before it leaves
bind-Grows_at :
    {A B : Type 0} (m : Session A) (f : A → Session B) (c : Connection)
    → Grows c (m c).1
    → ((a : A) → Grows (m c).1 (f a (m c).1).1)
    → Grows c ((m >>= f) c).1
bind-Grows_at {A} {B} m f c first rest = let (r, d) = m c in go r d first rest
  where
    go :
        (r : Result A) (d : Connection)
        → Grows c d
        → ((a : A) → Grows d (f a d).1)
        → Grows c (and_then r f d).1
    go (ok a) d g h = Grows-trans c d (f a d).1 g (h a)
    go (err e) d g h = g

-- A transition leaves the hash of its step alone.
pub transition_step-hash :
    (i : ℕ) (state : String) (c : Connection) (row : Step)
    → find_step i c.work ≡ some row
    → row.tx_hash ≡ none
    → (y : Step) × (find_step i (transition_step i state c).1.work ≡ some y) × (y.tx_hash ≡ none)
unfolding transition_step find_step update_step
transition_step-hash i state c row found fresh = elim (Option-cases (step_of_name state)) [
  | inl unknown ↦ (row, rw (found, unknown) found, fresh)
  | inr (new, named) ↦ elim (Bool-cases (step_allows row.state new)) [
    | inl allowed ↦ (
      record row { state = new },
      rw (found, named, allowed)
          (rw (lookup-update i i (λ r. record r { state = new }) (λ s. refl) c.work.steps row found)
            (simp ==_refl)),
      fresh,
    )
    | inr refused ↦ (row, rw (found, named, refused) found, fresh)
  ]
]

pub attach_hash-Grows :
    (row : Step) (tx_hash : Option String) (c : Connection)
    → find_step row.id c.work ≡ some row
    → Grows c (attach_hash row tx_hash c).1
unfolding attach_hash
attach_hash-Grows row none c found = Grows-refl c
attach_hash-Grows row (some hash) c found = elim (Option-cases row.tx_hash) [
  | inr (saved, given) ↦ rw given (Grows-refl c)
  | inl fresh ↦ rw fresh (
      let (y, there, none_yet) = transition_step-hash row.id "submitted" c row found fresh in
      bind-Grows_at (transition_step row.id "submitted") _ c
        (transition_step-Grows row.id "submitted" c)
        (λ _.
          update_step-Later row.id (λ r. record r { tx_hash = some hash })
            (transition_step row.id "submitted" c).1.work (λ s. refl)
            (λ r e.
              Evolves-of r _ (refl, refl, refl, refl, refl, refl)
                (λ h g. cc (there, e, none_yet, g)) (omega arith) stay)))
]

pub insert_step-Grows : (k : StepIntent) (c : Connection) → Grows c (write (insert_step k) c).1
unfolding insert_step
insert_step-Grows k c h = elim (Bool-cases (is_some (find_intent k c.work.steps))) [
  | inl known ↦ rw known (Later-refl c.work.steps h)
  | inr new ↦ rw new (Later-append c.work.steps k h)
]

step-Grows : (i : ℕ) (c : Connection) → Grows c (step i c).1
unfolding step
step-Grows i c h = elim (Option-cases (find_step i c.work)) [
  | inl absent ↦ rw absent (Later-refl c.work.steps h)
  | inr (row, found) ↦ rw found (Later-refl c.work.steps h)
]

attached-Grows :
    (row : Step) (tx_hash : Option String) (c : Connection)
    → find_step row.id c.work ≡ some row
    → Grows c ((attach_hash row tx_hash >> (commit >> step row.id)) c).1
attached-Grows row tx_hash c found =
    bind-Grows (attach_hash row tx_hash) (λ _. commit >> step row.id) c
      (attach_hash-Grows row tx_hash c found)
      (λ _ d. step-Grows row.id (record d { saved = d.work; in_transaction = false }))

complete_intent-Grows :
    (k : StepIntent) (tx_hash : Option String) (c : Connection)
    → Grows c (complete_intent k tx_hash c).1
unfolding complete_intent find_intent find_step
complete_intent-Grows k tx_hash c h = elim (Option-cases (find_intent k c.work.steps)) [
  | inl absent ↦ rw absent (Later-refl c.work.steps h)
  | inr (row, found) ↦ rw found (elim (Bool-cases (same_digests k row)) [
    | inl same ↦
        rw same (attached-Grows row tx_hash c (lookup_found _ 0 c.work.steps row h found).1 h)
    | inr differ ↦ rw differ (Later-refl c.work.steps h)
  ])
]

pub record_step_intent-Grows :
    (position_id : ℕ) (key : String) (nonce : ℤ) (calldata payload : String)
    (tx_hash : Option String) (c : Connection)
    → Grows c (record_step_intent position_id key nonce calldata payload tx_hash c).1
unfolding record_step_intent store_intent
record_step_intent-Grows position_id key nonce calldata payload tx_hash c =
    bind-Grows (lift (checked_intent position_id key nonce calldata payload)) _ c (Grows-refl c)
      λ k d.
        bind-Grows (write (insert_step k)) (λ _. complete_intent k tx_hash) d
          (insert_step-Grows k d) λ _ e. complete_intent-Grows k tx_hash e
