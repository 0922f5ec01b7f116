-- ===== src/Journal/History/Steps.antt =====
-- The operations on steps, and the order of their tables (src/evm_inventory/journal.py).
use evm_garbage_collector.Prelude.{
  ℕ, String, ◌≡◌, refl, true, Option, some, arith, Option-cases, Bool-cases, inl, inr, coalesce,
}
use evm_garbage_collector.Prelude.Int.{ℤ}
use evm_garbage_collector.Journal.States.Steps.{StepState, step_of_name}
use evm_garbage_collector.Journal.Tables.{Step, Db, find_step, update_step}
use evm_garbage_collector.Journal.Inputs.{RawInput, raw_amount_text}
use evm_garbage_collector.Journal.Session.{
  Connection, Result, ok, err, Session, write, commit, lift, and_then, ◌>>=◌, ◌>>◌,
}
use evm_garbage_collector.Journal.Steps.{
  step_allows, transition_step, record_broadcast_attempt, record_receipt, record_balance_baseline,
  record_timeout_report, record_step_state,
}
use evm_garbage_collector.Journal.History.Paths.{Evolves, Evolves-of, StepPath-allows, stay}
use evm_garbage_collector.Journal.History.Later.{
  Above, Later, Later-refl, Later-trans, Later-update,
}

-- what a part of an operation does to the steps that the connection reads
abbrev pub Grows : Connection → Connection → Type 0
Grows c d = Above 0 c.work.steps → Later c.work.steps d.work.steps

pub Grows-refl : (c : Connection) → Grows c c
Grows-refl c = Later-refl c.work.steps

pub Grows-trans : (c d e : Connection) → Grows c d → Grows d e → Grows c e
Grows-trans c d e p q h =
    let l = p h in Later-trans c.work.steps d.work.steps e.work.steps l (q l.ordered)

-- the rest of an operation after a part of it
pub bind-Grows :
    {A B : Type 0} (m : Session A) (f : A → Session B) (c : Connection)
    → Grows c (m c).1
    → ((a : A) (d : Connection) → Grows d (f a d).1)
    → Grows c ((m >>= f) c).1
bind-Grows {A} {B} m f c first rest = let (r, d) = m c in go r d first
  where
    go : (r : Result A) (d : Connection) → Grows c d → Grows c (and_then r f d).1
    go (ok a) d g = Grows-trans c d (f a d).1 g (rest a d)
    go (err e) d g = g

set_state-Evolves :
    (row : Step) (new : StepState)
    → step_allows row.state new ≡ true
    → Evolves row (record row { state = new })
set_state-Evolves row new h =
    Evolves-of row (record row { state = new }) (refl, refl, refl, refl, refl, refl) (λ h e. e)
      (omega arith) (StepPath-allows row.state new h)

pub update_step-Later :
    (i : ℕ) (f : Step → Step) (db : Db)
    → ((s : Step) → (f s).id ≡ s.id)
    → ((row : Step) → find_step i db ≡ some row → Evolves row (f row))
    → Above 0 db.steps
    → Later db.steps (update_step i f db).steps
unfolding update_step find_step
update_step-Later i f db keeps evolves h = Later-update i f db.steps h keeps evolves

-- A transition is refused, or follows the table from the state of the row with this id.
pub transition_step-Grows :
    (i : ℕ) (state : String) (c : Connection) → Grows c (transition_step i state c).1
unfolding transition_step
transition_step-Grows i state c = elim (Option-cases (find_step i c.work)) [
  | inl absent ↦ rw absent (Grows-refl c)
  | inr (row, found) ↦ rw found (elim (Option-cases (step_of_name state)) [
    | inl unknown ↦ rw unknown (Grows-refl c)
    | inr (new, named) ↦ rw named (elim (Bool-cases (step_allows row.state new)) [
      | inl allowed ↦ rw allowed (
          update_step-Later i (λ r. record r { state = new }) c.work (λ s. refl)
            (λ r e. set_state-Evolves r new (cc (allowed, found, e))))
      | inr refused ↦ rw refused (Grows-refl c)
    ])
  ])
]

-- An update of the other columns of one step, and the commit.
update_commit-Grows :
    (i : ℕ) (f : Step → Step)
    → ((s : Step) → Evolves s (f s))
    → (c : Connection) → Grows c ((write (update_step i f) >> commit) c).1
update_commit-Grows i f evolves c =
    update_step-Later i f c.work (λ s. (evolves s).id) (λ row e. evolves row)

-- A transition, an update of other columns, and the commit.
transition_then-Grows :
    (i : ℕ) (state : String) (f : Step → Step)
    → ((s : Step) → Evolves s (f s))
    → (c : Connection)
    → Grows c ((transition_step i state >> (write (update_step i f) >> commit)) c).1
transition_then-Grows i state f evolves c =
    bind-Grows (transition_step i state) (λ _. write (update_step i f) >> commit) c
      (transition_step-Grows i state c) (λ _ d. update_commit-Grows i f evolves d)

coalesce_kept :
    (o : Option String) (d : Option String) (h : String) → o ≡ some h → coalesce o d ≡ some h
coalesce_kept o d h e = rw e refl

module _ (i : ℕ) (c : Connection) where
  pub record_broadcast_attempt-Grows :
      (tx_hash : String) → Grows c (record_broadcast_attempt i tx_hash c).1
  unfolding record_broadcast_attempt
  record_broadcast_attempt-Grows tx_hash =
      transition_then-Grows i "submitted" _
        (λ s.
          Evolves-of s _ (refl, refl, refl, refl, refl, refl)
            (coalesce_kept s.tx_hash (some tx_hash)) (omega arith) stay)
        c

  pub record_receipt-Grows :
      (status : String) (block : Option ℤ) → Grows c (record_receipt i status block c).1
  unfolding record_receipt
  record_receipt-Grows status block =
      transition_then-Grows i status _
        (λ s. Evolves-of s _ (refl, refl, refl, refl, refl, refl) (λ h e. e) (omega arith) stay) c

  pub record_timeout_report-Grows : (report : String) → Grows c (record_timeout_report i report c).1
  unfolding record_timeout_report
  record_timeout_report-Grows report =
      transition_then-Grows i "bridge_timeout" _
        (λ s. Evolves-of s _ (refl, refl, refl, refl, refl, refl) (λ h e. e) (omega arith) stay) c

  pub record_step_state-Grows : (state : String) → Grows c (record_step_state i state c).1
  unfolding record_step_state
  record_step_state-Grows state =
      bind-Grows (transition_step i state) (λ _. commit) c (transition_step-Grows i state c)
        (λ _ d. Grows-refl d)

  pub record_balance_baseline-Grows :
      (balance delta : RawInput) → Grows c (record_balance_baseline i balance delta c).1
  unfolding record_balance_baseline
  record_balance_baseline-Grows balance delta =
      bind-Grows (lift (raw_amount_text balance)) _ c (Grows-refl c) λ baseline d.
        bind-Grows (lift (raw_amount_text delta)) _ d (Grows-refl d) λ expected e.
          update_commit-Grows i _
            (λ s. Evolves-of s _ (refl, refl, refl, refl, refl, refl) (λ h e. e) (omega arith) stay)
            e
