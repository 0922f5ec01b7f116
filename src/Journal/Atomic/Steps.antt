-- ===== src/Journal/Atomic/Steps.antt =====
-- Atomicity of the operations on route_steps (src/evm_inventory/journal.py).
use evm_garbage_collector.Prelude.{
  ℕ, String, ◌≡◌, refl, true, Option, none, some, inl, inr, arith, find-append_new,
  find-update_where, is_some, ◌==◌, ◌&&◌, ◌∙◌, Option-cases, Bool-cases, text_eq, text_eq_refl,
}
use evm_garbage_collector.Prelude.Int.{ℤ}
use evm_garbage_collector.Journal.States.Steps.{StepState, step_of_name, step_may}
use evm_garbage_collector.Journal.Tables.{Step, Db, next_id, find_step, update_step}
use evm_garbage_collector.Journal.Tables.Ids.{find_fresh, find_by_id}
use evm_garbage_collector.Journal.Inputs.{RawInput}
use evm_garbage_collector.Journal.Session.{
  Connection, IsSettled, Leaves, and_then-Leaves, Result, ok, err, Session, commit, ◌>>◌,
}
use evm_garbage_collector.Journal.Steps.{
  StepIntent, new_step, find_intent, insert_step, same_digests, step_allows, attach_hash,
  checked_intent, step, store_intent, record_step_intent, record_broadcast_attempt, record_receipt,
  record_balance_baseline, record_timeout_report, record_step_state,
}

-- the two updates of an intent that is given its hash
abbrev set_state : StepState → Step → Step
set_state state r = record r { state = state }

abbrev set_hash : String → Step → Step
set_hash hash r = record r { tx_hash = some hash }

submitted_name : step_of_name "submitted" ≡ some StepState.submitted
unfolding step_of_name
submitted_name = refl

-- How the part of an intent that attaches the hash ends: settled, or with nothing done.
abbrev Ends : {A : Type 0} → Connection → Result A × Connection → Type 0
Ends c (ok a, c') = IsSettled c'
Ends c (err e, c') = c' ≡ c

abbrev attached : Step → Option String → Session Step
attached row tx_hash = do attach_hash row tx_hash; commit; step row.id

find_step-update_step :
    (i j : ℕ) (f : Step → Step) (db : Db)
    → ((s : Step) → (f s).id ≡ s.id)
    → is_some (find_step i db) ≡ true
    → is_some (find_step i (update_step j f db)) ≡ true
unfolding find_step update_step
find_step-update_step i j f db keeps there =
    find-update_where (λ (s : Step). s.id == i) (λ s. s.id == j) f (λ s. rw (keeps s) refl) db.steps
    ∙ there

attached-Ends :
    (row : Step) (tx_hash : Option String) (c : Connection)
    → is_some (find_step row.id c.work) ≡ true
    → Ends c (attached row tx_hash c)
unfolding attach_hash step
attached-Ends row none c there = ground arith
attached-Ends row (some hash) c there =
    let there' =
      find_step-update_step row.id row.id (set_state StepState.submitted) c.work (λ s. refl)
        there in
    ground (
      arith,
      submitted_name,
      there,
      there',
      find_step-update_step row.id row.id (set_hash hash)
          (update_step row.id (set_state StepState.submitted) c.work) (λ s. refl) there',
    )

find_step_new :
    (k : StepIntent) (db : Db)
    → find_intent k db.steps ≡ none
    → find_step (next_id (λ (s : Step). s.id) db.steps) (insert_step k db)
      ≡ some (new_step (next_id (λ (s : Step). s.id) db.steps) k)
unfolding find_step insert_step new_step
find_step_new k db h = rw h (
    find-append_new (λ (s : Step). s.id == next_id (λ (s : Step). s.id) db.steps) db.steps
      (new_step (next_id (λ (s : Step). s.id) db.steps) k)
      (find_fresh (λ (s : Step). s.id) db.steps) (ground arith))

pub find-insert_step :
    (k : StepIntent) (db : Db)
    → find_intent k db.steps ≡ none
    → find_intent k (insert_step k db).steps
      ≡ some (new_step (next_id (λ (s : Step). s.id) db.steps) k)
unfolding find_intent insert_step new_step
find-insert_step k db h = rw h (
    find-append_new
      (λ (s : Step).
        s.position_id == k.position_id && text_eq s.step_key k.step_key && s.nonce == k.nonce)
      db.steps (new_step (next_id (λ (s : Step). s.id) db.steps) k) h
      (ground (arith, text_eq_refl k.step_key)))

pub insert_step_known :
    (k : StepIntent) (db : Db) {s : Step} → find_intent k db.steps ≡ some s → insert_step k db ≡ db
unfolding insert_step
insert_step_known k db h = rw h

same_digests-new_step : (i : ℕ) (k : StepIntent) → same_digests k (new_step i k) ≡ true
unfolding same_digests new_step
same_digests-new_step i k =
    ground (arith, text_eq_refl k.calldata_digest, text_eq_refl k.signed_payload_digest)

Ends-Leaves :
    {A : Type 0} (c d : Connection)
    → IsSettled d
    → d.saved ≡ c.saved
    → (r : Result A × Connection) → Ends d r
    → Leaves c r
Ends-Leaves c d settled same (ok a, c') h = h
Ends-Leaves c d settled same (err e, c') h = (rw h settled, rw h same)

abbrev Succeeds : {A : Type 0} → Result A × Connection → Type 0
Succeeds (ok a, c') = IsSettled c'
Succeeds (err e, c') = ⊥

Succeeds-Leaves :
    {A : Type 0} (c : Connection) (r : Result A × Connection) → Succeeds r → Leaves c r
Succeeds-Leaves c (ok a, c') h = h
Succeeds-Leaves c (err e, c') h = absurd h

-- A row that was just inserted takes its hash.
attached-Succeeds :
    (row : Step) (tx_hash : Option String) (c : Connection)
    → find_step row.id c.work ≡ some row
    → row.tx_hash ≡ none
    → row.state ≡ StepState.planned
    → Succeeds (attached row tx_hash c)
unfolding attach_hash step step_allows step_may
attached-Succeeds row none c there fresh planned = ground arith
attached-Succeeds row (some hash) c there fresh planned =
    let there' =
      find_step-update_step row.id row.id (set_state StepState.submitted) c.work (λ s. refl)
        (rw there refl) in
    ground (
      arith,
      submitted_name,
      there',
      find_step-update_step row.id row.id (set_hash hash)
          (update_step row.id (set_state StepState.submitted) c.work) (λ s. refl) there',
    )

pub store_intent-Leaves :
    (c : Connection)
    → IsSettled c
    → (k : StepIntent) (tx_hash : Option String) → Leaves c (store_intent k tx_hash c)
unfolding store_intent new_step next_id
store_intent-Leaves c settled k tx_hash = elim (Option-cases (find_intent k c.work.steps)) [
  | inl new ↦
      let i = next_id (λ (s : Step). s.id) c.work.steps in
      rw (find-insert_step k c.work new, same_digests-new_step i k)
        (Succeeds-Leaves c _ (
          attached-Succeeds (new_step i k) tx_hash
            (record c { work = insert_step k c.work; in_transaction = true })
            (find_step_new k c.work new) (unfold new_step in refl) (unfold new_step in refl)))
  | inr (s, known) ↦
      rw (insert_step_known k c.work known, known)
        (elim (Bool-cases (same_digests k s)) [
          | inl same ↦ rw same (
              Ends-Leaves c (record c { in_transaction = true }) settled refl _
                (attached-Ends s tx_hash (record c { in_transaction = true })
                  (unfold find_intent find_step in
                    find_by_id (λ (s : Step). s.id) _ c.work.steps s known)))
          | inr differ ↦ rw differ (settled, refl)
        ])
]

module _ (c : Connection) (settled : IsSettled c) where
  pub record_broadcast_attempt-Leaves :
      (i : ℕ) (tx_hash : String) → Leaves c (record_broadcast_attempt i tx_hash c)
  unfolding record_broadcast_attempt
  record_broadcast_attempt-Leaves i tx_hash = ground arith

  pub record_receipt-Leaves :
      (i : ℕ) (status : String) (block : Option ℤ) → Leaves c (record_receipt i status block c)
  unfolding record_receipt
  record_receipt-Leaves i status block = ground arith

  pub record_balance_baseline-Leaves :
      (i : ℕ) (balance delta : RawInput) → Leaves c (record_balance_baseline i balance delta c)
  unfolding record_balance_baseline
  record_balance_baseline-Leaves i balance delta = ground arith

  pub record_timeout_report-Leaves :
      (i : ℕ) (report : String) → Leaves c (record_timeout_report i report c)
  unfolding record_timeout_report
  record_timeout_report-Leaves i report = ground arith

  pub record_step_state-Leaves : (i : ℕ) (state : String) → Leaves c (record_step_state i state c)
  unfolding record_step_state
  record_step_state-Leaves i state = ground arith

  pub record_step_intent-Leaves :
      (position_id : ℕ) (key : String) (nonce : ℤ) (calldata payload : String)
      (tx_hash : Option String)
      → Leaves c (record_step_intent position_id key nonce calldata payload tx_hash c)
  unfolding record_step_intent
  record_step_intent-Leaves position_id key nonce calldata payload tx_hash =
      and_then-Leaves c settled (checked_intent position_id key nonce calldata payload)
        (λ k. store_intent k tx_hash) (λ k. store_intent-Leaves c settled k tx_hash)
