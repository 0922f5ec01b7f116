-- ===== src/Journal/History/Durable.antt =====
-- The step that record_step_intent returns, and what is committed (src/evm_inventory/journal.py).
use evm_garbage_collector.Prelude.{
  ℕ, String, ◌≡◌, refl, sym, subst, ◌∙◌, true, ◌&&◌, ◌||◌, is_empty, Option, none, some, List,
  arith, Option-cases, Bool-cases, inl, inr, find_holds, text_eq, text_eq_iff, ◌==◌, ==_refl,
  ==_refl,
}
use evm_garbage_collector.Prelude.Int.{ℤ, pos_part, is_negative}
use evm_garbage_collector.Journal.Tables.{Step, Db, find_step, update_step}
use evm_garbage_collector.Journal.Session.{
  Connection, Result, ok, err, Session, commit, and_then, ◌>>=◌, ◌>>◌,
}
use evm_garbage_collector.Journal.Steps.{
  StepIntent, find_intent, insert_step, same_digests, attach_missing, attach_hash, step,
  transition_step, checked_intent, complete_intent, store_intent, record_step_intent,
}
use evm_garbage_collector.Journal.History.Paths.{Evolves}
use evm_garbage_collector.Journal.History.Later.{Above, lookup_found, lookup-update, Later}
use evm_garbage_collector.Journal.History.Intents.{
  transition_step-hash, attach_hash-Grows, insert_step-Grows,
}

-- what holds of a returned value and of the connection then; nothing, after a raise
abbrev pub Returns : {A : Type 0} → (A → Connection → Type 0) → Result A × Connection → Type 0
Returns P (ok a, c) = P a c
Returns P (err e, c) = Unit

-- the row of an intent, with the hash that the caller gave
pub record Stored (k : StepIntent) (tx_hash : Option String) (db : Db) (y : Step) : Type 0 where
  pub there : find_step y.id db ≡ some y
  pub position_id : y.position_id ≡ k.position_id
  pub step_key : y.step_key ≡ k.step_key
  pub nonce : y.nonce ≡ k.nonce
  pub calldata_digest : y.calldata_digest ≡ k.calldata_digest
  pub signed_payload_digest : y.signed_payload_digest ≡ k.signed_payload_digest
  pub hash : (h : String) → tx_hash ≡ some h → y.tx_hash ≡ some h

-- The columns by which an intent is found.
find_intent_columns :
    (k : StepIntent) (row : Step) (xs : List Step)
    → find_intent k xs ≡ some row
    → (row.position_id ≡ k.position_id) × (row.step_key ≡ k.step_key) × (row.nonce ≡ k.nonce)
unfolding find_intent
find_intent_columns k row xs found =
    let test =
      find_holds
        (λ (s : Step).
          s.position_id == k.position_id && text_eq s.step_key k.step_key && s.nonce == k.nonce)
        xs row found in
    ground (arith, test, text_eq_iff row.step_key k.step_key)

same_digests_columns :
    (k : StepIntent) (row : Step)
    → same_digests k row ≡ true
    → (row.calldata_digest ≡ k.calldata_digest)
      × (row.signed_payload_digest ≡ k.signed_payload_digest)
unfolding same_digests
same_digests_columns k row h = ground (
  arith,
  text_eq_iff row.calldata_digest k.calldata_digest,
  text_eq_iff row.signed_payload_digest k.signed_payload_digest,
)

abbrev HasHash : Step → Option String → Unit {0} → Connection → Type 0
HasHash row tx_hash _ d =
    (y : Step)
    → find_step row.id d.work ≡ some y
    → (h : String) → tx_hash ≡ some h
    → y.tx_hash ≡ some h

bind-Returns :
    {A B : Type 0} (P : B → Connection → Type 0) (m : Session A) (f : A → Session B)
    (c : Connection)
    → ((a : A) → (m c).0 ≡ ok a → Returns P (f a (m c).1))
    → Returns P ((m >>= f) c)
bind-Returns {A} {B} P m f c h = let (r, d) = m c in go r d h
  where
    go :
        (r : Result A) (d : Connection)
        → ((a : A) → r ≡ ok a → Returns P (f a d))
        → Returns P (and_then r f d)
    go (ok a) d h = h a refl
    go (err e) d h = tt

-- Where the hash is attached, the row has it.
attach_missing-HasHash :
    (o : Option String) (row : Step) (hash : String) (c : Connection)
    → row.tx_hash ≡ o
    → find_step row.id c.work ≡ some row
    → Returns (HasHash row (some hash)) (attach_missing o row hash c)
unfolding attach_missing find_step update_step
attach_missing-HasHash (some saved) row hash c given found =
    elim (Bool-cases (text_eq saved hash)) [
      | inr other ↦ rw other tt
      | inl same ↦
          rw same λ y there h e. cc (there, found, given, e, (text_eq_iff saved hash).0 same)
    ]
attach_missing-HasHash none row hash c fresh found =
    bind-Returns (HasHash row (some hash)) (transition_step row.id "submitted") _ c λ _ _.
      λ y there h e.
        let (r, moved, _) = transition_step-hash row.id "submitted" c row found fresh in
        cc (
          lookup-update row.id row.id (λ s. record s { tx_hash = some hash }) (λ s. refl)
              (transition_step row.id "submitted" c).1.work.steps r moved,
          there,
          e,
          ==_refl row.id,
        )

attach_hash-HasHash :
    (row : Step) (tx_hash : Option String) (c : Connection)
    → find_step row.id c.work ≡ some row
    → Returns (HasHash row tx_hash) (attach_hash row tx_hash c)
unfolding attach_hash
attach_hash-HasHash row none c found = λ y there h e. cc
attach_hash-HasHash row (some hash) c found =
    attach_missing-HasHash row.tx_hash row hash c refl found

-- The row that is read back at the end of an intent.
Stored-row :
    (k : StepIntent) (tx_hash : Option String) (row y : Step) (c d : Connection)
    → find_intent k c.work.steps ≡ some row
    → same_digests k row ≡ true
    → Evolves row y
    → find_step row.id d.work ≡ some y
    → HasHash row tx_hash tt d
    → Stored k tx_hash d.work y
Stored-row k tx_hash row y c d found same e there hash =
    let (position_id, step_key, nonce) = find_intent_columns k row c.work.steps found in
    let (calldata, payload) = same_digests_columns k row same in
    record {
      there = subst (λ i. find_step i d.work ≡ some y) (sym e.id) there;
      position_id = e.position_id ∙ position_id;
      step_key = e.step_key ∙ step_key;
      nonce = e.nonce ∙ nonce;
      calldata_digest = e.calldata_digest ∙ calldata;
      signed_payload_digest = e.signed_payload_digest ∙ payload;
      hash = hash y there;
    }

abbrev IsStored : StepIntent → Option String → Step → Connection → Type 0
IsStored k tx_hash y d = Stored k tx_hash d.saved y

-- After the hash is attached: the commit, and the row under its id.
read_back :
    (k : StepIntent) (tx_hash : Option String) (row : Step) (c d : Connection)
    → find_intent k c.work.steps ≡ some row
    → same_digests k row ≡ true
    → Later c.work.steps d.work.steps
    → find_step row.id c.work ≡ some row
    → HasHash row tx_hash tt d
    → Returns (IsStored k tx_hash) ((commit >> step row.id) d)
unfolding step find_step
read_back k tx_hash row c d found same later there hash =
    let (y, now, e) = later.kept row.id row there in
    rw now (Stored-row k tx_hash row y c d found same e now hash)

hash_of_ok :
    {a : Unit {0}} (row : Step) (tx_hash : Option String) (r : Result (Unit {0})) (d : Connection)
    → Returns (HasHash row tx_hash) (r, d)
    → r ≡ ok a
    → HasHash row tx_hash tt d
hash_of_ok row tx_hash (ok b) d h e = h
hash_of_ok row tx_hash (err x) d h e = cc

complete_intent-IsStored :
    (k : StepIntent) (tx_hash : Option String) (c : Connection)
    → Above 0 c.work.steps
    → Returns (IsStored k tx_hash) (complete_intent k tx_hash c)
unfolding complete_intent find_step find_intent
complete_intent-IsStored k tx_hash c h = elim (Option-cases (find_intent k c.work.steps)) [
  | inl absent ↦ rw absent tt
  | inr (row, found) ↦ rw found (elim (Bool-cases (same_digests k row)) [
    | inr differ ↦ rw differ tt
    | inl same ↦ rw same (
        let there = (lookup_found _ 0 c.work.steps row h found).1 in
        bind-Returns (IsStored k tx_hash) (attach_hash row tx_hash) (λ _. commit >> step row.id) c
          λ _ fine.
            read_back k tx_hash row c (attach_hash row tx_hash c).1 found same
              (attach_hash-Grows row tx_hash c there h) there
              (hash_of_ok row tx_hash (attach_hash row tx_hash c).0 (attach_hash row tx_hash c).1
                (attach_hash-HasHash row tx_hash c there) fine))
  ])
]

-- Where ids ascend and record_step_intent returns, the row that it returns is committed: it has the
-- position, key, nonce and digests of the call, and the transaction hash, where one is given.
pub record_step_intent_durable :
    (position_id : ℕ) (key : String) (nonce : ℤ) (calldata payload : String)
    (tx_hash : Option String) (c : Connection)
    → Above 0 c.work.steps
    → Returns
        (λ y d.
          Stored
            (record {
              position_id = position_id;
              step_key = key;
              nonce = pos_part nonce;
              calldata_digest = calldata;
              signed_payload_digest = payload;
            })
            tx_hash
            d.saved
            y)
        (record_step_intent position_id key nonce calldata payload tx_hash c)
unfolding record_step_intent store_intent checked_intent
record_step_intent_durable position_id key nonce calldata payload tx_hash c h =
    elim (Bool-cases (is_empty key || is_negative nonce || is_empty calldata || is_empty payload)) [
      | inl bad ↦ rw bad tt
      | inr good ↦
          let k : StepIntent = record {
            position_id = position_id;
            step_key = key;
            nonce = pos_part nonce;
            calldata_digest = calldata;
            signed_payload_digest = payload;
          } in
          rw good (
            complete_intent-IsStored k tx_hash
              (record c { work = insert_step k c.work; in_transaction = true })
              (insert_step-Grows k c h).ordered)
    ]
