-- ===== src/Executor/Broadcast/Durable.antt =====
-- The durable broadcast and what it leaves in the journal (broadcast_durable_transaction of
-- src/evm_inventory/executor.py).
use evm_garbage_collector.Prelude.{
  ℕ, String, ◌≡◌, refl, sym, ◌∙◌, subst, Option, none, some, List, [], ◌∷◌, ◌⊎◌, inl, inr, arith,
  Bool-cases,
}
use evm_garbage_collector.Prelude.Int.{pos_part}
use evm_garbage_collector.Rpc.{Endpoint}
use evm_garbage_collector.Journal.Tables.{Db, Step, find_step, latest_step}
use evm_garbage_collector.Journal.Session.{Connection, Result, ok, err}
use evm_garbage_collector.Journal.Inputs.{RawInput}
use evm_garbage_collector.Journal.Steps.{
  StepIntent, record_broadcast_attempt, record_step_intent, record_balance_baseline,
}
use evm_garbage_collector.Journal.History.Durable.{Stored, Returns, record_step_intent_durable}
use evm_garbage_collector.Journal.Ledger.{Command, StepCommand, run_all, run, run_step, outcome}
use evm_garbage_collector.Journal.Ledger.History.{IsSound, run_all-Later, run_all-Evolves}
use evm_garbage_collector.Executor.Broadcast.{
  World, Action, Transaction, existing_hash, after_intent, record_baseline, record_intent, send_new,
  observe_saved, broadcast_durable_transaction, is_payload, and_then, ◌>>◌,
}

outcome_connection : {A : Type 0} (r : Result A × Connection) → (outcome r).1 ≡ r.1
outcome_connection (ok a, d) = refl
outcome_connection (err e, d) = refl

-- the intent that a transaction stands for
abbrev pub intent_of : (String → String) → Transaction → StepIntent
intent_of sha256 t = record {
  position_id = t.position_id;
  step_key = t.step_key;
  nonce = pos_part t.nonce;
  calldata_digest = sha256 t.calldata;
  signed_payload_digest = sha256 t.signed_transaction;
}

-- some committed step is the stored intent, with the hash
abbrev pub IsDurable : (String → String) → Transaction → Db → Type 0
IsDurable sha256 t db = (y : Step) × Stored (intent_of sha256 t) (some t.tx_hash) db y

-- Nothing was sent, or the payload once, when its intent was durable.
abbrev pub Sends : (String → String) → Transaction → World → World → Type 0
Sends sha256 t w w' =
    (w'.sent ≡ w.sent)
    ⊎ ((db : Db) × (w'.sent
          ≡ record { raw_transaction = t.signed_transaction; saved = db } ∷ w.sent)
        × IsDurable sha256 t db)

module _ (sha256 : String → String) (t : Transaction) where
  -- A stored intent is still stored after any operations of the journal.
  IsDurable-run_all :
      (ms : List Command) (c : Connection)
      → IsSound c
      → IsDurable sha256 t c.saved
      → IsDurable sha256 t (run_all ms c).saved
  IsDurable-run_all ms c sound (y, s) =
      let (y', there, e) = run_all-Evolves ms c y.id y sound (rw sound.settled s.there) in
      (
        y',
        record {
          there = subst (λ i. find_step i (run_all ms c).saved ≡ some y') (sym e.id) there;
          position_id = e.position_id ∙ s.position_id;
          step_key = e.step_key ∙ s.step_key;
          nonce = e.nonce ∙ s.nonce;
          calldata_digest = e.calldata_digest ∙ s.calldata_digest;
          signed_payload_digest = e.signed_payload_digest ∙ s.signed_payload_digest;
          hash = λ h g. e.tx_hash h (s.hash h g);
        },
      )

  module _ (call : Endpoint) where
    send_new-Sends :
        (w : World)
        → IsDurable sha256 t w.connection.saved
        → Sends sha256 t w (send_new sha256 call t w).1
    unfolding send_new
    send_new-Sends w d = elim (Bool-cases (is_payload t.signed_transaction)) [
      | inl good ↦ rw good (inr (w.connection.saved, refl, d))
      | inr bad ↦ rw bad (inl refl)
    ]

    observe_saved-sent :
        (hash : String) (w : World) → (observe_saved sha256 call hash w).1.sent ≡ w.sent
    unfolding observe_saved
    observe_saved-sent hash w = ground arith

    -- after the attempt is recorded, or was refused
    attempted-Sends :
        (r : Result (Unit {0})) (w : World) (c : Connection)
        → IsDurable sha256 t c.saved
        → Sends sha256 t w
            (and_then r (λ _. send_new sha256 call t) (record w { connection = c })).1
    attempted-Sends (ok a) w c d = send_new-Sends (record w { connection = c }) d
    attempted-Sends (err e) w c d = inl refl

    after_intent-Sends :
        (i : ℕ) (o : Option String) (w : World)
        → IsSound w.connection
        → IsDurable sha256 t w.connection.saved
        → Sends sha256 t w (after_intent sha256 call t i o w).1
    unfolding after_intent run_all run run_step
    after_intent-Sends i (some hash) w sound d = inl (observe_saved-sent hash w)
    after_intent-Sends i none w sound d =
        attempted-Sends (record_broadcast_attempt i t.tx_hash w.connection).0 w
          (record_broadcast_attempt i t.tx_hash w.connection).1
          (IsDurable-run_all (Command.on_step (StepCommand.broadcast_attempt i t.tx_hash) ∷ [])
            w.connection sound d)

    -- the journal's state after an operation on it, beside what was sent
    abbrev Keeps : {A : Type 0} → World → Result A × World → Type 0
    Keeps w (ok a, w') =
        IsSound w'.connection × IsDurable sha256 t w'.connection.saved × (w'.sent ≡ w.sent)
    Keeps w (err e, w') = w'.sent ≡ w.sent

    journaled-Keeps :
        (w : World) (r : Result (Unit {0})) (c : Connection)
        → IsSound c
        → IsDurable sha256 t c.saved
        → Keeps w (r, record w { connection = c })
    journaled-Keeps w (ok a) c sound d = (sound, d, refl)
    journaled-Keeps w (err e) c sound d = refl

    record_baseline-Keeps :
        (balance delta : Option RawInput) (i : ℕ) (w : World)
        → IsSound w.connection
        → IsDurable sha256 t w.connection.saved
        → Keeps w (record_baseline sha256 call balance delta i w)
    unfolding record_baseline run_all run run_step
    record_baseline-Keeps (some balance) (some delta) i w sound d =
        let ms = Command.on_step (StepCommand.balance_baseline i balance delta) ∷ [] in
        journaled-Keeps w (record_balance_baseline i balance delta w.connection).0
          (record_balance_baseline i balance delta w.connection).1
          (run_all-Later ms w.connection sound).0 (IsDurable-run_all ms w.connection sound d)
    record_baseline-Keeps none _ i w sound d = (sound, d, refl)
    record_baseline-Keeps _ none i w sound d = (sound, d, refl)

    -- the hash that was saved for this key and nonce before the call
    abbrev saved_before : World → Option String
    saved_before w = existing_hash t.nonce (latest_step t.position_id t.step_key w.connection.work)

    abbrev after_baseline : Option String → ℕ → Action (Option String)
    after_baseline o i =
        record_baseline sha256 call t.balance_baseline_raw t.expected_delta_raw i
        >> after_intent sha256 call t i o

    rest-Sends :
        (i : ℕ) (o : Option String) (w v : World) (r : Result (Unit {0}))
        → Keeps w (r, v)
        → Sends sha256 t w (and_then r (λ _. after_intent sha256 call t i o) v).1
    rest-Sends i o w v (ok a) (sound, d, same) =
        subst (λ s. Sends sha256 t (record w { sent = s }) (after_intent sha256 call t i o v).1)
          same (after_intent-Sends i o v sound d)
    rest-Sends i o w v (err e) same = inl same

    after_baseline-Sends :
        (i : ℕ) (o : Option String) (w : World)
        → IsSound w.connection
        → IsDurable sha256 t w.connection.saved
        → Sends sha256 t w (after_baseline o i w).1
    after_baseline-Sends i o w sound d =
        let m = record_baseline sha256 call t.balance_baseline_raw t.expected_delta_raw i w in
        rest-Sends i o w m.1 m.0
          (record_baseline-Keeps t.balance_baseline_raw t.expected_delta_raw i w sound d)

    -- after the intent is recorded, or was refused
    intended-Sends :
        (o : Option String) (w : World) (r : Result Step) (c : Connection)
        → IsSound c
        → Returns (λ y d. Stored (intent_of sha256 t) (some t.tx_hash) d.saved y) (r, c)
        → Sends sha256 t w
            (and_then r (λ intent. after_baseline o intent.id) (record w { connection = c })).1
    intended-Sends o w (ok y) c sound s =
        after_baseline-Sends y.id o (record w { connection = c }) sound (y, s)
    intended-Sends o w (err e) c sound s = inl refl

    -- From a sound journal, broadcast_durable_transaction sends nothing, or it sends the signed
    -- payload once; and then the tables that are committed at that moment hold its intent, under
    -- its key and nonce, with the digests of the calldata and the payload and with the hash.
    pub broadcast_persists_first :
        (w : World)
        → IsSound w.connection
        → Sends sha256 t w (broadcast_durable_transaction sha256 call t w).1
    unfolding broadcast_durable_transaction record_intent run_all run run_step
    broadcast_persists_first w sound =
        let m =
          record_step_intent t.position_id t.step_key t.nonce (sha256 t.calldata)
            (sha256 t.signed_transaction) (some t.tx_hash) w.connection in
        intended-Sends (saved_before w) w m.0 m.1
          (subst IsSound (outcome_connection m)
            (run_all-Later
              (Command.on_step (
                  StepCommand.intent t.position_id t.step_key t.nonce (sha256 t.calldata)
                    (sha256 t.signed_transaction) (some t.tx_hash))
                ∷ [])
              w.connection sound).0)
          (record_step_intent_durable t.position_id t.step_key t.nonce (sha256 t.calldata)
            (sha256 t.signed_transaction) (some t.tx_hash) w.connection sound.ordered)

    record_baseline-sent :
        (balance delta : Option RawInput) (i : ℕ) (w : World)
        → (record_baseline sha256 call balance delta i w).1.sent ≡ w.sent
    unfolding record_baseline
    record_baseline-sent (some balance) (some delta) i w = refl
    record_baseline-sent none _ i w = refl
    record_baseline-sent _ none i w = refl

    observed_after :
        (i : ℕ) (hash : String) (r : Result (Unit {0})) (v : World)
        → (and_then r (λ _. after_intent sha256 call t i (some hash)) v).1.sent ≡ v.sent
    unfolding after_intent
    observed_after i hash (ok a) v = observe_saved-sent hash v
    observed_after i hash (err e) v = refl

    intended_again :
        (hash : String) (r : Result Step) (v : World)
        → (and_then r (λ intent. after_baseline (some hash) intent.id) v).1.sent ≡ v.sent
    intended_again hash (ok y) v =
        let m = record_baseline sha256 call t.balance_baseline_raw t.expected_delta_raw y.id v in
        observed_after y.id hash m.0 m.1
        ∙ record_baseline-sent t.balance_baseline_raw t.expected_delta_raw y.id v
    intended_again hash (err e) v = refl

    -- Where the latest step of the key has this nonce and a hash, nothing is sent, whatever the
    -- arguments and the endpoint's answers.
    pub broadcast_never_again :
        (w : World) (hash : String)
        → existing_hash t.nonce (latest_step t.position_id t.step_key w.connection.work) ≡ some hash
        → (broadcast_durable_transaction sha256 call t w).1.sent ≡ w.sent
    unfolding broadcast_durable_transaction record_intent
    broadcast_never_again w hash saved =
        let m =
          record_step_intent t.position_id t.step_key t.nonce (sha256 t.calldata)
            (sha256 t.signed_transaction) (some t.tx_hash) w.connection in
        rw saved (intended_again hash m.0 (record w { connection = m.1 }))
