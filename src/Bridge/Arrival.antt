-- ===== src/Bridge/Arrival.antt =====
-- The round in which the wait for a bridge sees the arrival (_await_cross_chain_transfer of
-- src/evm_inventory/route_execution.py).
use evm_garbage_collector.Prelude.{
  ℕ, String, ◌≡◌, refl, ◌∙◌, false, Option, some, List, [], ◌∷◌, ◌++◌, ==_refl,
}
use evm_garbage_collector.Journal.States.Steps.{StepState, step_may, step_eq, step_of_name}
use evm_garbage_collector.Journal.Tables.{Step, Db, latest_step, find_step, update_step}
use evm_garbage_collector.Journal.Session.{Connection, ok, pure}
use evm_garbage_collector.Journal.Steps.{step, step_allows, transition_step, record_step_state}
use evm_garbage_collector.Journal.Checkpoints.{save_checkpoint, put_checkpoint}
use evm_garbage_collector.Journal.History.Later.{lookup-update}
use evm_garbage_collector.Bridge.{Transfer, pending, arrived}
use evm_garbage_collector.Bridge.Delivery.{
  Poll, read_poll, delivery, join, credit, credit_from, deliver, after_poll, poll_all,
  await_transfer, wait_from,
}

-- rounds that find nothing yet
abbrev pub ArePending : Transfer → List Poll → Type 0
ArePending t [] = Unit
ArePending t (p ∷ ps) = (read_poll t p ≡ ok pending) × ArePending t ps

poll_all-arrives :
    (t : Transfer) (saved : Option Step) (ps rest : List Poll) (p : Poll) (h : String) (n : ℕ)
    (c : Connection)
    → ArePending t ps
    → read_poll t p ≡ ok (arrived h n)
    → poll_all false t saved (ps ++ p ∷ rest) c ≡ deliver t saved h n c
unfolding poll_all after_poll
poll_all-arrives t saved [] rest p h n c idle e = rw e refl
poll_all-arrives t saved (q ∷ ps) rest p h n c idle e =
    rw idle.0 (poll_all-arrives t saved ps rest p h n c idle.1 e)

abbrev credited_db : ℕ → Db → Db
credited_db i db = update_step i (λ r. record r { state = StepState.credited }) db

abbrev settled_at : Db → Connection
settled_at db = record { saved = db; work = db; in_transaction = false }

record_credited :
    (row : Step) (c : Connection)
    → find_step row.id c.work ≡ some row
    → row.state ≡ StepState.awaiting_bridge
    → record_step_state row.id "credited" c ≡ (ok tt, settled_at (credited_db row.id c.work))
unfolding record_step_state transition_step step step_allows step_may step_eq step_of_name
record_credited row c there waiting = rw (there, waiting) refl

credit_run :
    (row : Step) (c : Connection)
    → find_step row.id c.work ≡ some row
    → row.state ≡ StepState.awaiting_bridge
    → credit (some row) c ≡ (ok tt, settled_at (credited_db row.id c.work))
unfolding credit credit_from step
credit_run row c there waiting = rw (there, waiting) (record_credited row c there waiting)

credited_found :
    (row : Step) (db : Db)
    → find_step row.id db ≡ some row
    → find_step row.id (credited_db row.id db) ≡ some (record row { state = StepState.credited })
unfolding find_step update_step
credited_found row db there =
    lookup-update row.id row.id (λ r. record r { state = StepState.credited }) (λ x. refl) db.steps
      row there
    ∙ rw (==_refl row.id) refl

deliver_credits :
    (t : Transfer) (row : Step) (h : String) (n : ℕ) (c : Connection)
    → find_step row.id c.work ≡ some row
    → row.state ≡ StepState.awaiting_bridge
    → ((deliver t (some row) h n c).0 ≡ ok (some n))
      × (find_step row.id (deliver t (some row) h n c).1.saved
          ≡ some (record row { state = StepState.credited }))
unfolding deliver save_checkpoint put_checkpoint find_step
deliver_credits t row h n c there waiting =
    let w =
      put_checkpoint t.position_id (join "bridge_delivery:" t.step_key) (delivery t h n) c.work in
    rw (credit_run row (settled_at w) there waiting) (refl, credited_found row w there)

waits_at : (i : ℕ) (s : StepState) → s ≡ StepState.awaiting_bridge → wait_from i s ≡ pure tt
unfolding wait_from
waits_at i s waiting = rw waiting refl

await_waiting :
    (t : Transfer) (ps : List Poll) (c : Connection) (row : Step)
    → latest_step t.position_id t.step_key c.work ≡ some row
    → row.state ≡ StepState.awaiting_bridge
    → await_transfer false t ps c ≡ poll_all false t (some row) ps c
unfolding await_transfer
await_waiting t ps c row latest waiting = rw (latest, waits_at row.id row.state waiting) refl

-- Outside a stage, where the journal has the step of the transfer waiting for its bridge, a wait
-- whose rounds find nothing yet until one sees an amount arrive returns that amount, and has
-- committed the step as credited.
pub await_transfer_credits :
    (t : Transfer) (ps rest : List Poll) (p : Poll) (h : String) (n : ℕ) (c : Connection)
    (row : Step)
    → latest_step t.position_id t.step_key c.work ≡ some row
    → find_step row.id c.work ≡ some row
    → row.state ≡ StepState.awaiting_bridge
    → ArePending t ps
    → read_poll t p ≡ ok (arrived h n)
    → let (r, c') = await_transfer false t (ps ++ p ∷ rest) c in
      (r ≡ ok (some n))
      × (find_step row.id c'.saved ≡ some (record row { state = StepState.credited }))
await_transfer_credits t ps rest p h n c row latest there waiting idle e =
    rw
      (
        await_waiting t (ps ++ p ∷ rest) c row latest waiting,
        poll_all-arrives t (some row) ps rest p h n c idle e,
      )
      (deliver_credits t row h n c there waiting)
