-- ===== src/Journal/Positions/Requotes.antt =====
-- The requotes of a swap, over any later run of the journal (record_requote_after_swap of
-- src/evm_inventory/journal.py).
use evm_garbage_collector.Prelude.{
  ℕ, String, ◌≡◌, refl, ==_refl, Bool, true, false, List, [], ◌∷◌, ◌++◌, arith, any,
}
use evm_garbage_collector.Journal.Tables.{EventType, Db, update_position}
use evm_garbage_collector.Journal.Session.{Connection, IsSettled, Error, Result, ok, err}
use evm_garbage_collector.Journal.Positions.{
  Requote, is_swap_requote, insert_event, checked_requote, position, record_requote_after_swap,
}
use evm_garbage_collector.Journal.Atomic.Positions.{record_requote_after_swap-Leaves}
use evm_garbage_collector.Journal.Ledger.{Command, run_all}
use evm_garbage_collector.Journal.Ledger.Atomic.{Leaves-IsSettled}
use evm_garbage_collector.Journal.Ledger.Events.{run_all-events}

-- the calls that return are those of a position that was not requoted
first_requote :
    (i n : ℕ) (q : Requote) (c : Connection)
    → (record_requote_after_swap i q c).0 ≡ ok n
    → any (is_swap_requote i) c.work.events ≡ false
unfolding record_requote_after_swap position checked_requote
first_requote i n q c h = ground arith

any-append_last :
    {A : Type 0} (p : A → Bool) (xs : List A) (y : A) → p y ≡ true → any p (xs ++ y ∷ []) ≡ true
any-append_last p [] y h = rw h refl
any-append_last p (x ∷ xs) y h = ground (arith, any-append_last p xs y h)

inserted :
    (i : ℕ) (q : Requote) (amount : ℕ) (asset : String) (db : Db)
    → any (is_swap_requote i) (insert_event i EventType.requote_after_swap q amount asset db).events
      ≡ true
unfolding insert_event is_swap_requote
inserted i q amount asset db = any-append_last (is_swap_requote i) db.events _ (rw (==_refl i) refl)

requoted_after :
    (i n : ℕ) (q : Requote) (c : Connection)
    → (record_requote_after_swap i q c).0 ≡ ok n
    → any (is_swap_requote i) (record_requote_after_swap i q c).1.work.events ≡ true
unfolding record_requote_after_swap position checked_requote update_position
requoted_after i n q c h = grind (arith, inserted i q)

refused :
    (i : ℕ) (q : Requote) (c : Connection) (r : Result ℕ)
    → (record_requote_after_swap i q c).0 ≡ r
    → any (is_swap_requote i) c.work.events ≡ true
    → (e : Error) × (r ≡ err e)
refused i q c (err e) h seen = (e, refl)
refused i q c (ok n) h seen = absurd (cc (first_requote i n q c h, seen))

-- Once a requote after a swap was recorded for a position of a settled journal, then after any
-- operations, crashes included, a requote after a swap of this position raises, whatever it is.
pub record_requote_after_swap_once :
    (i n : ℕ) (q again : Requote) (c : Connection) (ms : List Command)
    → IsSettled c
    → (record_requote_after_swap i q c).0 ≡ ok n
    → let d = run_all ms (record_requote_after_swap i q c).1 in
      (e : Error) × ((record_requote_after_swap i again d).0 ≡ err e)
record_requote_after_swap_once i n q again c ms settled h =
    let done = record_requote_after_swap i q c in
    let d = run_all ms done.1 in
    refused i again d (record_requote_after_swap i again d).0 refl (
      run_all-events (is_swap_requote i) ms done.1
        (Leaves-IsSettled c done (record_requote_after_swap-Leaves c settled i q))
        (requoted_after i n q c h))
