-- ===== src/Journal/Reactivation/Retry.antt =====
-- The retry of a halted group (reactivate_unsigned_retry_group of src/evm_inventory/journal.py).
use evm_garbage_collector.Prelude.{
  ℕ, String, ◌≡◌, refl, Bool, true, false, ◌||◌, not, Option, none, some, List, [], ◌∷◌, arith, all,
  find_holds, if◌then◌else◌, ==_iff, ◌==◌,
}
use evm_garbage_collector.Journal.States.Groups.{GroupState, group_eq}
use evm_garbage_collector.Journal.Tables.{Group, Position, Db, find_group, has_asset_intent}
use evm_garbage_collector.Journal.Session.{
  Connection, Result, ok, err, Session, leave, scoped, transaction, rolled_back, operational_error,
  or_raise, key_error, pure, ◌>>=◌,
}
use evm_garbage_collector.Journal.Groups.{group}
use evm_garbage_collector.Journal.Positions.{group_positions}
use evm_garbage_collector.Journal.Reactivation.{
  is_finished, is_retryable, unfinished, may_retry, retry_when_allowed, retry_group,
  reactivate_unsigned_retry_group,
}

-- a member that is completed, or was never given a step other than an approval
abbrev pub is_unsigned : Db → Position → Bool
is_unsigned db p = is_finished p || not (has_asset_intent p.id db)

all_unsigned :
    (reason : Option String) (db : Db) (rows : List Position)
    → all (is_retryable reason db) (unfinished rows) ≡ true
    → all (is_unsigned db) rows ≡ true
unfolding is_retryable
all_unsigned reason db [] h = refl
all_unsigned reason db (p ∷ ps) h = ground (arith, all_unsigned reason db ps)

may_retry-all :
    (g : Group) (rows : List Position) (keys : List String) (db : Db)
    → may_retry g rows keys db ≡ true
    → (group_eq g.state GroupState.manual_review_group_halted ≡ true)
      × (all (is_retryable g.reason db) (unfinished rows) ≡ true)
unfolding may_retry
may_retry-all g rows keys db h = ground arith

left_ok : {A : Type 0} {a : A} (r : Result A) (c : Connection) → (leave r c).0 ≡ ok a → r ≡ ok a
left_ok (ok x) c h = h
left_ok (err e) c h = cc

returned_inside :
    {A : Type 0} {a : A} (m : Session A) (c : Connection)
    → (transaction m c).0 ≡ ok a
    → (m (record c { in_transaction = true })).0 ≡ ok a
unfolding transaction scoped
returned_inside {A} {a} m c h = chosen c.in_transaction h
  where
    inside : Connection
    inside = record c { in_transaction = true }

    chosen :
        (busy : Bool)
        → (if busy then (err operational_error, rolled_back c) else scoped m inside).0 ≡ ok a
        → (m inside).0 ≡ ok a
    chosen true e = cc
    chosen false e = left_ok (m inside).0 (m inside).1 e

allowed_before :
    (g : Group) (keys : List String) (c : Connection)
    → (retry_when_allowed g keys c).0 ≡ ok true
    → may_retry g (group_positions g.id c.work) keys c.work ≡ true
unfolding retry_when_allowed
allowed_before g keys c h = chosen (may_retry g (group_positions g.id c.work) keys c.work) h
  where
    chosen :
        (b : Bool)
        → ((if b then retry_group g (group_positions g.id c.work) else pure false) c).0 ≡ ok true
        → b ≡ true
    chosen true e = refl
    chosen false e = cc

-- the group, its test, and what is behind them
allowed_group :
    (found : Option Group) (i : ℕ) (keys : List String) (c : Connection)
    → find_group i c.work ≡ found
    → ((or_raise key_error found >>= λ g. retry_when_allowed g keys) c).0 ≡ ok true
    → (g : Group) × (find_group i c.work ≡ some g)
      × (may_retry g (group_positions i c.work) keys c.work ≡ true)
unfolding find_group
allowed_group none i keys c e h = cc
allowed_group (some g) i keys c e h =
    let same : g.id ≡ i =
      (==_iff g.id i).0 (find_holds (λ (x : Group). x.id == i) c.work.groups g e) in
    (g, e, rw (← same) (allowed_before g keys c h))

-- When reactivate_unsigned_retry_group says that it retries a group, the group is there and was
-- halted, and each of its members was completed or had no step but approvals.
pub reactivate_unsigned_retry_group_unsigned :
    (i : ℕ) (keys : List String) (c : Connection)
    → (reactivate_unsigned_retry_group i keys c).0 ≡ ok true
    → (g : Group) × (find_group i c.work ≡ some g)
      × (group_eq g.state GroupState.manual_review_group_halted ≡ true)
      × (all (is_unsigned c.work) (group_positions i c.work) ≡ true)
unfolding reactivate_unsigned_retry_group group
reactivate_unsigned_retry_group_unsigned i keys c h =
    let inside = returned_inside (group i >>= λ g. retry_when_allowed g keys) c h in
    let (g, found, allowed) =
      allowed_group (find_group i c.work) i keys (record c { in_transaction = true }) refl inside in
    let (halted, members) = may_retry-all g (group_positions i c.work) keys c.work allowed in
    (g, found, halted, all_unsigned g.reason c.work (group_positions i c.work) members)
