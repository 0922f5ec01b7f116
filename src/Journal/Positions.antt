-- ===== src/Journal/Positions.antt =====
-- The route_positions and route_events tables (get_or_create_position … position_events of
-- src/evm_inventory/journal.py).
pub mod Requotes
use evm_garbage_collector.Prelude.{
  ℕ, String, Bool, true, false, ◌&&◌, ◌||◌, not, Option, none, some, List, [], ◌∷◌, ◌++◌, any,
  select, coalesce, find, is_empty, is_some, ◌==◌, text_eq, lower, if◌then◌else◌,
}
use evm_garbage_collector.Journal.States.Positions.{
  PositionState, position_may, position_eq, position_of_name,
}
use evm_garbage_collector.Journal.Tables.{
  Position, Event, EventType, Db, next_id, find_position, update_position,
}
use evm_garbage_collector.Journal.Inputs.{RawInput, raw_amount_text, is_sha256}
use evm_garbage_collector.Journal.Session.{
  Result, ok, err, on_ok, refuse_if, Session, pure, query, lift, or_raise, raise_if, write, commit,
  key_error, value_error, ◌>>=◌, ◌>>◌,
}

-- a raw amount that the caller may leave out
unfoldable pub optional_amount : Option RawInput → Result (Option ℕ)
optional_amount none = ok none
optional_amount (some r) = elim (raw_amount_text r) [ ok n ↦ ok (some n) | err e ↦ err e ]

-- the identity of a position, as it is stored
pub record PositionKey : Type 0 where
  pub position_key : String
  pub wallet : String
  pub group_id : Option ℕ
  pub source_asset_id : Option String
  pub source_amount_raw : Option ℕ

unfoldable pub new_position : ℕ → PositionKey → Position
new_position i k = record {
  id = i;
  position_key = k.position_key;
  wallet = k.wallet;
  group_id = k.group_id;
  source_asset_id = k.source_asset_id;
  source_amount_raw = k.source_amount_raw;
  actual_asset_id = none;
  actual_balance_raw = none;
  accounted_loss_usd = none;
  reason = none;
  state = PositionState.planned;
}

unfoldable pub find_position_by_key : String → List Position → Option Position
find_position_by_key key = find (λ (p : Position). text_eq p.position_key key)

unfoldable pub insert_position : PositionKey → Db → Db
insert_position k db =
    if is_some (find_position_by_key k.position_key db.positions) then db else record db {
      positions =
          db.positions ++ new_position (next_id (λ (p : Position). p.id) db.positions) k ∷ [];
    }

-- expected is not None and row[column] != expected
abbrev conflicts {ℓ} : {A : Type ℓ} → (A → A → Bool) → Option A → Option A → Bool
conflicts eq none column = false
conflicts eq (some e) none = true
conflicts eq (some e) (some v) = not (eq v e)

unfoldable pub conflicts_position : PositionKey → Position → Bool
conflicts_position k p =
    conflicts (λ (a b : ℕ). a == b) k.group_id p.group_id
    || conflicts text_eq k.source_asset_id p.source_asset_id
    || conflicts (λ (a b : ℕ). a == b) k.source_amount_raw p.source_amount_raw

-- the insertion, the row that is found and the comparison of the two
unfoldable pub store_position : PositionKey → Session Position
store_position key = do
  write (insert_position key)
  found ← query (λ db. find_position_by_key key.position_key db.positions)
  row ← or_raise (value_error "assert row is not None") found
  raise_if (conflicts_position key row) (value_error "conflicting durable route position")
  commit
  pure row

-- the checks before the insertion, in their order
unfoldable pub checked_position :
    String → String → Option ℕ → Option String → Option RawInput → Result PositionKey
checked_position position_key wallet group_id source_asset_id source_amount_raw =
    refuse_if (is_empty position_key || is_empty wallet)
      (value_error "position key and wallet are required")
      (on_ok (optional_amount source_amount_raw) λ source_amount. ok (record {
        position_key = position_key;
        wallet = lower wallet;
        group_id = group_id;
        source_asset_id = source_asset_id;
        source_amount_raw = source_amount;
      }))

unfoldable pub get_or_create_position :
    String → String → Option ℕ → Option String → Option RawInput → Session Position
get_or_create_position position_key wallet group_id source_asset_id source_amount_raw = do
  key ← lift (checked_position position_key wallet group_id source_asset_id source_amount_raw)
  store_position key

unfoldable pub position : ℕ → Session Position
position i = do found ← query (find_position i); or_raise key_error found

-- group_positions, with the rows of a group in the order of their ids
unfoldable pub group_positions : ℕ → Db → List Position
group_positions group_id db =
    select (λ (p : Position). elim p.group_id [ none ↦ false | some g ↦ g == group_id ])
      db.positions

unfoldable pub position_allows : PositionState → PositionState → Bool
position_allows current state = position_eq state current || position_may current state

unfoldable pub record_position_state :
    ℕ → String → Option String → Option RawInput → Option String → Session (Unit {0})
unfolding position
record_position_state i state actual_asset_id actual_balance_raw reason = do
  p ← position i
  new ← or_raise (value_error "invalid route position state") (position_of_name state)
  raise_if (not (position_allows p.state new)) (value_error "invalid position transition")
  raw_balance ← lift (optional_amount actual_balance_raw)
  write (
      update_position i (λ r. record r {
        state = new;
        actual_asset_id = coalesce actual_asset_id r.actual_asset_id;
        actual_balance_raw = coalesce raw_balance r.actual_balance_raw;
        reason = coalesce reason r.reason;
      }))
  commit

-- the arguments of the two requote operations
pub record Requote : Type 0 where
  pub old_route_id : String
  pub old_payload_hash : String
  pub new_route_id : String
  pub new_payload_hash : String
  pub input_amount_raw : RawInput
  pub actual_asset_id : String
  pub reason : Option String

-- the checks of both: identities, digests and a positive amount, which is returned; `incomplete`
-- and `not_positive` are the messages
unfoldable pub checked_requote : String → String → Requote → Session ℕ
checked_requote incomplete not_positive q = do
  raise_if (is_empty q.old_route_id || is_empty q.new_route_id || is_empty q.actual_asset_id)
      (value_error incomplete)
  raise_if (not (is_sha256 q.old_payload_hash)) (value_error "old payload hash")
  raise_if (not (is_sha256 q.new_payload_hash)) (value_error "new payload hash")
  amount ← lift (raw_amount_text q.input_amount_raw)
  raise_if (amount == 0) (value_error not_positive)
  pure amount

unfoldable pub insert_event : ℕ → EventType → Requote → ℕ → String → Db → Db
insert_event position_id kind q amount asset db = record db {
  events =
      db.events
      ++ record {
        id = next_id (λ (e : Event). e.id) db.events;
        position_id = position_id;
        event_type = kind;
        old_route_id = q.old_route_id;
        old_payload_hash = lower q.old_payload_hash;
        new_route_id = q.new_route_id;
        new_payload_hash = lower q.new_payload_hash;
        input_amount_raw = amount;
        actual_asset_id = asset;
        reason = q.reason;
      }
        ∷ [];
}

unfoldable pub is_settled_swap : PositionState → Bool
is_settled_swap PositionState.source_asset_converted_bridge_pending = true
is_settled_swap PositionState.bridge_timeout = true
is_settled_swap _ = false

is_swap : EventType → Bool
is_swap EventType.requote_after_swap = true
is_swap EventType.requote_after_bridge = false

unfoldable pub is_swap_requote : ℕ → Event → Bool
unfolding is_swap
is_swap_requote position_id e = e.position_id == position_id && is_swap e.event_type

unfoldable pub record_requote_after_swap : ℕ → Requote → Session ℕ
unfolding position checked_requote
record_requote_after_swap i q = do
  p ← position i
  amount ←
      checked_requote "requote evidence identity is incomplete"
        "requote input amount must be positive" q
  raise_if (not (is_settled_swap p.state))
      (value_error "requote_after_swap requires a settled source swap")
  previous ← query (λ db. any (is_swap_requote i) db.events)
  raise_if previous (value_error "only one post-swap bridge requote is permitted")
  raise_if (not (position_may p.state PositionState.requote_required))
      (value_error "position cannot enter requote_required")
  event_id ← query (λ db. next_id (λ (e : Event). e.id) db.events)
  write (insert_event i EventType.requote_after_swap q amount q.actual_asset_id)
  write (
      update_position i (λ r. record r {
        state = PositionState.requote_required;
        actual_asset_id = some q.actual_asset_id;
        actual_balance_raw = some amount;
        reason = coalesce q.reason r.reason;
      }))
  commit
  pure event_id

-- the reason column of this event stays empty
unfoldable pub record_requote_after_bridge : ℕ → Requote → Session ℕ
unfolding position checked_requote
record_requote_after_bridge i q = do
  position i
  amount ←
      checked_requote "dependent requote evidence identity is incomplete"
        "dependent requote input amount must be positive" q
  event_id ← query (λ db. next_id (λ (e : Event). e.id) db.events)
  write (
      insert_event i EventType.requote_after_bridge (record q { reason = none }) amount
        (lower q.actual_asset_id))
  commit
  pure event_id
