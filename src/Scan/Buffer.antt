-- ===== src/Scan/Buffer.antt =====
-- ScanBuffer (src/evm_inventory/scan_buffer.py). The reading of the deadline is an argument of each
-- write: `true` where its time is over.
use evm_garbage_collector.Prelude.{
  ℕ, ◌+◌, String, Bool, true, false, ◌||◌, Option, none, some, List, [], ◌∷◌, ◌++◌, map, find, any,
  update_where, lower, text_eq, if◌then◌else◌,
}
use evm_garbage_collector.Prelude.Int.{ℤ, eq_ℤ}
use evm_garbage_collector.Journal.Value.{Value, Fields}
use evm_garbage_collector.Scan.Store.{
  Facts, Asset, Discovery, Tables, new_facts, described, observed, upsert_asset, record_asset,
  write_discovery_state, save_pass, assets_of, discovery_state,
}

-- a value of `rows`
pub record Row : Type 0 where
  pub id : ℤ
  pub asset_id : String
  pub facts : Facts

pub data Operation : Type 0 where
  upserted : String → ℕ → String → String → Fields → ℤ → Operation
  recorded : ℤ → Value → String → Option ℕ → Operation
  discovered : String → ℕ → Discovery → Operation
  passed : String → ℕ → Value → Operation

-- `next_id` counts the ids that were given out: the next one is `negsuc next_id`
pub record Buffer : Type 0 where
  pub wallet : String
  pub chain_id : ℕ
  pub rows : List Row
  pub state : Option Discovery
  pub operations : List Operation
  pub sealed : Bool
  pub next_id : ℕ

unfoldable pub new_buffer : String → ℕ → List Row → Option Discovery → Buffer
new_buffer wallet chain_id rows state = record {
  wallet = wallet;
  chain_id = chain_id;
  rows = rows;
  state = state;
  operations = [];
  sealed = false;
  next_id = 0;
}

unfoldable pub to_row : Asset → Row
to_row r = record { id = ℤ.pos r.id; asset_id = r.asset_id; facts = r.facts }

-- ScanBuffer(wallet, chain_id, store.assets(…), store.discovery_state(…), deadline)
unfoldable pub scan_buffer : String → ℕ → Tables → Buffer
unfolding to_row new_buffer
scan_buffer wallet chain_id t =
    new_buffer wallet chain_id (map to_row (assets_of wallet chain_id t))
      (discovery_state wallet chain_id t)

abbrev pub row_is : String → Row → Bool
row_is asset_id r = text_eq r.asset_id asset_id

abbrev pub has_id : ℤ → Row → Bool
has_id i r = eq_ℤ r.id i

abbrev pub append : Operation → Buffer → Buffer
append o b = record b { operations = b.operations ++ o ∷ [] }

unfoldable pub upsert_into :
    Option Row → String → ℕ → String → String → Fields → Buffer → ℤ × Buffer
upsert_into (some r) wallet chain_id asset_id kind metadata b = (
  r.id,
  append (Operation.upserted wallet chain_id asset_id kind metadata r.id) (record b {
    rows =
        update_where (has_id r.id) (λ x. record x { facts = described kind metadata x.facts })
          b.rows;
  }),
)
upsert_into none wallet chain_id asset_id kind metadata b = (
  ℤ.negsuc b.next_id,
  append (Operation.upserted wallet chain_id asset_id kind metadata (ℤ.negsuc b.next_id))
      (record b {
        rows =
            b.rows
            ++ record {
              id = ℤ.negsuc b.next_id;
              asset_id = lower asset_id;
              facts = new_facts kind metadata;
            }
              ∷ [];
        next_id = b.next_id + 1;
      }),
)

-- `none` is StageDeadlineExceeded
unfoldable pub upsert : Bool → String → ℕ → String → String → Fields → Buffer → Option (ℤ × Buffer)
unfolding upsert_into
upsert expired wallet chain_id asset_id kind metadata b =
    if b.sealed || expired
    then none
    else some (
        upsert_into (find (row_is (lower asset_id)) b.rows) wallet chain_id asset_id kind metadata
          b)

-- `none` is also the KeyError of an id that is not there
unfoldable pub record_row : Bool → ℤ → Value → String → Option ℕ → Buffer → Option Buffer
record_row expired i result status retry_after b =
    if b.sealed || expired
    then none
    else if any (has_id i) b.rows
    then some (
        append (Operation.recorded i result status retry_after) (record b {
          rows =
              update_where (has_id i)
                (λ x. record x { facts = observed result status retry_after x.facts }) b.rows;
        }))
    else none

unfoldable pub write_state : Bool → String → ℕ → Discovery → Buffer → Option Buffer
write_state expired wallet chain_id d b =
    if b.sealed || expired
    then none
    else some (append (Operation.discovered wallet chain_id d) (record b { state = some d }))

unfoldable pub save : Bool → String → ℕ → Value → Buffer → Option Buffer
save expired wallet chain_id block b =
    if b.sealed || expired then none else some (append (Operation.passed wallet chain_id block) b)

-- ids and discovered, with the store
pub record Replay : Type 0 where
  pub ids : List (ℤ × ℕ)
  pub found : List ℕ
  pub tables : Tables

-- ids.get(row_id, row_id)
unfoldable pub stored_id : List (ℤ × ℕ) → ℤ → ℤ
stored_id [] i = i
stored_id ((j, n) ∷ ids) i = if eq_ℤ i j then ℤ.pos n else stored_id ids i

abbrev with_tables : Replay → Option Tables → Option Replay
with_tables r none = none
with_tables r (some t) = some (record r { tables = t })

abbrev with_id : Replay → ℤ → Option (ℕ × Tables) → Option Replay
with_id r i none = none
with_id r i (some (n, t)) = some (record { ids = (i, n) ∷ r.ids; found = n ∷ r.found; tables = t })

-- the loop's body
unfoldable pub replay_one : Operation → Replay → Option Replay
replay_one (upserted wallet chain_id asset_id kind metadata i) r =
    with_id r i (upsert_asset wallet chain_id asset_id kind metadata r.tables)
replay_one (recorded i result status retry_after) r =
    with_tables r (record_asset (stored_id r.ids i) result status retry_after r.tables)
replay_one (discovered wallet chain_id d) r =
    with_tables r (write_discovery_state wallet chain_id d r.tables)
replay_one (passed wallet chain_id block) r =
    with_tables r (save_pass wallet chain_id block r.tables)

unfoldable pub replay : List Operation → Replay → Option Replay
replay [] r = some r
replay (o ∷ os) r = elim (replay_one o r) [ none ↦ none | some r' ↦ replay os r' ]

unfoldable pub seal : Buffer → Buffer
seal b = record b { sealed = true }

-- the sealed buffer, and what the replay leaves; `none` is an exception of the store
unfoldable pub persist : Buffer → Tables → Buffer × Option Replay
unfolding seal
persist b t = (seal b, replay b.operations (record { ids = []; found = []; tables = t }))

-- a worker's call of its buffer, with its arguments
pub data Write : Type 0 where
  upserts : String → ℕ → String → String → Fields → Write
  records : ℤ → Value → String → Option ℕ → Write
  discovers : String → ℕ → Discovery → Write
  passes : String → ℕ → Value → Write

abbrev or_same : {A : Type 0} → (A → Buffer) → Buffer → Option A → Buffer
or_same f b none = b
or_same f b (some a) = f a

unfoldable pub write : Bool → Write → Buffer → Buffer
write expired (upserts wallet chain_id asset_id kind metadata) b =
    or_same (λ r. r.1) b (upsert expired wallet chain_id asset_id kind metadata b)
write expired (records i result status retry_after) b =
    or_same (λ r. r) b (record_row expired i result status retry_after b)
write expired (discovers wallet chain_id d) b =
    or_same (λ r. r) b (write_state expired wallet chain_id d b)
write expired (passes wallet chain_id block) b =
    or_same (λ r. r) b (save expired wallet chain_id block b)

unfoldable pub write_all : List (Bool × Write) → Buffer → Buffer
write_all [] b = b
write_all ((expired, w) ∷ ws) b = write_all ws (write expired w b)
