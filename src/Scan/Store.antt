-- ===== src/Scan/Store.antt =====
-- Assets, discovery and passes of src/evm_inventory/store.py. The address of a wallet stands for
-- its row in the table of wallets; the times of creation and change are written and never read
-- here. An operation gives `none` where it raises, which leaves the tables.
use evm_garbage_collector.Prelude.{
  ℕ, suc, ◌+◌, max, String, Bool, ◌&&◌, Option, none, some, List, [], ◌∷◌, ◌++◌, find, any, select,
  update_where, lower, text_eq, ◌==◌, if◌then◌else◌,
}
use evm_garbage_collector.Prelude.Int.{ℤ, eq_ℤ}
use evm_garbage_collector.Journal.Value.{Value, Fields}

-- what both a row of the table and a row of a buffer say of an asset. The metadata is a dict, so
-- that `metadata or {}` is the metadata.
pub record Facts : Type 0 where
  pub kind : String
  pub metadata : Fields
  pub status : String
  pub result : Option Value
  pub retry_after : Option ℕ

-- a row of assets
pub record Asset : Type 0 where
  pub id : ℕ
  pub wallet : String
  pub chain_id : ℕ
  pub asset_id : String
  pub attempts : ℕ
  pub facts : Facts

-- a row of discovery_state, without its key
pub record Discovery : Type 0 where
  pub cursor : Option String
  pub cursor_history : List (Option String)
  pub status : String
  pub retry_after : Option ℕ
  pub result : Option Value
  pub error : Option Value

pub record Tables : Type 0 where
  pub readonly : Bool
  pub assets : List Asset
  pub discovery : String → ℕ → Option Discovery
  pub passes : String → ℕ → Option Value

-- the UNIQUE key
abbrev pub is_asset : String → ℕ → String → Asset → Bool
is_asset wallet chain_id asset_id r =
    text_eq r.wallet (lower wallet) && (r.chain_id == chain_id) && text_eq r.asset_id asset_id

abbrev pub has_asset_id : ℤ → Asset → Bool
has_asset_id i r = eq_ℤ (ℤ.pos r.id) i

-- an id that no row has, as INTEGER PRIMARY KEY gives it
unfoldable pub fresh_id : List Asset → ℕ
fresh_id [] = 1
fresh_id (r ∷ rs) = max (suc r.id) (fresh_id rs)

-- a row of a new asset: the defaults of the columns
unfoldable pub new_facts : String → Fields → Facts
new_facts kind metadata = record {
  kind = kind;
  metadata = metadata;
  status = "pending";
  result = none;
  retry_after = none;
}

unfoldable pub described : String → Fields → Facts → Facts
described kind metadata f = record f { kind = kind; metadata = metadata }

-- an asset that is there keeps its other columns
unfoldable pub upsert_found :
    Option Asset → String → ℕ → String → String → Fields → Tables → ℕ × Tables
unfolding new_facts described
upsert_found (some r) wallet chain_id asset_id kind metadata t = (
  r.id,
  record t {
    assets =
        update_where (has_asset_id (ℤ.pos r.id))
          (λ x. record x { facts = described kind metadata x.facts }) t.assets;
  },
)
upsert_found none wallet chain_id asset_id kind metadata t = (
  fresh_id t.assets,
  record t {
    assets =
        t.assets
        ++ record {
          id = fresh_id t.assets;
          wallet = lower wallet;
          chain_id = chain_id;
          asset_id = asset_id;
          attempts = 0;
          facts = new_facts kind metadata;
        }
          ∷ [];
  },
)

unfoldable pub upsert_asset : String → ℕ → String → String → Fields → Tables → Option (ℕ × Tables)
unfolding upsert_found
upsert_asset wallet chain_id asset_id kind metadata t =
    if t.readonly
    then none
    else some (
        upsert_found (find (is_asset wallet chain_id (lower asset_id)) t.assets) wallet chain_id
          (lower asset_id) kind metadata t)

unfoldable pub observed : Value → String → Option ℕ → Facts → Facts
observed result status retry_after f = record f {
  result = some result;
  status = status;
  retry_after = retry_after;
}

unfoldable pub record_asset : ℤ → Value → String → Option ℕ → Tables → Option Tables
record_asset i result status retry_after t =
    if t.readonly
    then none
    else if any (has_asset_id i) t.assets
    then some (record t {
      assets =
          update_where (has_asset_id i)
            (λ x. record x {
              facts = observed result status retry_after x.facts;
              attempts = x.attempts + 1;
            })
            t.assets;
    })
    else none

-- a table by wallet and network, with one more row
unfoldable pub put : {A : Type 0} → String → ℕ → A → (String → ℕ → Option A) → String → ℕ → Option A
put wallet chain_id a f w c = if text_eq (lower wallet) w && (chain_id == c) then some a else f w c

unfoldable pub write_discovery_state : String → ℕ → Discovery → Tables → Option Tables
write_discovery_state wallet chain_id d t =
    if t.readonly then none else some (record t { discovery = put wallet chain_id d t.discovery })

unfoldable pub save_pass : String → ℕ → Value → Tables → Option Tables
save_pass wallet chain_id block t =
    if t.readonly then none else some (record t { passes = put wallet chain_id block t.passes })

-- the rows of assets(wallet, chain_id), which are then ordered by asset_id
unfoldable pub assets_of : String → ℕ → Tables → List Asset
assets_of wallet chain_id t =
    select (λ (r : Asset). text_eq r.wallet (lower wallet) && (r.chain_id == chain_id)) t.assets

unfoldable pub discovery_state : String → ℕ → Tables → Option Discovery
discovery_state wallet chain_id t = t.discovery (lower wallet) chain_id
