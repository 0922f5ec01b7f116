-- ===== src/Journal/Tables.antt =====
-- The tables of the journal and their rows (the schema of Journal.__init__ in
-- src/evm_inventory/journal.py). A table is the list of its rows, by ascending id; no operation
-- deletes one. The timestamps are written and never read, and are left out. Amounts of money are
-- numbers of quanta (see Journal/Inputs); a raw amount, kept as a decimal text, is its number.
use evm_garbage_collector.Prelude.{
  ℕ, suc, String, Bool, ◌&&◌, Option, List, [], ◌∷◌, ◌++◌, find, find_last, any, update_where,
  text_eq, starts_with, lower, not, is_some, max, ◌==◌, if◌then◌else◌,
}
use evm_garbage_collector.Prelude.Int.{ℤ}
use evm_garbage_collector.Journal.States.Groups.{GroupState}
use evm_garbage_collector.Journal.States.Positions.{PositionState}
use evm_garbage_collector.Journal.States.Steps.{StepState}
pub mod Ids
use evm_garbage_collector.Journal.Value.{Value}

pub record Operation : Type 0 where
  pub id : ℕ
  pub wallet : String
  pub action : String
  pub state : String
  pub tx_hash : Option String
  pub deposit_status : Option String
  pub reason : Option String
  pub approval_tx_hash : Option String

pub record Group : Type 0 where
  pub id : ℕ
  pub group_key : String
  pub wallet : String
  pub source_chain_id : ℤ
  pub loss_budget_pct : ℕ
  pub source_usd : ℕ
  pub projected_loss_usd : Option ℕ
  pub projected_loss_pct : Option ℕ
  pub realized_loss_usd : ℕ
  pub state : GroupState
  pub reason : Option String

pub record Position : Type 0 where
  pub id : ℕ
  pub position_key : String
  pub wallet : String
  pub group_id : Option ℕ
  pub source_asset_id : Option String
  pub source_amount_raw : Option ℕ
  pub actual_asset_id : Option String
  pub actual_balance_raw : Option ℕ
  pub accounted_loss_usd : Option ℕ
  pub reason : Option String
  pub state : PositionState

pub record Step : Type 0 where
  pub id : ℕ
  pub position_id : ℕ
  pub step_key : String
  pub nonce : ℕ
  pub state : StepState
  pub calldata_digest : String
  pub signed_payload_digest : String
  pub tx_hash : Option String
  pub broadcast_attempts : ℕ
  pub receipt_status : Option String
  pub finality_block : Option ℤ
  pub balance_baseline_raw : Option ℕ
  pub expected_delta_raw : Option ℕ
  pub balance_baseline_raw_text : Option ℕ
  pub expected_delta_raw_text : Option ℕ
  pub timeout_report : Option String

pub data EventType : Type 0 where
  requote_after_swap : EventType
  requote_after_bridge : EventType

pub record Event : Type 0 where
  pub id : ℕ
  pub position_id : ℕ
  pub event_type : EventType
  pub old_route_id : String
  pub old_payload_hash : String
  pub new_route_id : String
  pub new_payload_hash : String
  pub input_amount_raw : ℕ
  pub actual_asset_id : String
  pub reason : Option String

pub record Checkpoint : Type 0 where
  pub position_id : ℕ
  pub checkpoint_key : String
  pub payload : Value

pub record Db : Type 0 where
  pub checkpoints : List Checkpoint
  pub operations : List Operation
  pub groups : List Group
  pub positions : List Position
  pub steps : List Step
  pub events : List Event

abbrev pub empty_db : Db
empty_db = record {
  checkpoints = [];
  operations = [];
  groups = [];
  positions = [];
  steps = [];
  events = [];
}

-- INTEGER PRIMARY KEY: one more than the largest id in use
module _ {A : Type 0} (id_of : A → ℕ) where
  unfoldable pub next_id : List A → ℕ
  next_id [] = 1
  next_id (x ∷ xs) = max (suc (id_of x)) (next_id xs)

-- WHERE id = ?
abbrev pub by_id : {A : Type 0} → (A → ℕ) → ℕ → A → Bool
by_id id_of i r = id_of r == i

unfoldable pub find_group : ℕ → Db → Option Group
find_group i db = find (λ (g : Group). g.id == i) db.groups

unfoldable pub find_position : ℕ → Db → Option Position
find_position i db = find (λ (p : Position). p.id == i) db.positions

unfoldable pub find_step : ℕ → Db → Option Step
find_step i db = find (λ (s : Step). s.id == i) db.steps

unfoldable pub find_operation : ℕ → Db → Option Operation
find_operation i db = find (λ (o : Operation). o.id == i) db.operations

unfoldable pub update_group : ℕ → (Group → Group) → Db → Db
update_group i f db = record db { groups = update_where (λ g. g.id == i) f db.groups }

unfoldable pub update_position : ℕ → (Position → Position) → Db → Db
update_position i f db = record db { positions = update_where (λ p. p.id == i) f db.positions }

unfoldable pub update_step : ℕ → (Step → Step) → Db → Db
update_step i f db = record db { steps = update_where (λ s. s.id == i) f db.steps }

-- step_key NOT LIKE 'approval:%': SQLite's LIKE does not tell ASCII letters by their case
unfoldable pub is_asset_key : String → Bool
is_asset_key key = not (starts_with (lower key) "approval:")

-- latest_step: ORDER BY id DESC LIMIT 1
unfoldable pub latest_step : ℕ → String → Db → Option Step
latest_step position_id step_key db =
    find_last (λ (s : Step). s.position_id == position_id && text_eq s.step_key step_key) db.steps

-- checkpoint
unfoldable pub checkpoint : ℕ → String → Db → Option Checkpoint
checkpoint position_id key db =
    find (λ (c : Checkpoint). c.position_id == position_id && text_eq c.checkpoint_key key)
      db.checkpoints

-- has_broadcast
unfoldable pub has_broadcast : ℕ → Db → Bool
has_broadcast position_id db =
    any (λ (s : Step). s.position_id == position_id && is_some s.tx_hash) db.steps

-- has_asset_intent
unfoldable pub has_asset_intent : ℕ → Db → Bool
has_asset_intent position_id db =
    any (λ (s : Step). s.position_id == position_id && is_asset_key s.step_key) db.steps

-- has_asset_broadcast
unfoldable pub has_asset_broadcast : ℕ → Db → Bool
has_asset_broadcast position_id db =
    any (λ (s : Step). s.position_id == position_id && is_some s.tx_hash && is_asset_key s.step_key)
      db.steps
