-- ===== src/Journal/Checkpoints.antt =====
-- The route_checkpoints table and the questions about the saved evidence of a position
-- (save_checkpoint, checkpoint, _completed_route_credit_verified, unresolved_direct_deposit and
-- has_confirmed_defi_exit of src/evm_inventory/journal.py).
use evm_garbage_collector.Prelude.{
  ℕ, String, Bool, false, ◌&&◌, ◌||◌, not, Option, none, some, List, [], ◌∷◌, all, any, find_last,
  holds, is_some, ◌==◌, text_eq, lower, starts_with, if◌then◌else◌,
}
use evm_garbage_collector.Prelude.Int.{ℤ, eq_ℤ, is_positive}
use evm_garbage_collector.Journal.States.Positions.{PositionState, position_eq}
use evm_garbage_collector.Journal.States.Steps.{StepState, step_eq}
use evm_garbage_collector.Journal.Value.{Value, get, is_text, truthy, value_eq, is_dict, as_text}
use evm_garbage_collector.Journal.Tables.{
  Checkpoint, Group, Position, Step, Db, checkpoint, find_group, find_position, latest_step,
}
use evm_garbage_collector.Journal.Session.{Session, pure, query, write, commit, ◌>>=◌, ◌>>◌}
use evm_garbage_collector.Journal.Positions.{position}

same_checkpoint : ℕ → String → Checkpoint → Bool
same_checkpoint i key c = c.position_id == i && text_eq c.checkpoint_key key

-- INSERT … ON CONFLICT DO UPDATE SET payload_json
upsert : ℕ → String → Value → List Checkpoint → List Checkpoint
unfolding same_checkpoint
upsert i key v [] = record { position_id = i; checkpoint_key = key; payload = v } ∷ []
upsert i key v (c ∷ cs) =
    if same_checkpoint i key c then record c { payload = v } ∷ cs else c ∷ upsert i key v cs

unfoldable pub put_checkpoint : ℕ → String → Value → Db → Db
unfolding upsert
put_checkpoint i key v db = record db { checkpoints = upsert i key v db.checkpoints }

unfoldable pub save_checkpoint : ℕ → String → Value → Session (Unit {0})
save_checkpoint i key v = do write (put_checkpoint i key v); commit

-- checkpoint(position_id, key), the payload alone
unfoldable pub saved_payload : ℕ → String → Db → Option Value
saved_payload i key db = elim (checkpoint i key db) [ none ↦ none | some c ↦ some c.payload ]

-- context.get(field) is a text that is not empty, and credit.get(field) is that text up to the
-- case of letters. The source compares the text of a value that is no text, too; here none fits.
same_text_field : Option Value → Option Value → String → Bool
same_text_field context credit field = elim (as_text (get field context)) [
  | none ↦ false
  | some expected ↦ not (text_eq expected "") && elim (as_text (get field credit)) [
    | none ↦ false
    | some found ↦ text_eq (lower found) (lower expected)
  ]
]

same_field : Option Value → Option Value → String → Bool
same_field target credit field = truthy (get field target) && elim (get field target) [
  | none ↦ false
  | some t ↦ elim (get field credit) [ none ↦ false | some c ↦ value_eq c t ]
]

-- the saved step of the deposit has the source hash
saved_source : ℕ → Option Value → Db → Bool
saved_source i context db = elim (as_text (get "step_key" context)) [
  | none ↦ false
  | some key ↦ elim (as_text (get "source_hash" context)) [
    | none ↦ false
    | some source_hash ↦ not (text_eq source_hash "") && elim (latest_step i key db) [
      | none ↦ false
      | some saved ↦ holds (λ h. text_eq (lower h) (lower source_hash)) saved.tx_hash
    ]
  ]
]

unfoldable pub completed_route_credit_verified : ℕ → Db → Bool
unfolding same_text_field same_field saved_source
completed_route_credit_verified i db =
    let context = saved_payload i "route_deposit" db in
    let credit = saved_payload i "bitget_credit" db in
    let target = get "target" context in
    is_dict target
    && is_text "success" (get "status" credit)
    && same_text_field context credit "tx_hash"
    && same_text_field context credit "recipient"
    && same_field target credit "coin"
    && same_field target credit "chain"
    && saved_source i context db

-- what unresolved_direct_deposit returns
pub record Unresolved : Type 0 where
  pub position_id : ℕ
  pub tx_hash : String

blocks_position : String → ℤ → String → ℕ → Db → Step → Position → Bool
blocks_position wallet chain_id asset_id exclude db s p =
    text_eq p.wallet wallet
    && holds (λ i. holds (λ (g : Group). eq_ℤ g.source_chain_id chain_id) (find_group i db))
        p.group_id
    && holds (λ a. text_eq a asset_id) p.source_asset_id
    && not (p.id == exclude)
    && not (position_eq p.state PositionState.completed)

-- a sent direct deposit of another unfinished position with this wallet, chain and asset
blocks : String → ℤ → String → ℕ → Db → Step → Bool
unfolding blocks_position
blocks wallet chain_id asset_id exclude db s =
    text_eq s.step_key "direct_deposit"
    && is_some s.tx_hash
    && holds (blocks_position wallet chain_id asset_id exclude db s)
        (find_position s.position_id db)

as_unresolved : Option Step → Option Unresolved
as_unresolved none = none
as_unresolved (some s) = elim s.tx_hash [
  | none ↦ none
  | some h ↦ some (record { position_id = s.position_id; tx_hash = h })
]

-- ORDER BY s.id DESC LIMIT 1
unfoldable pub unresolved_direct_deposit : String → ℤ → String → ℕ → Db → Option Unresolved
unfolding blocks as_unresolved
unresolved_direct_deposit wallet chain_id asset_id exclude db =
    as_unresolved (find_last (blocks (lower wallet) chain_id (lower asset_id) exclude db) db.steps)

confirmed_exit_step : Step → Bool
confirmed_exit_step s =
    (text_eq s.step_key "defi_withdraw" || starts_with s.step_key "approval:")
    && is_some s.tx_hash
    && step_eq s.state StepState.confirmed
    && holds (λ r. text_eq r "confirmed") s.receipt_status
    && holds is_positive s.finality_block

steps_of : ℕ → List Step → List Step
steps_of i [] = []
steps_of i (s ∷ xs) = if s.position_id == i then s ∷ steps_of i xs else steps_of i xs

unfoldable pub has_confirmed_defi_exit : ℕ → Session Bool
unfolding position confirmed_exit_step steps_of
has_confirmed_defi_exit i = do
  p ← position i
  steps ← query (λ db. steps_of i db.steps)
  pure (
      starts_with p.position_key "defi:"
      && any (λ (s : Step). text_eq s.step_key "defi_withdraw") steps
      && all confirmed_exit_step steps)
