-- ===== src/Journal/Groups.antt =====
-- The route_groups table (get_or_create_group, group, record_group_projection,
-- record_group_realized_loss and record_group_state of src/evm_inventory/journal.py).
use evm_garbage_collector.Prelude.{
  ℕ, ◌*◌, String, Bool, true, false, ◌&&◌, ◌||◌, not, Option, none, some, List, [], ◌∷◌, ◌++◌,
  coalesce, find, is_empty, is_some, ltb, ◌==◌, text_eq, lower, if◌then◌else◌,
}
use evm_garbage_collector.Prelude.Int.{ℤ, eq_ℤ, is_positive}
use evm_garbage_collector.Journal.States.Groups.{GroupState, group_may, group_eq, group_of_name}
use evm_garbage_collector.Journal.Tables.{Group, Db, next_id, find_group, update_group}
use evm_garbage_collector.Journal.Inputs.{DecimalInput, decimal_text, unit}
use evm_garbage_collector.Journal.Session.{
  Result, ok, on_ok, refuse_if, Session, pure, query, lift, or_raise, raise_if, write, commit,
  key_error, value_error, ◌>>=◌, ◌>>◌,
}

-- the identity of a group, as it is stored
pub record GroupKey : Type 0 where
  pub group_key : String
  pub wallet : String
  pub source_chain_id : ℤ
  pub loss_budget_pct : ℕ
  pub source_usd : ℕ

unfoldable pub new_group : ℕ → GroupKey → Group
new_group i k = record {
  id = i;
  group_key = k.group_key;
  wallet = k.wallet;
  source_chain_id = k.source_chain_id;
  loss_budget_pct = k.loss_budget_pct;
  source_usd = k.source_usd;
  projected_loss_usd = none;
  projected_loss_pct = none;
  realized_loss_usd = 0;
  state = GroupState.planned;
  reason = none;
}

unfoldable pub find_group_by_key : String → List Group → Option Group
find_group_by_key key = find (λ (g : Group). text_eq g.group_key key)

-- INSERT OR IGNORE: the key is unique
unfoldable pub insert_group : GroupKey → Db → Db
insert_group k db = if is_some (find_group_by_key k.group_key db.groups) then db else record db {
  groups = db.groups ++ new_group (next_id (λ (g : Group). g.id) db.groups) k ∷ [];
}

-- the row holds what the caller asked for
unfoldable pub matches_group : GroupKey → Group → Bool
matches_group k g =
    text_eq g.wallet k.wallet
    && eq_ℤ g.source_chain_id k.source_chain_id
    && g.loss_budget_pct == k.loss_budget_pct
    && g.source_usd == k.source_usd

-- the insertion, the row that is found and the comparison of the two
unfoldable pub store_group : GroupKey → Session Group
store_group key = do
  write (insert_group key)
  found ← query (λ db. find_group_by_key key.group_key db.groups)
  row ← or_raise (value_error "assert row is not None") found
  raise_if (not (matches_group key row)) (value_error "conflicting route group identity or budget")
  commit
  pure row

-- the checks before the insertion, in their order
unfoldable pub checked_group : String → String → ℤ → DecimalInput → DecimalInput → Result GroupKey
checked_group group_key wallet source_chain_id loss_budget_pct source_usd =
    on_ok (decimal_text loss_budget_pct) λ budget. on_ok (decimal_text source_usd) λ source_value.
      refuse_if (is_empty group_key || is_empty wallet || not (is_positive source_chain_id))
        (value_error "invalid route group identity")
        (refuse_if (budget == 0 || ltb (100 * unit) budget || source_value == 0)
          (value_error "invalid route group valuation")
          (ok (record {
            group_key = group_key;
            wallet = lower wallet;
            source_chain_id = source_chain_id;
            loss_budget_pct = budget;
            source_usd = source_value;
          })))

unfoldable pub get_or_create_group :
    String → String → ℤ → DecimalInput → DecimalInput → Session Group
get_or_create_group group_key wallet source_chain_id loss_budget_pct source_usd = do
  key ← lift (checked_group group_key wallet source_chain_id loss_budget_pct source_usd)
  store_group key

unfoldable pub group : ℕ → Session Group
group i = do found ← query (find_group i); or_raise key_error found

unfoldable pub is_open_group : GroupState → Bool
is_open_group GroupState.planned = true
is_open_group GroupState.active = true
is_open_group _ = false

unfoldable pub record_group_projection : ℕ → DecimalInput → DecimalInput → Session (Unit {0})
unfolding group
record_group_projection i projected_loss_usd projected_loss_pct = do
  loss ← lift (decimal_text projected_loss_usd)
  percentage ← lift (decimal_text projected_loss_pct)
  g ← group i
  raise_if (not (is_open_group g.state))
      (value_error "cannot update a terminal route group projection")
  write (
      update_group i
        (λ r. record r { projected_loss_usd = some loss; projected_loss_pct = some percentage }))
  commit

-- state in {"planned", "active", "deposit_pending"}
unfoldable pub accrues_loss : GroupState → Bool
accrues_loss GroupState.planned = true
accrues_loss GroupState.active = true
accrues_loss GroupState.deposit_pending = true
accrues_loss _ = false

unfoldable pub record_group_realized_loss : ℕ → DecimalInput → Session (Unit {0})
unfolding group
record_group_realized_loss i realized_loss_usd = do
  loss ← lift (decimal_text realized_loss_usd)
  g ← group i
  raise_if (ltb loss g.realized_loss_usd) (value_error "realised group loss cannot move backwards")
  raise_if (not (accrues_loss g.state))
      (value_error "cannot update a terminal route group realised loss")
  write (update_group i (λ r. record r { realized_loss_usd = loss }))
  commit

-- the two tests of record_group_state
unfoldable pub group_allows : GroupState → GroupState → Bool
group_allows current state = group_eq state current || group_may current state

unfoldable pub record_group_state : ℕ → String → Option String → Session (Unit {0})
unfolding group
record_group_state i state reason = do
  g ← group i
  new ← or_raise (value_error "invalid route group state") (group_of_name state)
  raise_if (not (group_allows g.state new)) (value_error "invalid group transition")
  write (update_group i (λ r. record r { state = new; reason = coalesce reason r.reason }))
  commit
