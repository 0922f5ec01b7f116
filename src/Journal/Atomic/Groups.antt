-- ===== src/Journal/Atomic/Groups.antt =====
-- Atomicity of the operations on route_groups (src/evm_inventory/journal.py).
use evm_garbage_collector.Prelude.{
  ℕ, String, ◌≡◌, refl, true, Option, none, some, inl, inr, arith, find-append_new, Option-cases,
  text_eq, text_eq_refl,
}
use evm_garbage_collector.Prelude.Int.{ℤ, eq_ℤ}
use evm_garbage_collector.Journal.Tables.{Group, Db, next_id}
use evm_garbage_collector.Journal.Inputs.{DecimalInput}
use evm_garbage_collector.Journal.Session.{Connection, IsSettled, Leaves, and_then-Leaves}
use evm_garbage_collector.Journal.Groups.{
  GroupKey, new_group, insert_group, find_group_by_key, checked_group, matches_group,
  get_or_create_group, store_group, record_group_projection, record_group_realized_loss,
  record_group_state,
}

eq_ℤ_refl : (a : ℤ) → eq_ℤ a a ≡ true
eq_ℤ_refl a = ground arith

matches_group-new_group : (i : ℕ) (k : GroupKey) → matches_group k (new_group i k) ≡ true
unfolding matches_group new_group
matches_group-new_group i k = ground (arith, text_eq_refl k.wallet, eq_ℤ_refl k.source_chain_id)

-- the row that is found after the insertion, when there was none
pub find-insert_group :
    (k : GroupKey) (db : Db)
    → find_group_by_key k.group_key db.groups ≡ none
    → find_group_by_key k.group_key (insert_group k db).groups
      ≡ some (new_group (next_id (λ (g : Group). g.id) db.groups) k)
unfolding find_group_by_key insert_group new_group
find-insert_group k db h = rw h (
    find-append_new (λ (g : Group). text_eq g.group_key k.group_key) db.groups
      (new_group (next_id (λ (g : Group). g.id) db.groups) k) h (text_eq_refl k.group_key))

insert_group_known :
    (k : GroupKey) (db : Db) {g : Group}
    → find_group_by_key k.group_key db.groups ≡ some g
    → insert_group k db ≡ db
unfolding insert_group
insert_group_known k db h = rw h

pub store_group-Leaves :
    (c : Connection) → IsSettled c → (k : GroupKey) → Leaves c (store_group k c)
unfolding store_group
store_group-Leaves c settled k = elim (Option-cases (find_group_by_key k.group_key c.work.groups)) [
  | inl new ↦
      rw
        (
          find-insert_group k c.work new,
          matches_group-new_group (next_id (λ (g : Group). g.id) c.work.groups) k,
        )
        refl
  | inr (g, known) ↦ rw (insert_group_known k c.work known, known) (ground arith)
]

module _ (c : Connection) (settled : IsSettled c) where
  pub record_group_state-Leaves :
      (i : ℕ) (state : String) (reason : Option String)
      → Leaves c (record_group_state i state reason c)
  unfolding record_group_state
  record_group_state-Leaves i state reason = ground arith

  pub record_group_realized_loss-Leaves :
      (i : ℕ) (loss : DecimalInput) → Leaves c (record_group_realized_loss i loss c)
  unfolding record_group_realized_loss
  record_group_realized_loss-Leaves i loss = ground arith

  pub record_group_projection-Leaves :
      (i : ℕ) (loss pct : DecimalInput) → Leaves c (record_group_projection i loss pct c)
  unfolding record_group_projection
  record_group_projection-Leaves i loss pct = ground arith

  pub get_or_create_group-Leaves :
      (key wallet : String) (chain : ℤ) (budget usd : DecimalInput)
      → Leaves c (get_or_create_group key wallet chain budget usd c)
  unfolding get_or_create_group
  get_or_create_group-Leaves key wallet chain budget usd =
      and_then-Leaves c settled (checked_group key wallet chain budget usd) store_group
        (store_group-Leaves c settled)
