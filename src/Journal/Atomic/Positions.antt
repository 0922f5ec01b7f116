-- ===== src/Journal/Atomic/Positions.antt =====
-- Atomicity of the operations on route_positions and route_events
-- (src/evm_inventory/journal.py).
use evm_garbage_collector.Prelude.{
  ℕ, String, ◌≡◌, refl, false, Option, none, some, inl, inr, arith, find-append_new, Option-cases,
  text_eq, text_eq_refl,
}
use evm_garbage_collector.Journal.Tables.{Position, Db, next_id}
use evm_garbage_collector.Journal.Inputs.{RawInput}
use evm_garbage_collector.Journal.Session.{Connection, IsSettled, Leaves, and_then-Leaves}
use evm_garbage_collector.Journal.Positions.{
  PositionKey, new_position, insert_position, find_position_by_key, conflicts_position,
  checked_position, store_position, get_or_create_position, record_position_state, Requote,
  record_requote_after_swap, record_requote_after_bridge,
}

conflicts_position-new_position :
    (i : ℕ) (k : PositionKey) → conflicts_position k (new_position i k) ≡ false
unfolding conflicts_position new_position
conflicts_position-new_position i k = elim (Option-cases k.source_asset_id) [
  | inl absent ↦ ground arith
  | inr (asset, given) ↦ ground (arith, text_eq_refl asset)
]

pub find-insert_position :
    (k : PositionKey) (db : Db)
    → find_position_by_key k.position_key db.positions ≡ none
    → find_position_by_key k.position_key (insert_position k db).positions
      ≡ some (new_position (next_id (λ (p : Position). p.id) db.positions) k)
unfolding find_position_by_key insert_position new_position
find-insert_position k db h = rw h (
    find-append_new (λ (p : Position). text_eq p.position_key k.position_key) db.positions
      (new_position (next_id (λ (p : Position). p.id) db.positions) k) h
      (text_eq_refl k.position_key))

pub insert_position_known :
    (k : PositionKey) (db : Db) {p : Position}
    → find_position_by_key k.position_key db.positions ≡ some p
    → insert_position k db ≡ db
unfolding insert_position
insert_position_known k db h = rw h

pub store_position-Leaves :
    (c : Connection) → IsSettled c → (k : PositionKey) → Leaves c (store_position k c)
unfolding store_position
store_position-Leaves c settled k =
    elim (Option-cases (find_position_by_key k.position_key c.work.positions)) [
      | inl new ↦
          rw
            (
              find-insert_position k c.work new,
              conflicts_position-new_position (next_id (λ (p : Position). p.id) c.work.positions) k,
            )
            refl
      | inr (p, known) ↦ rw (insert_position_known k c.work known, known) (ground arith)
    ]

module _ (c : Connection) (settled : IsSettled c) where
  pub get_or_create_position-Leaves :
      (key wallet : String) (group_id : Option ℕ) (asset : Option String) (amount : Option RawInput)
      → Leaves c (get_or_create_position key wallet group_id asset amount c)
  unfolding get_or_create_position
  get_or_create_position-Leaves key wallet group_id asset amount =
      and_then-Leaves c settled (checked_position key wallet group_id asset amount) store_position
        (store_position-Leaves c settled)

  pub record_position_state-Leaves :
      (i : ℕ) (state : String) (asset : Option String) (balance : Option RawInput)
      (reason : Option String)
      → Leaves c (record_position_state i state asset balance reason c)
  unfolding record_position_state
  record_position_state-Leaves i state asset balance reason = ground arith

  pub record_requote_after_swap-Leaves :
      (i : ℕ) (q : Requote) → Leaves c (record_requote_after_swap i q c)
  unfolding record_requote_after_swap
  record_requote_after_swap-Leaves i q = ground arith

  pub record_requote_after_bridge-Leaves :
      (i : ℕ) (q : Requote) → Leaves c (record_requote_after_bridge i q c)
  unfolding record_requote_after_bridge
  record_requote_after_bridge-Leaves i q = ground arith
