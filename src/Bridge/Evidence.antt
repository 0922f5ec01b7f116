-- ===== src/Bridge/Evidence.antt =====
-- The evidence in a status of the provider (_await_cross_chain_transfer of
-- src/evm_inventory/route_execution.py).
use evm_garbage_collector.Prelude.{
  ℕ, ◌<◌, String, ◌≡◌, true, Option, none, some, inl, inr, lower, text_eq, text_eq_iff, arith,
  Option-cases,
}
use evm_garbage_collector.Prelude.Int.{ℤ}
use evm_garbage_collector.Journal.Session.{ok}
use evm_garbage_collector.Bridge.{
  Asset, asset_identity, same_asset, Token, absent, incomplete, unreadable, identified, Receiving,
  Status, Transfer, arrived, raw_amount, token_address, check_token, is_other_asset, read_receiving,
  read_done, is_other_sender, is_finished, read_sent, read_status,
}

-- the status names no asset, or the destination's
abbrev pub IsToken : Asset → Token → Type 0
IsToken d absent = Unit
IsToken d incomplete = ⊥
IsToken d unreadable = ⊥
IsToken d (identified chain_id address decimals) =
    (a : Asset) × (asset_identity chain_id (token_address address) decimals ≡ some a)
    × (same_asset a d ≡ true)

-- the evidence in a status that an amount arrived
pub record Evidence (t : Transfer) (s : Status) (amount : ℕ) : Type 0 where
  pub finished : is_finished s ≡ true
  pub source : (h : String) × (s.sending ≡ some (some h)) × (lower h ≡ lower t.tx_hash)
  pub sender : (a : String) × (s.from_address ≡ some a) × (lower a ≡ lower t.sender)
  pub recipient : lower s.to_address ≡ lower t.recipient
  pub receiving :
      (r : Receiving) × (s.receiving ≡ some r)
      × (r.amount ≡ some (ℤ.pos amount))
      × IsToken t.destination r.token
  pub positive : 0 < amount

check_token_sound : (d : Asset) (k : Token) → check_token d k ≡ ok tt → IsToken d k
unfolding check_token is_other_asset
check_token_sound d absent h = tt
check_token_sound d incomplete h = cc
check_token_sound d unreadable h = cc
check_token_sound d (identified chain_id address decimals) h =
    elim (Option-cases (asset_identity chain_id (token_address address) decimals)) [
      | inl refused ↦ cc
      | inr (a, named) ↦ (a, named, ground arith)
    ]

raw_amount_sound : (v : Option ℤ) (n : ℕ) → raw_amount v ≡ ok n → (v ≡ some (ℤ.pos n)) × (0 < n)
unfolding raw_amount
raw_amount_sound none n h = cc
raw_amount_sound (some (ℤ.negsuc m)) n h = cc
raw_amount_sound (some (ℤ.pos m)) n h = ground arith

read_receiving_sound :
    (t : Transfer) (r : Receiving) (h : String) (n : ℕ)
    → read_receiving t r ≡ ok (arrived h n)
    → (raw_amount r.amount ≡ ok n) × (check_token t.destination r.token ≡ ok tt)
unfolding read_receiving
read_receiving_sound t r h n e = ground arith

read_done_sound :
    (t : Transfer) (s : Status) (h : String) (n : ℕ)
    → read_done t s ≡ ok (arrived h n)
    → (text_eq (lower s.to_address) (lower t.recipient) ≡ true)
      × ((r : Receiving) × (s.receiving ≡ some r) × (read_receiving t r ≡ ok (arrived h n)))
unfolding read_done
read_done_sound t s h n e = elim (Option-cases s.receiving) [
  | inl missing ↦ cc
  | inr (r, there) ↦ (ground arith, (r, there, ground arith))
]

read_sent_sound :
    (t : Transfer) (s : Status) (h : String) (n : ℕ)
    → read_sent t s ≡ ok (arrived h n)
    → (is_finished s ≡ true)
      × ((a : String) × (s.from_address ≡ some a) × (text_eq (lower a) (lower t.sender) ≡ true))
      × (read_done t s ≡ ok (arrived h n))
unfolding read_sent is_other_sender
read_sent_sound t s h n e = elim (Option-cases s.from_address) [
  | inl missing ↦ ground arith
  | inr (a, there) ↦ (ground arith, (a, there, ground arith), ground arith)
]

read_status_sound :
    (t : Transfer) (s : Status) (h : String) (n : ℕ)
    → read_status t s ≡ ok (arrived h n)
    → ((g : String) × (s.sending ≡ some (some g)) × (text_eq (lower g) (lower t.tx_hash) ≡ true))
      × (read_sent t s ≡ ok (arrived h n))
unfolding read_status
read_status_sound t s h n e = elim (Option-cases s.sending) [
  | inl missing ↦ ground arith
  | inr (none, there) ↦ ground arith
  | inr (some g, there) ↦ ((g, there, ground arith), ground arith)
]

-- the arrival that a status reports has its evidence
pub status-Evidence :
    (t : Transfer) (s : Status) (h : String) (n : ℕ)
    → read_status t s ≡ ok (arrived h n)
    → Evidence t s n
status-Evidence t s h n e =
    let ((g, sent, source), e1) = read_status_sound t s h n e in
    let (over, (a, from, sender), e2) = read_sent_sound t s h n e1 in
    let (to, (r, there, e3)) = read_done_sound t s h n e2 in
    let (amount, token) = read_receiving_sound t r h n e3 in
    let (exact, above) = raw_amount_sound r.amount n amount in
    record {
      finished = over;
      source = (g, sent, (text_eq_iff (lower g) (lower t.tx_hash)).0 source);
      sender = (a, from, (text_eq_iff (lower a) (lower t.sender)).0 sender);
      recipient = (text_eq_iff (lower s.to_address) (lower t.recipient)).0 to;
      receiving = (r, there, exact, check_token_sound t.destination r.token token);
      positive = above;
    }
