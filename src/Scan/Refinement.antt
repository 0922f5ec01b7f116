-- ===== src/Scan/Refinement.antt =====
-- Saving a buffer of src/evm_inventory/scan_buffer.py, and the store afterwards.
use evm_garbage_collector.Prelude.{
  ℕ, String, ◌≡◌, refl, ap, ◌∙◌, subst, Bool, true, false, Option, none, some, List, [], ◌∷◌, find,
  arith,
}
use evm_garbage_collector.Prelude.Int.{ℤ}
use evm_garbage_collector.Scan.Store.{Facts, Asset, Tables, is_asset, assets_of, discovery_state}
use evm_garbage_collector.Scan.Buffer.{
  Row, Buffer, new_buffer, scan_buffer, row_is, upsert, upsert_into, record_row, write_state, save,
  Replay, stored_id, replay, seal, persist, Write, upserts, records, discovers, passes, write,
  write_all,
}
use evm_garbage_collector.Scan.Relation.{Match}
use evm_garbage_collector.Scan.Framed.{AreKeyed, IsOther}
use evm_garbage_collector.Scan.Simulated.{start, Simulated}
use evm_garbage_collector.Scan.Loaded.{new-Simulated}
use evm_garbage_collector.Scan.Simulation.{IsOwn, write-Simulated}

-- what a buffer shows of an asset
unfoldable pub row_facts : String → Buffer → Option Facts
row_facts a b = elim (find (row_is a) b.rows) [ none ↦ none | some r ↦ some r.facts ]

-- what the store says of an asset of a wallet on a network
unfoldable pub asset_facts : String → ℕ → String → Tables → Option Facts
asset_facts wallet chain_id a t = elim (find (is_asset wallet chain_id a) t.assets) [
  | none ↦ none
  | some r ↦ some r.facts
]

Match-facts :
    (tr : ℤ → ℤ) (o : Option Row) (s : Option Asset)
    → Match tr o s
    → (elim s as (λ x. Option Facts) [ none ↦ none | some r ↦ some r.facts ])
      ≡ (elim o as (λ x. Option Facts) [ none ↦ none | some r ↦ some r.facts ])
Match-facts tr none none m = refl
Match-facts tr none (some a) m = absurd m
Match-facts tr (some r) none m = absurd m
Match-facts tr (some r) (some a) m = ap some m.1

-- the writes of a buffer's workers, each of which may be late
unfoldable pub AreOwn : String → ℕ → List (Bool × Write) → Type 0
unfolding IsOwn
AreOwn wallet chain_id [] = Unit
AreOwn wallet chain_id ((expired, w) ∷ ws) = IsOwn wallet chain_id w × AreOwn wallet chain_id ws

write_scope :
    (expired : Bool) (w : Write) (b : Buffer)
    → ((write expired w b).wallet ≡ b.wallet) × ((write expired w b).chain_id ≡ b.chain_id)
unfolding write upsert upsert_into record_row write_state save
write_scope expired (upserts wallet chain_id asset_id kind metadata) b = ground arith
write_scope expired (records i result status retry_after) b = ground arith
write_scope expired (discovers wallet chain_id d) b = ground arith
write_scope expired (passes wallet chain_id block) b = ground arith

write_all-Simulated :
    (wallet : String) (chain_id : ℕ) (t : Tables) (ws : List (Bool × Write)) (b : Buffer)
    → b.wallet ≡ wallet
    → b.chain_id ≡ chain_id
    → AreOwn wallet chain_id ws
    → Simulated t b
    → Simulated t (write_all ws b)
unfolding write_all AreOwn
write_all-Simulated wallet chain_id t [] b named numbered own s = s
write_all-Simulated wallet chain_id t ((expired, w) ∷ ws) b named numbered own s =
    let (same, alike) = write_scope expired w b in
    let first : IsOwn b.wallet b.chain_id w = rw (named, numbered) own.0 in
    write_all-Simulated wallet chain_id t ws (write expired w b) (same ∙ named) (alike ∙ numbered)
      own.1 (write-Simulated t b s expired w first)

write_all_scope :
    (ws : List (Bool × Write)) (b : Buffer)
    → ((write_all ws b).wallet ≡ b.wallet) × ((write_all ws b).chain_id ≡ b.chain_id)
unfolding write_all
write_all_scope [] b = (refl, refl)
write_all_scope ((expired, w) ∷ ws) b =
    let (same, alike) = write_scope expired w b in
    let (same', alike') = write_all_scope ws (write expired w b) in (same' ∙ same, alike' ∙ alike)

-- the tables of a store say of another wallet or network what they said before
abbrev pub Keeps : String → ℕ → Tables → Tables → Type 0
Keeps w c t now =
    (assets_of w c now ≡ assets_of w c t) × (discovery_state w c now ≡ discovery_state w c t)

-- what saving a buffer of a wallet and a network gives
abbrev pub Saves : String → ℕ → Tables → Buffer → Type 0
Saves wallet chain_id t b =
    (r : Replay) × ((persist b t).1 ≡ some r)
    × ((a : String) → asset_facts wallet chain_id a r.tables ≡ row_facts a b)
    × (discovery_state wallet chain_id r.tables ≡ b.state)
    × (r.tables.readonly ≡ false)
    × (AreKeyed t.assets → AreKeyed r.tables.assets)
    × (AreKeyed t.assets
        → (w : String) (c : ℕ) → IsOther wallet chain_id w c
        → Keeps w c t r.tables)

Simulated-Saves : (t : Tables) (b : Buffer) → Simulated t b → Saves b.wallet b.chain_id t b
unfolding persist asset_facts row_facts
Simulated-Saves t b s = (
  s.replayed,
  s.replays,
  (λ a.
      Match-facts (stored_id s.replayed.ids) (find (row_is a) b.rows)
        (find (is_asset b.wallet b.chain_id a) s.replayed.tables.assets) (s.rows.same a)),
  s.state,
  s.writable,
  (λ k. (s.framed k).keyed),
  (λ k w c other. ((s.framed k).others w c other, (s.framed k).states w c other)),
)

-- a buffer that is filled from the store that it is saved into
saved_back :
    (wallet : String) (chain_id : ℕ) (t : Tables) (ws : List (Bool × Write))
    → t.readonly ≡ false
    → AreOwn wallet chain_id ws
    → Saves wallet chain_id t (write_all ws (scan_buffer wallet chain_id t))
unfolding scan_buffer new_buffer
saved_back wallet chain_id t ws writable own =
    let b = scan_buffer wallet chain_id t in
    let (same, alike) = write_all_scope ws b in
    let s =
      write_all-Simulated wallet chain_id t ws b refl refl own
        (new-Simulated wallet chain_id t writable) in
    subst (λ w. Saves w chain_id t (write_all ws b)) same
      (subst (λ c. Saves (write_all ws b).wallet c t (write_all ws b)) alike
        (Simulated-Saves t (write_all ws b) s))

same_buffer :
    (wallet : String) (chain_id : ℕ) (t t' : Tables)
    → assets_of wallet chain_id t ≡ assets_of wallet chain_id t'
    → discovery_state wallet chain_id t ≡ discovery_state wallet chain_id t'
    → scan_buffer wallet chain_id t' ≡ scan_buffer wallet chain_id t
unfolding scan_buffer
same_buffer wallet chain_id t t' same_rows same_state = rw (same_rows, same_state) refl

pub saved_into :
    (wallet : String) (chain_id : ℕ) (t t' : Tables) (ws : List (Bool × Write))
    → assets_of wallet chain_id t ≡ assets_of wallet chain_id t'
    → discovery_state wallet chain_id t ≡ discovery_state wallet chain_id t'
    → t'.readonly ≡ false
    → AreOwn wallet chain_id ws
    → Saves wallet chain_id t' (write_all ws (scan_buffer wallet chain_id t))
saved_into wallet chain_id t t' ws same_rows same_state writable own =
    subst (λ b. Saves wallet chain_id t' (write_all ws b))
      (same_buffer wallet chain_id t t' same_rows same_state)
      (saved_back wallet chain_id t' ws writable own)

-- A buffer that is filled from a store, and saved into one that can be written and that has the
-- same rows of the buffer's wallet and network, and the same discovery state of these, is saved
-- without an exception, whatever writes of this wallet and network its workers made and whichever
-- of them raised. The store then says of every asset of the wallet and network, and of their
-- discovery, what the buffer showed.
pub persist_refines :
    (wallet : String) (chain_id : ℕ) (t t' : Tables) (ws : List (Bool × Write))
    → assets_of wallet chain_id t ≡ assets_of wallet chain_id t'
    → discovery_state wallet chain_id t ≡ discovery_state wallet chain_id t'
    → t'.readonly ≡ false
    → AreOwn wallet chain_id ws
    → let b = write_all ws (scan_buffer wallet chain_id t) in
      (r : Replay) × ((persist b t').1 ≡ some r)
      × ((a : String) → asset_facts wallet chain_id a r.tables ≡ row_facts a b)
      × (discovery_state wallet chain_id r.tables ≡ b.state)
persist_refines wallet chain_id t t' ws same_rows same_state writable own =
    let (r, runs, shown, state, _, _, _) =
      saved_into wallet chain_id t t' ws same_rows same_state writable own in
    (r, runs, shown, state)

sealed_write : (expired : Bool) (w : Write) (b : Buffer) → b.sealed ≡ true → write expired w b ≡ b
unfolding write upsert record_row write_state save
sealed_write expired (upserts wallet chain_id asset_id kind metadata) b h = rw h refl
sealed_write expired (records i result status retry_after) b h = rw h refl
sealed_write expired (discovers wallet chain_id d) b h = rw h refl
sealed_write expired (passes wallet chain_id block) b h = rw h refl

sealed_writes : (ws : List (Bool × Write)) (b : Buffer) → b.sealed ≡ true → write_all ws b ≡ b
unfolding write_all
sealed_writes [] b h = refl
sealed_writes ((expired, w) ∷ ws) b h =
    ap (λ (x : Buffer). write_all ws x) (sealed_write expired w b h) ∙ sealed_writes ws b h

-- What a worker writes after a buffer was saved changes neither the buffer nor what saving it again
-- gives, into whatever store.
pub late_writes_refused :
    (b : Buffer) (t t' : Tables) (ws : List (Bool × Write))
    → let saved = (persist b t).0 in
      (write_all ws saved ≡ saved) × ((persist (write_all ws saved) t').1 ≡ (persist b t').1)
unfolding persist seal
late_writes_refused b t t' ws =
    let same = sealed_writes ws (seal b) refl in
    (same, ap (λ (x : Buffer). replay x.operations (start t')) same)
