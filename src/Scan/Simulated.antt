-- ===== src/Scan/Simulated.antt =====
-- A buffer of src/evm_inventory/scan_buffer.py and the replay of its operations so far into the
-- store (src/evm_inventory/store.py).
use evm_garbage_collector.Prelude.{
  ℕ, ◌≡◌, refl, sym, ap, ◌∙◌, subst, fun_ext, false, Option, none, some, List, [], ◌∷◌, ◌++◌,
  Bool-cases, Option-cases, inl, inr,
}
use evm_garbage_collector.Prelude.Int.{ℤ, eq_ℤ}
use evm_garbage_collector.Scan.Store.{Asset, Tables, discovery_state}
use evm_garbage_collector.Scan.Buffer.{
  Row, Operation, Buffer, Replay, stored_id, replay_one, replay,
}
use evm_garbage_collector.Scan.Relation.{Match, Related, eq_ℤ→eq}
use evm_garbage_collector.Scan.Appended.{with_new}
use evm_garbage_collector.Scan.Framed.{AreKeyed, Framed}

abbrev pub start : Tables → Replay
start t = record { ids = []; found = []; tables = t }

-- what the replay of a buffer's operations leaves, and how the buffer stands to it
pub record Simulated (t : Tables) (b : Buffer) : Type 0 where
  pub replayed : Replay
  pub replays : replay b.operations (start t) ≡ some replayed
  pub rows :
      Related b.wallet b.chain_id (stored_id replayed.ids) b.next_id b.rows replayed.tables.assets
  pub state : discovery_state b.wallet b.chain_id replayed.tables ≡ b.state
  pub framed :
      AreKeyed t.assets
      → Framed b.wallet b.chain_id (stored_id replayed.ids) b.rows t replayed.tables
  pub writable : replayed.tables.readonly ≡ false

replay_cons :
    (o : Operation) (os : List Operation) (r x : Replay)
    → replay_one o r ≡ some x
    → replay (o ∷ os) r ≡ replay os x
unfolding replay
replay_cons o os r x e = rw (replay, e) refl

pub replay_appended :
    (os : List Operation) (o : Operation) (r r' r'' : Replay)
    → replay os r ≡ some r'
    → replay_one o r' ≡ some r''
    → replay (os ++ o ∷ []) r ≡ some r''
unfolding replay
replay_appended [] o r r' r'' h e =
    let same : r ≡ r' = cc in
    subst (λ (x : Replay). replay (o ∷ []) x ≡ some r'') (sym same) (rw (replay, e) refl)
replay_appended (o' ∷ os) o r r' r'' h e = elim (Option-cases (replay_one o' r)) [
  | inl fails ↦ cc
  | inr (x, runs) ↦
      replay_cons o' (os ++ o ∷ []) r x runs
      ∙ replay_appended os o x r' r'' (sym (replay_cons o' os r x runs) ∙ h) e
]

pub Match-found :
    (tr : ℤ → ℤ) (o : Option Row) (s : Option Asset) (r : Row)
    → o ≡ some r
    → Match tr o s
    → (a : Asset) × (s ≡ some a) × (ℤ.pos a.id ≡ tr r.id)
Match-found tr none s r e m = cc
Match-found tr (some r') none r e m = absurd m
Match-found tr (some r') (some a) r e m =
    let same : r' ≡ r = cc in (a, refl, m.0 ∙ ap tr (ap (λ (x : Row). x.id) same))

pub Match-none :
    (tr : ℤ → ℤ) (o : Option Row) (s : Option Asset) → o ≡ none → Match tr o s → s ≡ none
Match-none tr none none e m = refl
Match-none tr none (some a) e m = absurd m
Match-none tr (some r) s e m = cc

-- an id that is stored as it was already does not change what the ids say
pub same_ids : (tr : ℤ → ℤ) (i : ℤ) (n : ℕ) → ℤ.pos n ≡ tr i → with_new i n tr ≡ tr
same_ids tr i n e = fun_ext (λ j. elim (Bool-cases (eq_ℤ j i)) [
  | inl is ↦ rw is (e ∙ ap tr (sym (eq_ℤ→eq j i is)))
  | inr other ↦ rw other refl
])
