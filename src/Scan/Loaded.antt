-- ===== src/Scan/Loaded.antt =====
-- A buffer of src/evm_inventory/scan_buffer.py before its first write, and the store
-- (src/evm_inventory/store.py) that it is filled from.
use evm_garbage_collector.Prelude.{
  ℕ, String, ◌≡◌, refl, subst, Bool, true, false, ◌&&◌, some, Option, List, [], ◌∷◌, map, find, any,
  all, select, lower, text_eq, ◌==◌, if◌then◌else◌, arith, Bool-cases, inl, inr,
}
use evm_garbage_collector.Prelude.Int.{ℤ}
use evm_garbage_collector.Scan.Store.{
  Asset, Tables, is_asset, has_asset_id, assets_of, discovery_state,
}
use evm_garbage_collector.Scan.Buffer.{
  Row, new_buffer, to_row, scan_buffer, row_is, has_id, stored_id, replay,
}
use evm_garbage_collector.Scan.Relation.{Match, eq_ℤ→eq}
use evm_garbage_collector.Scan.Framed.{AreKeyed, Framed, is_row, is_owned, nowhere}
use evm_garbage_collector.Scan.Simulated.{start, Simulated}

module _ (wallet : String) (chain_id : ℕ) where
  in_scope : Asset → Bool
  in_scope r = text_eq r.wallet (lower wallet) && (r.chain_id == chain_id)

  -- the rows of the buffer, before the first write
  loaded : List Asset → List Row
  unfolding in_scope
  loaded rs = map to_row (select in_scope rs)

  loaded_head :
      (a : String) (x y z : Bool) (r : Asset) (rs : List Asset) (s : Option Asset)
      → text_eq r.asset_id a ≡ z
      → Match (stored_id []) (find (row_is a) (map to_row rs)) s
      → Match
          (stored_id [])
          (find (row_is a) (map to_row (if x && y then r ∷ rs else rs)))
          (if x && y && z then some r else s)
  unfolding to_row stored_id
  loaded_head a true true true r rs s e m = rw e (refl, refl)
  loaded_head a true true false r rs s e m = rw e m
  loaded_head a true false z r rs s e m = m
  loaded_head a false y z r rs s e m = m

  loaded-Match :
      (a : String) (rs : List Asset)
      → Match (stored_id []) (find (row_is a) (loaded rs)) (find (is_asset wallet chain_id a) rs)
  unfolding loaded in_scope
  loaded-Match a [] = tt
  loaded-Match a (r ∷ rs) =
      loaded_head a (text_eq r.wallet (lower wallet)) (r.chain_id == chain_id)
        (text_eq r.asset_id a) r (select in_scope rs) (find (is_asset wallet chain_id a) rs) refl
        (loaded-Match a rs)

  loaded_known :
      (i : ℤ) (rs : List Asset)
      → any (has_id i) (loaded rs) ≡ true
      → any (has_asset_id (stored_id [] i)) rs ≡ true
  unfolding loaded in_scope stored_id to_row
  loaded_known i [] h = cc
  loaded_known i (r ∷ rs) h = ground (arith, loaded_known i rs)

  loaded_older : (k : ℕ) (rs : List Asset) → any (has_id (ℤ.negsuc k)) (loaded rs) ≡ false
  unfolding loaded in_scope stored_id to_row
  loaded_older k [] = refl
  loaded_older k (r ∷ rs) = ground (arith, loaded_older k rs)

  loaded-owned :
      (i : ℤ) (rs : List Asset)
      → AreKeyed rs
      → any (has_id i) (loaded rs) ≡ true
      → all (is_owned wallet chain_id i) rs ≡ true
  unfolding loaded in_scope stored_id to_row AreKeyed
  loaded-owned i [] k h = refl
  loaded-owned i (r ∷ rs) k h = elim (Bool-cases (has_asset_id i r)) [
    | inr unlike ↦ ground (arith, loaded-owned i rs k.1)
    | inl is ↦
        let gone : any (has_asset_id i) rs ≡ false =
          subst (λ z. any (has_asset_id z) rs ≡ false) (eq_ℤ→eq (ℤ.pos r.id) i is) k.0 in
        ground (arith, loaded_known i rs, nowhere (has_asset_id i) (is_row wallet chain_id) rs gone)
  ]

  new-Framed :
      (t : Tables) → AreKeyed t.assets → Framed wallet chain_id (stored_id []) (loaded t.assets) t t
  unfolding stored_id
  new-Framed t k = record {
    owned = λ i h. loaded-owned i t.assets k h;
    keyed = k;
    others = λ w c other. refl;
    states = λ w c other. refl;
  }

  pub new-Simulated :
      (t : Tables) → t.readonly ≡ false → Simulated t (scan_buffer wallet chain_id t)
  unfolding scan_buffer new_buffer assets_of discovery_state replay loaded in_scope stored_id
  new-Simulated t writable = record {
    replayed = start t;
    replays = refl;
    rows = record {
      same = λ a. loaded-Match a t.assets;
      known = λ i h. loaded_known i t.assets h;
      apart = λ i j h h' e. e;
      older = λ k h. ground (arith, loaded_older k t.assets);
    };
    state = refl;
    framed = λ k. new-Framed t k;
    writable = writable;
  }
