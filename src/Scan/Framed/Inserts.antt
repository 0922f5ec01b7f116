-- ===== src/Scan/Framed/Inserts.antt =====
-- The rows of the other wallets and networks when a new asset of a buffer is stored
-- (src/evm_inventory/scan_buffer.py, src/evm_inventory/store.py).
use evm_garbage_collector.Prelude.{
  ℕ, String, ◌≡◌, ◌∙◌, Bool, true, ◌||◌, List, [], ◌∷◌, ◌++◌, any, all, arith, inl, inr, ◌⊎◌,
}
use evm_garbage_collector.Prelude.Int.{ℤ}
use evm_garbage_collector.Scan.Store.{
  Asset, Tables, is_asset, has_asset_id, fresh_id, assets_of, discovery_state,
}
use evm_garbage_collector.Scan.Buffer.{Row, row_is, has_id}
use evm_garbage_collector.Scan.Relation.{any-fresh_id, eq_ℤ_refl, Related}
use evm_garbage_collector.Scan.Appended.{with_new, unseen, new_or_old}
use evm_garbage_collector.Scan.Framed.{
  is_row, is_owned, other_row, select_appended, all_appended, AreKeyed-appended, nowhere, Framed,
}

or_own : (b c : Bool) → c ≡ true → (b || c) ≡ true
or_own b c h = ground arith

module _ {wallet : String} {chain_id : ℕ} {tr : ℤ → ℤ} {next : ℕ} {rows : List Row} {t now : Tables}
    (f : Framed wallet chain_id tr rows t now) (v : Related wallet chain_id tr next rows now.assets)
    (r : Row) (a : Asset) (row_id : r.id ≡ ℤ.negsuc next) (asset_id : a.id ≡ fresh_id now.assets)
    (facts : a.facts ≡ r.facts) (keys : (x : String) → is_asset wallet chain_id x a ≡ row_is x r)
    (own : is_row wallet chain_id a ≡ true) where
  owned_new :
      (i : ℤ)
      → (any (has_id i) rows ≡ true) ⊎ (i ≡ ℤ.negsuc next)
      → all
          (is_owned wallet chain_id (with_new (ℤ.negsuc next) (fresh_id now.assets) tr i))
          (now.assets ++ a ∷ [])
        ≡ true
  owned_new i (inl old) =
      rw (unseen v r a row_id asset_id facts keys i old) (
        all_appended (is_owned wallet chain_id (tr i)) now.assets a (f.owned i old)
          (or_own _ _ own))
  owned_new i (inr new) =
      rw (new, eq_ℤ_refl (ℤ.negsuc next))
        (all_appended (is_owned wallet chain_id (ℤ.pos (fresh_id now.assets))) now.assets a
          (nowhere (has_asset_id (ℤ.pos (fresh_id now.assets))) (is_row wallet chain_id) now.assets
            (any-fresh_id (fresh_id now.assets) now.assets (omega arith)))
          (or_own _ _ own))

  pub appended-Framed :
      Framed wallet chain_id
        (with_new (ℤ.negsuc next) (fresh_id now.assets) tr)
        (rows ++ r ∷ [])
        t
        (record now { assets = now.assets ++ a ∷ [] })
  unfolding assets_of discovery_state
  appended-Framed = record {
    owned = λ i there. owned_new i (new_or_old v r a row_id asset_id facts keys i there);
    keyed =
        AreKeyed-appended (fresh_id now.assets) now.assets a asset_id
          (any-fresh_id (fresh_id now.assets) now.assets (omega arith)) f.keyed;
    others = λ w c other.
        select_appended (is_row w c) now.assets a (other_row wallet chain_id w c a other own)
        ∙ f.others w c other;
    states = λ w c other. f.states w c other;
  }
