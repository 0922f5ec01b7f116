-- ===== src/Scan/Upserts.antt =====
-- An asset that a worker upserts (src/evm_inventory/scan_buffer.py) and its replay.
use evm_garbage_collector.Prelude.{
  String, ◌≡◌, refl, sym, subst, none, some, [], ◌∷◌, ◌++◌, find, update_where, lower, text_eq_refl,
  arith,
}
use evm_garbage_collector.Prelude.Int.{ℤ}
use evm_garbage_collector.Journal.Value.{Fields}
use evm_garbage_collector.Scan.Store.{
  Asset, Tables, is_asset, has_asset_id, fresh_id, described, new_facts, upsert_asset, upsert_found,
  discovery_state,
}
use evm_garbage_collector.Scan.Buffer.{
  Row, upserted, Buffer, row_is, has_id, upsert_into, stored_id, replay_one,
}
use evm_garbage_collector.Scan.Relation.{Related, found_known, updated-Related}
use evm_garbage_collector.Scan.Appended.{with_new, appended-Related}
use evm_garbage_collector.Scan.Framed.{Framed, updated-Framed}
use evm_garbage_collector.Scan.Framed.Inserts.{appended-Framed}
use evm_garbage_collector.Scan.Simulated.{
  start, Simulated, replay_appended, Match-found, Match-none, same_ids,
}

module _ (t : Tables) (b : Buffer) (s : Simulated t b) (asset_id kind : String)
    (metadata : Fields) where
  pub upsert_old :
      (r : Row)
      → find (row_is (lower asset_id)) b.rows ≡ some r
      → Simulated t (upsert_into (some r) b.wallet b.chain_id asset_id kind metadata b).1
  unfolding upsert_into replay_one upsert_asset upsert_found discovery_state stored_id
  upsert_old r e =
      let (a, found, id) =
        Match-found (stored_id s.replayed.ids) (find (row_is (lower asset_id)) b.rows)
          (find (is_asset b.wallet b.chain_id (lower asset_id)) s.replayed.tables.assets) r e
          (s.rows.same (lower asset_id)) in
      let g = λ (x : Asset). record x { facts = described kind metadata x.facts } in
      let related =
        updated-Related s.rows r.id (found_known s.rows (row_is (lower asset_id)) r e)
          (described kind metadata) g (λ x. refl) (λ y x. refl) (λ x. refl) in
      record {
        replayed = record {
          ids = (r.id, a.id) ∷ s.replayed.ids;
          found = a.id ∷ s.replayed.found;
          tables = record s.replayed.tables {
            assets = update_where (has_asset_id (ℤ.pos a.id)) g s.replayed.tables.assets;
          };
        };
        replays =
            replay_appended b.operations (upserted b.wallet b.chain_id asset_id kind metadata r.id)
              (start t) s.replayed _ s.replays (rw (s.writable, found) refl);
        rows =
            subst
              (λ (f : ℤ → ℤ).
                Related b.wallet b.chain_id f b.next_id
                  (update_where (has_id r.id)
                    (λ (x : Row). record x { facts = described kind metadata x.facts }) b.rows)
                  (update_where (has_asset_id (ℤ.pos a.id)) g s.replayed.tables.assets))
              (sym (same_ids (stored_id s.replayed.ids) r.id a.id id))
              (subst
                (λ (z : ℤ).
                  Related b.wallet b.chain_id (stored_id s.replayed.ids) b.next_id
                    (update_where (has_id r.id)
                      (λ (x : Row). record x { facts = described kind metadata x.facts }) b.rows)
                    (update_where (has_asset_id z) g s.replayed.tables.assets))
                (sym id) related);
        state = s.state;
        framed = λ k.
            subst
              (λ (f : ℤ → ℤ).
                Framed b.wallet b.chain_id f
                  (update_where (has_id r.id)
                    (λ (x : Row). record x { facts = described kind metadata x.facts }) b.rows)
                  t
                  (record s.replayed.tables {
                    assets = update_where (has_asset_id (ℤ.pos a.id)) g s.replayed.tables.assets;
                  }))
              (sym (same_ids (stored_id s.replayed.ids) r.id a.id id))
              (subst
                (λ (z : ℤ).
                  Framed b.wallet b.chain_id (stored_id s.replayed.ids)
                    (update_where (has_id r.id)
                      (λ (x : Row). record x { facts = described kind metadata x.facts }) b.rows)
                    t
                    (record s.replayed.tables {
                      assets = update_where (has_asset_id z) g s.replayed.tables.assets;
                    }))
                (sym id)
                (updated-Framed (s.framed k) r.id (described kind metadata) g
                  (found_known s.rows (row_is (lower asset_id)) r e) (λ x. refl) (λ x. refl)
                  (λ x. refl)));
        writable = s.writable;
      }

  pub upsert_new :
      find (row_is (lower asset_id)) b.rows ≡ none
      → Simulated t (upsert_into none b.wallet b.chain_id asset_id kind metadata b).1
  unfolding upsert_into replay_one upsert_asset upsert_found discovery_state stored_id
  upsert_new e =
      let found =
        Match-none (stored_id s.replayed.ids) (find (row_is (lower asset_id)) b.rows)
          (find (is_asset b.wallet b.chain_id (lower asset_id)) s.replayed.tables.assets) e
          (s.rows.same (lower asset_id)) in
      let fresh = fresh_id s.replayed.tables.assets in
      let r : Row = record {
        id = ℤ.negsuc b.next_id;
        asset_id = lower asset_id;
        facts = new_facts kind metadata;
      } in
      let a : Asset = record {
        id = fresh;
        wallet = lower b.wallet;
        chain_id = b.chain_id;
        asset_id = lower asset_id;
        attempts = 0;
        facts = new_facts kind metadata;
      } in
      record {
        replayed = record {
          ids = (ℤ.negsuc b.next_id, fresh) ∷ s.replayed.ids;
          found = fresh ∷ s.replayed.found;
          tables = record s.replayed.tables { assets = s.replayed.tables.assets ++ a ∷ [] };
        };
        replays =
            replay_appended b.operations
              (upserted b.wallet b.chain_id asset_id kind metadata (ℤ.negsuc b.next_id)) (start t)
              s.replayed _ s.replays (rw (s.writable, found) refl);
        rows =
            subst
              (λ n.
                Related b.wallet b.chain_id
                  (with_new (ℤ.negsuc b.next_id) fresh (stored_id s.replayed.ids)) n
                  (b.rows ++ r ∷ []) (s.replayed.tables.assets ++ a ∷ []))
              omega arith
              (appended-Related s.rows r a refl refl refl
                (λ x. rw (text_eq_refl (lower b.wallet)) ground arith));
        state = s.state;
        framed = λ k.
            appended-Framed (s.framed k) s.rows r a refl refl refl
              (λ x. rw (text_eq_refl (lower b.wallet)) ground arith)
              (rw (text_eq_refl (lower b.wallet)) ground arith);
        writable = s.writable;
      }
