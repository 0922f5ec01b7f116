-- ===== src/Scan/Simulation.antt =====
-- The writes of a buffer (src/evm_inventory/scan_buffer.py) and their replay into the store
-- (src/evm_inventory/store.py).
use evm_garbage_collector.Prelude.{
  ℕ, ◌+◌, String, ◌≡◌, refl, Bool, true, false, ◌||◌, Option, none, some, find, any, update_where,
  lower, text_eq_refl, arith, Bool-cases, inl, inr,
}
use evm_garbage_collector.Prelude.Int.{ℤ}
use evm_garbage_collector.Journal.Value.{Value, Fields}
use evm_garbage_collector.Scan.Store.{
  Asset, Discovery, Tables, has_asset_id, observed, record_asset, write_discovery_state, save_pass,
  put, discovery_state,
}
use evm_garbage_collector.Scan.Buffer.{
  Row, Operation, recorded, discovered, passed, Buffer, row_is, has_id, append, upsert_into, upsert,
  record_row, write_state, save, stored_id, replay_one, Write, upserts, records, discovers, passes,
  write,
}
use evm_garbage_collector.Scan.Relation.{updated-Related}
use evm_garbage_collector.Scan.Framed.{updated-Framed, discovered-Framed, passed-Framed}
use evm_garbage_collector.Scan.Simulated.{start, Simulated, replay_appended}
use evm_garbage_collector.Scan.Upserts.{upsert_old, upsert_new}

-- a write that names this wallet and this network, where it names any
unfoldable pub IsOwn : String → ℕ → Write → Type 0
IsOwn wallet chain_id (upserts w c asset_id kind metadata) = (w ≡ wallet) × (c ≡ chain_id)
IsOwn wallet chain_id (records i result status retry_after) = Unit
IsOwn wallet chain_id (discovers w c d) = (w ≡ wallet) × (c ≡ chain_id)
IsOwn wallet chain_id (passes w c block) = (w ≡ wallet) × (c ≡ chain_id)

module _ (t : Tables) (b : Buffer) (s : Simulated t b) where
  upserted-Simulated :
      (o : Option Row) (asset_id kind : String) (metadata : Fields)
      → find (row_is (lower asset_id)) b.rows ≡ o
      → Simulated t (upsert_into o b.wallet b.chain_id asset_id kind metadata b).1
  upserted-Simulated (some r) asset_id kind metadata e = upsert_old t b s asset_id kind metadata r e
  upserted-Simulated none asset_id kind metadata e = upsert_new t b s asset_id kind metadata e

  recorded-Simulated :
      (i : ℤ) (result : Value) (status : String) (retry_after : Option ℕ)
      → any (has_id i) b.rows ≡ true
      → Simulated t (
          append (Operation.recorded i result status retry_after) (record b {
            rows =
                update_where
                  (has_id i)
                  (λ x. record x { facts = observed result status retry_after x.facts })
                  b.rows;
          }))
  unfolding replay_one record_asset discovery_state
  recorded-Simulated i result status retry_after present =
      let j = stored_id s.replayed.ids i in
      let f = observed result status retry_after in
      let g = λ (x : Asset). record x { facts = f x.facts; attempts = x.attempts + 1 } in
      record {
        replayed = record s.replayed {
          tables = record s.replayed.tables {
            assets = update_where (has_asset_id j) g s.replayed.tables.assets;
          };
        };
        replays =
            replay_appended b.operations (recorded i result status retry_after) (start t) s.replayed
              _ s.replays (rw (s.writable, s.rows.known i present) refl);
        rows = updated-Related s.rows i present f g (λ x. refl) (λ y x. refl) (λ x. refl);
        state = s.state;
        framed = λ k. updated-Framed (s.framed k) i f g present (λ x. refl) (λ x. refl) (λ x. refl);
        writable = s.writable;
      }

  discovered-Simulated :
      (d : Discovery)
      → Simulated t
          (append (Operation.discovered b.wallet b.chain_id d) (record b { state = some d }))
  unfolding replay_one write_discovery_state discovery_state put
  discovered-Simulated d = record {
    replayed = record s.replayed {
      tables = record s.replayed.tables {
        discovery = put b.wallet b.chain_id d s.replayed.tables.discovery;
      };
    };
    replays =
        replay_appended b.operations (discovered b.wallet b.chain_id d) (start t) s.replayed _
          s.replays (rw s.writable refl);
    rows = s.rows;
    state = rw (text_eq_refl (lower b.wallet)) (ground arith);
    framed = λ k. discovered-Framed (s.framed k) d;
    writable = s.writable;
  }

  passed-Simulated :
      (block : Value) → Simulated t (append (Operation.passed b.wallet b.chain_id block) b)
  unfolding replay_one save_pass discovery_state
  passed-Simulated block = record {
    replayed = record s.replayed {
      tables = record s.replayed.tables {
        passes = put b.wallet b.chain_id block s.replayed.tables.passes;
      };
    };
    replays =
        replay_appended b.operations (passed b.wallet b.chain_id block) (start t) s.replayed _
          s.replays (rw s.writable refl);
    rows = s.rows;
    state = s.state;
    framed =
        λ k. passed-Framed (s.framed k) (put b.wallet b.chain_id block s.replayed.tables.passes);
    writable = s.writable;
  }

  pub write-Simulated :
      (expired : Bool) (w : Write) → IsOwn b.wallet b.chain_id w → Simulated t (write expired w b)
  unfolding write upsert record_row write_state save IsOwn
  write-Simulated expired w own = elim (Bool-cases (b.sealed || expired)) [
    | inl late ↦ late_write w late
    | inr free ↦ free_write w own free
  ]
    where
      late_write : (w : Write) → (b.sealed || expired) ≡ true → Simulated t (write expired w b)
      late_write (upserts wallet chain_id asset_id kind metadata) late = rw late s
      late_write (records i result status retry_after) late = rw late s
      late_write (discovers wallet chain_id d) late = rw late s
      late_write (passes wallet chain_id block) late = rw late s

      free_write :
          (w : Write)
          → IsOwn b.wallet b.chain_id w
          → (b.sealed || expired) ≡ false
          → Simulated t (write expired w b)
      free_write (upserts wallet chain_id asset_id kind metadata) (same, alike) free =
          rw (free, same, alike) (upserted-Simulated _ asset_id kind metadata refl)
      free_write (records i result status retry_after) own free =
          elim (Bool-cases (any (has_id i) b.rows)) [
            | inl present ↦
                rw (free, present) (recorded-Simulated i result status retry_after present)
            | inr absent ↦ rw (free, absent) s
          ]
      free_write (discovers wallet chain_id d) (same, alike) free =
          rw (free, same, alike) (discovered-Simulated d)
      free_write (passes wallet chain_id block) (same, alike) free =
          rw (free, same, alike) (passed-Simulated block)
