-- ===== src/Tests/Scan.antt =====
-- Buffers of a small store (src/evm_inventory/scan_buffer.py).
use evm_garbage_collector.Prelude.{
  String, ◌≡◌, refl, Bool, true, false, none, some, List, [], ◌∷◌, map, lower,
}
use evm_garbage_collector.Prelude.Int.{ℤ}
use evm_garbage_collector.Journal.Value.{null, end}
use evm_garbage_collector.Scan.Store.{Facts, Tables, assets_of, discovery_state}
use evm_garbage_collector.Scan.Buffer.{Replay, Write, scan_buffer, write_all, persist}
use evm_garbage_collector.Scan.Simulation.{IsOwn}
use evm_garbage_collector.Scan.Framed.{AreKeyed}
use evm_garbage_collector.Scan.Networks.{
  Visit, visited, persist_all, IsElsewhere, AreSeparate, AreShown, persist_all_refines,
}
use evm_garbage_collector.Scan.Refinement.{
  row_facts, asset_facts, AreOwn, persist_refines, late_writes_refused,
}

abbrev facts : Facts
facts = record {
  kind = "mandatory";
  metadata = end;
  status = "pending";
  result = none;
  retry_after = none;
}

abbrev stored : Tables
stored = record {
  readonly = false;
  assets =
      record {
        id = 7;
        wallet = "0xa1";
        chain_id = 1;
        asset_id = "native";
        attempts = 0;
        facts = facts;
      }
      ∷ [];
  discovery = λ w c. none;
  passes = λ w c. none;
}

-- a found token, its result and that of the stored asset, an id that is not there, a late write
abbrev writes : List (Bool × Write)
writes =
    (false, Write.upserts "0xA1" 1 "0xB2" "discovered" end)
    ∷ (false, Write.records (ℤ.negsuc 0) null "success" none)
    ∷ (false, Write.records (ℤ.pos 7) null "deferred" (some 60))
    ∷ (false, Write.records (ℤ.pos 9) null "success" none)
    ∷ (true, Write.passes "0xA1" 1 null)
    ∷ []

-- the store when the buffer is saved: another network has an asset, too
abbrev extended : Tables
extended = record stored {
  assets =
      record {
        id = 7;
        wallet = "0xa1";
        chain_id = 1;
        asset_id = "native";
        attempts = 0;
        facts = facts;
      }
      ∷ record {
        id = 8;
        wallet = "0xa1";
        chain_id = 56;
        asset_id = "native";
        attempts = 1;
        facts = facts;
      }
      ∷ [];
}

writes-AreOwn : AreOwn "0xA1" 1 writes
unfolding AreOwn IsOwn
writes-AreOwn = ((refl, refl), (tt, (tt, (tt, ((refl, refl), tt)))))

same_assets : assets_of "0xA1" 1 stored ≡ assets_of "0xA1" 1 extended
unfolding assets_of lower
same_assets = refl

same_state : discovery_state "0xA1" 1 stored ≡ discovery_state "0xA1" 1 extended
unfolding discovery_state
same_state = refl

persist_refines_example :
    let b = write_all writes (scan_buffer "0xA1" 1 stored) in
    (r : Replay) × ((persist b extended).1 ≡ some r)
    × ((a : String) → asset_facts "0xA1" 1 a r.tables ≡ row_facts a b)
    × (discovery_state "0xA1" 1 r.tables ≡ b.state)
persist_refines_example =
    persist_refines "0xA1" 1 stored extended writes same_assets same_state refl writes-AreOwn

late_writes_refused_example :
    let b = write_all writes (scan_buffer "0xA1" 1 stored) in
    let saved = (persist b stored).0 in
    (write_all writes saved ≡ saved)
    × ((persist (write_all writes saved) stored).1 ≡ (persist b stored).1)
late_writes_refused_example =
    late_writes_refused (write_all writes (scan_buffer "0xA1" 1 stored)) stored stored writes

-- the two networks of the store
abbrev visits : List Visit
visits =
    record { wallet = "0xA1"; chain_id = 1; writes = writes }
    ∷ record {
      wallet = "0xA1";
      chain_id = 56;
      writes = (false, Write.records (ℤ.pos 8) null "success" none) ∷ [];
    }
    ∷ []

visits-AreSeparate : AreSeparate visits
unfolding AreSeparate IsElsewhere AreOwn IsOwn lower
visits-AreSeparate = ((refl, tt), writes-AreOwn, (tt, (tt, tt), tt))

extended-AreKeyed : AreKeyed extended.assets
unfolding AreKeyed
extended-AreKeyed = (refl, (refl, tt))

visits-IsElsewhere : IsElsewhere "0xC3" 1 visits
unfolding IsElsewhere lower
visits-IsElsewhere = (refl, (refl, tt))

persist_all_refines_example :
    (now : Tables) × (persist_all (map (visited extended) visits) extended ≡ some now)
    × AreShown extended visits now
    × (assets_of "0xC3" 1 now ≡ assets_of "0xC3" 1 extended)
    × (discovery_state "0xC3" 1 now ≡ discovery_state "0xC3" 1 extended)
persist_all_refines_example =
    persist_all_refines visits extended "0xC3" 1 refl extended-AreKeyed visits-AreSeparate
      visits-IsElsewhere
