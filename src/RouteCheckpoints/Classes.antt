-- ===== src/RouteCheckpoints/Classes.antt =====
-- A class of the snapshots of src/evm_inventory/route_checkpoints.py, called with keywords:
-- AssetIdentity of src/evm_inventory/models.py, with its __post_init__.
use evm_garbage_collector.Prelude.{ℕ, suc, String, Option, none, some, ◌==◌, text_eq, if◌then◌else◌}
use evm_garbage_collector.Prelude.Int.{ℤ}
use evm_garbage_collector.Bridge.{Asset, asset_identity}
use evm_garbage_collector.RouteCheckpoints.{
  text, number, Library, Node, scalar, instance_of, Entries, none_left, entry,
}

count : {lib : Library} → Entries lib → ℕ
count none_left = 0
count (entry key n es) = suc (count es)

-- the argument of a keyword
unfoldable pub keyword : {lib : Library} → String → Entries lib → Option (Node lib)
keyword key none_left = none
keyword key (entry k n es) = if text_eq k key then some n else keyword key es

-- the fields of an identity, as dataclasses.fields lists them
unfoldable pub identity_node : {lib : Library} → Asset → Node lib
identity_node a = instance_of "AssetIdentity" (
    entry "chain_id" (scalar (number (ℤ.pos a.chain_id))) (
      entry "contract_address" (scalar (text a.contract_address))
        (entry "decimals" (scalar (number (ℤ.pos a.decimals))) none_left)))

-- __post_init__, of the three arguments: other types, and negative numbers, raise
unfoldable pub identity_of :
    {lib : Library} → Option (Node lib) → Option (Node lib) → Option (Node lib) → Option (Node lib)
unfolding identity_node
identity_of (some (scalar (number (ℤ.pos n)))) (some (scalar (text s)))
      (some (scalar (number (ℤ.pos d)))) =
    elim (asset_identity n s d) [ none ↦ none | some a ↦ some (identity_node a) ]
identity_of _ _ _ = none

-- AssetIdentity(**fields): an unexpected keyword raises, too
unfoldable pub asset_identity_class : {lib : Library} → Entries lib → Option (Node lib)
unfolding count keyword identity_of
asset_identity_class es =
    if count es == 3
    then identity_of (keyword "chain_id" es) (keyword "contract_address" es) (keyword "decimals" es)
    else none
