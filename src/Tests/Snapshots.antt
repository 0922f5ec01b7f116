-- ===== src/Tests/Snapshots.antt =====
-- A snapshot of a route (src/evm_inventory/route_checkpoints.py).
use evm_garbage_collector.Prelude.{
  String, ◌≡◌, refl, true, Option, none, some, List, [], ◌∷◌, text_eq, if◌then◌else◌, arith, all,
  lower, not,
}
use evm_garbage_collector.Prelude.Int.{ℤ}
use evm_garbage_collector.Journal.Inputs.{is_address}
use evm_garbage_collector.Bridge.{asset_identity}
use evm_garbage_collector.RouteCheckpoints.{
  text, number, null, Json, plain, object, end, member, Library, Node, scalar, decimal, tuple, dict,
  instance_of, callable, empty, node, Entries, none_left, entry, is_secret, encode, decode,
  is_callable,
}
use evm_garbage_collector.RouteCheckpoints.Classes.{identity_node, asset_identity_class}
use evm_garbage_collector.RouteCheckpoints.RoundTrip.{
  IsPlain, ArePlain, EntriesPlain, IsOpen, is_tag, names, decode-encode,
}
use evm_garbage_collector.RouteCheckpoints.Secrets.{hides, IsTyped, EntriesTyped, encode-hides}

abbrev as_string : Json → Option String
as_string (plain (text s)) = some s
as_string _ = none

-- decimals, times and durations as their texts, and two classes
abbrev library : Library
library = record {
  Decimal = String;
  decimal_text = λ s. s;
  decimal_of = as_string;
  Datetime = String;
  isoformat = λ s. s;
  fromisoformat = as_string;
  Timedelta = String;
  total_seconds = text;
  timedelta_of = as_string;
  fields_of = λ name.
      if text_eq name "AssetIdentity"
      then some ("chain_id" ∷ "contract_address" ∷ "decimals" ∷ [])
      else if text_eq name "FeeQuote"
      then some ("raw_amount" ∷ "price" ∷ [])
      else none;
}

abbrev construct : String → Entries library → Option (Node library)
construct name es = if text_eq name "AssetIdentity" then asset_identity_class es else none

-- an address that the class lower-cases
abbrev given : Entries library
given = entry "chain_id" (scalar (number (ℤ.pos 1))) (
    entry "contract_address" (scalar (text "0x00000000000000000000000000000000000000AB"))
      (entry "decimals" (scalar (number (ℤ.pos 6))) none_left))

abbrev token : Node library
token = identity_node (record {
  chain_id = 1;
  contract_address = "0x00000000000000000000000000000000000000ab";
  decimals = 6;
})

given_token : construct "AssetIdentity" given ≡ some token
unfolding asset_identity_class asset_identity is_address lower
given_token = refl

abbrev fee : Node library
fee =
    instance_of "FeeQuote"
      (entry "raw_amount" (scalar (number (ℤ.pos 5))) (entry "price" (scalar null) none_left))

abbrev route : Node library
route = dict (
    entry "token" token
      (entry "price" (decimal "1.5") (entry "steps" (tuple (node (scalar null) empty)) none_left)))

-- with a secret and a function
abbrev wallet : Node library
wallet =
    dict (
      entry "private_key" (scalar (text "0x1"))
        (entry "check" callable (entry "fee" fee none_left)))

route-IsPlain : IsPlain construct route
unfolding IsPlain ArePlain EntriesPlain IsOpen is_tag is_secret is_callable names identity_node
    asset_identity_class asset_identity is_address lower
route-IsPlain = (
  (refl, ((refl, tt, (refl, tt, (refl, tt, tt))), refl, refl), (refl, tt, (refl, (tt, tt), tt))),
  (refl, refl, (refl, refl, (refl, refl, tt))),
)

decode-encode_example : (j : Json) × (encode route ≡ some j) × (decode construct j ≡ some route)
decode-encode_example = decode-encode construct (λ d. refl) (λ d. refl) route route-IsPlain

wallet-IsTyped : IsTyped wallet
unfolding IsTyped EntriesTyped names
wallet-IsTyped = (tt, (tt, ((refl, (tt, (tt, tt))), tt)))

no_secret_fields :
    (name : String) (ks : List String)
    → library.fields_of name ≡ some ks
    → all (λ k. not (is_secret k)) ks ≡ true
unfolding is_secret
no_secret_fields name ks h = ground arith

abbrev written : Json
written = object (
    member "fee"
      (object (
        member "$type" (plain (text "FeeQuote")) (
          member "fields"
            (object
              (member "raw_amount" (plain (number (ℤ.pos 5))) (member "price" (plain null) end)))
            end)))
      end)

wallet_written : encode wallet ≡ some written
unfolding encode
wallet_written = refl

encode-hides_example : hides written ≡ true
encode-hides_example = encode-hides no_secret_fields wallet written wallet-IsTyped wallet_written
