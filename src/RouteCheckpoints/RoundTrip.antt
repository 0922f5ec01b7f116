-- ===== src/RouteCheckpoints/RoundTrip.antt =====
-- The values that decode and encode exchange (src/evm_inventory/route_checkpoints.py).
use evm_garbage_collector.Prelude.{
  String, ◌≡◌, refl, ◌∙◌, Bool, false, ◌||◌, Option, none, some, List, [], ◌∷◌, arith, text_eq,
}
use evm_garbage_collector.RouteCheckpoints.{
  text, Json, plain, array, object, Items, nil, cons, Members, end, member, Library, Node, scalar,
  decimal, datetime, timedelta, tuple, list, dict, instance_of, namespace, callable, foreign, Nodes,
  empty, node, Entries, none_left, entry, map?, is_secret, is_callable, encode, encode_nodes,
  encode_entries, encode_fields, item, decoded_item, plain_dict, tuple_of, with_keywords, type_name,
  decode_object, decode, decode_items, decode_members, tag,
}

-- a key that decode looks for
unfoldable pub is_tag : String → Bool
is_tag key =
    text_eq key "$decimal"
    || text_eq key "$datetime"
    || text_eq key "$timedelta"
    || text_eq key "$tuple"
    || text_eq key "$namespace"
    || text_eq key "$type"

unfoldable pub names : {lib : Library} → Entries lib → List String
names none_left = []
names (entry key n es) = key ∷ names es

-- no entry that encode leaves out
unfoldable pub IsOpen : {lib : Library} → Entries lib → Type 0
IsOpen none_left = Unit
IsOpen (entry key n es) = (is_secret key ≡ false) × (is_callable n ≡ false) × IsOpen es

-- the classes of _TYPES, each called with keywords
abbrev pub Constructs : Library → Type 0
Constructs lib = String → Entries lib → Option (Node lib)

-- Values that are made of the types that encode tests, in which no key is one that decode looks
-- for, and whose dicts and namespaces have no entry that encode leaves out. A duration is given
-- back by its seconds; an instance has the fields of its class, and the class, called with them,
-- gives it back.
unfoldable mutual
  unfolding IsOpen names

  pub IsPlain : {lib : Library} → Constructs lib → Node lib → Type 0
  IsPlain {lib} construct (timedelta d) = lib.timedelta_of (plain (lib.total_seconds d)) ≡ some d
  IsPlain construct (tuple ns) = ArePlain construct ns
  IsPlain construct (list ns) = ArePlain construct ns
  IsPlain construct (dict es) = EntriesPlain construct es × IsOpen es
  IsPlain {lib} construct (instance_of name es) =
      EntriesPlain construct es
      × (lib.fields_of name ≡ some (names es))
      × (construct name es ≡ some (instance_of name es))
  IsPlain construct (namespace es) = EntriesPlain construct es × IsOpen es
  IsPlain construct callable = ⊥
  IsPlain construct foreign = ⊥
  IsPlain construct _ = Unit

  pub ArePlain : {lib : Library} → Constructs lib → Nodes lib → Type 0
  ArePlain construct empty = Unit
  ArePlain construct (node n ns) = IsPlain construct n × ArePlain construct ns

  pub EntriesPlain : {lib : Library} → Constructs lib → Entries lib → Type 0
  EntriesPlain construct none_left = Unit
  EntriesPlain construct (entry key n es) =
      (is_tag key ≡ false) × IsPlain construct n × EntriesPlain construct es

abbrev Untagged : Members → Type 0
Untagged ms =
    (item "$decimal" ms ≡ none)
    × (item "$datetime" ms ≡ none)
    × (item "$timedelta" ms ≡ none)
    × (item "$tuple" ms ≡ none)
    × (item "$namespace" ms ≡ none)
    × (item "$type" ms ≡ none)

open_entries : {lib : Library} (es : Entries lib) → IsOpen es → encode_entries es ≡ encode_fields es
unfolding IsOpen encode_entries encode_fields
open_entries none_left h = refl
open_entries (entry key n es) (shown, known, h) = rw (shown, known, open_entries es h) refl

Untagged-member :
    (key : String) (j : Json) (ms : Members)
    → is_tag key ≡ false
    → Untagged ms
    → Untagged (member key j ms)
unfolding is_tag item
Untagged-member key j ms h u = ground arith

module _ {lib : Library} (construct : Constructs lib)
    (decimals : (d : lib.Decimal) → lib.decimal_of (plain (text (lib.decimal_text d))) ≡ some d)
    (datetimes : (d : lib.Datetime)
      → lib.fromisoformat (plain (text (lib.isoformat d))) ≡ some d) where
  object-Untagged :
      (ms : Members) (ds : List (String × Option (Node lib)))
      → Untagged ms
      → decode_object construct ms ds ≡ map? dict (plain_dict ds)
  unfolding decode_object
  object-Untagged ms ds (u0, u1, u2, u3, u4, u5) = ground arith

  decode-Untagged :
      (ms : Members) (es : Entries lib)
      → plain_dict (decode_members construct ms) ≡ some es
      → Untagged ms
      → decode construct (object ms) ≡ some (dict es)
  unfolding decode
  decode-Untagged ms es d u = object-Untagged ms (decode_members construct ms) u ∙ rw d refl

  mutual
    unfolding IsPlain ArePlain EntriesPlain encode encode_nodes encode_fields decode decode_items
        decode_members decode_object item tuple_of with_keywords decoded_item type_name plain_dict

    read_back :
        (v : Node lib)
        → IsPlain construct v
        → (j : Json) × (encode v ≡ some j) × (decode construct j ≡ some v)
    read_back (scalar s) h = (plain s, refl, refl)
    read_back (decimal d) h =
        (tag "$decimal" (plain (text (lib.decimal_text d))), refl, rw (decimals d) refl)
    read_back (datetime d) h =
        (tag "$datetime" (plain (text (lib.isoformat d))), refl, rw (datetimes d) refl)
    read_back (timedelta d) h = (tag "$timedelta" (plain (lib.total_seconds d)), refl, rw h refl)
    read_back (tuple ns) h =
        let (xs, e, d) = read_back_nodes ns h in (tag "$tuple" (array xs), rw e refl, rw d refl)
    read_back (list ns) h =
        let (xs, e, d) = read_back_nodes ns h in (array xs, rw e refl, rw d refl)
    read_back (dict es) h =
        let (ms, e, d, u) = read_back_entries es h.0 in
        (object ms, rw (open_entries es h.1, e) refl, decode-Untagged ms es d u)
    read_back (instance_of name es) h =
        let (ms, e, d, u) = read_back_entries es h.0 in
        (
          object (member "$type" (plain (text name)) (member "fields" (object ms) end)),
          rw (h.1, e) refl,
          rw (decode-Untagged ms es d u, h.2) refl,
        )
    read_back (namespace es) h =
        let (ms, e, d, u) = read_back_entries es h.0 in
        (
          tag "$namespace" (object ms),
          rw (open_entries es h.1, e) refl,
          rw (decode-Untagged ms es d u) refl,
        )
    read_back callable h = absurd h
    read_back foreign h = absurd h

    read_back_nodes :
        (ns : Nodes lib)
        → ArePlain construct ns
        → (xs : Items) × (encode_nodes ns ≡ some xs) × (decode_items construct xs ≡ some ns)
    read_back_nodes empty h = (nil, refl, refl)
    read_back_nodes (node n ns) h =
        let (j, e, d) = read_back n h.0 in
        let (xs, es, ds) = read_back_nodes ns h.1 in (cons j xs, rw (e, es) refl, rw (d, ds) refl)

    read_back_entries :
        (es : Entries lib)
        → EntriesPlain construct es
        → (ms : Members) × (encode_fields es ≡ some ms)
          × (plain_dict (decode_members construct ms) ≡ some es)
          × Untagged ms
    read_back_entries none_left h = (end, refl, refl, (refl, refl, refl, refl, refl, refl))
    read_back_entries (entry key n es) (untagged, plain_node, plain_rest) =
        let (j, e, d) = read_back n plain_node in
        let (ms, es', ds, u) = read_back_entries es plain_rest in
        (member key j ms, rw (e, es') refl, rw (d, ds) refl, Untagged-member key j ms untagged u)

  -- A plain value is read back from its snapshot, where the texts of decimals and of times read
  -- back as these. A plain value is made of the types that encode tests; its dicts, namespaces and
  -- instances have no key that decode looks for, and its dicts and namespaces no secret and no
  -- function; a duration in it is given back by its seconds, and the class of an instance in it,
  -- which has the instance's fields, gives the instance when it is called with them.
  pub decode-encode :
      (v : Node lib)
      → IsPlain construct v
      → (j : Json) × (encode v ≡ some j) × (decode construct j ≡ some v)
  decode-encode = read_back
