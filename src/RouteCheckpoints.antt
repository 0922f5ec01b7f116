-- ===== src/RouteCheckpoints.antt =====
-- The snapshots of prepared routes (src/evm_inventory/route_checkpoints.py): `encode` to the values
-- that json writes, and `decode`. `none` is an exception. Decimals, times and durations come from
-- Python's library, of which a `Library` has what the code uses. The dataclasses of `_TYPES` are
-- those of src/evm_inventory/consolidation.py, lifi.py, models.py and valuation.py: encode reads
-- their names and fields, in the `Library`, too, and decode calls them, as its argument
-- `construct`. Classes has such a call of AssetIdentity.
pub mod Classes
pub mod RoundTrip
pub mod Secrets
use evm_garbage_collector.Prelude.{
  String, Bool, true, false, ◌||◌, Option, none, some, List, [], ◌∷◌, is_some, text_eq,
  if◌then◌else◌,
}
use evm_garbage_collector.Prelude.Int.{ℤ}

-- str, int, float by its repr, bool and None
pub data Scalar : Type 0 where
  null : Scalar
  text : String → Scalar
  number : ℤ → Scalar
  real : String → Scalar
  boolean : Bool → Scalar

mutual
  pub data Json : Type 0 where
    plain : Scalar → Json
    array : Items → Json
    object : Members → Json

  pub data Items : Type 0 where
    nil : Items
    cons : Json → Items → Items

  pub data Members : Type 0 where
    end : Members
    member : String → Json → Members → Members

-- the types of decimal and datetime, their texts and readers, and what dataclasses.fields gives of
-- a class of `_TYPES`
pub record Library : Type 1 where
  pub Decimal : Type 0
  pub decimal_text : Decimal → String
  pub decimal_of : Json → Option Decimal
  pub Datetime : Type 0
  pub isoformat : Datetime → String
  pub fromisoformat : Json → Option Datetime
  pub Timedelta : Type 0
  pub total_seconds : Timedelta → Scalar
  pub timedelta_of : Json → Option Timedelta
  pub fields_of : String → Option (List String)

mutual
  -- a Python value; `callable` is a function, and `foreign` of none of the types that are tested
  pub data Node (lib : Library) : Type 0 where
    scalar : Scalar → Node lib
    decimal : lib.Decimal → Node lib
    datetime : lib.Datetime → Node lib
    timedelta : lib.Timedelta → Node lib
    tuple : Nodes lib → Node lib
    list : Nodes lib → Node lib
    dict : Entries lib → Node lib
    instance_of : String → Entries lib → Node lib
    namespace : Entries lib → Node lib
    callable : Node lib
    foreign : Node lib

  pub data Nodes (lib : Library) : Type 0 where
    empty : Nodes lib
    node : Node lib → Nodes lib → Nodes lib

  -- by text keys, in the order of the dict
  pub data Entries (lib : Library) : Type 0 where
    none_left : Entries lib
    entry : String → Node lib → Entries lib → Entries lib

-- both values, or an exception
abbrev pub both {ℓ} : {A B C : Type ℓ} → (A → B → C) → Option A → Option B → Option C
both f (some a) (some b) = some (f a b)
both f _ _ = none

abbrev pub map? {ℓ} : {A B : Type ℓ} → (A → B) → Option A → Option B
map? f none = none
map? f (some a) = some (f a)

-- {key: value}
abbrev pub tag : String → Json → Json
tag key j = object (member key j end)

unfoldable pub is_secret : String → Bool
is_secret key =
    text_eq key "private_key"
    || text_eq key "secret_key"
    || text_eq key "api_key"
    || text_eq key "passphrase"

unfoldable pub is_callable : {lib : Library} → Node lib → Bool
is_callable callable = true
is_callable _ = false

-- {"$type": name, "fields": …}, where the class is in _TYPES
abbrev pub typed : Library → String → Option Json → Option Json
typed lib name fields =
    if is_some (lib.fields_of name)
    then map? (λ j. object (member "$type" (plain (text name)) (member "fields" j end))) fields
    else none

unfoldable mutual
  unfolding is_secret is_callable

  pub encode : {lib : Library} → Node lib → Option Json
  encode (scalar s) = some (plain s)
  encode {lib} (decimal d) = some (tag "$decimal" (plain (text (lib.decimal_text d))))
  encode {lib} (datetime d) = some (tag "$datetime" (plain (text (lib.isoformat d))))
  encode {lib} (timedelta d) = some (tag "$timedelta" (plain (lib.total_seconds d)))
  encode (tuple ns) = map? (λ xs. tag "$tuple" (array xs)) (encode_nodes ns)
  encode (list ns) = map? array (encode_nodes ns)
  encode (dict es) = map? object (encode_entries es)
  encode {lib} (instance_of name es) = typed lib name (map? object (encode_fields es))
  encode (namespace es) = map? (λ ms. tag "$namespace" (object ms)) (encode_entries es)
  encode callable = none
  encode foreign = none

  pub encode_nodes : {lib : Library} → Nodes lib → Option Items
  encode_nodes empty = some nil
  encode_nodes (node n ns) = both cons (encode n) (encode_nodes ns)

  -- without functions and secrets
  pub encode_entries : {lib : Library} → Entries lib → Option Members
  encode_entries none_left = some end
  encode_entries (entry key n es) =
      let rest = encode_entries es in
      if is_callable n || is_secret key then rest else both (member key) (encode n) rest

  -- every field of a dataclass
  pub encode_fields : {lib : Library} → Entries lib → Option Members
  encode_fields none_left = some end
  encode_fields (entry key n es) = both (member key) (encode n) (encode_fields es)

-- value[key], of a dict
unfoldable pub item : String → Members → Option Json
item key end = none
item key (member k j ms) = if text_eq k key then some j else item key ms

-- the decoded members of a dict: a member that does not decode is an exception where it is used
unfoldable pub decoded_item :
    {lib : Library} → String → List (String × Option (Node lib)) → Option (Node lib)
decoded_item key [] = none
decoded_item key ((k, n) ∷ ds) = if text_eq k key then n else decoded_item key ds

unfoldable pub plain_dict :
    {lib : Library} → List (String × Option (Node lib)) → Option (Entries lib)
plain_dict [] = some none_left
plain_dict ((k, n) ∷ ds) = both (entry k) n (plain_dict ds)

-- the result of the first tag that a dict has
infixr 30 ◌or_else◌
abbrev pub ◌or_else◌ {ℓ} : {A : Type ℓ} → Option A → Option A → Option A
none or_else b = b
some a or_else b = some a

abbrev pub when_tagged : {A : Type 0} → String → Members → (Json → A) → Option A
when_tagged key ms f = elim (item key ms) [ none ↦ none | some j ↦ some (f j) ]

-- the characters of a text, each decoded to itself
unfoldable pub characters : {lib : Library} → String → Nodes lib
characters String.[] = empty
characters (String.◌∷◌ c s) = node (scalar (text (String.◌∷◌ c String.[]))) (characters s)

unfoldable pub keys : {lib : Library} → Members → Nodes lib
keys end = empty
keys (member k j ms) = node (scalar (text k)) (keys ms)

-- tuple(decode(item) for item in value), by what decoding the value gives where it is a list
unfoldable pub tuple_of : {lib : Library} → Json → Option (Node lib) → Option (Node lib)
unfolding characters keys
tuple_of (plain (text s)) d = some (tuple (characters s))
tuple_of (object ms) d = some (tuple (keys ms))
tuple_of (array xs) (some (list ns)) = some (tuple ns)
tuple_of _ _ = none

-- f(**value), of a dict
unfoldable pub with_keywords :
    {lib : Library} → (Entries lib → Option (Node lib)) → Option (Node lib) → Option (Node lib)
with_keywords f (some (dict es)) = f es
with_keywords f _ = none

-- a key of _TYPES
unfoldable pub type_name : Json → Option String
type_name (plain (text name)) = some name
type_name _ = none

-- what a dict decodes to. `construct` calls a class of _TYPES with keywords.
unfoldable pub decode_object :
    {lib : Library}
    → (String → Entries lib → Option (Node lib))
    → Members
    → List (String × Option (Node lib))
    → Option (Node lib)
unfolding tuple_of with_keywords plain_dict decoded_item
decode_object {lib} construct ms ds =
    let result =
      when_tagged "$decimal" ms (λ j. map? decimal (lib.decimal_of j))
      or_else when_tagged "$datetime" ms (λ j. map? datetime (lib.fromisoformat j))
      or_else when_tagged "$timedelta" ms (λ j. map? timedelta (lib.timedelta_of j))
      or_else when_tagged "$tuple" ms (λ j. tuple_of j (decoded_item "$tuple" ds))
      or_else when_tagged "$namespace" ms
          (λ j. with_keywords (λ es. some (namespace es)) (decoded_item "$namespace" ds))
      or_else when_tagged "$type" ms (λ j. elim (type_name j) [
        | none ↦ none
        | some name ↦ with_keywords (construct name) (decoded_item "fields" ds)
      ]) in
    elim result [ some r ↦ r | none ↦ map? dict (plain_dict ds) ]

unfoldable mutual
  unfolding decode_object

  pub decode :
      {lib : Library} → (String → Entries lib → Option (Node lib)) → Json → Option (Node lib)
  decode construct (plain s) = some (scalar s)
  decode construct (array xs) = map? list (decode_items construct xs)
  decode construct (object ms) = decode_object construct ms (decode_members construct ms)

  pub decode_items :
      {lib : Library} → (String → Entries lib → Option (Node lib)) → Items → Option (Nodes lib)
  decode_items construct nil = some empty
  decode_items construct (cons j xs) = both node (decode construct j) (decode_items construct xs)

  pub decode_members :
      {lib : Library}
      → (String → Entries lib → Option (Node lib))
      → Members
      → List (String × Option (Node lib))
  decode_members construct end = []
  decode_members construct (member k j ms) = (k, decode construct j) ∷ decode_members construct ms
