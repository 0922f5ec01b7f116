-- ===== src/Journal/Value.antt =====
-- The payload of a checkpoint, after `decode` of src/evm_inventory/route_checkpoints.py: Python's
-- dicts with text keys, lists and scalars. A decimal is a number of quanta (see Journal/Inputs).
use evm_garbage_collector.Prelude.{
  String, Bool, true, false, ◌&&◌, Option, none, some, text_eq, if◌then◌else◌,
}
use evm_garbage_collector.Prelude.Int.{ℤ, eq_ℤ}

mutual
  pub data Value : Type 0 where
    null : Value
    bool : Bool → Value
    number : ℤ → Value
    decimal : ℤ → Value
    text : String → Value
    list : Values → Value
    dict : Fields → Value

  pub data Values : Type 0 where
    nil : Values
    cons : Value → Values → Values

  pub data Fields : Type 0 where
    end : Fields
    field : String → Value → Fields → Fields

abbrev bool_eq : Bool → Bool → Bool
bool_eq true b = b
bool_eq false true = false
bool_eq false false = true

-- a == b on two payloads, key by key in the order of the dict
unfoldable mutual
  pub value_eq : Value → Value → Bool
  value_eq null null = true
  value_eq (bool a) (bool b) = bool_eq a b
  value_eq (number a) (number b) = eq_ℤ a b
  value_eq (decimal a) (decimal b) = eq_ℤ a b
  value_eq (text a) (text b) = text_eq a b
  value_eq (list a) (list b) = values_eq a b
  value_eq (dict a) (dict b) = fields_eq a b
  value_eq _ _ = false

  values_eq : Values → Values → Bool
  values_eq nil nil = true
  values_eq (cons a xs) (cons b ys) = value_eq a b && values_eq xs ys
  values_eq _ _ = false

  fields_eq : Fields → Fields → Bool
  fields_eq end end = true
  fields_eq (field k a xs) (field j b ys) = text_eq k j && value_eq a b && fields_eq xs ys
  fields_eq _ _ = false

lookup : String → Fields → Option Value
lookup k end = none
lookup k (field j v fs) = if text_eq j k then some v else lookup k fs

-- value.get(key), of a payload that may be absent (`… or {}`)
unfoldable pub get : String → Option Value → Option Value
unfolding lookup
get k (some (dict fs)) = lookup k fs
get k _ = none

-- value == "…"
unfoldable pub is_text : String → Option Value → Bool
is_text s (some (text t)) = text_eq t s
is_text s _ = false

-- the truth of a value in a condition
unfoldable pub truthy : Option Value → Bool
truthy none = false
truthy (some null) = false
truthy (some (bool b)) = b
truthy (some (text s)) = if text_eq s "" then false else true
truthy (some (number n)) = if eq_ℤ n (ℤ.pos 0) then false else true
truthy (some (decimal n)) = if eq_ℤ n (ℤ.pos 0) then false else true
truthy (some (list nil)) = false
truthy (some (dict end)) = false
truthy (some _) = true

-- isinstance(value, str)
unfoldable pub as_text : Option Value → Option String
as_text (some (text s)) = some s
as_text _ = none

-- isinstance(value, dict)
unfoldable pub is_dict : Option Value → Bool
is_dict (some (dict _)) = true
is_dict _ = false
