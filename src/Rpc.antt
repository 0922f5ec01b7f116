-- ===== src/Rpc.antt =====
-- The decoding of JSON-RPC results (quantity and uint256 of src/evm_inventory/rpc.py). An answer is
-- what a call of the endpoint gives back: a decoded JSON value, or an exception.
use Prim.Native.Char.{code}
use evm_garbage_collector.Prelude.{
  ℕ, ◌+◌, ◌-◌, ◌*◌, String, ◌≡◌, refl, Bool, true, false, ◌&&◌, Option, none, some, leb, ◌==◌,
  if◌then◌else◌,
}
use evm_garbage_collector.Journal.Value.{Value, text}

-- the exceptions of a call; StageDeadlineExceeded is a TimeoutError, RpcError is a RequestError
pub data Fault : Type 0 where
  stage_deadline : Fault
  timeout : Fault
  rpc_error : Fault
  request_error : Fault
  other : Fault

pub data Answer : Type 0 where
  raised : Fault → Answer
  returned : Value → Answer

-- call(url, method, params), by the method and the text of its parameters
abbrev pub Endpoint : Type 0
Endpoint = String → String → Answer

-- the value of a hexadecimal digit
abbrev pub hex_digit : ℕ → Option ℕ
hex_digit c =
    if leb b'0' c && leb c b'9'
    then some (c - b'0')
    else if leb b'a' c && leb c b'f'
    then some (c - b'a' + 10)
    else if leb b'A' c && leb c b'F'
    then some (c - b'A' + 10)
    else none

-- int(digits, 16), with the number of digits
hex_value : ℕ → ℕ → String → Option (ℕ × ℕ)
hex_value n len String.[] = some (n, len)
hex_value n len (String.◌∷◌ c s) = elim (hex_digit (code c)) [
  | none ↦ none
  | some d ↦ hex_value (n * 16 + d) (len + 1) s
]

-- the digits behind "0x"
after_0x : String → Option String
after_0x (String.◌∷◌ a (String.◌∷◌ b s)) = if code a == b'0' && code b == b'x' then some s else none
after_0x _ = none

-- 0, or digits that do not begin with 0
is_minimal : String → Bool
is_minimal String.[] = false
is_minimal (String.◌∷◌ c String.[]) = true
is_minimal (String.◌∷◌ c s) = if code c == b'0' then false else true

minimal_value : Option String → Option ℕ
minimal_value none = none
minimal_value (some s) =
    if is_minimal s then elim (hex_value 0 0 s) [ none ↦ none | some (n, len) ↦ some n ] else none

-- `none` is RpcError("invalid_quantity")
unfoldable pub quantity : Value → Option ℕ
unfolding hex_value after_0x is_minimal minimal_value
quantity (text s) = minimal_value (after_0x s)
quantity _ = none

word_value : Option String → Option ℕ
word_value none = none
word_value (some s) = elim (hex_value 0 0 s) [
  | none ↦ none
  | some (n, len) ↦ if len == 64 then some n else none
]

-- `none` is RpcError("invalid_abi_uint256")
unfoldable pub uint256 : Value → Option ℕ
unfolding hex_value after_0x word_value
uint256 (text s) = word_value (after_0x s)
uint256 _ = none

-- the number of hexadecimal digits behind "0x", where there is nothing else
unfoldable pub hex_length : String → Option ℕ
unfolding hex_value after_0x
hex_length s = elim (after_0x s) [
  | none ↦ none
  | some d ↦ elim (hex_value 0 0 d) [ none ↦ none | some (n, len) ↦ some len ]
]

-- a call whose result is decoded: what the caller's `try` sees
pub data Reading : Type 0 where
  read : ℕ → Reading
  deadline : Reading
  failed : Fault → Reading

unfoldable pub reading : (Value → Option ℕ) → Answer → Reading
reading decode (raised Fault.stage_deadline) = deadline
reading decode (raised f) = failed f
reading decode (returned v) = elim (decode v) [ none ↦ failed Fault.rpc_error | some n ↦ read n ]

quantity_example : quantity (text "0x1aF") ≡ some 431
unfolding quantity
quantity_example = refl

quantity_leading_zero : quantity (text "0x01") ≡ none
unfolding quantity
quantity_leading_zero = refl
