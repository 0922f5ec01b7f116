-- ===== src/Journal/Inputs.antt =====
-- The checks on what callers pass (_decimal_text, _raw_amount_text, _require_sha256 and
-- _sqlite_integer of src/evm_inventory/journal.py). Money is a whole number of quanta, 10 ^ 18 to
-- the unit. So every amount is a multiple of 10 ^ -18, and none is rounded, as the source's
-- normalize does to what has more than the 28 digits of Python's context.
use Prim.Native.Char.{code}
use evm_garbage_collector.Prelude.{
  ℕ, ◌+◌, ◌-◌, ◌*◌, ◌^◌, String, ◌≡◌, refl, Bool, false, ◌&&◌, ◌||◌, Option, none, some, leb, ◌==◌,
  if◌then◌else◌,
}
use evm_garbage_collector.Prelude.Int.{ℤ, pos}
use evm_garbage_collector.Journal.Session.{Result, ok, err, value_error}

-- one unit of money, in quanta
abbrev pub unit : ℕ
unit = 10 ^ 18

-- what a caller may pass as an amount of money: a value that is no exact text or Decimal, a text
-- that Decimal refuses, an infinity or NaN, and a number of quanta
pub data DecimalInput : Type 0 where
  not_exact malformed not_finite : DecimalInput
  finite : ℤ → DecimalInput

unfoldable pub decimal_text : DecimalInput → Result ℕ
decimal_text DecimalInput.not_exact = err (value_error "must be an exact decimal string")
decimal_text (DecimalInput.finite (pos n)) = ok n
decimal_text _ = err (value_error "must be a finite non-negative decimal")

-- the number that a text of ASCII digits stands for. The source's pattern and int also accept the
-- other decimal digits of Unicode, which are refused here.
digits : ℕ → String → Option ℕ
digits n String.[] = some n
digits n (String.◌∷◌ c s) =
    if leb b'0' (code c) && leb (code c) b'9' then digits (n * 10 + (code c - b'0')) s else none

digits_value : String → Option ℕ
unfolding digits
digits_value String.[] = none
digits_value (String.◌∷◌ c s) = digits 0 (String.◌∷◌ c s)

-- what a caller may pass as a raw amount: a text, an int, or something else (a bool, a float)
pub data RawInput : Type 0 where
  other : RawInput
  digits_text : String → RawInput
  integer : ℤ → RawInput

abbrev or_refuse : Option ℕ → Result ℕ
or_refuse none = err (value_error "must be a non-negative integer")
or_refuse (some n) = ok n

unfoldable pub raw_amount_text : RawInput → Result ℕ
unfolding digits_value
raw_amount_text (RawInput.digits_text s) = or_refuse (digits_value s)
raw_amount_text (RawInput.integer (pos n)) = ok n
raw_amount_text _ = err (value_error "must be a non-negative integer")

abbrev is_hex : ℕ → Bool
is_hex c = leb b'0' c && leb c b'9' || leb b'a' c && leb c b'f' || leb b'A' c && leb c b'F'

hex_length : ℕ → String → Option ℕ
hex_length n String.[] = some n
hex_length n (String.◌∷◌ c s) = if is_hex (code c) then hex_length (n + 1) s else none

-- re.fullmatch(r"[0-9a-fA-F]{64}", value)
unfoldable pub is_sha256 : String → Bool
unfolding hex_length
is_sha256 s = elim (hex_length 0 s) [ none ↦ false | some n ↦ n == 64 ]

-- _ADDRESS_RE.fullmatch(value) of models.py: 0x and forty hexadecimal digits
unfoldable pub is_address : String → Bool
unfolding hex_length
is_address (String.◌∷◌ a (String.◌∷◌ b s)) =
    code a == b'0' && code b == b'x' && (elim (hex_length 0 s) [ none ↦ false | some n ↦ n == 40 ])
is_address _ = false

-- 2**63 - 1
abbrev pub sqlite_max : ℕ
sqlite_max = 2 ^ 63 - 1

unfoldable pub sqlite_integer : ℕ → Option ℕ
sqlite_integer n = if leb n sqlite_max then some n else none

raw_amount_text_example : raw_amount_text (RawInput.digits_text "00120") ≡ ok 120
unfolding raw_amount_text
raw_amount_text_example = refl
