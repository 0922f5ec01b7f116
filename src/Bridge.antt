-- ===== src/Bridge.antt =====
-- The wait for a bridge (_await_cross_chain_transfer of src/evm_inventory/route_execution.py): what
-- the provider's status says. Texts that the source upper-cases are given as they are compared.
pub mod Delivery
pub mod Evidence
pub mod Sound
pub mod Arrival
use evm_garbage_collector.Prelude.{
  ℕ, String, Bool, true, false, ◌&&◌, ◌||◌, not, Option, none, some, holds, is_empty, ltb, leb,
  lower, ◌==◌, text_eq, if◌then◌else◌,
}
use evm_garbage_collector.Prelude.Int.{ℤ}
use evm_garbage_collector.Journal.Inputs.{is_address}
use evm_garbage_collector.Journal.Session.{Error, Result, ok, err, value_error, refuse_if}

-- AssetIdentity, as __post_init__ leaves it
pub record Asset : Type 0 where
  pub chain_id : ℕ
  pub contract_address : String
  pub decimals : ℕ

-- AssetIdentity(…); `none` is the ConfigError, a ValueError
unfoldable pub asset_identity : ℕ → String → ℕ → Option Asset
asset_identity chain_id address decimals =
    if ltb 0 chain_id
      && leb decimals 255
      && (text_eq address "native" || is_address (lower address))
    then some
        (record { chain_id = chain_id; contract_address = lower address; decimals = decimals })
    else none

abbrev pub same_asset : Asset → Asset → Bool
same_asset a b =
    a.chain_id == b.chain_id
    && text_eq a.contract_address b.contract_address
    && a.decimals == b.decimals

-- receiving["token"]: none of the three fields, some, or all, with what int and str give of them
pub data Token : Type 0 where
  absent : Token
  incomplete : Token
  unreadable : Token
  identified : ℕ → String → ℕ → Token

-- status["receiving"], a dict. An amount is what int gives of a text of digits or an int.
pub record Receiving : Type 0 where
  pub tx_hash : Option String
  pub amount : Option ℤ
  pub token : Token

-- a status. `sending` is none where it is no dict, and then its hash where that is a text.
pub record Status : Type 0 where
  pub state : String
  pub substatus : String
  pub sending : Option (Option String)
  pub from_address : Option String
  pub to_address : String
  pub receiving : Option Receiving

-- the arguments of the wait
pub record Transfer : Type 0 where
  pub position_id : ℕ
  pub step_key : String
  pub tx_hash : String
  pub destination : Asset
  pub sender : String
  pub recipient : String
  pub baseline_raw : Option ℕ

-- what is read of a status: not yet, or the hash and the amount of the arrival
pub data Reading : Type 0 where
  pending : Reading
  arrived : String → ℕ → Reading

abbrev pub same_text : Option String → String → Bool
same_text none t = false
same_text (some s) t = text_eq (lower s) (lower t)

-- _raw_amount
unfoldable pub raw_amount : Option ℤ → Result ℕ
raw_amount none = err (value_error "actual balance amount is invalid")
raw_amount (some (ℤ.negsuc n)) = err (value_error "actual balance amount must be positive")
raw_amount (some (ℤ.pos n)) =
    if ltb 0 n then ok n else err (value_error "actual balance amount must be positive")

-- the address of the native coin of LI.FI is "native"
unfoldable pub token_address : String → String
token_address a =
    if text_eq (lower a) "0x0000000000000000000000000000000000000000" then "native" else a

unfoldable pub is_other_asset : Asset → Asset → Bool
is_other_asset destination a = not (same_asset a destination)

unfoldable pub check_token : Asset → Token → Result (Unit {0})
unfolding asset_identity token_address is_other_asset
check_token destination absent = ok tt
check_token destination incomplete = err (value_error "lifi_bridge_status_asset_incomplete")
check_token destination unreadable = err (value_error "lifi_bridge_status_asset_invalid")
check_token destination (identified chain_id address decimals) =
    elim (asset_identity chain_id (token_address address) decimals) [
      | none ↦ err (value_error "lifi_bridge_status_asset_invalid")
      | some a ↦
          if is_other_asset destination a
          then err (value_error "lifi_bridge_status_asset_mismatch")
          else ok tt
    ]

-- the destination's evidence
unfoldable pub read_receiving : Transfer → Receiving → Result Reading
unfolding raw_amount check_token
read_receiving t r = elim r.tx_hash [
  | none ↦ err (value_error "lifi_bridge_status_destination_hash_missing")
  | some h ↦
      if is_empty h
      then err (value_error "lifi_bridge_status_destination_hash_missing")
      else elim (raw_amount r.amount) [
        | err e ↦ err e
        | ok amount ↦ elim (check_token t.destination r.token) [
          | err e ↦ err e
          | ok _ ↦ ok (arrived h amount)
        ]
      ]
]

-- a status that is done
unfoldable pub read_done : Transfer → Status → Result Reading
unfolding read_receiving
read_done t s = elim s.receiving [
  | none ↦ err (value_error "lifi_bridge_status_missing_destination_evidence")
  | some r ↦
      if not (text_eq (lower s.to_address) (lower t.recipient))
      then err (value_error "lifi_bridge_status_recipient_mismatch")
      else read_receiving t r
]

-- isinstance(observed_sender, str) and it is another's
unfoldable pub is_other_sender : Transfer → Option String → Bool
is_other_sender t none = false
is_other_sender t (some a) = not (text_eq (lower a) (lower t.sender))

unfoldable pub is_finished : Status → Bool
is_finished s =
    text_eq s.state "DONE" && (text_eq s.substatus "COMPLETED" || text_eq s.substatus "PARTIAL")

-- a status with evidence of the source
unfoldable pub read_sent : Transfer → Status → Result Reading
unfolding is_other_sender read_done is_finished
read_sent t s =
    if is_other_sender t s.from_address
    then err (value_error "lifi_bridge_status_sender_mismatch")
    else if text_eq s.state "PENDING"
    then ok pending
    else if not (is_finished s)
    then err (value_error "lifi_bridge_terminal_status")
    else elim s.from_address [
      | none ↦ err (value_error "lifi_bridge_status_sender_missing")
      | some a ↦ read_done t s
    ]

unfoldable pub read_status : Transfer → Status → Result Reading
unfolding read_sent
read_status t s = if text_eq s.state "NOT_FOUND" then ok pending else elim s.sending [
  | none ↦ err (value_error "lifi_bridge_status_missing_source_evidence")
  | some h ↦
      if not (same_text h t.tx_hash)
      then err (value_error "lifi_bridge_status_source_hash_mismatch")
      else read_sent t s
]
