-- ===== src/Quota.antt =====
-- The quota store of src/evm_inventory/lifi_quota.py, for one scope: every query names it. Times
-- are whole ticks; an operation is one transaction, which an exception rolls back, and its reading
-- of the clock is an argument.
pub mod Operations
pub mod Calls
pub mod Window
pub mod Reserve
pub mod Cooldown
pub mod Dispatch
use evm_garbage_collector.Prelude.{
  ℕ, suc, ◌+◌, ◌-◌, ◌*◌, min, max, String, Bool, true, false, ◌&&◌, ◌||◌, not, Option, none, some,
  List, [], ◌∷◌, map, find, select, update_where, is_some, holds, coalesce, length, get_or, sort,
  ltb, leb, ◌==◌, if◌then◌else◌,
}
use evm_garbage_collector.Jobs.{second}

pub data Bucket : Type 0 where
  routes : Bucket
  steps : Bucket
  public : Bucket

abbrev pub bucket_eq : Bucket → Bucket → Bool
bucket_eq Bucket.routes Bucket.routes = true
bucket_eq Bucket.steps Bucket.steps = true
bucket_eq Bucket.public Bucket.public = true
bucket_eq _ _ = false

-- a triple of `limits`
pub record Limit : Type 0 where
  pub limit : ℕ
  pub window : ℕ
  pub reserve : ℕ

-- the class attributes of a store
pub record Policy : Type 0 where
  pub limits : Bucket → Limit
  pub provider_limit_matches_window : Bool

abbrev lifi_limit : Bucket → Limit
lifi_limit Bucket.routes = record { limit = 75; window = 7200 * second; reserve = 5 }
lifi_limit Bucket.steps = record { limit = 50; window = 7200 * second; reserve = 3 }
lifi_limit Bucket.public = record { limit = 100; window = 60 * second; reserve = 0 }

abbrev pub lifi_policy : Policy
lifi_policy = record { limits = lifi_limit; provider_limit_matches_window = true }

abbrev authenticated_limit : Bucket → Limit
authenticated_limit Bucket.routes = record { limit = 12000; window = 7200 * second; reserve = 5 }
authenticated_limit Bucket.steps = record { limit = 12000; window = 7200 * second; reserve = 3 }
authenticated_limit Bucket.public = record { limit = 100; window = 60 * second; reserve = 0 }

-- AuthenticatedLifiQuotaStore
abbrev pub authenticated_policy : Policy
authenticated_policy = record {
  limits = authenticated_limit;
  provider_limit_matches_window = false;
}

pub record Request : Type 0 where
  pub bucket : Bucket
  pub sent_at : ℕ

-- a row of lifi_quota_state
pub record Provider : Type 0 where
  pub remaining : Option ℕ
  pub reset_at : ℕ
  pub provider_limit : Option ℕ

pub record Attempt : Type 0 where
  pub id : ℕ
  pub bucket : Bucket
  pub request_key : String
  pub sent_at : ℕ
  pub started_at : Option ℕ
  pub observed_at : Option ℕ

-- the tables; the latest row of a list comes first. `blocked_until` is lifi_limits, without the
-- diagnostic, and `next_attempt` the counter of AUTOINCREMENT.
pub record Ledger : Type 0 where
  pub requests : List Request
  pub blocked_until : Bucket → Option ℕ
  pub provider : Bucket → Option Provider
  pub next_dispatch : Option ℕ
  pub last_start : Option ℕ
  pub last_actual_start : Option ℕ
  pub attempts : List Attempt
  pub next_attempt : ℕ

abbrev pub set {ℓ} : {A : Type ℓ} → Bucket → A → (Bucket → A) → Bucket → A
set b a f c = if bucket_eq b c then a else f c

-- LifiRequestLimit, with its reason and time; DispatchWait; ValueError
pub data Refusal : Type 0 where
  provider_cooldown : ℕ → Refusal
  quota_wait : Option ℕ → Refusal
  dispatch_wait : ℕ → Refusal
  value_error : Refusal

pub data Purpose : Type 0 where
  planning : Purpose
  execution : Purpose
  unknown : Purpose

-- reserve_dispatch_time: the time, and the ledger
unfoldable pub reserve_dispatch_time : ℕ → Ledger → ℕ × Ledger
reserve_dispatch_time now l =
    let dispatch = max now (elim l.next_dispatch [ none ↦ 0 | some t ↦ t ]) in
    (dispatch, record l { next_dispatch = some (dispatch + second) })

-- the provider's row, where its window has not ended
abbrev pub fresh : ℕ → Option Provider → Option Provider
fresh now none = none
fresh now (some p) = if ltb now p.reset_at then some p else none

-- what the provider's limit leaves of the local one
abbrev pub lowered : Bool → ℕ → Option Provider → ℕ
lowered matches limit none = limit
lowered true limit (some p) = elim p.provider_limit [ none ↦ limit | some n ↦ min limit n ]
lowered false limit (some p) = limit

-- sent_at > now - window
abbrev pub is_recent : Bucket → ℕ → ℕ → Request → Bool
is_recent b window now r = bucket_eq r.bucket b && ltb now (r.sent_at + window)

unfoldable pub recent_times : Bucket → ℕ → ℕ → Ledger → List ℕ
recent_times b window now l =
    sort (map (λ (r : Request). r.sent_at) (select (is_recent b window now) l.requests))

-- a cooldown that has not ended
abbrev pub until : ℕ → Option ℕ → Option ℕ
until now none = none
until now (some t) = if ltb now t then some t else none

-- _state: what the tables say of a bucket
pub record State : Type 0 where
  pub limit : ℕ
  pub window : ℕ
  pub reserve : ℕ
  pub times : List ℕ
  pub remaining : Option ℕ
  pub reset_at : Option ℕ
  pub cooldown : Option ℕ

unfoldable pub remaining_of : Option Provider → Option ℕ
remaining_of none = none
remaining_of (some p) = p.remaining

unfoldable pub reset_of : Option Provider → Option ℕ
reset_of none = none
reset_of (some p) = some p.reset_at

unfoldable pub state : Policy → Ledger → Bucket → ℕ → State
state policy l b now =
    let lim = policy.limits b in
    let p = fresh now (l.provider b) in
    record {
      limit = lowered policy.provider_limit_matches_window lim.limit p;
      window = lim.window;
      reserve = lim.reserve;
      times = recent_times b lim.window now l;
      remaining = remaining_of p;
      reset_at = reset_of p;
      cooldown = until now (l.blocked_until b);
    }

abbrev pub reserve_for : Purpose → State → ℕ
reserve_for Purpose.planning s = s.reserve
reserve_for _ s = 0

-- no slot is free: the limit is not above the reserve, or the recent requests fill what it leaves
unfoldable pub is_full : ℕ → State → Bool
is_full reserve s = leb s.limit reserve || leb (s.limit - reserve) (length s.times)

unfoldable pub is_spent : ℕ → State → Bool
is_spent reserve s = holds (λ n. leb n reserve) s.remaining

-- the time of the request that has to leave the window
unfoldable pub slot_at : ℕ → State → ℕ
slot_at reserve s =
    get_or s.times (min (length s.times - 1) (length s.times - (s.limit - reserve))) 0 + s.window

-- the first entry of `retry`
unfoldable pub full_retry : ℕ → State → Option ℕ
full_retry reserve s = if leb s.limit reserve then s.reset_at else some (slot_at reserve s)

abbrev pub later : Option ℕ → Option ℕ → Option ℕ
later none b = b
later (some a) none = some a
later (some a) (some b) = some (max a b)

-- max(retry), where something is in it
unfoldable pub quota_refusal : ℕ → State → Option Refusal
quota_refusal reserve s =
    if is_full reserve s
    then some (
        Refusal.quota_wait
          (later (full_retry reserve s) (if is_spent reserve s then s.reset_at else none)))
    else if is_spent reserve s
    then some (Refusal.quota_wait s.reset_at)
    else none

unfoldable pub pace_refusal : ℕ → Option ℕ → Option Refusal
pace_refusal now none = none
pace_refusal now (some last) =
    if ltb now (last + second) then some (Refusal.dispatch_wait (last + second)) else none

-- the first refusal of a list of checks
infixr 30 ◌orelse◌
abbrev pub ◌orelse◌ : Option Refusal → Option Refusal → Option Refusal
none orelse b = b
some r orelse b = some r

abbrev pub cooldown_refusal : Option ℕ → Option Refusal
cooldown_refusal none = none
cooldown_refusal (some t) = some (Refusal.provider_cooldown t)

abbrev pub purpose_refusal : Purpose → Option Refusal
purpose_refusal Purpose.unknown = some Refusal.value_error
purpose_refusal _ = none
