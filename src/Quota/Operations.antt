-- ===== src/Quota/Operations.antt =====
-- The operations of LifiQuotaStore (src/evm_inventory/lifi_quota.py).
use evm_garbage_collector.Prelude.{
  ℕ, ◌+◌, ◌-◌, ◌*◌, min, max, String, Bool, ◌&&◌, ◌||◌, Option, none, some, ◌∷◌, find, select,
  update_where, is_some, length, ltb, leb, ◌==◌, if◌then◌else◌,
}
use evm_garbage_collector.Jobs.{second}
use evm_garbage_collector.Quota.{
  Bucket, bucket_eq, Policy, Provider, Attempt, Ledger, set, Refusal, Purpose, fresh, state,
  reserve_for, is_full, is_spent, full_retry, later, quota_refusal, pace_refusal, ◌orelse◌,
  cooldown_refusal, purpose_refusal,
}

-- what an operation gives back, with the ledger after it
pub data Outcome {ℓ} (A : Type ℓ) : Type ℓ where
  granted : A → Ledger → Outcome A
  refused : Refusal → Outcome A

-- an exception leaves the ledger as it was
abbrev pub ledger_after : {A : Type 0} → Ledger → Outcome A → Ledger
ledger_after l (granted a l') = l'
ledger_after l (refused r) = l

-- remaining=remaining-1, where the provider's window has not ended; NULL stays NULL
unfoldable pub one_less : ℕ → Option Provider → Option Provider
one_less now none = none
one_less now (some p) =
    if ltb now p.reset_at
    then some (record p { remaining = elim p.remaining [ none ↦ none | some n ↦ some (n - 1) ] })
    else some p

unfoldable pub reserved : Bucket → String → ℕ → Bool → Ledger → Ledger
reserved b key now paced l = record l {
  requests = record { bucket = b; sent_at = now } ∷ l.requests;
  provider = set b (one_less now (l.provider b)) l.provider;
  last_start = if paced then some now else l.last_start;
  attempts =
      record {
        id = l.next_attempt;
        bucket = b;
        request_key = key;
        sent_at = now;
        started_at = none;
        observed_at = none;
      }
      ∷ l.attempts;
  next_attempt = l.next_attempt + 1;
}

unfoldable pub request_refusal : Policy → Bucket → Purpose → Bool → ℕ → Ledger → Option Refusal
request_refusal policy b purpose paced now l =
    let s = state policy l b now in
    purpose_refusal purpose
    orelse cooldown_refusal s.cooldown
    orelse quota_refusal (reserve_for purpose s) s
    orelse (if paced then pace_refusal now l.last_start else none)

unfoldable pub reserve_unless : Option Refusal → Bucket → String → ℕ → Bool → Ledger → Outcome ℕ
reserve_unless (some r) b key now paced l = refused r
reserve_unless none b key now paced l = granted l.next_attempt (reserved b key now paced l)

unfoldable pub reserve_request : Policy → Bucket → String → Purpose → Bool → ℕ → Ledger → Outcome ℕ
unfolding reserve_unless
reserve_request policy b key purpose paced now l =
    reserve_unless (request_refusal policy b purpose paced now l) b key now paced l

-- available_at: the latest of now, the cooldown and what the quota asks for
unfoldable pub available_at : Policy → Bucket → Purpose → ℕ → Ledger → ℕ
available_at policy b purpose now l =
    let s = state policy l b now in
    let reserve = reserve_for purpose s in
    let or_window = λ (t : Option ℕ). elim t as (λ o. ℕ) [ none ↦ now + s.window | some u ↦ u ] in
    let full =
      if leb s.limit reserve
      then or_window s.reset_at
      else if is_full reserve s
      then elim (full_retry reserve s) as (λ o. ℕ) [ none ↦ now | some u ↦ u ]
      else now in
    max (max now (elim s.cooldown as (λ o. ℕ) [ none ↦ now | some t ↦ t ]))
      (max full (if is_spent reserve s then or_window s.reset_at else now))

-- a started attempt
unfoldable pub started : ℕ → ℕ → Bool → Ledger → Ledger
started attempt now paced l = record l {
  last_actual_start = if paced then some now else l.last_actual_start;
  attempts =
      update_where (λ (a : Attempt). a.id == attempt) (λ a. record a { started_at = some now })
        l.attempts;
}

unfoldable pub start_refusal : Policy → Option Attempt → ℕ → Ledger → Option Refusal
start_refusal policy none now l = some Refusal.value_error
start_refusal policy (some a) now l =
    cooldown_refusal (state policy l a.bucket now).cooldown
    orelse pace_refusal now l.last_actual_start

unfoldable pub mark_started : Policy → ℕ → Bool → ℕ → Ledger → Outcome (Unit {0})
mark_started policy attempt paced now l =
    elim (if paced
      then start_refusal policy (find (λ (a : Attempt). a.id == attempt) l.attempts) now l
      else none) [ some r ↦ refused r | none ↦ granted tt (started attempt now paced l) ]

-- the headers of a response, read as numbers: the rate limit's, whose reset is in ticks, and
-- retry-after, which is a delay, a date or neither
pub data RetryAfter : Type 0 where
  absent : RetryAfter
  delay : ℕ → RetryAfter
  date : ℕ → RetryAfter
  unreadable : RetryAfter

pub record Headers : Type 0 where
  pub reset : Option ℕ
  pub remaining : Option ℕ
  pub limit : Option ℕ
  pub retry_after : RetryAfter

-- reset if reset >= 1_000_000_000 else now + reset
unfoldable pub reset_time : ℕ → Headers → Option ℕ
reset_time now h = elim h.reset [
  | none ↦ none
  | some r ↦ some (if leb (1000000000 * second) r then r else now + r)
]

-- attempts of the bucket after this one
unfoldable pub later_attempts : Bucket → ℕ → Ledger → ℕ
later_attempts b attempt l =
    length (select (λ (a : Attempt). bucket_eq a.bucket b && ltb attempt a.id) l.attempts)

unfoldable pub adjusted : Headers → ℕ → Option ℕ
adjusted h n = elim h.remaining [
  | some r ↦ some (r - n)
  | none ↦ elim h.limit [ none ↦ none | some k ↦ some (k - 1 - n) ]
]

abbrev pub least : Option ℕ → Option ℕ → Option ℕ
least none b = b
least (some a) none = some a
least (some a) (some b) = some (min a b)

-- limit >= 1
abbrev pub positive : Option ℕ → Option ℕ
positive none = none
positive (some n) = if leb 1 n then some n else none

-- the row that a response leaves, by the one before it where that is fresh
unfoldable pub merged : Option ℕ → ℕ → Option ℕ → Option Provider → Provider
merged left reset_at limit none = record {
  remaining = left;
  reset_at = reset_at;
  provider_limit = positive limit;
}
merged left reset_at limit (some p) = record {
  remaining = least left p.remaining;
  reset_at = max reset_at p.reset_at;
  provider_limit = positive (least limit p.provider_limit);
}

-- the provider's row after a response; `none` where the response says nothing of it
unfoldable pub observed_provider : Bucket → ℕ → Headers → ℕ → Ledger → Option Provider
observed_provider b attempt h now l = elim (reset_time now h) [
  | none ↦ none
  | some reset_at ↦
      if (is_some h.remaining || is_some h.limit) && ltb now reset_at
      then some (
          merged (adjusted h (later_attempts b attempt l)) reset_at h.limit
            (fresh now (l.provider b)))
      else none
]

-- the variable reset_at behind that block
unfoldable pub observed_reset : Option Provider → ℕ → Headers → Option ℕ
observed_reset (some p) now h = some p.reset_at
observed_reset none now h = reset_time now h

-- reset_at or now + window: 0 counts as no time
abbrev pub or_window : Option ℕ → ℕ → ℕ
or_window none t = t
or_window (some n) t = if n == 0 then t else n

-- the end of the cooldown of a response 429
unfoldable pub cooldown_end : Option ℕ → ℕ → ℕ → Headers → ℕ
cooldown_end reset_at window now h = elim h.retry_after [
  | absent ↦ or_window reset_at (now + window)
  | delay d ↦ now + max second d
  | date t ↦ max (now + second) t
  | unreadable ↦ or_window reset_at (now + window)
]

abbrev pub record_provider : Bucket → Option Provider → Ledger → Ledger
record_provider b none l = l
record_provider b (some p) l = record l { provider = set b (some p) l.provider }

-- blocked_until=MAX(blocked_until,excluded.blocked_until)
abbrev pub record_cooldown : Bucket → ℕ → Ledger → Ledger
record_cooldown b t l = record l {
  blocked_until = set b (later (l.blocked_until b) (some t)) l.blocked_until;
}

-- the time of a response
abbrev pub noted : ℕ → ℕ → Ledger → Ledger
noted attempt now l = record l {
  attempts =
      update_where (λ (a : Attempt). a.id == attempt) (λ a. record a { observed_at = some now })
        l.attempts;
}

-- the refusal that a 429 returns, and the ledger
unfoldable pub observe : Policy → Bucket → ℕ → Headers → ℕ → ℕ → Ledger → Option Refusal × Ledger
observe policy b attempt h status now l =
    let seen = noted attempt now l in
    let p = observed_provider b attempt h now l in
    let t = cooldown_end (observed_reset p now h) (policy.limits b).window now h in
    if status == 429
    then (some (Refusal.provider_cooldown t), record_cooldown b t (record_provider b p seen))
    else (none, record_provider b p seen)
