-- ===== src/Jobs/Claims.antt =====
-- QuoteJobs.claim of src/evm_inventory/quote_jobs.py.
use evm_garbage_collector.Prelude.{
  ℕ, ◌+◌, String, Bool, ◌||◌, Option, none, some, ◌∷◌, any, find, holds, ltb, text_eq, text_eq?,
  if◌then◌else◌,
}
use evm_garbage_collector.Journal.Value.{Value, dict, end, get, as_text}
use evm_garbage_collector.Jobs.{
  JobState, Job, Client, Claim, Failed, Table, put, job_state_name, lease,
}

-- JobInProgress, and the TypeError of a comparison with NULL
pub data Refusal : Type 0 where
  in_progress : String → Option ℕ → Value → Refusal
  type_error : Refusal

abbrev pub no_diagnostic : Value
no_diagnostic = dict end

abbrev pub diagnostic_of : Job → Value
diagnostic_of row = elim row.diagnostic_json [ none ↦ no_diagnostic | some d ↦ d ]

-- diagnostic.get("reason", "error")
abbrev pub reason_of : Value → String
reason_of d = elim (as_text (get "reason" (some d))) [ none ↦ "error" | some r ↦ r ]

unfoldable pub is_bad_request : Value → Bool
is_bad_request d = holds (λ r. text_eq r "bad_request") (as_text (get "reason" (some d)))

-- a refusal until some time, where that time is ahead
abbrev pub refuse_until : ℕ → Option ℕ → Refusal → Option Refusal
refuse_until now none r = some Refusal.type_error
refuse_until now (some t) r = if ltb now t then some r else none

-- the wait of a failed job: the row's retry_at, or the one that the client's recheck gives
unfoldable pub retry_time : Client → JobState → Value → ℕ → ℕ
retry_time c JobState.quota_wait d t = elim (c.wait_recheck d) [ none ↦ t | some u ↦ u ]
retry_time c _ d t = t

unfoldable pub waits : Client → ℕ → Job → Option Refusal
unfolding job_state_name
waits c now row = elim row.retry_at [
  | none ↦ none
  | some t ↦
      let retry_at = retry_time c row.state (diagnostic_of row) t in
      if ltb now retry_at
      then some (Refusal.in_progress (job_state_name row.state) (some retry_at) (diagnostic_of row))
      else none
]

-- a failed job that this client must not send again
unfoldable pub is_own_failure : Client → String → Job → Bool
is_own_failure c key row =
    any (text_eq key) c.attempted || text_eq? row.lease_owner (some c.lease_owner)

unfoldable pub failed_job : Client → ℕ → String → Job → Option Refusal
unfolding waits
failed_job c now key row =
    if is_bad_request (diagnostic_of row)
    then some (Refusal.in_progress "bad_request" none (diagnostic_of row))
    else if is_own_failure c key row
    then some (Refusal.in_progress "error" row.retry_at (diagnostic_of row))
    else waits c now row

-- why a row cannot be claimed now
unfoldable pub refusal_by : JobState → Client → ℕ → String → Job → Option Refusal
unfolding failed_job
refusal_by JobState.inflight c now key row =
    refuse_until now row.lease_until
      (Refusal.in_progress "job_in_progress" row.lease_until no_diagnostic)
refusal_by JobState.complete c now key row =
    refuse_until now row.expires_at (Refusal.in_progress "complete" row.expires_at no_diagnostic)
refusal_by JobState.no_route c now key row =
    refuse_until now row.expires_at (Refusal.in_progress "no_route" row.expires_at no_diagnostic)
refusal_by JobState.error c now key row = failed_job c now key row
refusal_by JobState.quota_wait c now key row = waits c now row
refusal_by _ c now key row = none

unfoldable pub refusal : Client → ℕ → String → Option Job → Option Refusal
unfolding refusal_by
refusal c now key none = none
refusal c now key (some row) = refusal_by row.state c now key row

-- a failure of this client under this key
unfoldable pub remembered : Client → String → Option Refusal
remembered c key = elim (find (λ (f : Failed). text_eq f.job_key key) c.failures) [
  | none ↦ none
  | some f ↦ some (Refusal.in_progress (reason_of f.diagnostic) f.retry_at f.diagnostic)
]

-- the row of a new claim
unfoldable pub claimed_row : Client → ℕ → String → String → String → Job
claimed_row c now attempt request search_key = record {
  search_key = search_key;
  state = JobState.inflight;
  observed_at = none;
  expires_at = none;
  retry_at = none;
  request_json = some request;
  result_json = none;
  diagnostic_json = none;
  updated_at = now;
  lease_owner = some c.lease_owner;
  attempt_id = some attempt;
  lease_until = some (now + lease);
}

-- what `claim` gives back
pub data Claimed : Type 0 where
  granted : Claim → Claimed
  refused : Refusal → Claimed

-- the client remembers the attempt
unfoldable pub attempting : String → Client → Client
attempting key c = record c { attempted = key ∷ c.attempted }

unfoldable pub grant :
    Client → ℕ → String → String → String → String → Table → Claimed × Client × Table
grant c now attempt key request search_key t = (
  Claimed.granted (record { job_key = key; attempt_id = attempt; lease_owner = c.lease_owner }),
  attempting key c,
  put c.scope key (claimed_row c now attempt request search_key) t,
)

-- the first refusal: a remembered one, or that of the row
unfoldable pub first_refusal : Client → ℕ → String → Table → Option Refusal
first_refusal c now key t = elim (remembered c key) [
  | some r ↦ some r
  | none ↦ refusal c now key (t c.scope key)
]

unfoldable pub answer :
    Option Refusal
    → Client
    → ℕ
    → String
    → String
    → String
    → String
    → Table
    → Claimed × Client × Table
unfolding grant
answer (some r) c now attempt key request search_key t = (Claimed.refused r, c, t)
answer none c now attempt key request search_key t = grant c now attempt key request search_key t

unfoldable pub claim :
    Client → ℕ → String → String → String → String → Table → Claimed × Client × Table
unfolding answer
claim c now attempt key request search_key t =
    answer (first_refusal c now key t) c now attempt key request search_key t
