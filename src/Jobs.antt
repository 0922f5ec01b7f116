-- ===== src/Jobs.antt =====
-- The quote jobs of src/evm_inventory/quote_jobs.py: claims on a shared table, with leases that run
-- out. Times are whole ticks, and a clock's readings are arguments of the operations. Each
-- operation is one transaction of its own connection: an exception leaves the table as it was.
-- `uuid4` and the clients' names are arguments; the text of a request is given as it is stored.
pub mod Claims
pub mod Runs
pub mod Leases
pub mod Freshness
use evm_garbage_collector.Prelude.{
  ℕ, ◌+◌, ◌*◌, ◌<◌, ◌≤◌, String, Bool, true, false, ◌&&◌, ◌||◌, not, Option, none, some, List, [],
  ◌∷◌, any, find, holds, ltb, leb, ◌==◌, text_eq, text_eq?, if◌then◌else◌,
}
use evm_garbage_collector.Journal.Value.{
  Value, Fields, text, dict, list, nil, end, field, get, as_text,
}

pub data JobState : Type 0 where
  pending : JobState
  inflight : JobState
  complete : JobState
  no_route : JobState
  quota_wait : JobState
  error : JobState
  expired : JobState

unfoldable pub job_state_name : JobState → String
job_state_name JobState.pending = "pending"
job_state_name JobState.inflight = "inflight"
job_state_name JobState.complete = "complete"
job_state_name JobState.no_route = "no_route"
job_state_name JobState.quota_wait = "quota_wait"
job_state_name JobState.error = "error"
job_state_name JobState.expired = "expired"

-- a row of quote_jobs, without its key
pub record Job : Type 0 where
  pub search_key : String
  pub state : JobState
  pub observed_at : Option ℕ
  pub expires_at : Option ℕ
  pub retry_at : Option ℕ
  pub request_json : Option String
  pub result_json : Option Value
  pub diagnostic_json : Option Value
  pub updated_at : ℕ
  pub lease_owner : Option String
  pub attempt_id : Option String
  pub lease_until : Option ℕ

-- by the primary key, the scope and the job's key
abbrev pub Table : Type 0
Table = String → String → Option Job

abbrev pub is_key : String → String → String → String → Bool
is_key scope key s k = text_eq scope s && text_eq key k

unfoldable pub put : String → String → Job → Table → Table
put scope key row t s k = if is_key scope key s k then some row else t s k

pub record Claim : Type 0 where
  pub job_key : String
  pub attempt_id : String
  pub lease_owner : String

-- self._failures: the latest failure of each key comes first
pub record Failed : Type 0 where
  pub job_key : String
  pub diagnostic : Value
  pub retry_at : Option ℕ

-- a QuoteJobs object. `wait_recheck` answers `none` where none is installed.
pub record Client : Type 0 where
  pub scope : String
  pub lease_owner : String
  pub attempted : List String
  pub failures : List Failed
  pub wait_recheck : Value → Option ℕ

-- a quantum of a second, and lease_seconds
abbrev pub second : ℕ
second = 1000000

abbrev pub lease : ℕ
lease = 60 * second

-- the WHERE of _cas, for the row of the token's key
unfoldable pub is_held : Claim → ℕ → Job → Bool
is_held token now row =
    elim row.state as (λ s. Bool) [ JobState.inflight ↦ true | _ ↦ false ]
    && text_eq? row.lease_owner (some token.lease_owner)
    && text_eq? row.attempt_id (some token.attempt_id)
    && holds (ltb now) row.lease_until

unfoldable pub swap_row : Claim → ℕ → (Job → Job) → Client → Table → Option Job → Bool × Table
swap_row token now f c t none = (false, t)
swap_row token now f c t (some row) =
    if is_held token now row then (true, put c.scope token.job_key (f row) t) else (false, t)

-- _cas: `now` is its own reading of the clock
unfoldable pub cas : Claim → ℕ → (Job → Job) → Client → Table → Bool × Table
cas token now f c t =
    if text_eq token.lease_owner c.lease_owner
    then swap_row token now f c t (t c.scope token.job_key)
    else (false, t)

-- the clock is read before `_cas` and in it
unfoldable pub renewed : ℕ → Job → Job
renewed start row = record row { lease_until = some (start + lease); updated_at = start }

unfoldable pub renew : Claim → ℕ → ℕ → Client → Table → Bool × Table
renew token start now = cas token now (renewed start)

-- "no_route" where response_json.get("routes") == []
unfoldable pub finished_state : Value → JobState
finished_state response = elim (get "routes" (some response)) [
  | some (list nil) ↦ JobState.no_route
  | _ ↦ JobState.complete
]

unfoldable pub finished : Value → ℕ → ℕ → ℕ → Job → Job
finished response observed_at ttl start row = record row {
  state = finished_state response;
  result_json = some response;
  observed_at = some observed_at;
  expires_at = some (observed_at + ttl);
  retry_at = none;
  diagnostic_json = none;
  lease_until = none;
  updated_at = start;
}

unfoldable pub finish : Claim → Value → ℕ → ℕ → ℕ → ℕ → Client → Table → Bool × Table
finish token response observed_at ttl start now =
    cas token now (finished response observed_at ttl start)

-- what exception_diagnostic gives for an error: its dict, and the HTTP statuses of its chain
pub record Diagnosis : Type 0 where
  pub fields : Fields
  pub statuses : List ℕ

-- 400 <= status < 500 and status != 429
unfoldable pub is_client_error : ℕ → Bool
is_client_error status = leb 400 status && ltb status 500 && not (status == 429)

unfoldable pub diagnostic : Diagnosis → Value
unfolding is_client_error
diagnostic d = dict (
    if any is_client_error d.statuses
    then field "reason" (text "bad_request") d.fields
    else d.fields)

unfoldable pub failed : JobState → Value → Option ℕ → ℕ → Job → Job
failed state d retry_at start row = record row {
  state = state;
  diagnostic_json = some d;
  retry_at = retry_at;
  lease_until = none;
  updated_at = start;
}

unfoldable pub remember : JobState → Claim → Value → Option ℕ → Client → Client
remember JobState.error token d retry_at c =
    if text_eq token.lease_owner c.lease_owner
    then record c {
      failures =
          record { job_key = token.job_key; diagnostic = d; retry_at = retry_at } ∷ c.failures;
    }
    else c
remember _ token d retry_at c = c

-- `none` is ValueError("failure state must be error or quota_wait")
abbrev pub failure_state : JobState → Option JobState
failure_state JobState.error = some JobState.error
failure_state JobState.quota_wait = some JobState.quota_wait
failure_state _ = none

unfoldable pub fail_as :
    Option JobState
    → Claim
    → Value
    → Option ℕ
    → ℕ
    → ℕ
    → Client
    → Table
    → Option (Bool × Client × Table)
fail_as none token d retry_at start now c t = none
fail_as (some s) token d retry_at start now c t =
    let (saved, t') = cas token now (failed s d retry_at start) c t in
    some (saved, remember s token d retry_at c, t')

unfoldable pub fail :
    Claim
    → Diagnosis
    → JobState
    → Option ℕ
    → ℕ
    → ℕ
    → Client
    → Table
    → Option (Bool × Client × Table)
unfolding fail_as
fail token d state = fail_as (failure_state state) token (diagnostic d)

-- a result that is no longer fresh
unfoldable pub is_stale : ℕ → Job → Bool
is_stale now row = not (holds (ltb now) row.expires_at)

unfoldable pub read_row : JobState → String → ℕ → String → Bool → Job → Table → Option Job × Table
read_row JobState.complete scope now key include_inflight row t =
    if is_stale now row
    then (none, put scope key (record row { state = JobState.expired; updated_at = now }) t)
    else (some row, t)
read_row JobState.no_route scope now key include_inflight row t =
    if is_stale now row
    then (none, put scope key (record row { state = JobState.expired; updated_at = now }) t)
    else (some row, t)
read_row JobState.inflight scope now key include_inflight row t =
    (if include_inflight then some row else none, t)
read_row JobState.error scope now key include_inflight row t = (some row, t)
read_row JobState.quota_wait scope now key include_inflight row t = (some row, t)
read_row _ scope now key include_inflight row t = (none, t)

unfoldable pub read_found : Option Job → String → ℕ → String → Bool → Table → Option Job × Table
unfolding read_row
read_found none scope now key include_inflight t = (none, t)
read_found (some row) scope now key include_inflight t =
    read_row row.state scope now key include_inflight row t

unfoldable pub read : String → ℕ → String → Bool → Table → Option Job × Table
unfolding read_found
read scope now key include_inflight t = read_found (t scope key) scope now key include_inflight t
