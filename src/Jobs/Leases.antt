-- ===== src/Jobs/Leases.antt =====
-- Leases and freshness (src/evm_inventory/quote_jobs.py).
use evm_garbage_collector.Prelude.{
  ℕ, ◌+◌, ◌<◌, String, ◌≡◌, refl, Bool, true, none, some, arith, text_eq_refl, Option-cases, inl,
  inr,
}
use evm_garbage_collector.Journal.Value.{Value}
use evm_garbage_collector.Jobs.{
  JobState, Job, Table, Client, Claim, put, finished, finished_state, finish, read, read_found,
  read_row, is_stale,
}
use evm_garbage_collector.Jobs.Claims.{
  Claimed, Refusal, claim, first_refusal, answer, no_diagnostic, refusal, refusal_by, remembered,
}
use evm_garbage_collector.Jobs.Runs.Once.{cas-Swapped}

leased_refusal :
    (c : Client) (now : ℕ) (key : String) (state : JobState) (row : Job) (until : ℕ)
    → state ≡ JobState.inflight
    → row.lease_until ≡ some until
    → now < until
    → (r : Refusal) × (refusal_by state c now key row ≡ some r)
unfolding refusal_by
leased_refusal c now key state row until e lease_until ahead = (
  Refusal.in_progress "job_in_progress" row.lease_until no_diagnostic,
  rw e (rw lease_until (ground arith)),
)

-- What refuses the row refuses the claim, unless the client refuses first.
pub first_refusal_row :
    (c : Client) (now : ℕ) (key : String) (t : Table) (x : Job) (r : Refusal)
    → t c.scope key ≡ some x
    → refusal_by x.state c now key x ≡ some r
    → (r' : Refusal) × (first_refusal c now key t ≡ some r')
unfolding first_refusal refusal
first_refusal_row c now key t x r there found = elim (Option-cases (remembered c key)) [
  | inr (r', kept) ↦ (r', ground arith)
  | inl forgotten ↦ (r, ground arith)
]

-- While the lease of a job in flight runs, no claim of it is granted, whoever asks, and the table
-- stays.
pub claim_excluded :
    (c : Client) (now until : ℕ) (attempt key request search_key : String) (t : Table) (row : Job)
    → t c.scope key ≡ some row
    → row.state ≡ JobState.inflight
    → row.lease_until ≡ some until
    → now < until
    → (r : Refusal) × (claim c now attempt key request search_key t ≡ (Claimed.refused r, c, t))
unfolding claim answer
claim_excluded c now until attempt key request search_key t row there flying lease_until ahead =
    let (r, found) = leased_refusal c now key row.state row until flying lease_until ahead in
    let (r', first) = first_refusal_row c now key t row r there found in (r', rw first refl)

pub no_refusal :
    (c : Client) (now : ℕ) (key : String) (t : Table) (x : Job)
    → t c.scope key ≡ some x
    → refusal_by x.state c now key x ≡ none
    → remembered c key ≡ none
    → first_refusal c now key t ≡ none
unfolding first_refusal refusal
no_refusal c now key t x there free fresh = ground arith

read_back :
    (scope key : String) (response : Value) (observed ttl start later : ℕ) (b : Bool) (row : Job)
    (t : Table)
    → later < observed + ttl
    → let published = put scope key (finished response observed ttl start row) t in
      read scope later key b published
      ≡ (some (finished response observed ttl start row), published)
unfolding read read_found read_row is_stale put finished finished_state
read_back scope key response observed ttl start later b row t fresh =
    rw (text_eq_refl scope, text_eq_refl key) (ground arith)

-- Where `finish` saved a result, every reader of the scope reads it back, with its time, until it
-- expires.
pub read-finish :
    (token : Claim) (response : Value) (observed ttl start now later : ℕ) (b : Bool) (c : Client)
    (t : Table)
    → (finish token response observed ttl start now c t).0 ≡ true
    → later < observed + ttl
    → let published = (finish token response observed ttl start now c t).1 in
      (row : Job) × (read c.scope later token.job_key b published ≡ (some row, published))
      × (row.result_json ≡ some response)
      × (row.observed_at ≡ some observed)
unfolding finish finished
read-finish token response observed ttl start now later b c t done fresh =
    let f = finished response observed ttl start in
    let (row, _, _, swapped) = cas-Swapped token now f c t done in
    (
      f row,
      rw swapped (read_back c.scope token.job_key response observed ttl start later b row t fresh),
      refl,
      refl,
    )
