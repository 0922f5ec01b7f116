-- ===== src/Jobs/Freshness.antt =====
-- Claims of a job whose result is stored (src/evm_inventory/quote_jobs.py).
use evm_garbage_collector.Prelude.{
  ℕ, ◌+◌, ◌≤◌, ◌<◌, String, ◌≡◌, refl, true, none, some, arith, text_eq_refl, inl, inr, ◌⊎◌,
}
use evm_garbage_collector.Journal.Value.{Value}
use evm_garbage_collector.Jobs.{
  JobState, Job, Table, Client, Claim, put, finished, finished_state, finish,
}
use evm_garbage_collector.Jobs.Claims.{
  Claimed, Refusal, claim, grant, answer, refusal_by, remembered, no_diagnostic,
}
use evm_garbage_collector.Jobs.Runs.Once.{cas-Swapped}
use evm_garbage_collector.Jobs.Leases.{first_refusal_row, no_refusal}

put_same : (scope key : String) (x : Job) (t : Table) → put scope key x t scope key ≡ some x
unfolding put
put_same scope key x t = rw (text_eq_refl scope, text_eq_refl key) refl

finished_states :
    (response : Value)
    → (finished_state response ≡ JobState.complete) ⊎ (finished_state response ≡ JobState.no_route)
unfolding finished_state
finished_states response = ground arith

fresh_refusal :
    (c : Client) (now : ℕ) (key : String) (state : JobState) (row : Job) (until : ℕ)
    → (state ≡ JobState.complete) ⊎ (state ≡ JobState.no_route)
    → row.expires_at ≡ some until
    → now < until
    → (r : Refusal) × (refusal_by state c now key row ≡ some r)
unfolding refusal_by
fresh_refusal c now key state row until (inl e) expires ahead =
    (Refusal.in_progress "complete" row.expires_at no_diagnostic, rw e (rw expires (ground arith)))
fresh_refusal c now key state row until (inr e) expires ahead =
    (Refusal.in_progress "no_route" row.expires_at no_diagnostic, rw e (rw expires (ground arith)))

stale_refusal :
    (c : Client) (now : ℕ) (key : String) (state : JobState) (row : Job) (until : ℕ)
    → (state ≡ JobState.complete) ⊎ (state ≡ JobState.no_route)
    → row.expires_at ≡ some until
    → until ≤ now
    → refusal_by state c now key row ≡ none
unfolding refusal_by
stale_refusal c now key state row until (inl e) expires over = rw e (rw expires (ground arith))
stale_refusal c now key state row until (inr e) expires over = rw e (rw expires (ground arith))

-- Where `finish` saved a result, no claim of the job by any client of the scope is granted until
-- the result expires; from then on, while the table is as it was left, a claim is granted to a
-- client that does not remember a failure of the job.
pub finish_claims :
    (token : Claim) (response : Value) (observed ttl start now early late : ℕ) (c other : Client)
    (t : Table) (attempt request search_key : String)
    → (finish token response observed ttl start now c t).0 ≡ true
    → other.scope ≡ c.scope
    → early < observed + ttl
    → observed + ttl ≤ late
    → remembered other token.job_key ≡ none
    → let published = (finish token response observed ttl start now c t).1 in
      ((r : Refusal) × (claim other early attempt token.job_key request search_key published
          ≡ (Claimed.refused r, other, published)))
      × ((claim other late attempt token.job_key request search_key published).0
          ≡ Claimed.granted (record {
            job_key = token.job_key;
            attempt_id = attempt;
            lease_owner = other.lease_owner;
          }))
unfolding finish finished claim answer grant
finish_claims token response observed ttl start now early late c other t attempt request search_key
      done same ahead over fresh =
    let f = finished response observed ttl start in
    let (row, _, _, swapped) = cas-Swapped token now f c t done in
    let t' = (finish token response observed ttl start now c t).1 in
    let there : t' other.scope token.job_key ≡ some (f row) =
      rw (same, swapped) (put_same c.scope token.job_key (f row) t) in
    let expires : (f row).expires_at ≡ some (observed + ttl) = refl in
    let (r, found) =
      fresh_refusal other early token.job_key (f row).state (f row) (observed + ttl)
        (finished_states response) expires ahead in
    let (r', first) = first_refusal_row other early token.job_key t' (f row) r there found in
    (
      (r', rw first refl),
      rw
          (no_refusal other late token.job_key t' (f row) there
            (stale_refusal other late token.job_key (f row).state (f row) (observed + ttl)
              (finished_states response) expires over)
            fresh)
          refl,
    )
