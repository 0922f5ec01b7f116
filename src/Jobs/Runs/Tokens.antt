-- ===== src/Jobs/Runs/Tokens.antt =====
-- Attempts that are over: superseded, finished or failed (src/evm_inventory/quote_jobs.py).
use evm_garbage_collector.Prelude.{
  ℕ, String, ◌≡◌, refl, subst, Bool, true, false, ◌&&◌, not, Option, none, some, arith, holds,
  text_eq, text_eq?, text_eq_iff, Bool-cases, inl, inr,
}
use evm_garbage_collector.Journal.Value.{Value}
use evm_garbage_collector.Jobs.{
  JobState, Job, Table, Client, Claim, Diagnosis, put, is_key, is_held, swap_row, cas, renewed,
  finished, finished_state, failed, failure_state, renew, finish, fail, fail_as, read, read_found,
  read_row, diagnostic,
}
use evm_garbage_collector.Jobs.Claims.{claim, grant, claimed_row, first_refusal, answer, Refusal}
use evm_garbage_collector.Jobs.Runs.{
  Operation, claims, renews, finishes, fails, reads, table_after, run,
}

abbrev pub is_inflight : JobState → Bool
is_inflight JobState.inflight = true
is_inflight _ = false

-- the row is in flight under this attempt
abbrev pub is_attempt : String → Job → Bool
is_attempt a row = is_inflight row.state && text_eq? row.attempt_id (some a)

-- no row of this job is in flight under this attempt
abbrev pub IsOver : String → String → String → Table → Type 0
IsOver a s k t = holds (is_attempt a) (t s k) ≡ false

pub put-IsOver :
    (a s k scope key : String) (row : Job) (t : Table)
    → (is_key scope key s k ≡ true → is_attempt a row ≡ false)
    → IsOver a s k t
    → IsOver a s k (put scope key row t)
unfolding put
put-IsOver a s k scope key row t new old = elim (Bool-cases (is_key scope key s k)) [
  | inl same ↦ rw same (new same)
  | inr other ↦ rw other old
]

same_row :
    (a s k scope key : String) (row : Job) (t : Table)
    → is_key scope key s k ≡ true
    → t scope key ≡ some row
    → IsOver a s k t
    → is_attempt a row ≡ false
same_row a s k scope key row t same found over =
    let here : t s k ≡ some row = ground (arith, text_eq_iff scope s, text_eq_iff key k) in
    subst (λ o. holds (is_attempt a) o ≡ false) here over

-- A compare-and-swap keeps an attempt over, where its change does.
pub cas-IsOver :
    (a s k : String) (token : Claim) (now : ℕ) (f : Job → Job) (c : Client) (t : Table)
    → ((row : Job) → is_attempt a row ≡ false → is_attempt a (f row) ≡ false)
    → IsOver a s k t
    → IsOver a s k (cas token now f c t).1
unfolding cas swap_row
cas-IsOver a s k token now f c t keeps over =
    elim (Bool-cases (text_eq token.lease_owner c.lease_owner)) [
      | inr other ↦ rw other over
      | inl own ↦ rw own (swapped (t c.scope token.job_key) refl)
    ]
  where
    swapped :
        (found : Option Job)
        → t c.scope token.job_key ≡ found
        → IsOver a s k (swap_row token now f c t found).1
    swapped none e = over
    swapped (some row) e = elim (Bool-cases (is_held token now row)) [
      | inr free ↦ rw free over
      | inl held ↦ rw held (
          put-IsOver a s k c.scope token.job_key (f row) t
            (λ same. keeps row (same_row a s k c.scope token.job_key row t same e over)) over)
    ]

renewed-IsOver :
    (a : String) (start : ℕ) (row : Job)
    → is_attempt a row ≡ false
    → is_attempt a (renewed start row) ≡ false
unfolding renewed
renewed-IsOver a start row h = h

pub finished-IsOver :
    (a : String) (response : Value) (observed_at ttl start : ℕ) (row : Job)
    → is_attempt a (finished response observed_at ttl start row) ≡ false
unfolding finished finished_state
finished-IsOver a response observed_at ttl start row = ground arith

failed-IsOver :
    (a : String) (state s : JobState) (d : Value) (retry_at : Option ℕ) (start : ℕ) (row : Job)
    → failure_state state ≡ some s
    → is_attempt a (failed s d retry_at start row) ≡ false
unfolding failed
failed-IsOver a state s d retry_at start row h = ground arith

-- a claim that is not of this attempt
abbrev pub is_other : String → Operation → Bool
is_other a (claims c now attempt key request search_key) = not (text_eq attempt a)
is_other a _ = true

claim-IsOver :
    (a s k : String) (c : Client) (now : ℕ) (attempt key request search_key : String) (t : Table)
    → text_eq attempt a ≡ false
    → IsOver a s k t
    → IsOver a s k (claim c now attempt key request search_key t).2
unfolding claim grant claimed_row
claim-IsOver a s k c now attempt key request search_key t fresh over =
    answered (first_refusal c now key t)
  where
    answered :
        (r : Option Refusal) → IsOver a s k (answer r c now attempt key request search_key t).2
    answered (some r) = over
    answered none = put-IsOver a s k c.scope key _ t (λ same. fresh) over

read-IsOver :
    (a s k scope : String) (now : ℕ) (key : String) (b : Bool) (t : Table)
    → IsOver a s k t
    → IsOver a s k (read scope now key b t).1
unfolding read
read-IsOver a s k scope now key b t over = found (t scope key) refl
  where
    expired_row :
        (row : Job)
        → IsOver a s k (put scope key (record row { state = JobState.expired; updated_at = now }) t)
    expired_row row = put-IsOver a s k scope key _ t (λ same. refl) over

    by_state :
        (state : JobState) (row : Job) → IsOver a s k (read_row state scope now key b row t).1
    by_state JobState.complete row = ground (arith, expired_row row)
    by_state JobState.no_route row = ground (arith, expired_row row)
    by_state JobState.inflight row = over
    by_state JobState.pending row = over
    by_state JobState.expired row = over
    by_state JobState.error row = over
    by_state JobState.quota_wait row = over

    found : (o : Option Job) → t scope key ≡ o → IsOver a s k (read_found o scope now key b t).1
    found none e = over
    found (some row) e = by_state row.state row

fail-IsOver :
    (a s k : String) (token : Claim) (d : Diagnosis) (state : JobState) (as_state : Option JobState)
    (retry_at : Option ℕ) (start now : ℕ) (c : Client) (t : Table)
    → failure_state state ≡ as_state
    → IsOver a s k t
    → IsOver a s k (table_after t (fail_as as_state token (diagnostic d) retry_at start now c t))
unfolding fail_as
fail-IsOver a s k token d state none retry_at start now c t e over = over
fail-IsOver a s k token d state (some x) retry_at start now c t e over =
    cas-IsOver a s k token now (failed x (diagnostic d) retry_at start) c t
      (λ row h. failed-IsOver a state x (diagnostic d) retry_at start row e) over

pub run-IsOver :
    (a s k : String) (o : Operation) (t : Table)
    → is_other a o ≡ true
    → IsOver a s k t
    → IsOver a s k (run o t)
unfolding run renew finish fail
run-IsOver a s k (claims c now attempt key request search_key) t fresh over =
    claim-IsOver a s k c now attempt key request search_key t (ground arith) over
run-IsOver a s k (renews c token start now) t fresh over =
    cas-IsOver a s k token now (renewed start) c t (renewed-IsOver a start) over
run-IsOver a s k (finishes c token response observed_at ttl start now) t fresh over =
    cas-IsOver a s k token now (finished response observed_at ttl start) c t
      (λ row h. finished-IsOver a response observed_at ttl start row) over
run-IsOver a s k (fails c token d state retry_at start now) t fresh over =
    fail-IsOver a s k token d state (failure_state state) retry_at start now c t refl over
run-IsOver a s k (reads scope now key b) t fresh over = read-IsOver a s k scope now key b t over
