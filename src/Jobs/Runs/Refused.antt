-- ===== src/Jobs/Runs/Refused.antt =====
-- Jobs whose request the provider refused as bad (src/evm_inventory/quote_jobs.py).
use evm_garbage_collector.Prelude.{
  ℕ, String, ◌≡◌, refl, ◌∙◌, Bool, true, false, Option, none, some, List, [], ◌∷◌, arith, text_eq,
  text_eq_iff, Bool-cases, inl, inr,
}
use evm_garbage_collector.Jobs.{
  JobState, Job, Table, Client, Claim, is_key, put, is_held, swap_row, cas, finish, renew, renewed,
  finished, fail, failed, fail_as, failure_state, diagnostic, read, read_found, read_row,
}
use evm_garbage_collector.Jobs.Claims.{
  Claimed, Refusal, claim, grant, first_refusal, answer, is_bad_request, diagnostic_of, refusal_by,
  failed_job,
}
use evm_garbage_collector.Jobs.Leases.{first_refusal_row}
use evm_garbage_collector.Jobs.Runs.{
  Operation, claims, renews, finishes, fails, reads, table_after, run, run_all,
}

-- a job that failed by a bad request
abbrev pub IsRejected : Job → Type 0
IsRejected row = (row.state ≡ JobState.error) × (is_bad_request (diagnostic_of row) ≡ true)

put_elsewhere :
    (scope key s k : String) (row : Job) (t : Table)
    → is_key scope key s k ≡ false
    → put scope key row t s k ≡ t s k
unfolding put
put_elsewhere scope key s k row t other = rw other refl

rejected_refusal :
    (c : Client) (now : ℕ) (key : String) (state : JobState) (x : Job)
    → state ≡ JobState.error
    → is_bad_request (diagnostic_of x) ≡ true
    → (r : Refusal) × (refusal_by state c now key x ≡ some r)
unfolding refusal_by failed_job
rejected_refusal c now key state x e bad =
    (Refusal.in_progress "bad_request" none (diagnostic_of x), rw e (rw bad refl))

first_refusal_rejected :
    (c : Client) (now : ℕ) (key : String) (t : Table) (x : Job)
    → t c.scope key ≡ some x
    → IsRejected x
    → (r : Refusal) × (first_refusal c now key t ≡ some r)
first_refusal_rejected c now key t x e (state, bad) =
    let (r, found) = rejected_refusal c now key x.state x state bad in
    first_refusal_row c now key t x r e found

module _ (s k : String) (row : Job) (rejected : IsRejected row) where
  -- whatever changes a table at a key changes another row
  change-kept :
      (scope key : String) (o : Option Job) (t t' : Table)
      → t s k ≡ some row
      → t scope key ≡ o
      → ((x : Job) → o ≡ some x → IsRejected x → t' ≡ t)
      → (is_key scope key s k ≡ false → t' s k ≡ t s k)
      → t' s k ≡ some row
  change-kept scope key o t t' there at same other = elim (Bool-cases (is_key scope key s k)) [
    | inr away ↦ other away ∙ there
    | inl hit ↦
        let here : o ≡ some row = ground (arith, text_eq_iff scope s, text_eq_iff key k) in
        rw (same row here rejected) there
  ]

  cas-kept :
      (token : Claim) (now : ℕ) (f : Job → Job) (c : Client) (t : Table)
      → t s k ≡ some row
      → (cas token now f c t).1 s k ≡ some row
  unfolding cas swap_row is_held
  cas-kept token now f c t there = elim (Bool-cases (text_eq token.lease_owner c.lease_owner)) [
    | inr foreign ↦ rw foreign there
    | inl own ↦ rw own (swapped (t c.scope token.job_key) refl)
  ]
    where
      swapped :
          (o : Option Job)
          → t c.scope token.job_key ≡ o
          → (swap_row token now f c t o).1 s k ≡ some row
      swapped none e = there
      swapped (some x) e =
          change-kept c.scope token.job_key (some x) t (swap_row token now f c t (some x)).1 there e
            (λ y same failed. ground arith)
            (λ away. ground (arith, put_elsewhere c.scope token.job_key s k (f x) t away))

  claim-kept :
      (c : Client) (now : ℕ) (attempt key request search_key : String) (t : Table)
      → t s k ≡ some row
      → (claim c now attempt key request search_key t).2 s k ≡ some row
  unfolding claim answer grant
  claim-kept c now attempt key request search_key t there =
      answered (first_refusal c now key t) refl
    where
      answered :
          (r : Option Refusal)
          → first_refusal c now key t ≡ r
          → (answer r c now attempt key request search_key t).2 s k ≡ some row
      answered (some r) e = there
      answered none e =
          change-kept c.scope key (t c.scope key) t
            (answer none c now attempt key request search_key t).2 there refl
            (λ x here bad. absurd (cc ((first_refusal_rejected c now key t x here bad).1, e)))
            (λ away. put_elsewhere c.scope key s k _ t away)

  read-kept :
      (scope : String) (now : ℕ) (key : String) (b : Bool) (t : Table)
      → t s k ≡ some row
      → (read scope now key b t).1 s k ≡ some row
  unfolding read read_found read_row
  read-kept scope now key b t there = found (t scope key) refl
    where
      by_state :
          (state : JobState) (x : Job)
          → t scope key ≡ some x
          → x.state ≡ state
          → (read_row state scope now key b x t).1 s k ≡ some row
      by_state state x e at =
          change-kept scope key (some x) t (read_row state scope now key b x t).1 there e
            (λ y same bad. ground arith)
            (λ away. ground (
              arith,
              put_elsewhere scope key s k (record x { state = JobState.expired; updated_at = now })
                  t away,
            ))

      found : (o : Option Job) → t scope key ≡ o → (read_found o scope now key b t).1 s k ≡ some row
      found none e = there
      found (some x) e = by_state x.state x e refl

  run-kept : (o : Operation) (t : Table) → t s k ≡ some row → run o t s k ≡ some row
  unfolding run renew finish fail fail_as
  run-kept (claims c now attempt key request search_key) t there =
      claim-kept c now attempt key request search_key t there
  run-kept (renews c token start now) t there = cas-kept token now (renewed start) c t there
  run-kept (finishes c token response observed_at ttl start now) t there =
      cas-kept token now (finished response observed_at ttl start) c t there
  run-kept (fails c token d state retry_at start now) t there = as_state (failure_state state)
    where
      as_state :
          (o : Option JobState)
          → table_after t (fail_as o token (diagnostic d) retry_at start now c t) s k ≡ some row
      as_state none = there
      as_state (some x) = cas-kept token now (failed x (diagnostic d) retry_at start) c t there
  run-kept (reads scope now key b) t there = read-kept scope now key b t there

  pub run_all-kept :
      (os : List Operation) (t : Table) → t s k ≡ some row → run_all os t s k ≡ some row
  unfolding run_all
  run_all-kept [] t there = there
  run_all-kept (o ∷ os) t there = run_all-kept os (run o t) (run-kept o t there)

-- A job that failed by a bad request keeps its row whatever the clients do, and no client's claim
-- of it is ever granted.
pub bad_request_final :
    (s k : String) (row : Job) (os : List Operation) (t : Table) (c : Client) (now : ℕ)
    (attempt request search_key : String)
    → IsRejected row
    → t s k ≡ some row
    → c.scope ≡ s
    → (run_all os t s k ≡ some row)
      × ((r : Refusal) × (claim c now attempt k request search_key (run_all os t)
            ≡ (Claimed.refused r, c, run_all os t)))
unfolding claim answer
bad_request_final s k row os t c now attempt request search_key rejected there same =
    let kept = run_all-kept s k row rejected os t there in
    let here : run_all os t c.scope k ≡ some row = rw same kept in
    let (r, refused_as) = first_refusal_rejected c now k (run_all os t) row here rejected in
    (kept, (r, rw refused_as refl))
