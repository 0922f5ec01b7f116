-- ===== src/Jobs/Runs/Once.antt =====
-- The attempt that holds a job, and its publication (src/evm_inventory/quote_jobs.py).
use evm_garbage_collector.Prelude.{
  ℕ, String, ◌≡◌, refl, Bool, true, false, Option, none, some, List, [], ◌∷◌, arith, holds, all,
  text_eq, text_eq_refl, if◌then◌else◌, Bool-cases, inl, inr,
}
use evm_garbage_collector.Journal.Value.{Value}
use evm_garbage_collector.Jobs.{
  Job, Table, Client, Claim, put, is_held, swap_row, cas, finished, finish,
}
use evm_garbage_collector.Jobs.Claims.{
  Claimed, claim, grant, claimed_row, first_refusal, answer, Refusal,
}
use evm_garbage_collector.Jobs.Runs.{Operation, run, run_all}
use evm_garbage_collector.Jobs.Runs.Tokens.{
  IsOver, is_attempt, is_other, run-IsOver, finished-IsOver,
}

pub run_all-IsOver :
    (a s k : String) (os : List Operation) (t : Table)
    → all (is_other a) os ≡ true
    → IsOver a s k t
    → IsOver a s k (run_all os t)
unfolding run_all
run_all-IsOver a s k [] t fresh over = over
run_all-IsOver a s k (o ∷ os) t fresh over =
    run_all-IsOver a s k os (run o t) (ground arith) (run-IsOver a s k o t (ground arith) over)

held_attempt :
    (token : Claim) (now : ℕ) (row : Job)
    → is_attempt token.attempt_id row ≡ false
    → is_held token now row ≡ false
unfolding is_held
held_attempt token now row over = ground arith

-- With an attempt that is over, a compare-and-swap does nothing.
cas_over :
    (token : Claim) (now : ℕ) (f : Job → Job) (c : Client) (t : Table)
    → IsOver token.attempt_id c.scope token.job_key t
    → cas token now f c t ≡ (false, t)
unfolding cas swap_row
cas_over token now f c t over = elim (Bool-cases (text_eq token.lease_owner c.lease_owner)) [
  | inr other ↦ rw other refl
  | inl own ↦ rw own (swapped (t c.scope token.job_key) over)
]
  where
    swapped :
        (o : Option Job)
        → holds (is_attempt token.attempt_id) o ≡ false
        → swap_row token now f c t o ≡ (false, t)
    swapped none h = refl
    swapped (some row) h = rw (held_attempt token now row h) refl

-- What a swap that succeeds has found, and what it leaves.
abbrev pub Swapped : Claim → ℕ → (Job → Job) → Client → Table → Option Job → Table → Type 0
Swapped token now f c t found t' =
    (row : Job) × (found ≡ some row)
    × (is_held token now row ≡ true)
    × (t' ≡ put c.scope token.job_key (f row) t)

swap_row-Swapped :
    (token : Claim) (now : ℕ) (f : Job → Job) (c : Client) (t : Table) (o : Option Job)
    → (swap_row token now f c t o).0 ≡ true
    → Swapped token now f c t o (swap_row token now f c t o).1
unfolding swap_row
swap_row-Swapped token now f c t none h = cc
swap_row-Swapped token now f c t (some row) h = tested (is_held token now row) refl h
  where
    done : Bool × Table
    done = (true, put c.scope token.job_key (f row) t)

    undone : Bool × Table
    undone = (false, t)

    tested :
        (b : Bool)
        → is_held token now row ≡ b
        → (if b then done else undone).0 ≡ true
        → Swapped token now f c t (some row) (if b then done else undone).1
    tested true e g = (row, refl, e, refl)
    tested false e g = cc

pub cas-Swapped :
    (token : Claim) (now : ℕ) (f : Job → Job) (c : Client) (t : Table)
    → (cas token now f c t).0 ≡ true
    → Swapped token now f c t (t c.scope token.job_key) (cas token now f c t).1
unfolding cas
cas-Swapped token now f c t h = owned (text_eq token.lease_owner c.lease_owner) h
  where
    swapped : Bool × Table
    swapped = swap_row token now f c t (t c.scope token.job_key)

    undone : Bool × Table
    undone = (false, t)

    owned :
        (b : Bool)
        → (if b then swapped else undone).0 ≡ true
        → Swapped token now f c t (t c.scope token.job_key) (if b then swapped else undone).1
    owned true g = swap_row-Swapped token now f c t (t c.scope token.job_key) g
    owned false g = cc

-- A swap that leaves the row out of flight ends its attempt.
Swapped-IsOver :
    (token : Claim) (now : ℕ) (f : Job → Job) (c : Client) (t t' : Table) (found : Option Job)
    → ((row : Job) → is_attempt token.attempt_id (f row) ≡ false)
    → Swapped token now f c t found t'
    → IsOver token.attempt_id c.scope token.job_key t'
unfolding put
Swapped-IsOver token now f c t t' found ends (row, _, _, e) =
    rw (e, text_eq_refl c.scope, text_eq_refl token.job_key) (ends row)

-- Once an attempt has published its result, none of its later calls of `finish` in that scope does
-- anything, whatever the clients did in between, as long as no claim draws the same attempt id.
pub finish_once :
    (token : Claim) (r r' : Value) (observed ttl start now observed' ttl' start' now' : ℕ)
    (c c' : Client) (t : Table) (os : List Operation)
    → (finish token r observed ttl start now c t).0 ≡ true
    → all (is_other token.attempt_id) os ≡ true
    → c'.scope ≡ c.scope
    → let later = run_all os (finish token r observed ttl start now c t).1 in
      finish token r' observed' ttl' start' now' c' later ≡ (false, later)
unfolding finish
finish_once token r r' observed ttl start now observed' ttl' start' now' c c' t os done fresh same =
    let f = finished r observed ttl start in
    let over =
      Swapped-IsOver token now f c t (cas token now f c t).1 (t c.scope token.job_key)
        (finished-IsOver token.attempt_id r observed ttl start)
        (cas-Swapped token now f c t done) in
    cas_over token now' (finished r' observed' ttl' start') c' (run_all os (cas token now f c t).1)
      (rw same (
        run_all-IsOver token.attempt_id c.scope token.job_key os (cas token now f c t).1 fresh
          over))

granted-IsOver :
    (r : Option Refusal) (a : String) (c : Client) (now : ℕ)
    (attempt key request search_key : String) (t : Table) (claimed : Claim)
    → (answer r c now attempt key request search_key t).0 ≡ Claimed.granted claimed
    → text_eq attempt a ≡ false
    → IsOver a c.scope key (answer r c now attempt key request search_key t).2
unfolding answer put claimed_row grant
granted-IsOver (some r) a c now attempt key request search_key t claimed h fresh = cc
granted-IsOver none a c now attempt key request search_key t claimed h fresh =
    rw (text_eq_refl c.scope, text_eq_refl key) fresh

-- Once a job is claimed anew, the attempt that held it before publishes nothing any more, whatever
-- the clients do, as long as no other claim draws its attempt id.
pub claim_supersedes :
    (token claimed : Claim) (c old : Client) (now : ℕ) (attempt request search_key : String)
    (r : Value) (observed ttl start later : ℕ) (t : Table) (os : List Operation)
    → (claim c now attempt token.job_key request search_key t).0 ≡ Claimed.granted claimed
    → text_eq attempt token.attempt_id ≡ false
    → all (is_other token.attempt_id) os ≡ true
    → old.scope ≡ c.scope
    → let after = run_all os (claim c now attempt token.job_key request search_key t).2 in
      finish token r observed ttl start later old after ≡ (false, after)
unfolding finish claim
claim_supersedes token claimed c old now attempt request search_key r observed ttl start later t os
      h fresh others same =
    let after = (claim c now attempt token.job_key request search_key t).2 in
    cas_over token later (finished r observed ttl start) old (run_all os after) (
      rw same (
        run_all-IsOver token.attempt_id c.scope token.job_key os after others (
          granted-IsOver (first_refusal c now token.job_key t) token.attempt_id c now attempt
            token.job_key request search_key t claimed h fresh)))
