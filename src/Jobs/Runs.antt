-- ===== src/Jobs/Runs.antt =====
-- Any sequence of the operations of src/evm_inventory/quote_jobs.py, by any clients, on one table.
-- What a client remembers when it acts is arbitrary.
pub mod Tokens
pub mod Once
pub mod Refused
use evm_garbage_collector.Prelude.{ℕ, String, Bool, true, Option, none, some, List, [], ◌∷◌}
use evm_garbage_collector.Journal.Value.{Value}
use evm_garbage_collector.Jobs.{
  JobState, Table, Client, Claim, Diagnosis, renew, finish, fail, read,
}
use evm_garbage_collector.Jobs.Claims.{claim}

pub data Operation : Type 0 where
  claims : Client → ℕ → String → String → String → String → Operation
  renews : Client → Claim → ℕ → ℕ → Operation
  finishes : Client → Claim → Value → ℕ → ℕ → ℕ → ℕ → Operation
  fails : Client → Claim → Diagnosis → JobState → Option ℕ → ℕ → ℕ → Operation
  reads : String → ℕ → String → Bool → Operation

-- a refused state raises before the table is touched
abbrev pub table_after : Table → Option (Bool × Client × Table) → Table
table_after t none = t
table_after t (some r) = r.2

unfoldable pub run : Operation → Table → Table
run (claims c now attempt key request search_key) t =
    (claim c now attempt key request search_key t).2
run (renews c token start now) t = (renew token start now c t).1
run (finishes c token response observed_at ttl start now) t =
    (finish token response observed_at ttl start now c t).1
run (fails c token d state retry_at start now) t =
    table_after t (fail token d state retry_at start now c t)
run (reads scope now key include_inflight) t = (read scope now key include_inflight t).1

unfoldable pub run_all : List Operation → Table → Table
run_all [] t = t
run_all (o ∷ os) t = run_all os (run o t)
