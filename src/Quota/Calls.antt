-- ===== src/Quota/Calls.antt =====
-- Sequences of the operations of src/evm_inventory/lifi_quota.py, with the reading of the clock at
-- each, by any number of stores of one policy.
use evm_garbage_collector.Prelude.{ℕ, ◌≤◌, String, Bool, List, [], ◌∷◌}
use evm_garbage_collector.Quota.{Bucket, Policy, Ledger, Purpose, reserve_dispatch_time}
use evm_garbage_collector.Quota.Operations.{
  ledger_after, Headers, reserve_request, mark_started, observe,
}

pub data Call : Type 0 where
  reserves : Bucket → String → Purpose → Bool → Call
  starts : ℕ → Bool → Call
  observes : Bucket → ℕ → Headers → ℕ → Call
  dispatches : Call

unfoldable pub step : Policy → ℕ × Call → Ledger → Ledger
step policy (now, reserves b key purpose paced) l =
    ledger_after l (reserve_request policy b key purpose paced now l)
step policy (now, starts attempt paced) l = ledger_after l (mark_started policy attempt paced now l)
step policy (now, observes b attempt h status) l = (observe policy b attempt h status now l).1
step policy (now, dispatches) l = (reserve_dispatch_time now l).1

unfoldable pub run : Policy → List (ℕ × Call) → Ledger → Ledger
run policy [] l = l
run policy (c ∷ cs) l = run policy cs (step policy c l)

-- the clock does not go back, from a time on
abbrev pub IsTimed : ℕ → List (ℕ × Call) → Type 0
IsTimed t [] = Unit
IsTimed t (c ∷ cs) = (t ≤ c.0) × IsTimed c.0 cs
