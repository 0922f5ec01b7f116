-- ===== src/Tests/Quota.antt =====
-- Calls of the stores of one scope (src/evm_inventory/lifi_quota.py).
use evm_garbage_collector.Prelude.{
  ℕ, ◌+◌, ◌*◌, ◌≤◌, ◌≡◌, refl, true, false, none, some, List, [], ◌∷◌, length, sort, arith,
}
use evm_garbage_collector.Jobs.{second}
use evm_garbage_collector.Quota.{
  Bucket, Ledger, Purpose, Refusal, lifi_policy, recent_times, reserve_dispatch_time, state,
  quota_refusal, is_full, is_spent, remaining_of, pace_refusal,
}
use evm_garbage_collector.Quota.Operations.{
  Headers, RetryAfter, granted, refused, reserved, observe, reserve_request, request_refusal,
  observed_provider, cooldown_end,
}
use evm_garbage_collector.Quota.Calls.{Call, run}
use evm_garbage_collector.Quota.Window.{Within, used, run-budget}
use evm_garbage_collector.Quota.Reserve.{planning_leaves_reserve}
use evm_garbage_collector.Quota.Cooldown.{cooldown_lasts}
use evm_garbage_collector.Quota.Dispatch.{IsSpaced, dispatch_times, dispatch-IsSpaced}

-- the tables of a new database
abbrev empty : Ledger
empty = record {
  requests = [];
  blocked_until = λ b. none;
  provider = λ b. none;
  next_dispatch = none;
  last_start = none;
  last_actual_start = none;
  attempts = [];
  next_attempt = 1;
}

abbrev calls : List (ℕ × Call)
calls =
    (100, Call.reserves Bucket.steps "a" Purpose.planning true)
    ∷ (100 + second, Call.reserves Bucket.steps "b" Purpose.execution false)
    ∷ (100 + second, Call.dispatches)
    ∷ (100 + 2 * second, Call.starts 1 true)
    ∷ []

abbrev headers : Headers
headers = record {
  reset = none;
  remaining = some 0;
  limit = none;
  retry_after = RetryAfter.delay (30 * second);
}

empty-Within : Within lifi_policy 100 empty
empty-Within = record { past = tt; budget = λ b t. omega arith }

run-budget_example :
    used Bucket.steps (7200 * second) (100 + second) (run lifi_policy calls empty) ≤ 50
run-budget_example =
    run-budget lifi_policy 100 calls empty empty-Within
      (omega arith, (omega arith, (omega arith, (omega arith, tt)))) Bucket.steps (100 + second)

first_granted :
    reserve_request lifi_policy Bucket.routes "a" Purpose.planning true 100 empty
    ≡ granted 1 (reserved Bucket.routes "a" 100 true empty)
unfolding reserve_request request_refusal state recent_times quota_refusal is_full sort is_spent
    remaining_of pace_refusal
first_granted = refl

planning_leaves_reserve_example :
    length
        (recent_times Bucket.routes (7200 * second) 100 (reserved Bucket.routes "a" 100 true empty))
      + 5
    ≤ 75
planning_leaves_reserve_example =
    planning_leaves_reserve lifi_policy Bucket.routes "a" true 100 1 empty
      (reserved Bucket.routes "a" 100 true empty) first_granted

limited :
    (observe lifi_policy Bucket.steps 1 headers 429 100 empty).0
    ≡ some (Refusal.provider_cooldown (100 + 30 * second))
unfolding observe observed_provider cooldown_end
limited = refl

cooldown_lasts_example :
    (u : ℕ) × (reserve_request lifi_policy Bucket.steps "c" Purpose.execution false 5000
        (run lifi_policy calls (observe lifi_policy Bucket.steps 1 headers 429 100 empty).1)
      ≡ refused (Refusal.provider_cooldown u))
    × (100 + 30 * second ≤ u)
cooldown_lasts_example =
    cooldown_lasts lifi_policy Bucket.steps 1 headers 100 (100 + 30 * second) empty limited calls
      "c" Purpose.execution false 5000 omega arith (λ e. cc)

dispatch-IsSpaced_example :
    let r = reserve_dispatch_time 100 empty in
    IsSpaced (r.0 + second) (dispatch_times lifi_policy calls r.1)
dispatch-IsSpaced_example = dispatch-IsSpaced lifi_policy 100 calls empty
