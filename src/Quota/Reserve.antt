-- ===== src/Quota/Reserve.antt =====
-- Planning and the reserve of the sliding window (src/evm_inventory/lifi_quota.py).
use evm_garbage_collector.Prelude.{
  ℕ, suc, ◌+◌, ◌≤◌, String, ◌≡◌, refl, subst, Bool, Option, none, some, arith, length,
}
use evm_garbage_collector.Quota.{
  Bucket, Policy, Ledger, Purpose, Refusal, recent_times, state, reserve_for,
}
use evm_garbage_collector.Quota.Operations.{
  granted, reserved, request_refusal, reserve_request, reserve_unless,
}
use evm_garbage_collector.Quota.Window.{granted_room, state_limit-le, recent-length}

planning_reserve :
    (policy : Policy) (b : Bucket) (now : ℕ) (l : Ledger)
    → reserve_for Purpose.planning (state policy l b now) ≡ (policy.limits b).reserve
unfolding state
planning_reserve policy b now l = refl

recent-reserved :
    (b : Bucket) (key : String) (window now : ℕ) (paced : Bool) (l : Ledger)
    → length (recent_times b window now (reserved b key now paced l))
      ≤ suc (length (recent_times b window now l))
unfolding reserved
recent-reserved b key window now paced l =
    ground
      (arith, recent-length b window now (reserved b key now paced l), recent-length b window now l)

-- After a reservation for planning the requests of the window and the bucket's reserve are together
-- within its limit.
pub planning_leaves_reserve :
    (policy : Policy) (b : Bucket) (key : String) (paced : Bool) (now attempt : ℕ) (l l' : Ledger)
    → reserve_request policy b key Purpose.planning paced now l ≡ granted attempt l'
    → length (recent_times b (policy.limits b).window now l') + (policy.limits b).reserve
      ≤ (policy.limits b).limit
unfolding reserve_request reserve_unless
planning_leaves_reserve policy b key paced now attempt l l' h =
    tested (request_refusal policy b Purpose.planning paced now l) refl h
  where
    window : ℕ
    window = (policy.limits b).window

    tested :
        (r : Option Refusal)
        → request_refusal policy b Purpose.planning paced now l ≡ r
        → reserve_unless r b key now paced l ≡ granted attempt l'
        → length (recent_times b window now l') + (policy.limits b).reserve
          ≤ (policy.limits b).limit
    tested (some r) e g = cc
    tested none e g =
        let same : reserved b key now paced l ≡ l' = cc in
        subst
          (λ x.
            length (recent_times b window now x) + (policy.limits b).reserve
            ≤ (policy.limits b).limit)
          same
          (omega (
            arith,
            granted_room policy b Purpose.planning paced now l e,
            recent-reserved b key window now paced l,
            state_limit-le policy l b now,
            planning_reserve policy b now l,
          ))
