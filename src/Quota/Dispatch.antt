-- ===== src/Quota/Dispatch.antt =====
-- The dispatch slots (src/evm_inventory/lifi_quota.py).
use evm_garbage_collector.Prelude.{
  ℕ, ◌+◌, ◌≤◌, String, Bool, some, List, [], ◌∷◌, ◌≡◌, refl, ◌∙◌, arith,
}
use evm_garbage_collector.Jobs.{second}
use evm_garbage_collector.Quota.{Bucket, Policy, Ledger, Purpose, reserve_dispatch_time}
use evm_garbage_collector.Quota.Operations.{
  ledger_after, reserved, reserve_request, reserve_unless, mark_started, started, observe, Headers,
}
use evm_garbage_collector.Quota.Calls.{Call, reserves, starts, observes, dispatches, step}

-- the times that the calls of a run are given, each with the clock's reading
unfoldable pub dispatch_times : Policy → List (ℕ × Call) → Ledger → List (ℕ × ℕ)
dispatch_times policy [] l = []
dispatch_times policy ((now, dispatches) ∷ cs) l =
    (now, (reserve_dispatch_time now l).0)
    ∷ dispatch_times policy cs (step policy (now, dispatches) l)
dispatch_times policy (c ∷ cs) l = dispatch_times policy cs (step policy c l)

-- each time is at least the clock's reading, and a second after the one before it
abbrev pub IsSpaced : ℕ → List (ℕ × ℕ) → Type 0
IsSpaced t [] = Unit
IsSpaced t ((now, u) ∷ us) = (t ≤ u) × (now ≤ u) × IsSpaced (u + second) us

reserve-next_dispatch :
    (policy : Policy) (b : Bucket) (key : String) (purpose : Purpose) (paced : Bool) (now : ℕ)
    (l : Ledger)
    → (ledger_after l (reserve_request policy b key purpose paced now l)).next_dispatch
      ≡ l.next_dispatch
unfolding reserve_request reserve_unless reserved
reserve-next_dispatch policy b key purpose paced now l = ground arith

start-next_dispatch :
    (policy : Policy) (attempt : ℕ) (paced : Bool) (now : ℕ) (l : Ledger)
    → (ledger_after l (mark_started policy attempt paced now l)).next_dispatch ≡ l.next_dispatch
unfolding mark_started started
start-next_dispatch policy attempt paced now l = ground arith

observe-next_dispatch :
    (policy : Policy) (b : Bucket) (attempt : ℕ) (h : Headers) (status now : ℕ) (l : Ledger)
    → (observe policy b attempt h status now l).1.next_dispatch ≡ l.next_dispatch
unfolding observe
observe-next_dispatch policy b attempt h status now l = ground arith

dispatch_times-IsSpaced :
    (policy : Policy) (cs : List (ℕ × Call)) (t : ℕ) (l : Ledger)
    → l.next_dispatch ≡ some t
    → IsSpaced t (dispatch_times policy cs l)
unfolding dispatch_times reserve_dispatch_time step
dispatch_times-IsSpaced policy [] t l e = tt
dispatch_times-IsSpaced policy ((now, dispatches) ∷ cs) t l e =
    (ground arith, ground arith, dispatch_times-IsSpaced policy cs _ _ refl)
dispatch_times-IsSpaced policy ((now, reserves b key purpose paced) ∷ cs) t l e =
    dispatch_times-IsSpaced policy cs t _
      (reserve-next_dispatch policy b key purpose paced now l ∙ e)
dispatch_times-IsSpaced policy ((now, starts attempt paced) ∷ cs) t l e =
    dispatch_times-IsSpaced policy cs t _ (start-next_dispatch policy attempt paced now l ∙ e)
dispatch_times-IsSpaced policy ((now, observes b attempt h status) ∷ cs) t l e =
    dispatch_times-IsSpaced policy cs t _
      (observe-next_dispatch policy b attempt h status now l ∙ e)

-- Whatever the clocks of the stores read, also where they go back, and whatever other calls stand
-- between, the times that the calls for a dispatch slot are given after one that reads `now` are
-- not before their own readings and follow that one's time and each other by a second or more.
pub dispatch-IsSpaced :
    (policy : Policy) (now : ℕ) (cs : List (ℕ × Call)) (l : Ledger)
    → let r = reserve_dispatch_time now l in IsSpaced (r.0 + second) (dispatch_times policy cs r.1)
unfolding reserve_dispatch_time
dispatch-IsSpaced policy now cs l = dispatch_times-IsSpaced policy cs _ _ refl
