-- ===== src/Quota/Cooldown.antt =====
-- The cooldown of the provider over later calls (src/evm_inventory/lifi_quota.py).
use evm_garbage_collector.Prelude.{
  ℕ, ◌≤◌, ◌<◌, max, String, ◌≡◌, refl, ap, subst, ◌∙◌, ◌==◌, Bool, true, false, Option, none, some,
  List, [], ◌∷◌, arith, if◌then◌else◌, Bool-cases, inl, inr,
}
use evm_garbage_collector.Quota.{
  Bucket, bucket_eq, Policy, Provider, Ledger, Purpose, Refusal, state, until, later,
  reserve_dispatch_time, purpose_refusal,
}
use evm_garbage_collector.Quota.Window.{bucket_eq→eq}
use evm_garbage_collector.Quota.Operations.{
  refused, ledger_after, reserved, request_refusal, reserve_request, reserve_unless, mark_started,
  started, observe, Headers, record_provider, record_cooldown, observed_provider, observed_reset,
  noted, cooldown_end,
}
use evm_garbage_collector.Quota.Calls.{Call, reserves, starts, observes, dispatches, step, run}

-- the table holds a cooldown of the bucket that ends at the time or later
abbrev pub IsBlocked : Bucket → ℕ → Ledger → Type 0
IsBlocked b t l = (u : ℕ) × (l.blocked_until b ≡ some u) × (t ≤ u)

later-le :
    (t u v : ℕ) (o : Option ℕ)
    → o ≡ some u
    → t ≤ u
    → (w : ℕ) × (later o (some v) ≡ some w) × (t ≤ w)
later-le t u v o e h = (max u v, rw e refl, omega arith)

recorded-IsBlocked :
    (b c : Bucket) (t v : ℕ) (l : Ledger) → IsBlocked b t l → IsBlocked b t (record_cooldown c v l)
recorded-IsBlocked b c t v l (u, e, h) = elim (Bool-cases (bucket_eq c b)) [
  | inr other ↦ (u, ground arith, h)
  | inl same ↦
      let w =
        later-le t u v (l.blocked_until c) (ap l.blocked_until (bucket_eq→eq c b same) ∙ e) h in
      (w.0, ground (arith, w.1), w.2)
]

provider-IsBlocked :
    (b c : Bucket) (t : ℕ) (p : Option Provider) (l : Ledger)
    → IsBlocked b t l
    → IsBlocked b t (record_provider c p l)
provider-IsBlocked b c t none l h = h
provider-IsBlocked b c t (some p) l h = h

reserve-blocked :
    (policy : Policy) (b : Bucket) (key : String) (purpose : Purpose) (paced : Bool) (now : ℕ)
    (l : Ledger)
    → (ledger_after l (reserve_request policy b key purpose paced now l)).blocked_until
      ≡ l.blocked_until
unfolding reserve_request reserve_unless reserved
reserve-blocked policy b key purpose paced now l = ground arith

start-blocked :
    (policy : Policy) (attempt : ℕ) (paced : Bool) (now : ℕ) (l : Ledger)
    → (ledger_after l (mark_started policy attempt paced now l)).blocked_until ≡ l.blocked_until
unfolding mark_started started
start-blocked policy attempt paced now l = ground arith

either-IsBlocked :
    (b : Bucket) (t : ℕ) (which : Bool) (x y : Option Refusal × Ledger)
    → IsBlocked b t x.1
    → IsBlocked b t y.1
    → IsBlocked b t (if which then x else y).1
either-IsBlocked b t true x y hx hy = hx
either-IsBlocked b t false x y hx hy = hy

-- what record_cooldown leaves
new-IsBlocked : (b : Bucket) (t : ℕ) (l : Ledger) → IsBlocked b t (record_cooldown b t l)
new-IsBlocked b t l =
    (elim (l.blocked_until b) [ none ↦ t | some u ↦ max u t ], ground arith, ground arith)

observe-IsBlocked :
    (policy : Policy) (c : Bucket) (attempt : ℕ) (hs : Headers) (status now : ℕ) (b : Bucket)
    (t : ℕ) (l : Ledger)
    → IsBlocked b t l
    → IsBlocked b t (observe policy c attempt hs status now l).1
unfolding observe
observe-IsBlocked policy c attempt hs status now b t l h =
    let p = observed_provider c attempt hs now l in
    let end = cooldown_end (observed_reset p now hs) (policy.limits c).window now hs in
    let seen = noted attempt now l in
    let kept = provider-IsBlocked b c t p seen h in
    either-IsBlocked b t (status == 429)
      (some (Refusal.provider_cooldown end), record_cooldown c end (record_provider c p seen))
      (none, record_provider c p seen)
      (recorded-IsBlocked b c t end (record_provider c p seen) kept) kept

step-IsBlocked :
    (policy : Policy) (c : ℕ × Call) (b : Bucket) (t : ℕ) (l : Ledger)
    → IsBlocked b t l
    → IsBlocked b t (step policy c l)
unfolding step reserve_dispatch_time
step-IsBlocked policy (now, reserves c key purpose paced) b t l (u, e, h) = (
  u,
  ap (λ (f : Bucket → Option ℕ). f b) (reserve-blocked policy c key purpose paced now l) ∙ e,
  h,
)
step-IsBlocked policy (now, starts attempt paced) b t l (u, e, h) =
    (u, ap (λ (f : Bucket → Option ℕ). f b) (start-blocked policy attempt paced now l) ∙ e, h)
step-IsBlocked policy (now, observes c attempt hs status) b t l h =
    observe-IsBlocked policy c attempt hs status now b t l h
step-IsBlocked policy (now, dispatches) b t l h = h

run-IsBlocked :
    (policy : Policy) (cs : List (ℕ × Call)) (b : Bucket) (t : ℕ) (l : Ledger)
    → IsBlocked b t l
    → IsBlocked b t (run policy cs l)
unfolding run
run-IsBlocked policy [] b t l h = h
run-IsBlocked policy (c ∷ cs) b t l h =
    run-IsBlocked policy cs b t (step policy c l) (step-IsBlocked policy c b t l h)

-- a 429 records the end of its cooldown
limited-IsBlocked :
    (policy : Policy) (b : Bucket) (attempt : ℕ) (hs : Headers) (now t : ℕ) (l : Ledger)
    → (observe policy b attempt hs 429 now l).0 ≡ some (Refusal.provider_cooldown t)
    → IsBlocked b t (observe policy b attempt hs 429 now l).1
unfolding observe
limited-IsBlocked policy b attempt hs now t l e =
    let end =
      cooldown_end (observed_reset (observed_provider b attempt hs now l) now hs)
        (policy.limits b).window now hs in
    let same : end ≡ t = cc in
    subst (λ u. IsBlocked b u (observe policy b attempt hs 429 now l).1) same
      (new-IsBlocked b end
        (record_provider b (observed_provider b attempt hs now l) (noted attempt now l)))

until_lt : (now u : ℕ) → now < u → until now (some u) ≡ some u
until_lt now u h = ground arith

purpose_refusal-none :
    (purpose : Purpose) → ¬ purpose ≡ Purpose.unknown → purpose_refusal purpose ≡ none
purpose_refusal-none Purpose.planning known = refl
purpose_refusal-none Purpose.execution known = refl
purpose_refusal-none Purpose.unknown known = absurd (known refl)

-- While the table holds a cooldown, a reservation of the bucket is refused for it.
blocked_refused :
    (policy : Policy) (b : Bucket) (key : String) (purpose : Purpose) (paced : Bool) (now t : ℕ)
    (l : Ledger)
    → IsBlocked b t l
    → now < t
    → ¬ purpose ≡ Purpose.unknown
    → (u : ℕ) × (reserve_request policy b key purpose paced now l
        ≡ refused (Refusal.provider_cooldown u))
      × (t ≤ u)
unfolding reserve_request reserve_unless request_refusal state
blocked_refused policy b key purpose paced now t l (u, e, h) lt known = (
  u,
  (let cooling : until now (l.blocked_until b) ≡ some u = rw e (until_lt now u omega arith) in
      let refusal = purpose_refusal-none purpose known in rw refusal (rw cooling refl)),
  h,
)

-- After a response 429, whatever calls any store of the scope makes and whatever their clocks read,
-- a reservation of the bucket, for planning or for an execution, whose clock reads less than the
-- retry time of that response's refusal is refused, with a cooldown that ends then or later.
pub cooldown_lasts :
    (policy : Policy) (b : Bucket) (attempt : ℕ) (hs : Headers) (past t : ℕ) (l : Ledger)
    → (observe policy b attempt hs 429 past l).0 ≡ some (Refusal.provider_cooldown t)
    → (cs : List (ℕ × Call)) (key : String) (purpose : Purpose) (paced : Bool) (now : ℕ) → now < t
    → ¬ purpose ≡ Purpose.unknown
    → (u : ℕ) × (reserve_request policy b key purpose paced now
          (run policy cs (observe policy b attempt hs 429 past l).1)
        ≡ refused (Refusal.provider_cooldown u))
      × (t ≤ u)
cooldown_lasts policy b attempt hs past t l e cs key purpose paced now lt known =
    blocked_refused policy b key purpose paced now t _
      (run-IsBlocked policy cs b t _ (limited-IsBlocked policy b attempt hs past t l e)) lt known
