-- ===== src/Quota/Window.antt =====
-- The budget of the sliding window (src/evm_inventory/lifi_quota.py).
use evm_garbage_collector.Prelude.{
  ℕ, suc, ◌+◌, ◌≤◌, ◌<◌, String, ◌≡◌, refl, ◌∙◌, subst, Bool, true, ◌&&◌, Option, none, some, List,
  [], ◌∷◌, map, arith, select, length, length-sort, ltb, leb, if◌then◌else◌, Bool-cases, inl, inr,
}
use evm_garbage_collector.Quota.{
  Bucket, bucket_eq, Policy, Request, Provider, Ledger, Purpose, Refusal, lowered, is_recent,
  recent_times, state, reserve_for, is_full, quota_refusal, reserve_dispatch_time,
}
use evm_garbage_collector.Quota.Operations.{
  ledger_after, reserved, request_refusal, reserve_request, reserve_unless, mark_started, started,
  observe, Headers,
}
use evm_garbage_collector.Quota.Calls.{
  Call, reserves, starts, observes, dispatches, step, run, IsTimed,
}

-- a request of the bucket in the window that ends at a time
abbrev pub is_within : Bucket → ℕ → ℕ → Request → Bool
is_within b window t r = bucket_eq r.bucket b && leb r.sent_at t && ltb t (r.sent_at + window)

-- how many requests of the bucket that window holds
abbrev pub used : Bucket → ℕ → ℕ → Ledger → ℕ
used b window t l = length (select (is_within b window t) l.requests)

-- no request is later than a time
abbrev IsPast : ℕ → List Request → Type 0
IsPast now [] = Unit
IsPast now (r ∷ rs) = (r.sent_at ≤ now) × IsPast now rs

IsPast-le : (t u : ℕ) (rs : List Request) → t ≤ u → IsPast t rs → IsPast u rs
IsPast-le t u [] h p = tt
IsPast-le t u (r ∷ rs) h p = (omega arith, IsPast-le t u rs h p.1)

length-map {ℓ κ} :
    {A : Type ℓ} {B : Type κ} (f : A → B) (xs : List A) → length (map f xs) ≡ length xs
length-map f [] = refl
length-map f (x ∷ xs) = omega (arith, length-map f xs)

-- What a later window holds is among the recent requests.
used-recent :
    (b : Bucket) (window now t : ℕ) (rs : List Request)
    → now ≤ t
    → length (select (is_within b window t) rs) ≤ length (select (is_recent b window now) rs)
used-recent b window now t [] h = omega arith
used-recent b window now t (r ∷ rs) h = ground (arith, used-recent b window now t rs h)

lowered-le : (matches : Bool) (limit : ℕ) (p : Option Provider) → lowered matches limit p ≤ limit
lowered-le matches limit p = ground arith

-- A reservation is granted only where the recent requests leave a slot above the reserve.
pub granted_room :
    (policy : Policy) (b : Bucket) (purpose : Purpose) (paced : Bool) (now : ℕ) (l : Ledger)
    → request_refusal policy b purpose paced now l ≡ none
    → length (recent_times b (policy.limits b).window now l)
        + reserve_for purpose (state policy l b now)
      < (state policy l b now).limit
unfolding request_refusal quota_refusal is_full state
granted_room policy b purpose paced now l h = ground arith

pub state_limit-le :
    (policy : Policy) (l : Ledger) (b : Bucket) (now : ℕ)
    → (state policy l b now).limit ≤ (policy.limits b).limit
unfolding state
state_limit-le policy l b now = lowered-le policy.provider_limit_matches_window _ _

pub recent-length :
    (b : Bucket) (window now : ℕ) (l : Ledger)
    → length (recent_times b window now l) ≡ length (select (is_recent b window now) l.requests)
unfolding recent_times
recent-length b window now l =
    length-sort (map (λ (r : Request). r.sent_at) (select (is_recent b window now) l.requests))
    ∙ length-map (λ (r : Request). r.sent_at) (select (is_recent b window now) l.requests)

-- The invariant of a ledger at a time: nothing is later, and no window is above its limit.
pub record Within (policy : Policy) (now : ℕ) (l : Ledger) : Type 0 where
  pub past : IsPast now l.requests
  pub budget : (b : Bucket) (t : ℕ) → used b (policy.limits b).window t l ≤ (policy.limits b).limit

-- a new request, in any window
used-reserved :
    (b c : Bucket) (window now t : ℕ) (rs : List Request)
    → length (select (is_within c window t) (record { bucket = b; sent_at = now } ∷ rs)) ≡ (
        if bucket_eq b c && leb now t && ltb t (now + window)
        then suc (length (select (is_within c window t) rs))
        else length (select (is_within c window t) rs))
used-reserved b c window now t rs = ground arith

pub bucket_eq→eq : (b c : Bucket) → bucket_eq b c ≡ true → b ≡ c
bucket_eq→eq b c h = ground arith

module _ (policy : Policy) (now : ℕ) (l : Ledger) (v : Within policy now l) where
  -- a window that would hold the new request has a slot for it
  room_left :
      (b : Bucket) (purpose : Purpose) (paced : Bool) (t : ℕ)
      → request_refusal policy b purpose paced now l ≡ none
      → now ≤ t
      → used b (policy.limits b).window t l < (policy.limits b).limit
  room_left b purpose paced t free h =
      let window = (policy.limits b).window in
      omega (
        arith,
        granted_room policy b purpose paced now l free,
        recent-length b window now l,
        used-recent b window now t l.requests h,
        state_limit-le policy l b now,
      )

  reserved-budget :
      (b : Bucket) (key : String) (purpose : Purpose) (paced : Bool)
      → request_refusal policy b purpose paced now l ≡ none
      → (c : Bucket) (t : ℕ)
      → used c (policy.limits c).window t (reserved b key now paced l) ≤ (policy.limits c).limit
  unfolding reserved
  reserved-budget b key purpose paced free c t = elim (Bool-cases (bucket_eq b c)) [
    | inr other ↦ rw other (v.budget c t)
    | inl same ↦
        subst
          (λ d.
            used d (policy.limits d).window t (reserved b key now paced l)
            ≤ (policy.limits d).limit)
          (bucket_eq→eq b c same) (ground (arith, v.budget b t, room_left b purpose paced t free))
  ]

  reserved-IsPast :
      (b : Bucket) (key : String) (paced : Bool) → IsPast now (reserved b key now paced l).requests
  unfolding reserved
  reserved-IsPast b key paced = (omega arith, v.past)

  reserve-Within :
      (b : Bucket) (key : String) (purpose : Purpose) (paced : Bool)
      → Within policy now (ledger_after l (reserve_request policy b key purpose paced now l))
  unfolding reserve_request reserve_unless
  reserve-Within b key purpose paced = tested (request_refusal policy b purpose paced now l) refl
    where
      tested :
          (r : Option Refusal)
          → request_refusal policy b purpose paced now l ≡ r
          → Within policy now (ledger_after l (reserve_unless r b key now paced l))
      tested (some r) e = v
      tested none e = record {
        past = reserved-IsPast b key paced;
        budget = reserved-budget b key purpose paced e;
      }

  -- An operation that leaves the requests alone keeps the invariant.
  same-Within : (l' : Ledger) → l'.requests ≡ l.requests → Within policy now l'
  same-Within l' e = record { past = rw e v.past; budget = λ b t. rw e (v.budget b t) }

mark_started-requests :
    (policy : Policy) (attempt : ℕ) (paced : Bool) (now : ℕ) (l : Ledger)
    → (ledger_after l (mark_started policy attempt paced now l)).requests ≡ l.requests
unfolding mark_started started
mark_started-requests policy attempt paced now l = ground arith

observe-requests :
    (policy : Policy) (b : Bucket) (attempt : ℕ) (h : Headers) (status now : ℕ) (l : Ledger)
    → (observe policy b attempt h status now l).1.requests ≡ l.requests
unfolding observe
observe-requests policy b attempt h status now l = ground arith

step-Within :
    (policy : Policy) (now : ℕ) (c : Call) (l : Ledger)
    → Within policy now l
    → Within policy now (step policy (now, c) l)
unfolding step reserve_dispatch_time
step-Within policy now (reserves b key purpose paced) l v =
    reserve-Within policy now l v b key purpose paced
step-Within policy now (starts attempt paced) l v =
    same-Within policy now l v _ (mark_started-requests policy attempt paced now l)
step-Within policy now (observes b attempt h status) l v =
    same-Within policy now l v _ (observe-requests policy b attempt h status now l)
step-Within policy now dispatches l v = same-Within policy now l v _ refl

later-Within :
    (policy : Policy) (t u : ℕ) (l : Ledger) → t ≤ u → Within policy t l → Within policy u l
later-Within policy t u l h v = record {
  past = IsPast-le t u l.requests h v.past;
  budget = v.budget;
}

-- On a clock that does not go back, from tables that at its first reading hold no later request and
-- no window above its limit, whatever calls the stores make, no window of a bucket ever holds more
-- requests than its limit.
pub run-budget :
    (policy : Policy) (t : ℕ) (cs : List (ℕ × Call)) (l : Ledger)
    → Within policy t l
    → IsTimed t cs
    → (b : Bucket) (u : ℕ)
    → used b (policy.limits b).window u (run policy cs l) ≤ (policy.limits b).limit
unfolding run
run-budget policy t [] l v timed b u = v.budget b u
run-budget policy t ((now, c) ∷ cs) l v timed b u =
    run-budget policy now cs (step policy (now, c) l)
      (step-Within policy now c l (later-Within policy t now l timed.0 v)) timed.1 b u
