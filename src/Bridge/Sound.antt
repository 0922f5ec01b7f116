-- ===== src/Bridge/Sound.antt =====
-- The evidence for what the wait for a bridge returns (_await_cross_chain_transfer of
-- src/evm_inventory/route_execution.py).
use evm_garbage_collector.Prelude.{
  ℕ, ◌+◌, ◌≤◌, String, ◌≡◌, refl, subst, Bool, true, false, Option, none, some, List, [], ◌∷◌, ◌⊎◌,
  inl, inr, lower, text_eq, text_eq_iff, arith, Option-cases, Bool-cases,
}
use evm_garbage_collector.Journal.Tables.{Step, latest_step}
use evm_garbage_collector.Journal.Session.{
  Connection, Session, Result, ok, err, and_then, pure, ◌>>=◌, ◌>>◌,
}
use evm_garbage_collector.Journal.Checkpoints.{save_checkpoint}
use evm_garbage_collector.Bridge.{Status, Transfer, Reading, pending, arrived, read_status}
use evm_garbage_collector.Bridge.Delivery.{
  Answer, transport_error, http_status_error, timeout, raises, status, Poll, read_answer,
  seen_in_balance, confirmed_arrival, read_poll, delivery, join, credit, deliver, after_poll,
  poll_all, await_transfer, wait_from,
}
use evm_garbage_collector.Bridge.Evidence.{Evidence, status-Evidence}

-- a round that saw an amount arrive: its status has the evidence, and where the wallet sends to
-- itself the balance holds the amount above the baseline
pub record Seen (t : Transfer) (amount : ℕ) (p : Poll) : Type 0 where
  pub status_of : Status
  pub answered : p.answer ≡ status status_of
  pub evidence : Evidence t status_of amount
  pub held :
      lower t.recipient ≡ lower t.sender
      → (baseline : ℕ) × (balance : ℕ) × (t.baseline_raw ≡ some baseline)
        × (p.balance ≡ ok balance)
        × (baseline + amount ≤ balance)

-- one of the rounds
abbrev pub Among : List Poll → (Poll → Type 0) → Type 0
Among [] P = ⊥
Among (p ∷ ps) P = P p ⊎ Among ps P

self_held :
    (t : Transfer) (hash h : String) (amount n : ℕ) (balance : Result ℕ)
    → text_eq (lower t.recipient) (lower t.sender) ≡ true
    → seen_in_balance t hash amount balance ≡ ok (arrived h n)
    → (amount ≡ n)
      × (text_eq (lower t.recipient) (lower t.sender) ≡ true
          → (baseline : ℕ) × (b : ℕ) × (t.baseline_raw ≡ some baseline)
            × (balance ≡ ok b)
            × (baseline + n ≤ b))
unfolding seen_in_balance
self_held t hash h amount n (err x) self e = elim (Option-cases t.baseline_raw) [
  | inl missing ↦ absurd (ground arith)
  | inr (baseline, there) ↦ absurd (ground arith)
]
self_held t hash h amount n (ok b) self e = elim (Option-cases t.baseline_raw) [
  | inl missing ↦ absurd (ground arith)
  | inr (baseline, there) ↦ (ground arith, λ again. (baseline, b, there, refl, ground arith))
]

seen_in_balance_sound :
    (t : Transfer) (hash h : String) (amount n : ℕ) (balance : Result ℕ)
    → seen_in_balance t hash amount balance ≡ ok (arrived h n)
    → (amount ≡ n)
      × (text_eq (lower t.recipient) (lower t.sender) ≡ true
          → (baseline : ℕ) × (b : ℕ) × (t.baseline_raw ≡ some baseline)
            × (balance ≡ ok b)
            × (baseline + n ≤ b))
unfolding seen_in_balance
seen_in_balance_sound t hash h amount n balance e =
    elim (Bool-cases (text_eq (lower t.recipient) (lower t.sender))) [
      | inr other ↦ (ground arith, λ self. cc)
      | inl self ↦ self_held t hash h amount n balance self e
    ]

answer_sound :
    (t : Transfer) (a : Answer) (h : String) (n : ℕ)
    → read_answer t a ≡ ok (arrived h n)
    → (s : Status) × (a ≡ status s) × (read_status t s ≡ ok (arrived h n))
unfolding read_answer
answer_sound t transport_error h n e = cc
answer_sound t (http_status_error code) h n e = ground arith
answer_sound t timeout h n e = cc
answer_sound t (raises x) h n e = cc
answer_sound t (status s) h n e = (s, refl, e)

confirmed_sound :
    (t : Transfer) (balance : Result ℕ) (r : Result Reading) (h : String) (n : ℕ)
    → confirmed_arrival t balance r ≡ ok (arrived h n)
    → (g : String) × (m : ℕ) × (r ≡ ok (arrived g m))
      × (seen_in_balance t g m balance ≡ ok (arrived h n))
unfolding confirmed_arrival
confirmed_sound t balance (ok pending) h n e = cc
confirmed_sound t balance (ok (arrived g m)) h n e = (g, m, refl, e)
confirmed_sound t balance (err x) h n e = cc

poll-Seen :
    (t : Transfer) (p : Poll) (h : String) (n : ℕ) → read_poll t p ≡ ok (arrived h n) → Seen t n p
unfolding read_poll
poll-Seen t p h n e =
    let (g, m, read, held) =
      confirmed_sound t p.balance (read_answer t p.answer) h n (ground arith) in
    let (same, balance) = seen_in_balance_sound t g h m n p.balance held in
    let (s, answered, e') = answer_sound t p.answer g m read in
    record {
      status_of = s;
      answered = answered;
      evidence = subst (Evidence t s) same (status-Evidence t s g m e');
      held = λ self. balance ((text_eq_iff (lower t.recipient) (lower t.sender)).1 self);
    }

-- what goes on after a step goes on from the connection that the step left
after_ok :
    {A B : Type 0} (m : Session A) (k : A → Session B) (c : Connection) (y : B)
    → ((m >>= k) c).0 ≡ ok y
    → (a : A) × (c' : Connection) × ((k a c').0 ≡ ok y)
after_ok {A} {B} m k c y h = go (m c).0 refl h
  where
    go :
        (r : Result A)
        → (m c).0 ≡ r
        → (and_then r k (m c).1).0 ≡ ok y
        → (a : A) × (c' : Connection) × ((k a c').0 ≡ ok y)
    go (ok a) e h' = (a, (m c).1, h')
    go (err x) e h' = cc

-- what ends in a value ends in that value
ends_in :
    {A B : Type 0} (m : Session A) (x y : B) (c : Connection) → ((m >> pure x) c).0 ≡ ok y → x ≡ y
ends_in m x y c h = ground arith

deliver_amount :
    (t : Transfer) (saved : Option Step) (h : String) (n amount : ℕ) (c : Connection)
    → (deliver t saved h n c).0 ≡ ok (some amount)
    → n ≡ amount
unfolding deliver
deliver_amount t saved h n amount c e =
    let checkpoint =
      save_checkpoint t.position_id (join "bridge_delivery:" t.step_key) (delivery t h n) in
    let (u, c', e') = after_ok checkpoint (λ v. credit saved >> pure (some n)) c (some amount) e in
    let same = ends_in (credit saved) (some n) (some amount) c' e' in cc

poll_all-Seen :
    (in_stage : Bool) (t : Transfer) (saved : Option Step) (ps : List Poll) (c : Connection)
    (amount : ℕ)
    → (poll_all in_stage t saved ps c).0 ≡ ok (some amount)
    → Among ps (Seen t amount)
unfolding poll_all after_poll
poll_all-Seen in_stage t saved [] c amount e = cc
poll_all-Seen in_stage t saved (p ∷ ps) c amount e =
    polled in_stage (read_poll t p) (λ e'. poll_all-Seen in_stage t saved ps c amount e') refl e
  where
    polled :
        (stage : Bool) (r : Result Reading)
        → ((poll_all in_stage t saved ps c).0 ≡ ok (some amount) → Among ps (Seen t amount))
        → read_poll t p ≡ r
        → (after_poll stage t saved (poll_all in_stage t saved ps) r c).0 ≡ ok (some amount)
        → Among (p ∷ ps) (Seen t amount)
    polled stage (err x) later read e' = cc
    polled true (ok pending) later read e' = cc
    polled false (ok pending) later read e' = inr (later e')
    polled stage (ok (arrived h n)) later read e' =
        inl (
          subst (λ m. Seen t m p) (deliver_amount t saved h n amount c e') (poll-Seen t p h n read))

-- When the wait returns an amount, one of its rounds saw that amount arrive: the provider reported
-- the transfer of this source hash and sender as done, to the recipient, in the destination's asset
-- or naming no asset, the amount is positive, and where the wallet sends to itself its balance held
-- the baseline and the amount.
pub await_transfer-Seen :
    (in_stage : Bool) (t : Transfer) (ps : List Poll) (c : Connection) (amount : ℕ)
    → (await_transfer in_stage t ps c).0 ≡ ok (some amount)
    → Among ps (Seen t amount)
unfolding await_transfer
await_transfer-Seen in_stage t ps c amount e =
    let saved = latest_step t.position_id t.step_key c.work in
    let begin : Session (Unit {0}) = elim saved as (λ o. Session (Unit {0})) [
      | none ↦ pure tt
      | some row ↦ wait_from row.id row.state
    ] in
    let (u, c', e') = after_ok begin (λ v. poll_all in_stage t saved ps) c (some amount) e in
    poll_all-Seen in_stage t saved ps c' amount e'
