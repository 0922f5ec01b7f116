-- ===== src/Journal/History/Paths.antt =====
-- The evolution of a step: its identity, its hash and the path of its states
-- (src/evm_inventory/journal.py).
use evm_garbage_collector.Prelude.{
  ◌≤◌, String, ◌≡◌, refl, ◌∙◌, Bool, true, false, some, arith, Bool-cases, inl, inr,
}
use evm_garbage_collector.Journal.States.Steps.{StepState, step_may, step_eq, step_eq→eq}
use evm_garbage_collector.Journal.Tables.{Step}
use evm_garbage_collector.Journal.Steps.{step_allows}

-- a path through the table _STEP_TRANSITIONS
pub data StepPath : StepState → StepState → Type 0 where
  stay : {s : StepState} → StepPath s s
  go : {s t u : StepState} → step_may s t ≡ true → StepPath t u → StepPath s u

pub StepPath-trans : {s t u : StepState} → StepPath s t → StepPath t u → StepPath s u
StepPath-trans stay q = q
StepPath-trans (go h p) q = go h (StepPath-trans p q)

pub StepPath-allows : (s t : StepState) → step_allows s t ≡ true → StepPath s t
unfolding step_allows
StepPath-allows s t h = elim (Bool-cases (step_eq t s)) [
  | inl same ↦ rw (step_eq→eq t s same) stay
  | inr other ↦ go (ground arith) stay
]

-- A state from which the table goes nowhere.
unfoldable pub is_terminal : StepState → Bool
is_terminal StepState.credited = true
is_terminal StepState.completed = true
is_terminal StepState.reverted = true
is_terminal StepState.failed = true
is_terminal StepState.manual_review = true
is_terminal _ = false

pub terminal_may : (s t : StepState) → is_terminal s ≡ true → step_may s t ≡ false
unfolding is_terminal step_may
terminal_may s t h = ground arith

-- No path leaves a terminal state.
pub StepPath-terminal : {s t : StepState} → StepPath s t → is_terminal s ≡ true → t ≡ s
StepPath-terminal stay h = refl
StepPath-terminal (go {s} {t} m p) h = cc (terminal_may s t h)

pub record Evolves (x y : Step) : Type 0 where
  pub id : y.id ≡ x.id
  pub position_id : y.position_id ≡ x.position_id
  pub step_key : y.step_key ≡ x.step_key
  pub nonce : y.nonce ≡ x.nonce
  pub calldata_digest : y.calldata_digest ≡ x.calldata_digest
  pub signed_payload_digest : y.signed_payload_digest ≡ x.signed_payload_digest
  pub tx_hash : (h : String) → x.tx_hash ≡ some h → y.tx_hash ≡ some h
  pub attempts : x.broadcast_attempts ≤ y.broadcast_attempts
  pub path : StepPath x.state y.state

-- the six columns that identify a step and its payload
abbrev pub SameIdentity : Step → Step → Type 0
SameIdentity x y =
    (y.id ≡ x.id)
    × (y.position_id ≡ x.position_id)
    × (y.step_key ≡ x.step_key)
    × (y.nonce ≡ x.nonce)
    × (y.calldata_digest ≡ x.calldata_digest)
    × (y.signed_payload_digest ≡ x.signed_payload_digest)

pub Evolves-of :
    (x y : Step)
    → SameIdentity x y
    → ((h : String) → x.tx_hash ≡ some h → y.tx_hash ≡ some h)
    → x.broadcast_attempts ≤ y.broadcast_attempts
    → StepPath x.state y.state
    → Evolves x y
Evolves-of x y s hash attempts path = record {
  id = s.0;
  position_id = s.1;
  step_key = s.2;
  nonce = s.3;
  calldata_digest = s.4;
  signed_payload_digest = s.5;
  tx_hash = hash;
  attempts = attempts;
  path = path;
}

pub Evolves-refl : (x : Step) → Evolves x x
Evolves-refl x = Evolves-of x x (refl, refl, refl, refl, refl, refl) (λ h e. e) (omega arith) stay

pub Evolves-trans : (x y z : Step) → Evolves x y → Evolves y z → Evolves x z
Evolves-trans x y z p q = record {
  id = q.id ∙ p.id;
  position_id = q.position_id ∙ p.position_id;
  step_key = q.step_key ∙ p.step_key;
  nonce = q.nonce ∙ p.nonce;
  calldata_digest = q.calldata_digest ∙ p.calldata_digest;
  signed_payload_digest = q.signed_payload_digest ∙ p.signed_payload_digest;
  tx_hash = λ h e. q.tx_hash h (p.tx_hash h e);
  attempts = omega (arith, p.attempts, q.attempts);
  path = StepPath-trans p.path q.path;
}
