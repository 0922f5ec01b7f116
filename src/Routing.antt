-- ===== src/Routing.antt =====
-- Eligibility before any live quote: src/evm_inventory/planner.py, src/evm_inventory/route_plan.py
-- and src/evm_inventory/route_batch.py.
use evm_garbage_collector.Prelude.{
  ℕ, String, ◌≡◌, refl, Bool, true, false, ◌&&◌, ◌||◌, Option, none, some, List, [], ◌∷◌, subst,
  find, ltb, leb, text_eq, lower, if◌then◌else◌,
}
use evm_garbage_collector.Prelude.Int.{ℤ, eq_ℤ, is_negative, pos_part}
use evm_garbage_collector.Journal.Session.{Result, ok, err, on_ok, refuse_if, value_error}

pub data DepositStatus : Type 0 where
  below_minimum : DepositStatus
  ready : DepositStatus

pub record DirectNativeDepositPlan : Type 0 where
  pub status : DepositStatus
  pub send_amount_wei : ℕ

unfoldable pub direct_native_deposit_plan : ℤ → ℤ → Result DirectNativeDepositPlan
direct_native_deposit_plan balance_wei minimum_deposit_wei =
    refuse_if (is_negative balance_wei || is_negative minimum_deposit_wei)
      (value_error "balance and minimum deposit must be nonnegative")
      (ok (
        if ltb (pos_part balance_wei) (pos_part minimum_deposit_wei)
        then record { status = DepositStatus.below_minimum; send_amount_wei = 0 }
        else record { status = DepositStatus.ready; send_amount_wei = pos_part balance_wei }))

pub record Position : Type 0 where
  pub chain_id : ℤ
  pub asset_id : String
  pub raw_balance : ℤ

pub record DepositTarget : Type 0 where
  pub chain_id : ℤ
  pub asset_id : String
  pub minimum_raw : ℤ

pub data Status : Type 0 where
  direct_deposit : Status
  dust : Status
  quote_required : Status
  quoted : Status

pub record PositionDecision : Type 0 where
  pub status : Status
  pub requires_quote : Bool

-- item.chain_id == position.chain_id and item.asset_id.lower() == position.asset_id.lower()
unfoldable pub is_target : Position → DepositTarget → Bool
is_target p t = eq_ℤ t.chain_id p.chain_id && text_eq (lower t.asset_id) (lower p.asset_id)

-- target and position.raw_balance >= target.minimum_raw, for a balance that is not negative
unfoldable pub meets : ℕ → Option DepositTarget → Bool
meets balance none = false
meets balance (some t) = leb (pos_part t.minimum_raw) balance

unfoldable pub decide : ℕ → ℕ → Option DepositTarget → PositionDecision
decide balance floor target =
    if meets balance target
    then record { status = Status.direct_deposit; requires_quote = false }
    else if ltb balance floor
    then record { status = Status.dust; requires_quote = false }
    else record { status = Status.quote_required; requires_quote = true }

unfoldable pub classify_position : List DepositTarget → ℤ → Position → Result PositionDecision
classify_position targets quote_floor_raw p =
    refuse_if (is_negative p.raw_balance || is_negative quote_floor_raw)
      (value_error "balances and quote floors must be nonnegative")
      (ok (decide (pos_part p.raw_balance) (pos_part quote_floor_raw) (find (is_target p) targets)))

pub record BatchQuoteResult (Q : Type 0) : Type 0 where
  pub position : Position
  pub status : Status
  pub quote : Option Q

-- a decision that requires no quote is the result; for one that does, the callback is asked
unfoldable pub quote_one :
    {Q : Type 0} → (Position → Result Q) → Position → PositionDecision → Result (BatchQuoteResult Q)
quote_one quote p d =
    if d.requires_quote
    then on_ok (quote p) (λ q. ok (record { position = p; status = Status.quoted; quote = some q }))
    else ok (record { position = p; status = d.status; quote = none })

unfoldable pub quote_required_positions :
    {Q : Type 0}
    → (Position → Result Q)
    → List DepositTarget
    → ℤ
    → List Position
    → Result (List (BatchQuoteResult Q))
quote_required_positions quote targets floor [] = ok []
quote_required_positions quote targets floor (p ∷ ps) =
    let rest = quote_required_positions quote targets floor ps in
    on_ok (classify_position targets floor p)
      (λ d. on_ok (quote_one quote p d) (λ r. on_ok rest (λ rs. ok (r ∷ rs))))

-- what an answer promises: a quote exactly for a position that requires one
pub data Answers {Q : Type 0} (quote : Position → Result Q) (targets : List DepositTarget)
    (floor : ℤ) : Position → BatchQuoteResult Q → Type 0 where
  skipped :
      {p : Position} {s : Status}
      → classify_position targets floor p ≡ ok (record { status = s; requires_quote = false })
      → Answers quote targets floor p (record { position = p; status = s; quote = none })
  asked :
      {p : Position} {q : Q} {s : Status}
      → classify_position targets floor p ≡ ok (record { status = s; requires_quote = true })
      → quote p ≡ ok q
      → Answers quote targets floor p
          (record { position = p; status = Status.quoted; quote = some q })

pub data Each {A B : Type 0} (R : A → B → Type 0) : List A → List B → Type 0 where
  nil : Each R [] []
  cons :
      {x : A} {y : B} {xs : List A} {ys : List B} → R x y → Each R xs ys → Each R (x ∷ xs) (y ∷ ys)

module _ {Q : Type 0} (quote : Position → Result Q) (targets : List DepositTarget) (floor : ℤ) where
  answered :
      (p : Position) (s : Status) (x : Result Q) (r : BatchQuoteResult Q)
      → classify_position targets floor p ≡ ok (record { status = s; requires_quote = true })
      → quote p ≡ x
      → on_ok x (λ q. ok (record { position = p; status = Status.quoted; quote = some q })) ≡ ok r
      → Answers quote targets floor p r
  answered p s (ok q) r h given e = subst (Answers quote targets floor p) (cc) (asked h given)
  answered p s (err x) r h given e = cc

  quote_one-Answers :
      (p : Position) (s : Status) (b : Bool) (r : BatchQuoteResult Q)
      → classify_position targets floor p ≡ ok (record { status = s; requires_quote = b })
      → quote_one quote p (record { status = s; requires_quote = b }) ≡ ok r
      → Answers quote targets floor p r
  unfolding quote_one
  quote_one-Answers p s false r h e = subst (Answers quote targets floor p) (cc) (skipped h)
  quote_one-Answers p s true r h e = answered p s (quote p) r h refl e

  combined_rest :
      (p : Position) (ps : List Position) (rs : List (BatchQuoteResult Q))
      (one : Result (BatchQuoteResult Q)) (rest : Result (List (BatchQuoteResult Q)))
      → ((r : BatchQuoteResult Q) → one ≡ ok r → Answers quote targets floor p r)
      → ((xs : List (BatchQuoteResult Q)) → rest ≡ ok xs → Each (Answers quote targets floor) ps xs)
      → on_ok one (λ r. on_ok rest (λ xs. ok (r ∷ xs))) ≡ ok rs
      → Each (Answers quote targets floor) (p ∷ ps) rs
  combined_rest p ps rs (ok r) (ok xs) one rest e =
      subst (Each (Answers quote targets floor) (p ∷ ps)) (cc) (cons (one r refl) (rest xs refl))
  combined_rest p ps rs (ok r) (err x) one rest e = cc
  combined_rest p ps rs (err x) _ one rest e = cc

  combined :
      (p : Position) (ps : List Position) (rs : List (BatchQuoteResult Q))
      (x : Result PositionDecision) (rest : Result (List (BatchQuoteResult Q)))
      → classify_position targets floor p ≡ x
      → ((xs : List (BatchQuoteResult Q)) → rest ≡ ok xs → Each (Answers quote targets floor) ps xs)
      → on_ok x (λ d. on_ok (quote_one quote p d) (λ r. on_ok rest (λ xs. ok (r ∷ xs)))) ≡ ok rs
      → Each (Answers quote targets floor) (p ∷ ps) rs
  combined p ps rs (ok d) rest h each e =
      combined_rest p ps rs (quote_one quote p d) rest
        (λ r one. quote_one-Answers p d.status d.requires_quote r h one) each e
  combined p ps rs (err x) rest h each e = cc

  -- When a batch returns, there is one result for each position, in their order: a position that
  -- requires no quote has its status and none, and any other has what the callback returned for it.
  pub quote_required_positions-Each :
      (ps : List Position) (rs : List (BatchQuoteResult Q))
      → quote_required_positions quote targets floor ps ≡ ok rs
      → Each (Answers quote targets floor) ps rs
  unfolding quote_required_positions
  quote_required_positions-Each [] rs h = subst (Each (Answers quote targets floor) []) (cc) nil
  quote_required_positions-Each (p ∷ ps) rs h =
      combined p ps rs (classify_position targets floor p)
        (quote_required_positions quote targets floor ps) refl
        (λ xs e. quote_required_positions-Each ps xs e) h
