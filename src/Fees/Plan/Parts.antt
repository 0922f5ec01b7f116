-- ===== src/Fees/Plan/Parts.antt =====
-- The parts of a plan that FeePlanner.plan of src/evm_inventory/fee_planner.py composes.
use native.Mathlib.Nat.{le-div_iff_mul-le, mul-le-mul_left}
use evm_garbage_collector.Prelude.{
  ℕ, zero, suc, ◌+◌, ◌*◌, ◌/◌, ◌≤◌, ◌<◌, String, ◌≡◌, refl, Bool, true, false, Option, none, some,
  arith, ltb, leb, subst,
}
use evm_garbage_collector.Rpc.{Endpoint}
use evm_garbage_collector.Journal.Session.{Result, ok, err, on_ok, refuse_if, value_error, Error}
use evm_garbage_collector.Executor.Request.{
  TransactionRequest, maximum_fee_per_gas_wei, max_total_fee_wei,
}
use evm_garbage_collector.Executor.Gas.{is_planned_price_valid}
use evm_garbage_collector.Fees.{
  FeePolicy, Encoding, PriorityFee, priority_fee, checked_policy, replacement_fee_floor,
  check_fee_cap, is_within_cap,
}
use evm_garbage_collector.Fees.Plan.{
  Prices, Measured, market_prices, outbid, buffered, priced, measure, base_prices,
}

-- the error of a chain, or its value
pub ok_before :
    {A B : Type 0} {b : B} (r : Result A) (f : A → Result B)
    → on_ok r f ≡ ok b
    → (a : A) × (r ≡ ok a) × (f a ≡ ok b)
ok_before (ok a) f h = (a, refl, h)
ok_before (err e) f h = cc

pub passed :
    {B : Type 0} {b : B} (test : Bool) (e : Error) (rest : Result B)
    → refuse_if test e rest ≡ ok b
    → (test ≡ false) × (rest ≡ ok b)
passed true e rest h = cc
passed false e rest h = (refl, h)

-- a tip within the fee
abbrev pub Sane : Prices → Type 0
Sane q = q.priority ≤ q.max_fee

pub market_prices-Sane :
    (p : FeePolicy) (chain base : ℕ) (t : PriorityFee) → Sane (market_prices p chain base t)
unfolding market_prices
market_prices-Sane p chain base t = ground arith

pub ok_same : {A : Type 0} {a b : A} → Result.ok a ≡ ok b → a ≡ b
ok_same h = cc

pub outbid-Sane :
    (old : Option TransactionRequest) (q chosen : Prices)
    → Sane q
    → outbid old q ≡ ok chosen
    → Sane chosen
unfolding outbid
outbid-Sane none q chosen sane h = subst Sane (ok_same h) sane
outbid-Sane (some old) q chosen sane h = ground arith

pub legacy-Sane :
    (x : Result ℕ) (reason : Option String) (q : Prices)
    → on_ok x (λ price. ok (record {
      max_fee = price;
      priority = 0;
      eip1559 = false;
      method = "eth_gasPrice";
      fallback_reason = reason;
    }))
      ≡ ok q
    → Sane q
legacy-Sane (ok price) reason q h = subst Sane (ok_same h) (omega arith)
legacy-Sane (err e) reason q h = cc

pub base_prices-Sane :
    (call : Endpoint) (encoding : Encoding) (p : FeePolicy) (chain : ℕ) (base : Option ℕ)
    (q : Prices)
    → base_prices call encoding p chain base ≡ ok q
    → Sane q
unfolding base_prices
base_prices-Sane call encoding p chain none q h = legacy-Sane _ none q h
base_prices-Sane call encoding p chain (some zero) q h = legacy-Sane _ _ q h
base_prices-Sane call encoding p chain (some (suc n)) q h =
    let (t, _, e) =
      ok_before (priority_fee call encoding p) (λ t. ok (market_prices p chain (suc n) t)) h in
    subst Sane (ok_same e) (market_prices-Sane p chain (suc n) t)

pub priced-valid :
    (r : TransactionRequest) (cap : Option ℕ) (m : Measured) (q : Prices) (additional : ℕ)
    → Sane q
    → is_planned_price_valid (priced r cap m q additional) ≡ true
unfolding priced is_planned_price_valid
priced-valid r cap m q additional sane = ground arith

pub buffer_is_valid :
    (p : FeePolicy)
    → checked_policy p ≡ ok p
    → (0 < p.gas_buffer_denominator) × (p.gas_buffer_denominator ≤ p.gas_buffer_numerator)
unfolding checked_policy
buffer_is_valid p valid = ground arith

pub ltb-false : {m n : ℕ} → ltb m n ≡ false → n ≤ m
ltb-false h = ground arith

-- A gas limit is above its estimate, by a buffer that is at least 1, and within the ceiling.
pub buffered-above :
    (p : FeePolicy) (estimate limit : ℕ)
    → checked_policy p ≡ ok p
    → buffered p estimate ≡ ok limit
    → (estimate < limit) × (limit ≤ p.max_gas_limit)
unfolding checked_policy buffered
buffered-above p estimate limit valid h =
    let num = p.gas_buffer_numerator in
    let den = p.gas_buffer_denominator in
    let limits = estimate * num / den + 1 in
    let (_, h1) =
      passed (leb estimate 0) (value_error "invalid_gas_estimate")
        (refuse_if (ltb p.max_gas_limit limits) (value_error "gas_limit_exceeds_network_ceiling:")
          (ok limits))
        h in
    let (below, h2) =
      passed (ltb p.max_gas_limit limits) (value_error "gas_limit_exceeds_network_ceiling:")
        (ok limits) h1 in
    let (low, high) = buffer_is_valid p valid in
    let scaled = (le-div_iff_mul-le low).1 (mul-le-mul_left estimate high) in
    omega (arith, ok_same h2, scaled, ltb-false below)

pub check_fee_cap-within :
    (r out : TransactionRequest)
    → check_fee_cap r ≡ ok out
    → (out ≡ r) × (is_within_cap r.max_total_fee_cap_wei (max_total_fee_wei r) ≡ true)
unfolding check_fee_cap
check_fee_cap-within r out h = ground arith

-- What a plan is, by its parts.
abbrev pub Planned :
    (call : Endpoint) (encoding : Encoding) (p : FeePolicy) (r : TransactionRequest)
    (sender : String) (cap : Option ℕ) (old : Option TransactionRequest) (out : TransactionRequest)
    → Type 0
Planned call encoding p r sender cap old out =
    (m : Measured) × (q : Prices) × (chosen : Prices) × (additional : ℕ) × (measure call encoding p
        sender r
      ≡ ok m)
    × (base_prices call encoding p r.chain_id m.base_fee ≡ ok q)
    × (outbid old q ≡ ok chosen)
    × (check_fee_cap (priced r cap m chosen additional) ≡ ok out)

pub priced-fee :
    (r : TransactionRequest) (cap : Option ℕ) (m : Measured) (q : Prices) (additional : ℕ)
    → maximum_fee_per_gas_wei (priced r cap m q additional) ≡ some q.max_fee
unfolding priced maximum_fee_per_gas_wei
priced-fee r cap m q additional = ground arith

pub outbid-above :
    (old : TransactionRequest) (q chosen : Prices) (fee : ℕ)
    → maximum_fee_per_gas_wei old ≡ some fee
    → outbid (some old) q ≡ ok chosen
    → fee * 9 ≤ chosen.max_fee * 8
unfolding outbid replacement_fee_floor
outbid-above old q chosen fee paid h = ground arith

-- the end of `measure`, behind the gas limit
abbrev pub of_header : ℕ → ℕ → ℕ × Option ℕ → Measured
of_header estimate limit h = record {
  estimate = estimate;
  gas_limit = limit;
  block_number = h.0;
  base_fee = h.1;
}
