-- ===== src/Fees/Plan/Sound.antt =====
-- The transaction that FeePlanner.plan of src/evm_inventory/fee_planner.py returns.

use evm_garbage_collector.Prelude.{
  ℕ, ◌*◌, ◌≤◌, ◌<◌, String, ◌≡◌, refl, sym, true, not, Option, some, subst,
}
use evm_garbage_collector.Rpc.{Endpoint, reading, quantity}
use evm_garbage_collector.Journal.Session.{Result, ok, on_ok, refuse_if, value_error}
use evm_garbage_collector.Executor.Request.{
  TransactionRequest, maximum_fee_per_gas_wei, max_total_fee_wei,
}
use evm_garbage_collector.Executor.Gas.{is_planned_price_valid}
use evm_garbage_collector.Fees.{
  FeePolicy, Encoding, op_stack_l1_fee, checked_policy, read_or, check_fee_cap, is_within_cap,
}
use evm_garbage_collector.Fees.Plan.{
  Prices, Measured, outbid, buffered, priced, fee_cap, measure, base_prices, finish, plan,
  header_of, is_sender, is_cap_invalid,
}
use evm_garbage_collector.Fees.Plan.Parts.{
  ok_before, passed, ok_same, outbid-Sane, base_prices-Sane, priced-valid, buffered-above,
  check_fee_cap-within, Planned, priced-fee, outbid-above, of_header,
}

module _ (call : Endpoint) (encoding : Encoding) (p : FeePolicy) (r : TransactionRequest)
    (sender : String) (max_total : Option ℕ) (old : Option TransactionRequest)
    (out : TransactionRequest) where
  abbrev with_prices : Measured → Prices → Result TransactionRequest
  with_prices m q =
      on_ok (outbid old q) (λ chosen. finish call encoding p r (fee_cap max_total r) m chosen)

  abbrev with_measured : Measured → Result TransactionRequest
  with_measured m = on_ok (base_prices call encoding p r.chain_id m.base_fee) (with_prices m)

  plan-Planned :
      plan call encoding p r sender max_total old ≡ ok out
      → Planned call encoding p r sender (fee_cap max_total r) old out
  unfolding plan finish
  plan-Planned h =
      let cap = fee_cap max_total r in
      let measured = on_ok (measure call encoding p sender r) with_measured in
      let (_, h1) =
        passed (not (is_sender sender)) (value_error "invalid_fee_sender")
          (refuse_if (is_cap_invalid cap) (value_error "invalid_total_fee_cap") measured) h in
      let (_, h2) = passed (is_cap_invalid cap) (value_error "invalid_total_fee_cap") measured h1 in
      let (m, em, h3) = ok_before (measure call encoding p sender r) with_measured h2 in
      let (q, eq, h4) =
        ok_before (base_prices call encoding p r.chain_id m.base_fee) (with_prices m) h3 in
      let (chosen, ec, h5) =
        ok_before (outbid old q) (λ chosen. finish call encoding p r cap m chosen) h4 in
      let (additional, _, h6) =
        ok_before
          (op_stack_l1_fee call encoding r (record {
            gas_limit = m.gas_limit;
            max_fee_per_gas = chosen.max_fee;
            priority_fee_per_gas = chosen.priority;
            eip1559 = chosen.eip1559;
          }))
          (λ additional. check_fee_cap (priced r cap m chosen additional)) h5 in
      (m, q, chosen, additional, em, eq, ec, h6)

  abbrev read_header : ℕ → ℕ → Result Measured
  read_header estimate limit =
      on_ok (header_of (call "eth_getBlockByNumber" "[\"latest\",false]"))
        (λ h. ok (of_header estimate limit h))

  measure-buffered :
      (m : Measured)
      → measure call encoding p sender r ≡ ok m
      → buffered p m.estimate ≡ ok m.gas_limit
  unfolding measure
  measure-buffered m h =
      let (estimate, _, h1) =
        ok_before
          (read_or "estimate_gas_rpc_error:"
            (reading quantity (call "eth_estimateGas" (encoding.estimate_gas sender r))))
          (λ estimate. on_ok (buffered p estimate) (read_header estimate)) h in
      let (limit, e, h2) = ok_before (buffered p estimate) (read_header estimate) h1 in
      let (header, _, h3) =
        ok_before (header_of (call "eth_getBlockByNumber" "[\"latest\",false]"))
          (λ h. ok (of_header estimate limit h)) h2 in
      subst (λ (x : Measured). buffered p x.estimate ≡ ok x.gas_limit) (ok_same h3) e

  abbrev Sound : TransactionRequest → Type 0
  Sound out =
      (is_planned_price_valid out ≡ true)
      × (out.max_total_fee_cap_wei ≡ fee_cap max_total r)
      × (is_within_cap out.max_total_fee_cap_wei (max_total_fee_wei out) ≡ true)
      × ((estimate : ℕ) × (out.gas_estimate ≡ some estimate)
          × (estimate < out.gas_limit)
          × (out.gas_limit ≤ p.max_gas_limit))
      × (out.to ≡ r.to)
      × (out.value ≡ r.value)
      × (out.calldata ≡ r.calldata)

  -- A planned transaction has the fees of exactly one model, with a tip within the fee; its cap is
  -- the one that was given, or else the request's, and covers its total fee; its gas limit is above
  -- the estimate and within the policy's ceiling; and its target, value and calldata are the
  -- request's. The policy is one that FeePolicy accepts.
  pub plan_sound :
      checked_policy p ≡ ok p
      → plan call encoding p r sender max_total old ≡ ok out
      → (is_planned_price_valid out ≡ true)
        × (out.max_total_fee_cap_wei ≡ fee_cap max_total r)
        × (is_within_cap out.max_total_fee_cap_wei (max_total_fee_wei out) ≡ true)
        × ((estimate : ℕ) × (out.gas_estimate ≡ some estimate)
            × (estimate < out.gas_limit)
            × (out.gas_limit ≤ p.max_gas_limit))
        × (out.to ≡ r.to)
        × (out.value ≡ r.value)
        × (out.calldata ≡ r.calldata)
  unfolding priced
  plan_sound valid h =
      let (m, q, chosen, additional, em, eq, ec, fits) = plan-Planned h in
      let planned = priced r (fee_cap max_total r) m chosen additional in
      let sane =
        outbid-Sane old q chosen (base_prices-Sane call encoding p r.chain_id m.base_fee q eq) ec in
      let (same, within) = check_fee_cap-within planned out fits in
      let (above, below) = buffered-above p m.estimate m.gas_limit valid (measure-buffered m em) in
      subst Sound (sym same) (
        priced-valid r (fee_cap max_total r) m chosen additional sane,
        refl,
        within,
        (m.estimate, refl, above, below),
        refl,
        refl,
        refl,
      )

  -- A planned replacement outbids: its fee is at least nine eighths of that of the transaction that
  -- it replaces.
  pub plan-outbids :
      (replaced : TransactionRequest) (fee : ℕ)
      → old ≡ some replaced
      → maximum_fee_per_gas_wei replaced ≡ some fee
      → plan call encoding p r sender max_total old ≡ ok out
      → (offered : ℕ) × (maximum_fee_per_gas_wei out ≡ some offered) × (fee * 9 ≤ offered * 8)
  plan-outbids replaced fee given paid h =
      let (m, q, chosen, additional, em, eq, ec, fits) = plan-Planned h in
      let planned = priced r (fee_cap max_total r) m chosen additional in
      let (same, _) = check_fee_cap-within planned out fits in
      rw same (
        chosen.max_fee,
        priced-fee r (fee_cap max_total r) m chosen additional,
        outbid-above replaced q chosen fee paid (rw (← given) ec),
      )
