-- ===== src/Submit/Stages.antt =====
-- The parts of `_submit_locked`, in their order
-- (src/std0_quant/execution/exclusive_submit_path_v1.py).
use polymarket_quant.Common.{
  ℕ, ◌+◌, ◌-◌, Bool, not, ◌&&◌, List, [], ◌∷◌, ◌++◌, leb, ltb, ◌==◌, map, sum_of, nat_eq,
  if◌then◌else◌,
}
use polymarket_quant.Fill.{Side}
use polymarket_quant.Cost.{share_of}
use polymarket_quant.Risk.{RiskOrderIntent, RiskResult, evaluate_order_risk}
use polymarket_quant.Portfolio.{PortfolioState, available_cash, available_position_qty}
use polymarket_quant.Contracts.{OrderIntent, intent_eq, order_notional}
use polymarket_quant.Submit.{SubmitPolicy, SubmitReason, SubmitHold, Evidence, Target}

abbrev pub reason_if : Bool → SubmitReason → List SubmitReason
reason_if b r = if b then r ∷ [] else []

-- `_time_reasons`
abbrev pub time_reasons : SubmitPolicy → Bool → OrderIntent → ℕ → List SubmitReason
time_reasons policy kill i now =
    reason_if kill SubmitReason.kill_switch_active
    ++ (if ltb now i.decision_ts_ms
        then SubmitReason.decision_from_future ∷ []
        else reason_if (ltb policy.max_decision_age_ms (now - i.decision_ts_ms))
            SubmitReason.stale_decision)
    ++ (if ltb now i.market_data_ts_ms
        then SubmitReason.market_data_from_future ∷ []
        else reason_if (ltb policy.limits.max_market_data_age_ms (now - i.market_data_ts_ms))
            SubmitReason.stale_market_data)

abbrev same_target : Target → Target → Bool
same_target a b =
    a.alpha_id == b.alpha_id
    && a.alpha_version == b.alpha_version
    && a.risk_policy_version == b.risk_policy_version
    && a.definition_hash == b.definition_hash

-- `_governance_reasons`
abbrev pub governance_reasons : SubmitPolicy → Evidence → OrderIntent → List SubmitReason
governance_reasons policy e i =
    map SubmitReason.gate_reason e.gate_reasons
    ++ reason_if (not e.eligible) SubmitReason.not_eligible
    ++ reason_if (not (e.artifact_hash == policy.eligibility_artifact_hash))
        SubmitReason.anchor_mismatch
    ++ reason_if (not (same_target e.target policy.target)) SubmitReason.target_mismatch
    ++ reason_if
        (not (
          i.strategy_id == policy.target.alpha_id
          && i.strategy_version == policy.target.alpha_version))
        SubmitReason.strategy_mismatch
    ++ reason_if (not (i.risk_policy_version == policy.target.risk_policy_version))
        SubmitReason.risk_policy_mismatch

abbrev pub notional_in : ℕ → ℕ × SubmitHold → ℕ
notional_in condition_id h = if h.1.key.0 == condition_id then h.1.buy_notional else 0

abbrev pub notional_of : ℕ × SubmitHold → ℕ
notional_of h = h.1.buy_notional

abbrev pub risk_intent : OrderIntent → RiskOrderIntent
risk_intent i = record {
  key = (i.condition_id, i.outcome);
  side = i.side;
  qty = i.qty;
  limit_price = i.limit_price;
}

abbrev pub larger : ℕ → ℕ → ℕ
larger a b = if leb a b then b else a

-- The exposures at worst, with what is pending.
abbrev pub market_worst : RiskResult → ℕ → List (ℕ × SubmitHold) → ℕ
market_worst r condition_id holds =
    larger r.market_exposure_before r.market_exposure_after
    + sum_of (notional_in condition_id) holds

abbrev pub gross_worst : RiskResult → List (ℕ × SubmitHold) → ℕ
gross_worst r holds =
    larger r.gross_exposure_before r.gross_exposure_after + sum_of notional_of holds

abbrev pub fee_reserve : SubmitPolicy → OrderIntent → ℕ
fee_reserve policy i = share_of (order_notional i) policy.fee_reserve_bps

abbrev pub cash_needed : SubmitPolicy → OrderIntent → ℕ
cash_needed policy i = elim i.side [
  | Side.buy ↦ order_notional i + fee_reserve policy i
  | Side.sell ↦ 0
]

abbrev pub risk_of : SubmitPolicy → Bool → ℕ → OrderIntent → PortfolioState → RiskResult
risk_of policy kill now i s = evaluate_order_risk s (risk_intent i) policy.limits (record {
  now_ts_ms = now;
  market_data_ts_ms = i.market_data_ts_ms;
  kill_switch = kill;
  estimated_fee_cost = fee_reserve policy i;
})

-- The reasons of the risk gate and of the stricter comparisons after it. The gate allows exactly when it
-- has no reasons, so `RISK_NOT_ALLOWED` does not come up.
unfoldable pub risk_reasons :
    SubmitPolicy
    → RiskResult
    → OrderIntent
    → PortfolioState
    → List (ℕ × SubmitHold)
    → List SubmitReason
risk_reasons policy r i s holds =
    map SubmitReason.risk_reason r.reasons
    ++ reason_if (ltb policy.limits.max_market_exposure (market_worst r i.condition_id holds))
        SubmitReason.pending_market_exceeded
    ++ reason_if (ltb policy.limits.max_gross_exposure (gross_worst r holds))
        SubmitReason.pending_gross_exceeded
    ++ reason_if (ltb (available_cash s) (cash_needed policy i)) SubmitReason.insufficient_cash
    ++ elim i.side [
      | Side.buy ↦ []
      | Side.sell ↦
          reason_if (ltb (available_position_qty (i.condition_id, i.outcome) s) i.qty)
            SubmitReason.insufficient_position
    ]
