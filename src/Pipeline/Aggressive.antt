-- ===== src/Pipeline/Aggressive.antt =====
-- `execute_aggressive_with_risk` (src/std0_quant/execution/risk_execution_pipeline.py).
use polymarket_quant.Common.{
  ℕ, ◌+◌, Bool, true, false, not, Option, none, some, List, [], ◌∷◌, ltb, if◌then◌else◌,
}
use polymarket_quant.Common.Int.{ℤ, pos, leb_ℤ, ◌+ℤ◌}
use polymarket_quant.Numeric.{Float, ok, eps, of_nat, finite, nan, pos_inf, neg_inf}
use polymarket_quant.Action.{Action, ◌>>=◌, ◌>>◌, pure, lift, get, modify, try_cleanup}
use polymarket_quant.Fill.{Side, Fill}
use polymarket_quant.Timestamps.{OrderTimestamps}
use polymarket_quant.Taker.{AggressiveTif}
use polymarket_quant.Portfolio.{PortfolioState, eps_cash, reserve_buy_cash, release_reserved_cash}
use polymarket_quant.Portfolio.Fills.{apply_sell_fill}
use polymarket_quant.Risk.{
  RiskLimits, RiskOrderIntent, RiskContext, RiskResult, order_notional, allowed,
  evaluate_order_risk,
}
use polymarket_quant.Cost.{FeeSchedule, share_of, fee_of, rebate_of}
use polymarket_quant.Costed.{CostedAggressiveResult, simulate_aggressive_with_costs}
use polymarket_quant.Pipeline.{Working, on_portfolio, book_buy, for_each}

pub record RiskGatedExecutionResult : Type 0 where
  pub risk : RiskResult
  pub execution : Option CostedAggressiveResult
  pub portfolio_cash_after : ℤ
  pub portfolio_reserved_cash_after : ℕ
  pub portfolio_realized_pnl_after : ℤ

abbrev pub result_of :
    RiskResult → Option CostedAggressiveResult → PortfolioState → RiskGatedExecutionResult
result_of risk execution p = record {
  risk = risk;
  execution = execution;
  portfolio_cash_after = p.cash;
  portfolio_reserved_cash_after = p.reserved_cash;
  portfolio_realized_pnl_after = p.realized_pnl;
}

-- `float(price) <= limit_price + _EPS` to buy, `float(price) + _EPS >= limit_price` to sell.
abbrev pub is_executable : Side → ℕ → Float → Bool
is_executable side limit nan = false
is_executable Side.buy limit pos_inf = false
is_executable Side.buy limit neg_inf = true
is_executable Side.buy limit (finite z) = leb_ℤ z (pos (limit + eps))
is_executable Side.sell limit pos_inf = true
is_executable Side.sell limit neg_inf = false
is_executable Side.sell limit (finite z) = leb_ℤ (pos limit) (z +ℤ pos eps)

unfoldable pub executable_levels : Side → ℕ → List (Float × Float) → List (Float × Float)
executable_levels side limit [] = []
executable_levels side limit (l ∷ ls) =
    let rest = executable_levels side limit ls in
    if is_executable side limit l.0 then l ∷ rest else rest

abbrev book_sell : RiskOrderIntent → FeeSchedule → Fill → Action Working (Unit {0})
book_sell i fees f = on_portfolio (
    apply_sell_fill i.key (of_nat f.qty) (of_nat f.price) (of_nat (fee_of fees f))
      (of_nat (rebate_of fees f)))

abbrev pub book : RiskOrderIntent → FeeSchedule → Fill → Action Working (Unit {0})
book i fees f = elim i.side [ Side.buy ↦ book_buy i.key fees f | Side.sell ↦ book_sell i fees f ]

-- `if side == "BUY" and remaining_order_reservation > _EPS: release`
unfoldable pub release_rest : Side → Action Working (Unit {0})
release_rest Side.sell w = (ok tt, w)
release_rest Side.buy w =
    if ltb eps_cash w.remaining
    then (on_portfolio (release_reserved_cash (of_nat w.remaining))
          >> modify (λ v. record v { remaining = 0 }))
        w
    else (ok tt, w)

-- The block under `try`.
unfoldable pub execute :
    RiskOrderIntent
    → AggressiveTif
    → List (Float × Float)
    → OrderTimestamps
    → Float
    → Float
    → FeeSchedule
    → RiskResult
    → Action Working RiskGatedExecutionResult
unfolding release_rest
execute i tif levels times reference_price mark_price fees risk = do
  execution ← lift (
      simulate_aggressive_with_costs i.side tif (of_nat i.qty)
        (executable_levels i.side i.limit_price levels) times reference_price mark_price fees)
  for_each (book i fees) execution.simulation.fills
  release_rest i.side
  w ← get
  pure (result_of risk (some execution) w.portfolio)

-- `risk.cash_required` for a BUY order, 0 for a SELL order.
abbrev pub reserved_for : RiskOrderIntent → RiskResult → ℕ
reserved_for i risk = elim i.side [ Side.buy ↦ risk.cash_required | Side.sell ↦ 0 ]

abbrev pub reserve : RiskOrderIntent → RiskResult → Action PortfolioState (Unit {0})
reserve i risk = elim i.side [
  | Side.buy ↦ reserve_buy_cash (of_nat risk.cash_required)
  | Side.sell ↦ pure tt
]

abbrev pub effective_context : RiskOrderIntent → FeeSchedule → RiskContext → RiskContext
effective_context i fees c = elim i.side [
  | Side.buy ↦ record c { estimated_fee_cost = share_of (order_notional i) fees.taker_fee_bps }
  | Side.sell ↦ record c { estimated_fee_cost = 0 }
]

-- The call of the `try` block on the portfolio.
abbrev pub with_reservation : {A : Type 0} → ℕ → Action Working A → Action PortfolioState A
with_reservation n m p =
    let (r, w) = m (record { portfolio = p; remaining = n }) in (r, w.portfolio)

unfoldable pub execute_aggressive_with_risk :
    RiskOrderIntent
    → AggressiveTif
    → List (Float × Float)
    → OrderTimestamps
    → Float
    → Float
    → RiskLimits
    → RiskContext
    → FeeSchedule
    → Action PortfolioState RiskGatedExecutionResult
unfolding execute release_rest
execute_aggressive_with_risk i tif levels times reference_price mark_price limits context fees = do
  p ← get
  let risk = evaluate_order_risk p i limits (effective_context i fees context)
  if not (allowed risk) then pure (result_of risk none p) else (do
    reserve i risk
    with_reservation (reserved_for i risk) (
        try_cleanup (execute i tif levels times reference_price mark_price fees risk)
          (release_rest i.side)))
