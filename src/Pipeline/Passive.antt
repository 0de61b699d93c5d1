-- ===== src/Pipeline/Passive.antt =====
-- `execute_passive_with_risk` (src/std0_quant/execution/passive_risk_pipeline.py).
use polymarket_quant.Common.{
  ℕ, ◌+◌, ◌-◌, Bool, true, false, not, ◌&&◌, ◌||◌, Option, none, some, List, ltb, if◌then◌else◌,
}
use polymarket_quant.Common.Int.{ℤ}
use polymarket_quant.Numeric.{Float, ok, eps, of_nat, taker_in_passive, sell_exceeds_reservation}
use polymarket_quant.Action.{Action, ◌>>=◌, ◌>>◌, pure, lift, get, modify, raise_when, try_cleanup}
use polymarket_quant.Order.{is_terminal_status}
use polymarket_quant.Fill.{Side, Liquidity, Fill}
use polymarket_quant.Timestamps.{OrderTimestamps, CancelTimestamps}
use polymarket_quant.Simulator.{ConfirmedTradeEvent}
use polymarket_quant.Portfolio.{
  PortfolioState, eps_cash, reserve_buy_cash, release_reserved_cash, reserve_sell_qty,
  release_reserved_sell_qty,
}
use polymarket_quant.Portfolio.Fills.{apply_sell_fill}
use polymarket_quant.Risk.{
  RiskLimits, RiskOrderIntent, RiskContext, RiskResult, order_notional, allowed,
  evaluate_order_risk,
}
use polymarket_quant.Cost.{FeeSchedule, share_of, fee_of, rebate_of}
use polymarket_quant.Costed.{CostedPassiveResult, simulate_passive_with_costs}
use polymarket_quant.Pipeline.{Working, on_portfolio, book_buy, for_each}

pub record RiskGatedPassiveResult : Type 0 where
  pub risk : RiskResult
  pub execution : Option CostedPassiveResult
  pub reservation_active : Bool
  pub reserved_cash_remaining : ℕ
  pub reserved_position_remaining : ℕ
  pub portfolio_cash_after : ℤ
  pub portfolio_reserved_cash_after : ℕ
  pub portfolio_realized_pnl_after : ℤ

-- The portfolio with the two local counts of what is left of the order's reservation.
pub record Resting : Type 0 where
  pub working : Working
  pub remaining_position : ℕ

abbrev pub on_working : {A : Type 0} → Action Working A → Action Resting A
on_working m r = let (a, w) = m r.working in (a, record r { working = w })

abbrev is_taker : Fill → Bool
is_taker f = elim f.liquidity [ Liquidity.maker ↦ false | Liquidity.taker ↦ true ]

abbrev book_sell : RiskOrderIntent → FeeSchedule → Fill → Action Resting (Unit {0})
book_sell i fees f = do
  r ← get
  raise_when (ltb (r.remaining_position + eps) f.qty) sell_exceeds_reservation
  on_working (on_portfolio (release_reserved_sell_qty i.key (of_nat f.qty)))
  modify (λ t. record t { remaining_position = t.remaining_position - f.qty })
  on_working (
      on_portfolio (
        apply_sell_fill i.key (of_nat f.qty) (of_nat f.price) (of_nat (fee_of fees f))
          (of_nat (rebate_of fees f))))

-- The loop's body.
unfoldable pub book : RiskOrderIntent → FeeSchedule → Fill → Action Resting (Unit {0})
book i fees f = do
  raise_when (is_taker f) taker_in_passive
  elim i.side [ Side.buy ↦ on_working (book_buy i.key fees f) | Side.sell ↦ book_sell i fees f ]

abbrev pub release_cash : Action Resting (Unit {0})
release_cash r =
    if ltb eps_cash r.working.remaining
    then (on_working (on_portfolio (release_reserved_cash (of_nat r.working.remaining)))
          >> modify (λ t. record t { working = record t.working { remaining = 0 } }))
        r
    else (ok tt, r)

abbrev release_position : RiskOrderIntent → Action Resting (Unit {0})
release_position i r =
    if ltb eps r.remaining_position
    then (on_working (on_portfolio (release_reserved_sell_qty i.key (of_nat r.remaining_position)))
          >> modify (λ t. record t { remaining_position = 0 }))
        r
    else (ok tt, r)

unfoldable pub release_rest : RiskOrderIntent → Action Resting (Unit {0})
release_rest i = elim i.side [ Side.buy ↦ release_cash | Side.sell ↦ release_position i ]

-- The block under `try`.
unfoldable pub execute :
    RiskOrderIntent
    → Float
    → OrderTimestamps
    → List ConfirmedTradeEvent
    → Float
    → Float
    → FeeSchedule
    → Option CancelTimestamps
    → RiskResult
    → Action Resting RiskGatedPassiveResult
unfolding release_rest
execute i displayed times trades reference_price mark_price fees cancel risk = do
  execution ← lift (
      simulate_passive_with_costs i.side (of_nat i.qty) (of_nat i.limit_price) displayed times
        trades reference_price mark_price fees cancel)
  for_each (book i fees) execution.simulation.fills
  let terminal = is_terminal_status execution.simulation.final_status
  if terminal then release_rest i else pure tt
  r ← get
  pure (record {
    risk = risk;
    execution = some execution;
    reservation_active =
        not terminal && (ltb eps_cash r.working.remaining || ltb eps r.remaining_position);
    reserved_cash_remaining = r.working.remaining;
    reserved_position_remaining = r.remaining_position;
    portfolio_cash_after = r.working.portfolio.cash;
    portfolio_reserved_cash_after = r.working.portfolio.reserved_cash;
    portfolio_realized_pnl_after = r.working.portfolio.realized_pnl;
  })

-- The maker fee is counted; a rebate is not assumed.
abbrev pub effective_context : RiskOrderIntent → FeeSchedule → RiskContext → RiskContext
effective_context i fees c = elim i.side [
  | Side.buy ↦ record c { estimated_fee_cost = share_of (order_notional i) fees.maker_fee_bps }
  | Side.sell ↦ record c { estimated_fee_cost = 0 }
]

abbrev pub reserve : RiskOrderIntent → RiskResult → Action PortfolioState (Unit {0})
reserve i risk = elim i.side [
  | Side.buy ↦ reserve_buy_cash (of_nat risk.cash_required)
  | Side.sell ↦ reserve_sell_qty i.key (of_nat i.qty)
]

abbrev pub reservation : RiskOrderIntent → RiskResult → PortfolioState → Resting
reservation i risk p = elim i.side [
  | Side.buy ↦ record {
    working = record { portfolio = p; remaining = risk.cash_required };
    remaining_position = 0;
  }
  | Side.sell ↦ record {
    working = record { portfolio = p; remaining = 0 };
    remaining_position = i.qty;
  }
]

-- The call of the `try` block on the portfolio.
abbrev pub with_reservation :
    {A : Type 0} → RiskOrderIntent → RiskResult → Action Resting A → Action PortfolioState A
with_reservation i risk m p = let (a, r) = m (reservation i risk p) in (a, r.working.portfolio)

abbrev pub refused : RiskResult → PortfolioState → RiskGatedPassiveResult
refused risk p = record {
  risk = risk;
  execution = none;
  reservation_active = false;
  reserved_cash_remaining = 0;
  reserved_position_remaining = 0;
  portfolio_cash_after = p.cash;
  portfolio_reserved_cash_after = p.reserved_cash;
  portfolio_realized_pnl_after = p.realized_pnl;
}

unfoldable pub execute_passive_with_risk :
    RiskOrderIntent
    → Float
    → OrderTimestamps
    → List ConfirmedTradeEvent
    → Float
    → Float
    → RiskLimits
    → RiskContext
    → FeeSchedule
    → Option CancelTimestamps
    → Action PortfolioState RiskGatedPassiveResult
unfolding execute release_rest
execute_passive_with_risk i displayed times trades reference_price mark_price limits context fees
      cancel =
    do
      p ← get
      let risk = evaluate_order_risk p i limits (effective_context i fees context)
      if not (allowed risk) then pure (refused risk p) else (do
        reserve i risk
        with_reservation i risk (
            try_cleanup
              (execute i displayed times trades reference_price mark_price fees cancel risk)
              (release_rest i)))
