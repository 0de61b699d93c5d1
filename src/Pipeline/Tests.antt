-- ===== src/Pipeline/Tests.antt =====
-- An order at both pipelines (src/std0_quant/execution/risk_execution_pipeline.py,
-- passive_risk_pipeline.py).
use polymarket_quant.Common.{
  ℕ, ◌+◌, ◌≤◌, ◌≡◌, refl, Bool, false, Option, none, some, List, [], ◌∷◌, pair_eq, lookup, store,
}
use polymarket_quant.Common.Int.{ℤ, pos, ◌+ℤ◌, ◌-ℤ◌, ◌*ℤ◌}
use polymarket_quant.Numeric.{Float, Result, ok, err, of_nat}
use polymarket_quant.Action.{Action}
use polymarket_quant.Order.{mark_sent, acknowledge, apply_fill, expire}
use polymarket_quant.Order.Create.{create_new}
use polymarket_quant.Fill.{
  Side, checked_levels, sweep, aggressive_sweep, passive_fill_from_confirmed_trade,
}
use polymarket_quant.Timestamps.{OrderTimestamps}
use polymarket_quant.Simulator.{ConfirmedTradeEvent, step, run_timeline}
use polymarket_quant.Simulator.Run
use polymarket_quant.Simulator.Passive.{simulate_passive_order}
use polymarket_quant.Queue.{on_confirmed_trade}
use polymarket_quant.Queue.Create as QueueCreate
use polymarket_quant.Taker.{AggressiveTif, run}
use polymarket_quant.Taker.Simulate.{simulate_aggressive_order}
use polymarket_quant.Portfolio.{
  PortfolioState, eps_cash, gross_cost_exposure, reserve_buy_cash, release_reserved_cash,
}
use polymarket_quant.Portfolio.Fills.{apply_buy_fill}
use polymarket_quant.Risk.{
  RiskLimits, RiskOrderIntent, RiskContext, evaluate_order_risk, market_exposure,
}
use polymarket_quant.Cost.{
  FeeSchedule, add_fills, share_of, summarize_execution, mark_to_market_pnl,
}
use polymarket_quant.Costed.{simulate_aggressive_with_costs, simulate_passive_with_costs}
use polymarket_quant.Pipeline.{book_buy, for_each}
use polymarket_quant.Pipeline.Aggressive
use polymarket_quant.Pipeline.Aggressive.{
  RiskGatedExecutionResult, executable_levels, execute_aggressive_with_risk,
}
use polymarket_quant.Pipeline.Passive
use polymarket_quant.Pipeline.Passive.{RiskGatedPassiveResult, execute_passive_with_risk}
use polymarket_quant.Pipeline.Exposure.{IsBounded, exposure-IsBounded}
use polymarket_quant.Pipeline.Release.{reservation_is_released}
use polymarket_quant.Pipeline.Outstanding.{reservation_is_reported}

-- Twenty units of cash, of which nine are reserved.
abbrev holding : PortfolioState
holding = record {
  cash = pos 20000000000000;
  reserved_cash = 9000000000000;
  realized_pnl = pos 0;
  positions = [];
  reserved_positions = [];
}

abbrev limits : RiskLimits
limits = record {
  max_order_notional = 9000000000000;
  max_market_exposure = 10000000000000;
  max_gross_exposure = 15000000000000;
  max_daily_loss = 5000000000000;
  max_market_data_age_ms = 50;
}

abbrev context : RiskContext
context = record {
  now_ts_ms = 100;
  market_data_ts_ms = 80;
  kill_switch = false;
  estimated_fee_cost = 0;
}

abbrev fees : FeeSchedule
fees = record {
  maker_fee_bps = 10000000000000;
  taker_fee_bps = 20000000000000;
  maker_rebate_bps = 5000000000000;
}

abbrev times : OrderTimestamps
times = record {
  order_send_ts_ms = 100;
  order_venue_arrival_ts_ms = 120;
  order_venue_accept_ts_ms = 124;
  order_ack_receive_ts_ms = 144;
}

-- The third level is above the limit.
abbrev levels : List (Float × Float)
levels =
    (of_nat 2000000, of_nat 500000)
    ∷ (of_nat 3000000, of_nat 700000)
    ∷ (of_nat 4000000, of_nat 900000)
    ∷ []

abbrev intent : RiskOrderIntent
intent = record { key = (7, 1); side = Side.buy; qty = 2000000; limit_price = 3000000 }

abbrev call : Action PortfolioState RiskGatedExecutionResult
call =
    execute_aggressive_with_risk intent AggressiveTif.ioc levels times (of_nat 2500000)
      (of_nat 2700000) limits context fees

abbrev cash_of : Result RiskGatedExecutionResult → Option ℤ
cash_of (ok r) = some r.portfolio_cash_after
cash_of (err e) = none

abbrev after : PortfolioState
after = (call holding).1

-- One unit and 2.1 units are paid, and a fee of a five hundredth of that.
bought : cash_of (call holding).0 ≡ some (pos 16893800000000)
unfolding execute_aggressive_with_risk Aggressive.execute Aggressive.release_rest for_each book_buy
    evaluate_order_risk executable_levels simulate_aggressive_with_costs simulate_aggressive_order
    run aggressive_sweep checked_levels sweep mark_sent acknowledge apply_fill expire create_new
    summarize_execution add_fills share_of mark_to_market_pnl apply_buy_fill reserve_buy_cash
    release_reserved_cash lookup store ◌+ℤ◌ ◌-ℤ◌ ◌*ℤ◌
bought = refl

exposure-IsBounded_example :
    IsBounded 2000000 3000000 limits.max_market_exposure
      (market_exposure 7 holding)
      (market_exposure 7 after)
    × IsBounded 2000000 3000000 limits.max_gross_exposure
        (gross_cost_exposure holding)
        (gross_cost_exposure after)
exposure-IsBounded_example =
    exposure-IsBounded (7, 1) 2000000 3000000 fees AggressiveTif.ioc levels times (of_nat 2500000)
      (of_nat 2700000) limits context holding

reservation_is_released_example : after.reserved_cash ≤ holding.reserved_cash + eps_cash
unfolding execute_aggressive_with_risk Aggressive.execute Aggressive.release_rest for_each book_buy
    evaluate_order_risk executable_levels simulate_aggressive_with_costs simulate_aggressive_order
    run aggressive_sweep checked_levels sweep mark_sent acknowledge apply_fill expire create_new
    summarize_execution add_fills share_of mark_to_market_pnl apply_buy_fill reserve_buy_cash
    release_reserved_cash lookup store ◌+ℤ◌ ◌-ℤ◌ ◌*ℤ◌
reservation_is_released_example =
    reservation_is_released (7, 1) 2000000 3000000 AggressiveTif.ioc levels times (of_nat 2500000)
      (of_nat 2700000) limits context fees holding refl

-- A resting order behind 500000 grains, of which 1500000 are filled.
abbrev trades : List ConfirmedTradeEvent
trades = record { venue_ts_ms = 150; traded_qty = 2000000 } ∷ []

abbrev rested : Result RiskGatedPassiveResult × PortfolioState
rested =
    execute_passive_with_risk intent (of_nat 500000) times trades (of_nat 2500000) (of_nat 2700000)
      limits context fees none holding

abbrev remaining_of : Result RiskGatedPassiveResult → ℕ
remaining_of (ok r) = r.reserved_cash_remaining
remaining_of (err e) = 0

abbrev is_active : Result RiskGatedPassiveResult → Bool
is_active (ok r) = r.reservation_active
is_active (err e) = false

-- Of six units and their fee, four and a half and a fee less the rebate are paid.
still_reserved : remaining_of rested.0 ≡ 1503750000000
unfolding execute_passive_with_risk Passive.execute Passive.release_rest Passive.book for_each
    book_buy evaluate_order_risk simulate_passive_with_costs simulate_passive_order Run.run
    run_timeline step on_confirmed_trade passive_fill_from_confirmed_trade mark_sent acknowledge
    apply_fill create_new QueueCreate.create_new summarize_execution add_fills share_of
    mark_to_market_pnl apply_buy_fill reserve_buy_cash release_reserved_cash lookup store ◌+ℤ◌ ◌-ℤ◌
    ◌*ℤ◌
still_reserved = refl

reservation_is_reported_example :
    (rested.1.reserved_cash ≤ holding.reserved_cash + remaining_of rested.0 + eps_cash)
    × (is_active rested.0 ≡ false → rested.1.reserved_cash ≤ holding.reserved_cash + eps_cash)
unfolding execute_passive_with_risk Passive.execute Passive.release_rest Passive.book for_each
    book_buy evaluate_order_risk simulate_passive_with_costs simulate_passive_order Run.run
    run_timeline step on_confirmed_trade passive_fill_from_confirmed_trade mark_sent acknowledge
    apply_fill create_new QueueCreate.create_new summarize_execution add_fills share_of
    mark_to_market_pnl apply_buy_fill reserve_buy_cash release_reserved_cash lookup store ◌+ℤ◌ ◌-ℤ◌
    ◌*ℤ◌
reservation_is_reported_example =
    reservation_is_reported (7, 1) 2000000 3000000 (of_nat 500000) times trades (of_nat 2500000)
      (of_nat 2700000) limits context fees none holding refl
