-- ===== src/Costed.antt =====
-- The simulators with their costs, src/std0_quant/execution/costed_simulator.py.
use polymarket_quant.Common.{Option, List}
use polymarket_quant.Numeric.{Float, Result, ok, ◌>>=◌}
use polymarket_quant.Fill.{Side}
use polymarket_quant.Timestamps.{OrderTimestamps, CancelTimestamps}
use polymarket_quant.Simulator.{ConfirmedTradeEvent, PassiveSimulationResult}
use polymarket_quant.Simulator.Passive.{simulate_passive_order}
use polymarket_quant.Taker.{AggressiveTif}
use polymarket_quant.Taker.Simulate.{AggressiveSimulationResult, simulate_aggressive_order}
use polymarket_quant.Cost.{
  FeeSchedule, ExecutionCostSummary, PnlSummary, summarize_execution, mark_to_market_pnl,
}

pub record CostedPassiveResult : Type 0 where
  pub simulation : PassiveSimulationResult
  pub execution : ExecutionCostSummary
  pub pnl : PnlSummary

pub record CostedAggressiveResult : Type 0 where
  pub simulation : AggressiveSimulationResult
  pub execution : ExecutionCostSummary
  pub pnl : PnlSummary

unfoldable pub simulate_passive_with_costs :
    Side
    → Float
    → Float
    → Float
    → OrderTimestamps
    → List ConfirmedTradeEvent
    → Float
    → Float
    → FeeSchedule
    → Option CancelTimestamps
    → Result CostedPassiveResult
simulate_passive_with_costs side order_qty order_price displayed times trades reference_price
      mark_price fees cancel =
    do
      simulation ← simulate_passive_order order_qty order_price displayed times trades cancel
      execution ← summarize_execution side order_qty simulation.fills reference_price fees
      pnl ← mark_to_market_pnl execution mark_price
      ok (record { simulation = simulation; execution = execution; pnl = pnl })

unfoldable pub simulate_aggressive_with_costs :
    Side
    → AggressiveTif
    → Float
    → List (Float × Float)
    → OrderTimestamps
    → Float
    → Float
    → FeeSchedule
    → Result CostedAggressiveResult
simulate_aggressive_with_costs side tif order_qty levels times reference_price mark_price fees = do
  simulation ← simulate_aggressive_order side tif order_qty levels times
  execution ← summarize_execution side order_qty simulation.fills reference_price fees
  pnl ← mark_to_market_pnl execution mark_price
  ok (record { simulation = simulation; execution = execution; pnl = pnl })
