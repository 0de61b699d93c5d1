-- ===== src/Cost/Tests.antt =====
-- Costs of two fills (src/std0_quant/execution/cost_pnl.py).
use polymarket_quant.Common.{◌+◌, ◌≤◌, ◌≡◌, refl, List, [], ◌∷◌, sum_of, arith}
use polymarket_quant.Common.Int.{pos, ◌-ℤ◌, ◌*ℤ◌}
use polymarket_quant.Numeric.{ok, eps, of_nat}
use polymarket_quant.Fill.{Side, Liquidity, Fill, notional}
use polymarket_quant.Fill.Sweep.{fill_qty}
use polymarket_quant.Cost.{
  FeeSchedule, ExecutionCostSummary, PnlSummary, Totals, add_fills, share_of, summary_of,
  summarize_execution, mark_to_market_pnl,
}
use polymarket_quant.Cost.Fees.{summary_sums}

-- Ten, twenty and five basis points.
abbrev fees : FeeSchedule
fees = record {
  maker_fee_bps = 10000000000000;
  taker_fee_bps = 20000000000000;
  maker_rebate_bps = 5000000000000;
}

abbrev fills : List Fill
fills =
    record { qty = 3000000; price = 2000000; liquidity = Liquidity.taker }
    ∷ record { qty = 1000000; price = 4000000; liquidity = Liquidity.maker }
    ∷ []

-- Ten units for four million grains, at the average price of 2.5 million.
abbrev totals : Totals
totals = record {
  filled_qty = 4000000;
  gross_notional = 10000000000000;
  fee_cost = 16000000000;
  rebate_credit = 2000000000;
}

abbrev summary : ExecutionCostSummary
summary = summary_of Side.buy 5000000 2400000 totals

summarized : summarize_execution Side.buy (of_nat 5000000) fills (of_nat 2400000) fees ≡ ok summary
unfolding summarize_execution add_fills share_of
summarized = refl

-- Marked at 2.7 million: a gain of 0.8 units on the price, less the fees of 0.014 units.
abbrev pnl : PnlSummary
pnl = record {
  side = Side.buy;
  filled_qty = 4000000;
  average_fill_price = summary.average_fill_price;
  mark_price = 2700000;
  gross_pnl = pos 800000000000;
  net_fee_cost = summary.net_fee_cost;
  net_pnl = pos 786000000000;
}

marked : mark_to_market_pnl summary (of_nat 2700000) ≡ ok pnl
unfolding mark_to_market_pnl ◌-ℤ◌ ◌*ℤ◌
marked = refl

summary_sums_example :
    (summary.filled_qty ≡ sum_of fill_qty fills)
    × (summary.filled_qty ≤ 5000000 + eps)
    × (summary.gross_notional ≡ sum_of notional fills)
    × (summary.fee_cost ≤ share_of summary.gross_notional 20000000000000)
summary_sums_example =
    summary_sums fees 20000000000000 (omega arith) (omega arith) Side.buy 5000000 fills
      (of_nat 2400000) summarized
