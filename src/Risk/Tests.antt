-- ===== src/Risk/Tests.antt =====
-- Orders at the gate (src/std0_quant/execution/risk.py).
use polymarket_quant.Common.{◌≡◌, refl, ◌↔◌, true, false, [], ◌∷◌, pair_eq, lookup}
use polymarket_quant.Common.Int.{pos, ◌+ℤ◌}
use polymarket_quant.Fill.{Side}
use polymarket_quant.Portfolio.{PortfolioState}
use polymarket_quant.Risk.{
  RiskLimits, RiskOrderIntent, RiskContext, Reason, allowed, evaluate_order_risk,
}
use polymarket_quant.Risk.Gate.{IsPermitted, allowed_iff}

-- Twenty units of cash and ten grains of one position.
abbrev holding : PortfolioState
holding = record {
  cash = pos 20000000000000;
  reserved_cash = 0;
  realized_pnl = pos 0;
  positions = ((7, 1), record { qty = 10; cost_basis = 5000000000000 }) ∷ [];
  reserved_positions = [];
}

abbrev limits : RiskLimits
limits = record {
  max_order_notional = 9000000000000;
  max_market_exposure = 10000000000000;
  max_gross_exposure = 15000000000000;
  max_daily_loss = 5000000000000;
  max_market_data_age_ms = 50;
}

abbrev context : RiskContext
context = record {
  now_ts_ms = 100;
  market_data_ts_ms = 80;
  kill_switch = false;
  estimated_fee_cost = 1000;
}

abbrev order : Side → RiskOrderIntent
order side = record { key = (7, 1); side = side; qty = 2000000; limit_price = 3000000 }

-- Six units are bought, but they are not there to be sold, and the market's exposure is kept.
buy_reasons : (evaluate_order_risk holding (order Side.buy) limits context).reasons ≡ []
unfolding evaluate_order_risk ◌+ℤ◌
buy_reasons = refl

sell_reasons :
    (evaluate_order_risk holding (order Side.sell) limits context).reasons
    ≡ Reason.insufficient_available_position ∷ []
unfolding evaluate_order_risk ◌+ℤ◌ lookup
sell_reasons = refl

allowed_iff_example :
    (allowed (evaluate_order_risk holding (order Side.buy) limits context) ≡ true)
    ↔ IsPermitted holding (order Side.buy) limits context
allowed_iff_example = allowed_iff holding (order Side.buy) limits context
