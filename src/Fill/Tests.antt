-- ===== src/Fill/Tests.antt =====
-- A sweep of three asks (src/std0_quant/execution/fill_model.py).
use polymarket_quant.Common.{ℕ, ◌+◌, ◌≤◌, ◌≡◌, refl, ◌⊎◌, List, [], ◌∷◌, minimum, sum_of, arith}
use polymarket_quant.Numeric.{Float, ok, err, eps, of_nat, not_best_to_worst}
use polymarket_quant.Fill.{Side, Liquidity, FillResult, aggressive_sweep, checked_levels}
use polymarket_quant.Fill.Sweep.{fill_qty, visible_qty, aggressive_sweep_conserves}
use polymarket_quant.Fill.Price.{
  taken_within, visible_within, loosen, slack_of, sweep_best_price_first, unordered_levels_refused,
}

abbrev asks : List (ℕ × ℕ)
asks = (50, 4) ∷ (52, 1) ∷ (55, 9) ∷ []

abbrev levels : List (Float × Float)
levels = (of_nat 50, of_nat 4) ∷ (of_nat 52, of_nat 1) ∷ (of_nat 55, of_nat 9) ∷ []

abbrev swept : FillResult
swept = record {
  requested_qty = 10;
  filled_qty = 10;
  remaining = 0;
  fills =
      record { price = 50; qty = 4; liquidity = Liquidity.taker }
      ∷ record { price = 55; qty = 6; liquidity = Liquidity.taker }
      ∷ [];
}

levels_checked : checked_levels levels ≡ ok asks
unfolding checked_levels
levels_checked = refl

runs : aggressive_sweep Side.buy (of_nat 10) levels ≡ ok swept
unfolding aggressive_sweep
runs = refl

aggressive_sweep_conserves_example :
    (swept.filled_qty + swept.remaining ≡ 10)
    × (sum_of fill_qty swept.fills ≤ swept.filled_qty)
    × (swept.filled_qty ≤ sum_of fill_qty swept.fills + eps)
    × (sum_of fill_qty swept.fills ≤ sum_of visible_qty asks)
    × ((swept.remaining ≡ 0) ⊎ (sum_of fill_qty swept.fills ≡ sum_of visible_qty asks))
aggressive_sweep_conserves_example =
    aggressive_sweep_conserves Side.buy 10 levels asks levels_checked runs

sweep_best_price_first_example :
    (taken_within Side.buy 52 swept.fills ≤ visible_within Side.buy 52 asks)
    × (minimum 10 (visible_within Side.buy 52 asks)
        ≤ taken_within Side.buy (loosen Side.buy (slack_of asks) 52) swept.fills + eps)
sweep_best_price_first_example =
    sweep_best_price_first Side.buy 52 10 levels asks levels_checked runs

unordered_levels_refused_example :
    aggressive_sweep Side.sell (of_nat 10) levels ≡ err not_best_to_worst
unordered_levels_refused_example =
    unordered_levels_refused Side.sell 10 levels asks (omega arith) levels_checked refl
