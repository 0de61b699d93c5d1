-- ===== src/Pipeline/Spending.antt =====
-- What the fills of a BUY order that is swept from the executable levels can cost
-- (src/std0_quant/execution/risk_execution_pipeline.py, costed_simulator.py).
use native.Mathlib.Nat.{mul-le-mul_left, mul-le-mul_right}
use polymarket_quant.Common.{ℕ, ◌+◌, ◌*◌, ◌≤◌, List, [], ◌∷◌, sum_of, All, arith}
use polymarket_quant.Common.Int.{pos, negsuc}
use polymarket_quant.Numeric.{
  Result, ok, err, Float, eps, of_nat, nan, pos_inf, neg_inf, finite, positive_finite,
  nonnegative_finite, bind_cases,
}
use polymarket_quant.Fill.{Side, Fill, notional, checked_levels}
use polymarket_quant.Fill.Sweep.{fill_qty}
use polymarket_quant.Timestamps.{OrderTimestamps}
use polymarket_quant.Taker.{AggressiveTif}
use polymarket_quant.Taker.Prices.{IsCheap, LevelsBelow, simulated-IsCheap}
use polymarket_quant.Cost.{FeeSchedule, mark_to_market_pnl}
use polymarket_quant.Cost.Fees.{summary_sums}
use polymarket_quant.Costed.{CostedAggressiveResult, simulate_aggressive_with_costs}
use polymarket_quant.Pipeline.Aggressive.{executable_levels}

executable_below :
    (limit : ℕ) (ls : List (Float × Float))
    → LevelsBelow (limit + eps) (checked_levels (executable_levels Side.buy limit ls))
unfolding executable_levels checked_levels positive_finite nonnegative_finite
executable_below limit [] = tt
executable_below limit ((nan, q) ∷ ls) = executable_below limit ls
executable_below limit ((pos_inf, q) ∷ ls) = executable_below limit ls
executable_below limit ((neg_inf, q) ∷ ls) = tt
executable_below limit ((finite (negsuc n), q) ∷ ls) = ground arith
executable_below limit ((finite (pos n), q) ∷ ls) = ground (arith, executable_below limit ls)

cheap_notional :
    (top : ℕ) (fs : List Fill)
    → All (IsCheap top) fs
    → sum_of notional fs ≤ top * sum_of fill_qty fs
cheap_notional top [] a = omega arith
cheap_notional top (f ∷ fs) a =
    omega (arith, cheap_notional top fs a.1, mul-le-mul_right f.qty a.0.0)

-- Fills of which none is dearer than `limit` by more than `_EPS`, and that cost no more than `_EPS` more
-- of the quantity at that price.
abbrev pub Affordable : ℕ → ℕ → Result CostedAggressiveResult → Type 0
Affordable qty limit (err _) = Unit
Affordable qty limit (ok e) =
    All (IsCheap (limit + eps)) e.simulation.fills
    × (sum_of notional e.simulation.fills ≤ (limit + eps) * (qty + eps))

module _ (qty limit : ℕ) (fees : FeeSchedule) where
  fills_notional :
      (fs : List Fill)
      → All (IsCheap (limit + eps)) fs
      → sum_of fill_qty fs ≤ qty + eps
      → sum_of notional fs ≤ (limit + eps) * (qty + eps)
  fills_notional fs a l =
      omega (arith, cheap_notional (limit + eps) fs a, mul-le-mul_left (limit + eps) l)

  pub costed-Affordable :
      (tif : AggressiveTif) (levels : List (Float × Float)) (times : OrderTimestamps)
      (reference_price mark_price : Float)
      → Affordable qty limit (
          simulate_aggressive_with_costs Side.buy tif
            (of_nat qty)
            (executable_levels Side.buy limit levels)
            times
            reference_price
            mark_price
            fees)
  unfolding simulate_aggressive_with_costs
  costed-Affordable tif levels times reference_price mark_price =
      let below = executable_below limit levels in
      bind_cases (Affordable qty limit) _ _ (λ e. tt)
        (λ simulation h.
          let a = simulated-IsCheap (limit + eps) Side.buy tif (of_nat qty) _ times below h in
          bind_cases (Affordable qty limit) _ _ (λ e. tt)
            (λ execution k.
              let sums =
                summary_sums fees (fees.maker_fee_bps + fees.taker_fee_bps) (omega arith)
                  (omega arith) Side.buy qty simulation.fills reference_price k in
              let price : sum_of notional simulation.fills ≤ (limit + eps) * (qty + eps) =
                fills_notional simulation.fills a (omega (arith, sums.0, sums.1)) in
              bind_cases (Affordable qty limit) (mark_to_market_pnl execution mark_price) _
                (λ e. tt) (λ pnl m. (a, price))))
