-- ===== src/Pipeline.antt =====
-- Risk gate, reservation, simulation and portfolio in one, what the two pipelines share
-- (src/std0_quant/execution/risk_execution_pipeline.py, passive_risk_pipeline.py).
-- The state is the portfolio with the local variable that counts what is left of the order's
-- reservation. `Pipeline.Aggressive` and `Pipeline.Passive` have the two functions.
pub mod Aggressive
pub mod Passive
pub mod Booking
pub mod Spending
pub mod Exposure
pub mod Release
pub mod Outstanding
mod Tests
use polymarket_quant.Common.{ℕ, ◌+◌, true, List, [], ◌∷◌, ltb}
use polymarket_quant.Common.Int.{ℤ, pos, pos_part, ltb_ℤ, ◌-ℤ◌}
use polymarket_quant.Numeric.{Result, ok, err, of_nat, buy_exceeds_reservation}
use polymarket_quant.Action.{Action, ◌>>=◌, ◌>>◌, pure, get, modify, raise_when}
use polymarket_quant.Fill.{Fill, notional}
use polymarket_quant.Portfolio.{Key, PortfolioState, eps_cash}
use polymarket_quant.Portfolio.Fills.{apply_buy_fill}
use polymarket_quant.Cost.{FeeSchedule, fee_of, rebate_of}

pub record Working : Type 0 where
  pub portfolio : PortfolioState
  pub remaining : ℕ

-- A call of a method of the portfolio.
abbrev pub on_portfolio : {A : Type 0} → Action PortfolioState A → Action Working A
on_portfolio m w = let (r, p) = m w.portfolio in (r, record w { portfolio = p })

abbrev pub net_cash_cost : FeeSchedule → Fill → ℤ
net_cash_cost fees f = pos (notional f + fee_of fees f) -ℤ pos (rebate_of fees f)

-- The loop's body for one fill of a BUY order.
unfoldable pub book_buy : Key → FeeSchedule → Fill → Action Working (Unit {0})
book_buy key fees f = do
  w ← get
  raise_when (ltb_ℤ (pos (w.remaining + eps_cash)) (net_cash_cost fees f)) buy_exceeds_reservation
  on_portfolio (
      apply_buy_fill key (of_nat f.qty) (of_nat f.price) (of_nat (fee_of fees f))
        (of_nat (rebate_of fees f)) true)
  modify (λ v. record v { remaining = pos_part (pos v.remaining -ℤ net_cash_cost fees f) })

-- `for fill in fills`
module _ {S : Type 0} (body : Fill → Action S (Unit {0})) where
  unfoldable pub for_each : List Fill → Action S (Unit {0})
  for_each [] w = (ok tt, w)
  for_each (f ∷ fs) w = (body f >> for_each fs) w
