-- ===== src/Cost/Identity.antt =====
-- The profit against the costs (src/std0_quant/execution/cost_pnl.py).
use polymarket_quant.Common.{ap, ℕ, ◌+◌, ◌*◌, ◌/◌, ◌∙◌, ◌<◌, ◌≡◌, List, some, arith}
use polymarket_quant.Common.Int.{
  ℤ, pos, pos_part, neg_part, ◌+ℤ◌, ◌-ℤ◌, ◌*ℤ◌, eq_of_parts, -ℤ_parts, +ℤ_parts,
}
use polymarket_quant.Numeric.{ok, eps, of_nat, Float}
use polymarket_quant.Fill.{Side, Fill}
use polymarket_quant.Cost.{
  FeeSchedule, ExecutionCostSummary, PnlSummary, adverse, summarize_execution, mark_to_market_pnl,
}

*ℤ_parts : (z : ℤ) (n : ℕ) → pos_part (z *ℤ n) + neg_part z * n ≡ neg_part (z *ℤ n) + pos_part z * n
unfolding ◌*ℤ◌
*ℤ_parts z n = ground arith

difference_scaled :
    (a b n : ℕ)
    → pos_part ((pos a -ℤ pos b) *ℤ n) + b * n ≡ neg_part ((pos a -ℤ pos b) *ℤ n) + a * n
difference_scaled a b n =
    let z : ℤ = pos a -ℤ pos b in
    let scaled : (pos_part z + b) * n ≡ (neg_part z + a) * n =
      ap (λ x. x * n) (omega (arith, -ℤ_parts (pos a) (pos b))) in
    omega (arith, scaled, *ℤ_parts z n)

-- Buying at an average and marking at `m`, the slippage and the profit add up to the reference's.
adverse_adds :
    (side : Side) (m a r n : ℕ)
    → adverse side m a *ℤ n +ℤ adverse side a r *ℤ n ≡ adverse side m r *ℤ n
adverse_adds Side.buy m a r n = eq_of_parts _ _ (
    omega (
      arith,
      difference_scaled m a n,
      difference_scaled a r n,
      difference_scaled m r n,
      +ℤ_parts ((pos m -ℤ pos a) *ℤ n) ((pos a -ℤ pos r) *ℤ n),
    ))
adverse_adds Side.sell m a r n = eq_of_parts _ _ (
    omega (
      arith,
      difference_scaled a m n,
      difference_scaled r a n,
      difference_scaled r m n,
      +ℤ_parts ((pos a -ℤ pos m) *ℤ n) ((pos r -ℤ pos a) *ℤ n),
    ))

fee_cancels : (x y n : ℤ) → (x -ℤ n) +ℤ (y +ℤ n) ≡ x +ℤ y
fee_cancels x y n =
    eq_of_parts _ _
      (omega (arith, -ℤ_parts x n, +ℤ_parts y n, +ℤ_parts (x -ℤ n) (y +ℤ n), +ℤ_parts x y))

-- What the summary says of the average and of the costs.
abbrev Averages : Side → ℕ → ExecutionCostSummary → ℕ → Type 0
Averages side reference e a =
    (e.side ≡ side)
    × (e.average_fill_price ≡ some a)
    × (e.total_execution_cost ≡ adverse side a reference *ℤ e.filled_qty +ℤ e.net_fee_cost)

summary-Averages :
    (side : Side) (requested : Float) (fills : List Fill) (reference : ℕ) (fees : FeeSchedule)
    {e : ExecutionCostSummary}
    → summarize_execution side requested fills (of_nat reference) fees ≡ ok e
    → eps < e.filled_qty
    → Averages side reference e (e.gross_notional / e.filled_qty)
unfolding summarize_execution
summary-Averages side requested fills reference fees h l = ground arith

mark_pnl :
    (side : Side) (reference mark a : ℕ) (e : ExecutionCostSummary) {r : PnlSummary}
    → Averages side reference e a
    → eps < e.filled_qty
    → mark_to_market_pnl e (of_nat mark) ≡ ok r
    → r.net_pnl ≡ adverse side mark a *ℤ e.filled_qty -ℤ e.net_fee_cost
unfolding mark_to_market_pnl
mark_pnl side reference mark a e v l h = ground arith

-- For fills of more than `_EPS` in all: the net profit at a mark and the total execution cost add up to
-- what the filled quantity would make, bought or sold at the reference price without any fee.
pnl_and_cost :
    (side : Side) (requested : Float) (fills : List Fill) (reference mark : ℕ) (fees : FeeSchedule)
    {e : ExecutionCostSummary} {r : PnlSummary}
    → summarize_execution side requested fills (of_nat reference) fees ≡ ok e
    → eps < e.filled_qty
    → mark_to_market_pnl e (of_nat mark) ≡ ok r
    → r.net_pnl +ℤ e.total_execution_cost ≡ adverse side mark reference *ℤ e.filled_qty
pnl_and_cost side requested fills reference mark fees {e} {r} h l k =
    let v = summary-Averages side requested fills reference fees h l in
    let n = e.filled_qty in
    let a = e.gross_notional / e.filled_qty in
    rw (mark_pnl side reference mark a e v l k, v.2)
      (fee_cancels (adverse side mark a *ℤ n) (adverse side a reference *ℤ n) e.net_fee_cost
        ∙ adverse_adds side mark a reference n)
