-- ===== src/Cost/Fees.antt =====
-- Fees of many fills against the fee of their sum (src/std0_quant/execution/cost_pnl.py).
use native.Mathlib.Nat.{le-div_iff_mul-le, div-mul-le_self, mul-le-mul_left, mul-le-mul_right}
use polymarket_quant.Common.{ℕ, ◌+◌, ◌*◌, ◌/◌, ◌≤◌, ◌<◌, ◌≡◌, List, [], ◌∷◌, sum_of, arith}
use polymarket_quant.Numeric.{Float, Field, Result, ok, err, eps, of_nat, positive_finite-of_nat}
use polymarket_quant.Fill.{Side, Fill, notional}
use polymarket_quant.Fill.Sweep.{fill_qty}
use polymarket_quant.Cost.{
  FeeSchedule, ExecutionCostSummary, Totals, no_totals, one_unit, share_of, fee_of, rebate_of,
  add_fills, summarize_execution,
}

div-add : (a b k : ℕ) → 0 < k → a / k + b / k ≤ (a + b) / k
div-add a b k l = (le-div_iff_mul-le l).1 (omega (arith, div-mul-le_self a k, div-mul-le_self b k))

div_mono : (a b k : ℕ) → 0 < k → a ≤ b → a / k ≤ b / k
div_mono a b k l h = (le-div_iff_mul-le l).1 (omega (arith, div-mul-le_self a k))

-- Fees of parts are at most the fee of the whole, and a higher rate is a higher fee.
pub share_of-add : (a b bps : ℕ) → share_of a bps + share_of b bps ≤ share_of (a + b) bps
unfolding share_of
share_of-add a b bps =
    let whole : (a + b) * bps ≡ a * bps + b * bps = omega arith in
    rw whole (div-add (a * bps) (b * bps) (10000 * one_unit) (omega arith))

pub share_of_mono : (a b bps : ℕ) → a ≤ b → share_of a bps ≤ share_of b bps
unfolding share_of
share_of_mono a b bps h =
    div_mono (a * bps) (b * bps) (10000 * one_unit) (omega arith) (mul-le-mul_right bps h)

share_of_rate : (a bps top : ℕ) → bps ≤ top → share_of a bps ≤ share_of a top
unfolding share_of
share_of_rate a bps top h =
    div_mono (a * bps) (a * top) (10000 * one_unit) (omega arith) (mul-le-mul_left a h)

module _ (fees : FeeSchedule) (top : ℕ) (maker : fees.maker_fee_bps ≤ top)
    (taker : fees.taker_fee_bps ≤ top) where
  fee_of-le : (f : Fill) → fee_of fees f ≤ share_of (notional f) top
  fee_of-le f = ground (
    arith,
    share_of_rate (notional f) fees.maker_fee_bps top maker,
    share_of_rate (notional f) fees.taker_fee_bps top taker,
  )

  abbrev Sums : List Fill → Totals → Result Totals → Type 0
  Sums fs t (err _) = Unit
  Sums fs t (ok u) =
      (u.gross_notional ≡ t.gross_notional + sum_of notional fs)
      × (u.filled_qty ≡ t.filled_qty + sum_of fill_qty fs)
      × (u.fee_cost ≤ share_of u.gross_notional top)

  add_fills-Sums :
      (fs : List Fill) (t : Totals)
      → t.fee_cost ≤ share_of t.gross_notional top
      → Sums fs t (add_fills fees fs t)
  unfolding add_fills
  add_fills-Sums [] t l = ground arith
  add_fills-Sums (f ∷ fs) t l =
      let next : Totals = record {
        filled_qty = t.filled_qty + f.qty;
        gross_notional = t.gross_notional + f.price * f.qty;
        fee_cost = t.fee_cost + fee_of fees f;
        rebate_credit = t.rebate_credit + rebate_of fees f;
      } in
      ground (
        arith,
        fee_of-le f,
        share_of-add t.gross_notional (notional f) top,
        positive_finite-of_nat f.price Field.price,
        positive_finite-of_nat f.qty Field.qty,
        add_fills-Sums fs next,
      )

  -- When a summary of fills is made, it has their whole quantity, no more than was requested up to `_EPS`,
  -- their whole notional, and a fee of at most the fee of that notional at the schedule's higher rate.
  pub summary_sums :
      (side : Side) (requested : ℕ) (fs : List Fill) (reference : Float) {e : ExecutionCostSummary}
      → summarize_execution side (of_nat requested) fs reference fees ≡ ok e
      → (e.filled_qty ≡ sum_of fill_qty fs)
        × (e.filled_qty ≤ requested + eps)
        × (e.gross_notional ≡ sum_of notional fs)
        × (e.fee_cost ≤ share_of e.gross_notional top)
  unfolding summarize_execution
  summary_sums side requested fs reference h =
      ground (arith, add_fills-Sums fs no_totals (omega arith))
