-- ===== src/Cost.antt =====
-- Costs and profit of fills, src/std0_quant/execution/cost_pnl.py.
-- Quotients are rounded down: to a square of a grain for a fee, to a grain for a price or a ratio.
pub mod Identity
pub mod Fees
mod Tests
use polymarket_quant.Common.{
  ℕ, ◌+◌, ◌-◌, ◌*◌, ◌/◌, Bool, Option, none, some, List, [], ◌∷◌, ltb, leb, if◌then◌else◌,
}
use polymarket_quant.Common.Int.{ℤ, pos, ◌+ℤ◌, ◌-ℤ◌, ◌*ℤ◌}
use polymarket_quant.Numeric.{
  Float, Field, Result, ok, err, eps, of_nat, ◌>>=◌, ◌>>◌, raise_if, positive_finite,
  nonnegative_finite, fills_exceed_request, average_missing,
}
use polymarket_quant.Fill.{Side, Liquidity, Fill, notional}

-- 1.0, in grains.
abbrev pub one_unit : ℕ
one_unit = 1000000000000

pub record FeeSchedule : Type 0 where
  pub maker_fee_bps : ℕ
  pub taker_fee_bps : ℕ
  pub maker_rebate_bps : ℕ

unfoldable pub create_schedule : Float → Float → Float → Result FeeSchedule
unfolding nonnegative_finite
create_schedule maker taker rebate = do
  m ← nonnegative_finite maker Field.fee_bps
  t ← nonnegative_finite taker Field.fee_bps
  r ← nonnegative_finite rebate Field.fee_bps
  ok (record { maker_fee_bps = m; taker_fee_bps = t; maker_rebate_bps = r })

-- `notional * bps / _BPS`, where the basis points are grains.
unfoldable pub share_of : ℕ → ℕ → ℕ
share_of amount bps = amount * bps / (10000 * one_unit)

pub record ExecutionCostSummary : Type 0 where
  pub side : Side
  pub requested_qty : ℕ
  pub filled_qty : ℕ
  pub unfilled_qty : ℕ
  pub fill_ratio : ℕ
  pub average_fill_price : Option ℕ
  pub reference_price : ℕ
  pub gross_notional : ℕ
  pub fee_cost : ℕ
  pub rebate_credit : ℕ
  pub net_fee_cost : ℤ
  pub slippage_per_unit : Option ℤ
  pub slippage_cost : ℤ
  pub total_execution_cost : ℤ

pub record PnlSummary : Type 0 where
  pub side : Side
  pub filled_qty : ℕ
  pub average_fill_price : Option ℕ
  pub mark_price : ℕ
  pub gross_pnl : ℤ
  pub net_fee_cost : ℤ
  pub net_pnl : ℤ

-- The sums of the loop over the fills.
pub record Totals : Type 0 where
  pub filled_qty : ℕ
  pub gross_notional : ℕ
  pub fee_cost : ℕ
  pub rebate_credit : ℕ

abbrev pub no_totals : Totals
no_totals = record { filled_qty = 0; gross_notional = 0; fee_cost = 0; rebate_credit = 0 }

abbrev pub fee_of : FeeSchedule → Fill → ℕ
fee_of fees f = elim f.liquidity [
  | Liquidity.maker ↦ share_of (notional f) fees.maker_fee_bps
  | Liquidity.taker ↦ share_of (notional f) fees.taker_fee_bps
]

abbrev pub rebate_of : FeeSchedule → Fill → ℕ
rebate_of fees f = elim f.liquidity [
  | Liquidity.maker ↦ share_of (notional f) fees.maker_rebate_bps
  | Liquidity.taker ↦ 0
]

-- The loop over the fills.
unfoldable pub add_fills : FeeSchedule → List Fill → Totals → Result Totals
unfolding positive_finite
add_fills fees [] t = ok t
add_fills fees (f ∷ fs) t = do
  price ← positive_finite (of_nat f.price) Field.price
  qty ← positive_finite (of_nat f.qty) Field.qty
  add_fills fees fs (record {
    filled_qty = t.filled_qty + qty;
    gross_notional = t.gross_notional + price * qty;
    fee_cost = t.fee_cost + fee_of fees f;
    rebate_credit = t.rebate_credit + rebate_of fees f;
  })

-- `average - reference` to buy, `reference - average` to sell.
abbrev pub adverse : Side → ℕ → ℕ → ℤ
adverse Side.buy average reference = pos average -ℤ pos reference
adverse Side.sell average reference = pos reference -ℤ pos average

abbrev pub summary_of : Side → ℕ → ℕ → Totals → ExecutionCostSummary
summary_of side requested reference t =
    let empty = leb t.filled_qty eps in
    let average = t.gross_notional / t.filled_qty in
    let slippage = adverse side average reference in
    let slippage_cost = if empty then pos 0 else slippage *ℤ t.filled_qty in
    let net_fee_cost = pos t.fee_cost -ℤ pos t.rebate_credit in
    record {
      side = side;
      requested_qty = requested;
      filled_qty = t.filled_qty;
      unfilled_qty = requested - t.filled_qty;
      fill_ratio = t.filled_qty * one_unit / requested;
      average_fill_price = if empty then none else some average;
      reference_price = reference;
      gross_notional = t.gross_notional;
      fee_cost = t.fee_cost;
      rebate_credit = t.rebate_credit;
      net_fee_cost = net_fee_cost;
      slippage_per_unit = if empty then none else some slippage;
      slippage_cost = slippage_cost;
      total_execution_cost = slippage_cost +ℤ net_fee_cost;
    }

-- `fee_schedule or FeeSchedule()` is the caller's schedule, or the one of zeros.
unfoldable pub summarize_execution :
    Side → Float → List Fill → Float → FeeSchedule → Result ExecutionCostSummary
unfolding positive_finite add_fills
summarize_execution side requested_qty fills reference_price fees = do
  requested ← positive_finite requested_qty Field.requested_qty
  reference ← positive_finite reference_price Field.reference_price
  t ← add_fills fees fills no_totals
  raise_if (ltb (requested + eps) t.filled_qty) fills_exceed_request
  ok (summary_of side requested reference t)

-- `(mark - average) * filled` to buy, `(average - mark) * filled` to sell; `float(None)` raises.
abbrev pub gross_pnl_of : ExecutionCostSummary → ℕ → Result ℤ
gross_pnl_of e mark = if leb e.filled_qty eps then ok (pos 0) else elim e.average_fill_price [
  | none ↦ err average_missing
  | some average ↦ ok (adverse e.side mark average *ℤ e.filled_qty)
]

unfoldable pub mark_to_market_pnl : ExecutionCostSummary → Float → Result PnlSummary
unfolding nonnegative_finite
mark_to_market_pnl e mark_price = do
  mark ← nonnegative_finite mark_price Field.mark_price
  gross ← gross_pnl_of e mark
  ok (record {
    side = e.side;
    filled_qty = e.filled_qty;
    average_fill_price = e.average_fill_price;
    mark_price = mark;
    gross_pnl = gross;
    net_fee_cost = e.net_fee_cost;
    net_pnl = gross -ℤ e.net_fee_cost;
  })
