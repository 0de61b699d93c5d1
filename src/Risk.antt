-- ===== src/Risk.antt =====
-- The risk gate, src/std0_quant/execution/risk.py. It reads the portfolio and changes nothing.
pub mod Gate
mod Tests
use polymarket_quant.Common.{
  ℕ, ◌+◌, ◌-◌, ◌*◌, Bool, true, false, List, [], ◌∷◌, ◌++◌, ltb, minimum, sum_of, ◌==◌,
  if◌then◌else◌,
}
use polymarket_quant.Common.Int.{pos, leb_ℤ, ◌+ℤ◌}
use polymarket_quant.Numeric.{
  Float, Field, Result, ok, eps, ◌>>=◌, positive_finite, nonnegative_finite,
}
use polymarket_quant.Fill.{Side}
use polymarket_quant.Portfolio.{
  Key, Position, PortfolioState, eps_cash, held, cost_of, available_cash, available_position_qty,
  gross_cost_exposure,
}
use polymarket_quant.Portfolio.Fills.{removed_cost}

pub data RiskDecision : Type 0 where
  allow reject : RiskDecision

pub record RiskLimits : Type 0 where
  pub max_order_notional : ℕ
  pub max_market_exposure : ℕ
  pub max_gross_exposure : ℕ
  pub max_daily_loss : ℕ
  pub max_market_data_age_ms : ℕ

unfoldable pub create_limits : Float → Float → Float → Float → Float → Result RiskLimits
unfolding nonnegative_finite
create_limits order market gross loss age = do
  o ← nonnegative_finite order Field.limit
  m ← nonnegative_finite market Field.limit
  g ← nonnegative_finite gross Field.limit
  l ← nonnegative_finite loss Field.limit
  a ← nonnegative_finite age Field.limit
  ok (record {
    max_order_notional = o;
    max_market_exposure = m;
    max_gross_exposure = g;
    max_daily_loss = l;
    max_market_data_age_ms = a;
  })

-- `key` is `(condition_id, outcome)`.
pub record RiskOrderIntent : Type 0 where
  pub key : Key
  pub side : Side
  pub qty : ℕ
  pub limit_price : ℕ

-- The checks of the numbers; the strings of the key and the side are those that their checks let through.
unfoldable pub create_intent : Key → Side → Float → Float → Result RiskOrderIntent
unfolding positive_finite
create_intent key side qty limit_price = do
  n ← positive_finite qty Field.qty
  p ← positive_finite limit_price Field.limit_price
  ok (record { key = key; side = side; qty = n; limit_price = p })

abbrev pub order_notional : RiskOrderIntent → ℕ
order_notional i = i.qty * i.limit_price

pub record RiskContext : Type 0 where
  pub now_ts_ms : ℕ
  pub market_data_ts_ms : ℕ
  pub kill_switch : Bool
  pub estimated_fee_cost : ℕ

unfoldable pub create_context : Float → Float → Bool → Float → Result RiskContext
unfolding nonnegative_finite
create_context now_ts_ms market_data_ts_ms kill_switch estimated_fee_cost = do
  n ← nonnegative_finite now_ts_ms Field.now_ts_ms
  m ← nonnegative_finite market_data_ts_ms Field.market_event_ts_ms
  f ← nonnegative_finite estimated_fee_cost Field.estimated_fee_cost
  ok (record {
    now_ts_ms = n;
    market_data_ts_ms = m;
    kill_switch = kill_switch;
    estimated_fee_cost = f;
  })

pub data Reason : Type 0 where
  kill_switch_active market_data_from_future stale_market_data : Reason
  max_order_notional_exceeded insufficient_available_cash insufficient_available_position : Reason
  max_market_exposure_exceeded max_gross_exposure_exceeded max_daily_loss_reached : Reason

pub record RiskResult : Type 0 where
  pub decision : RiskDecision
  pub reasons : List Reason
  pub order_notional : ℕ
  pub cash_required : ℕ
  pub market_exposure_before : ℕ
  pub market_exposure_after : ℕ
  pub gross_exposure_before : ℕ
  pub gross_exposure_after : ℕ

abbrev pub allowed : RiskResult → Bool
allowed r = elim r.decision [ RiskDecision.allow ↦ true | RiskDecision.reject ↦ false ]

abbrev pub in_market : ℕ → Key × Position → ℕ
in_market condition_id p = if p.0.0 == condition_id then cost_of p else 0

-- `_market_exposure`
abbrev pub market_exposure : ℕ → PortfolioState → ℕ
market_exposure condition_id s = sum_of (in_market condition_id) s.positions

-- `if c: reasons.append(r)`
abbrev pub reason_if : Bool → Reason → List Reason
reason_if true r = r ∷ []
reason_if false r = []

abbrev pub data_reasons : RiskLimits → RiskContext → List Reason
data_reasons limits c =
    if ltb (c.now_ts_ms + eps) c.market_data_ts_ms
    then Reason.market_data_from_future ∷ []
    else reason_if (ltb (limits.max_market_data_age_ms + eps) (c.now_ts_ms - c.market_data_ts_ms))
        Reason.stale_market_data

abbrev pub cash_required : RiskOrderIntent → RiskContext → ℕ
cash_required i c = elim i.side [
  | Side.buy ↦ order_notional i + c.estimated_fee_cost
  | Side.sell ↦ 0
]

-- `min(position_cost_basis, average_cost * qty)`, where a position of dust has the average cost 0.
abbrev pub sale_cost : PortfolioState → RiskOrderIntent → ℕ
sale_cost s i =
    let h = held i.key s in minimum h.cost_basis (if ltb eps h.qty then removed_cost h i.qty else 0)

-- `max(0.0, exposure - removed_cost)`: subtraction on ℕ stops at 0.
abbrev pub exposure_after : PortfolioState → RiskOrderIntent → ℕ → ℕ
exposure_after s i before = elim i.side [
  | Side.buy ↦ before + order_notional i
  | Side.sell ↦ before - sale_cost s i
]

abbrev pub funds_reasons : PortfolioState → RiskOrderIntent → RiskContext → List Reason
funds_reasons s i c = elim i.side [
  | Side.buy ↦
      reason_if (ltb (available_cash s + eps_cash) (cash_required i c))
        Reason.insufficient_available_cash
  | Side.sell ↦
      reason_if (ltb (available_position_qty i.key s + eps) i.qty)
        Reason.insufficient_available_position
]

abbrev pub exposure_reasons : RiskLimits → ℕ → ℕ → List Reason
exposure_reasons limits market gross =
    reason_if (ltb (limits.max_market_exposure + eps_cash) market)
      Reason.max_market_exposure_exceeded
    ++ reason_if (ltb (limits.max_gross_exposure + eps_cash) gross)
        Reason.max_gross_exposure_exceeded

abbrev decide : List Reason → RiskDecision
decide [] = RiskDecision.allow
decide (_ ∷ _) = RiskDecision.reject

unfoldable pub evaluate_order_risk :
    PortfolioState → RiskOrderIntent → RiskLimits → RiskContext → RiskResult
evaluate_order_risk s i limits c =
    let market_before = market_exposure i.key.0 s in
    let gross_before = gross_cost_exposure s in
    let market_after = exposure_after s i market_before in
    let gross_after = exposure_after s i gross_before in
    let reasons =
      reason_if c.kill_switch Reason.kill_switch_active
      ++ data_reasons limits c
      ++ reason_if (ltb (limits.max_order_notional + eps_cash) (order_notional i))
          Reason.max_order_notional_exceeded
      ++ funds_reasons s i c
      ++ exposure_reasons limits market_after gross_after
      ++ reason_if (leb_ℤ (s.realized_pnl +ℤ pos (limits.max_daily_loss + eps_cash)) (pos 0))
          Reason.max_daily_loss_reached in
    record {
      decision = decide reasons;
      reasons = reasons;
      order_notional = order_notional i;
      cash_required = cash_required i c;
      market_exposure_before = market_before;
      market_exposure_after = market_after;
      gross_exposure_before = gross_before;
      gross_exposure_after = gross_after;
    }
