-- ===== src/Risk/Gate.antt =====
-- What the gate lets through
-- (src/std0_quant/execution/risk.py).
use polymarket_quant.Common.{
  ℕ, ◌+◌, ◌-◌, ◌*◌, ◌/◌, ltb, if◌then◌else◌, subst, ◌≤◌, ◌≡◌, ◌↔◌, true, false, sum_of,
  sum_of-store, store, pair_eq, arith,
}
use polymarket_quant.Common.Int.{pos, ◌+ℤ◌, ltb_ℤ}
use polymarket_quant.Numeric.{eps}
use polymarket_quant.Fill.{Side}
use polymarket_quant.Portfolio.{
  Key, Position, PortfolioState, eps_cash, held, cost_of, available_cash, available_position_qty,
  gross_cost_exposure,
}
use polymarket_quant.Risk.{
  RiskLimits, RiskOrderIntent, RiskContext, allowed, market_exposure, in_market, exposure_after,
  evaluate_order_risk,
}

-- The order's own value, at its limit.
abbrev value : RiskOrderIntent → ℕ
value i = i.qty * i.limit_price

-- The order can be paid, or delivered, from what is not reserved.
abbrev pub IsFunded : PortfolioState → RiskOrderIntent → RiskContext → Type 0
IsFunded s i c = elim i.side [
  | Side.buy ↦ value i + c.estimated_fee_cost ≤ available_cash s + eps_cash
  | Side.sell ↦ i.qty ≤ available_position_qty i.key s + eps
]

-- All limits, each up to `_EPS`, for an order at a time when trading is on and the data is fresh, where the
-- exposures would be those two.
abbrev pub IsAllowed : PortfolioState → RiskOrderIntent → RiskLimits → RiskContext → ℕ → ℕ → Type 0
IsAllowed s i l c market gross =
    (c.kill_switch ≡ false)
    × (c.market_data_ts_ms ≤ c.now_ts_ms + eps)
    × (c.now_ts_ms ≤ c.market_data_ts_ms + l.max_market_data_age_ms + eps)
    × (value i ≤ l.max_order_notional + eps_cash)
    × IsFunded s i c
    × (market ≤ l.max_market_exposure + eps_cash)
    × (gross ≤ l.max_gross_exposure + eps_cash)
    × (ltb_ℤ (pos 0) (s.realized_pnl +ℤ pos (l.max_daily_loss + eps_cash)) ≡ true)

-- What the gate compares.
pub passed_iff :
    (s : PortfolioState) (i : RiskOrderIntent) (l : RiskLimits) (c : RiskContext)
    → (allowed (evaluate_order_risk s i l c) ≡ true)
      ↔ IsAllowed s i l c
          (exposure_after s i (market_exposure i.key.0 s))
          (exposure_after s i (gross_cost_exposure s))
unfolding evaluate_order_risk
passed_iff s i l c = ground arith

pub market-store :
    (key : Key) (p : Position) (s : PortfolioState)
    → sum_of (in_market key.0) (store key p s.positions) + (held key s).cost_basis
      ≡ market_exposure key.0 s + p.cost_basis
market-store key p s = ground (arith, sum_of-store (in_market key.0) key p s.positions)

gross-store :
    (key : Key) (p : Position) (s : PortfolioState)
    → sum_of cost_of (store key p s.positions) + (held key s).cost_basis
      ≡ gross_cost_exposure s + p.cost_basis
gross-store key p s = ground (arith, sum_of-store cost_of key p s.positions)

-- A position in which the order is filled whole at its limit: a BUY adds its value to the cost; a SELL
-- takes its share of the cost, none of a position of dust.
abbrev filled_position : RiskOrderIntent → Position → Position
filled_position i p = elim i.side [
  | Side.buy ↦ record { qty = p.qty + i.qty; cost_basis = p.cost_basis + value i }
  | Side.sell ↦ record {
    qty = p.qty - i.qty;
    cost_basis = p.cost_basis - (if ltb eps p.qty then p.cost_basis * i.qty / p.qty else 0);
  }
]

-- The portfolio in which the order is filled.
abbrev pub after_fill : PortfolioState → RiskOrderIntent → PortfolioState
after_fill s i = record s { positions = store i.key (filled_position i (held i.key s)) s.positions }

market-after_fill :
    (s : PortfolioState) (i : RiskOrderIntent)
    → exposure_after s i (market_exposure i.key.0 s) ≡ market_exposure i.key.0 (after_fill s i)
market-after_fill s i =
    let p : Position = held i.key s in
    elim i.side
      as (λ d.
        exposure_after s (record i { side = d }) (market_exposure i.key.0 s)
        ≡ market_exposure i.key.0 (after_fill s (record i { side = d }))) [
          | Side.buy ↦
              omega (arith, market-store i.key (filled_position (record i { side = Side.buy }) p) s)
          | Side.sell ↦ ground (
            arith,
            market-store i.key (filled_position (record i { side = Side.sell }) p) s,
            market-store i.key (record p { cost_basis = 0 }) s,
          )
        ]

gross-after_fill :
    (s : PortfolioState) (i : RiskOrderIntent)
    → exposure_after s i (gross_cost_exposure s) ≡ gross_cost_exposure (after_fill s i)
gross-after_fill s i =
    let p : Position = held i.key s in
    elim i.side
      as (λ d.
        exposure_after s (record i { side = d }) (gross_cost_exposure s)
        ≡ gross_cost_exposure (after_fill s (record i { side = d }))) [
          | Side.buy ↦
              omega (arith, gross-store i.key (filled_position (record i { side = Side.buy }) p) s)
          | Side.sell ↦ ground (
            arith,
            gross-store i.key (filled_position (record i { side = Side.sell }) p) s,
            gross-store i.key (record p { cost_basis = 0 }) s,
          )
        ]

-- The limits, for the exposures of the portfolio in which the order is filled.
abbrev pub IsPermitted : PortfolioState → RiskOrderIntent → RiskLimits → RiskContext → Type 0
IsPermitted s i l c =
    IsAllowed s i l c (market_exposure i.key.0 (after_fill s i))
      (gross_cost_exposure (after_fill s i))

-- The gate allows an order exactly when trading is on, the market data is neither from the future nor
-- stale, the order is within its limit and funded from what is not reserved, the cost of the positions of
-- its market and of all positions, in the portfolio in which the order is filled whole at its limit, are
-- within their limits, and the realized loss is below its limit, each up to `_EPS`.
pub allowed_iff :
    (s : PortfolioState) (i : RiskOrderIntent) (l : RiskLimits) (c : RiskContext)
    → (allowed (evaluate_order_risk s i l c) ≡ true) ↔ IsPermitted s i l c
allowed_iff s i l c =
    let ok_iff : Type 0 = allowed (evaluate_order_risk s i l c) ≡ true in
    subst (λ m. ok_iff ↔ IsAllowed s i l c m (gross_cost_exposure (after_fill s i)))
      (market-after_fill s i)
      (subst (λ g. ok_iff ↔ IsAllowed s i l c (exposure_after s i (market_exposure i.key.0 s)) g)
        (gross-after_fill s i) (passed_iff s i l c))
