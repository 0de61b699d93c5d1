-- ===== src/Portfolio/Buy.antt =====
-- What a buy fill does to cash, costs and reservations (src/std0_quant/execution/portfolio.py).
use polymarket_quant.Common.{
  ℕ, ◌+◌, ◌-◌, ◌*◌, ◌≤◌, ◌<◌, ◌≡◌, Bool, true, false, arith, if◌then◌else◌, same, same_refl,
  pair_eq, lookup-store,
}
use polymarket_quant.Common.Int.{pos, ◌+ℤ◌, ◌-ℤ◌, IsWithin, pos_add, pos_sub}
use polymarket_quant.Numeric.{ok, err, eps, of_nat, insufficient_cash, reserved_exceeds_cash}
use polymarket_quant.Portfolio.{
  Key, Position, PortfolioState, held, gross_cost_exposure, available_cash, eps_cash, snap_cash,
}
use polymarket_quant.Portfolio.Fills.{apply_buy_fill}
use polymarket_quant.Portfolio.Equity.{exposure-store, snap_cash_near}

module _ (key : Key) (n p fee rebate : ℕ) (s : PortfolioState) (traded : eps < n)
    (priced : 0 < p) where
  abbrev gross : ℕ
  gross = n * p

  abbrev after : Bool → PortfolioState
  after consume =
      (apply_buy_fill key (of_nat n) (of_nat p) (of_nat fee) (of_nat rebate) consume s).1

  abbrev next : Position
  next = record { qty = (held key s).qty + n; cost_basis = (held key s).cost_basis + gross }

  -- An accepted fill of more than `_EPS` at a positive price pays its gross amount and its fee, less the
  -- rebate, from the cash, up to `_EPS`; adds exactly the gross amount to the gross cost exposure and
  -- the quantity to that position; and leaves the other positions as they were.
  pub buy_fill_accounts :
      (consume : Bool) (k : Key)
      → (apply_buy_fill key (of_nat n) (of_nat p) (of_nat fee) (of_nat rebate) consume s).0 ≡ ok tt
      → IsWithin eps_cash ((after consume).cash) (s.cash -ℤ (pos (gross + fee) -ℤ pos rebate))
        × (gross_cost_exposure (after consume) ≡ gross_cost_exposure s + gross)
        × (held k (after consume) ≡ (if same k key then next else held k s))
  unfolding apply_buy_fill
  buy_fill_accounts true k h = ground (
    arith,
    exposure-store key next s,
    lookup-store k key next s.positions,
    snap_cash_near (s.cash -ℤ (pos (gross + fee) -ℤ pos rebate)),
  )
  buy_fill_accounts false k h = ground (
    arith,
    exposure-store key next s,
    lookup-store k key next s.positions,
    snap_cash_near (s.cash -ℤ (pos (gross + fee) -ℤ pos rebate)),
  )

  module _ (cash : ℕ) (counted : s.cash ≡ pos cash) where
    -- A fill of more than `_EPS` at a positive price that consumes a reservation which covers its net cost,
    -- of zero or more, and leaves more than `_EPS` of it, is accepted if the cash covers all reservations,
    -- and the available cash stays the same.
    reserved_fill_keeps_available :
        s.reserved_cash ≤ cash
        → rebate ≤ gross + fee
        → gross + fee + eps_cash < s.reserved_cash + rebate
        → (apply_buy_fill key (of_nat n) (of_nat p) (of_nat fee) (of_nat rebate) true s).0 ≡ ok tt
          × (available_cash (after true) ≡ available_cash s)
    unfolding apply_buy_fill
    reserved_fill_keeps_available c r l =
        let net : ℕ = gross + fee - rebate in
        let costs : pos (gross + fee) -ℤ pos rebate ≡ pos net = pos_sub r in
        let left : s.cash -ℤ (pos (gross + fee) -ℤ pos rebate) ≡ pos (cash - net) =
          rw (costs, counted) (pos_sub (omega arith)) in
        ground (
          arith,
          costs,
          left,
          pos_add net eps_cash,
          pos_add cash eps_cash,
          pos_add (cash - net) eps_cash,
        )

    -- A fill of more than `_EPS` at a positive price that is to consume a reservation, and costs more than the
    -- cash by more than `_EPS`, is refused; but the reserved cash, if no more than the cash, is released.
    pub refused_fill_releases :
        s.reserved_cash ≤ cash
        → cash + rebate + eps_cash < gross + fee
        → apply_buy_fill key (of_nat n) (of_nat p) (of_nat fee) (of_nat rebate) true s
          ≡ (err insufficient_cash, record s { reserved_cash = 0 })
    unfolding apply_buy_fill ◌+ℤ◌ ◌-ℤ◌
    refused_fill_releases c l = ground arith

    -- A fill of more than `_EPS` at a positive price and a net cost of zero or more that does not consume a
    -- reservation, and that the cash covers but not with the reserved cash left in it, by more than two
    -- `_EPS`, raises only after it has been booked: the cash is paid and the quantity is held.
    pub late_refusal_books :
        gross + fee ≤ cash + rebate
        → rebate ≤ gross + fee
        → cash + rebate + eps_cash + eps_cash < gross + fee + s.reserved_cash
        → ((apply_buy_fill key (of_nat n) (of_nat p) (of_nat fee) (of_nat rebate) false s).0
            ≡ err reserved_exceeds_cash)
          × ((after false).cash ≡ snap_cash (s.cash -ℤ (pos (gross + fee) -ℤ pos rebate)))
          × (held key (after false) ≡ next)
    unfolding apply_buy_fill ◌+ℤ◌ ◌-ℤ◌
    late_refusal_books c r l =
        let net : ℕ = gross + fee - rebate in
        let costs : pos (gross + fee) -ℤ pos rebate ≡ pos net = pos_sub r in
        let left : s.cash -ℤ (pos (gross + fee) -ℤ pos rebate) ≡ pos (cash - net) =
          rw (costs, counted) (pos_sub (omega arith)) in
        (
          ground (
            arith,
            pos_add 0 eps_cash,
            pos_add net eps_cash,
            pos_add cash eps_cash,
            pos_add (cash - net) eps_cash,
          ),
          ground
              (arith, pos_add net eps_cash, pos_add cash eps_cash, pos_add (cash - net) eps_cash),
          ground (
            arith,
            pos_add net eps_cash,
            pos_add cash eps_cash,
            pos_add (cash - net) eps_cash,
            lookup-store key key next s.positions,
            same_refl key,
          ),
        )
