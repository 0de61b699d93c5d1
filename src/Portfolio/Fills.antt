-- ===== src/Portfolio/Fills.antt =====
-- `apply_buy_fill` and `apply_sell_fill` (src/std0_quant/execution/portfolio.py).
use polymarket_quant.Common.{ℕ, ◌+◌, ◌-◌, ◌*◌, ◌/◌, Bool, ltb, leb, if◌then◌else◌, store, pair_eq}
use polymarket_quant.Common.Int.{pos, ltb_ℤ, ◌+ℤ◌, ◌-ℤ◌}
use polymarket_quant.Numeric.{
  Float, Field, eps, positive_finite, nonnegative_finite, insufficient_cash, negative_buy_cost,
  sell_exceeds_held, empty_position_sold,
}
use polymarket_quant.Action.{Action, ◌>>=◌, ◌>>◌, pure, lift, get, modify, raise_when}
use polymarket_quant.Portfolio.{
  Key, Position, PortfolioState, eps_cash, empty_position, held, normalize,
}

-- `reserved_cash - min(reserved_cash, net_cash_cost)` for a net cost of `cost - rebate`.
abbrev pub reserved_after : ℕ → ℕ → ℕ → ℕ
reserved_after reserved cost rebate =
    if leb rebate cost then reserved - (cost - rebate) else reserved + (rebate - cost)

-- `_normalize_position`; quantity and cost basis are not negative, so its assertions do not fail.
abbrev pub snap_position : Position → Position
snap_position p = if leb p.qty eps then empty_position else p

-- `self.position(...)`, and the changes of that object, normalised.
abbrev pub put_position : Key → Position → PortfolioState → PortfolioState
put_position key p s = record s { positions = store key (snap_position p) s.positions }

-- `self.position(...)` alone: a key that is not held gets an empty position.
abbrev pub ensure_position : Key → PortfolioState → PortfolioState
ensure_position key s = record s { positions = store key (held key s) s.positions }

unfoldable pub apply_buy_fill :
    Key → Float → Float → Float → Float → Bool → Action PortfolioState (Unit {0})
unfolding positive_finite nonnegative_finite
apply_buy_fill key qty price fee_cost rebate_credit consume_reserved_cash = do
  n ← lift (positive_finite qty Field.qty)
  p ← lift (positive_finite price Field.price)
  fee ← lift (nonnegative_finite fee_cost Field.fee_cost)
  rebate ← lift (nonnegative_finite rebate_credit Field.rebate_credit)
  let gross = n * p
  let net_cash_cost = pos (gross + fee) -ℤ pos rebate
  raise_when (ltb_ℤ (net_cash_cost +ℤ pos eps_cash) (pos 0)) negative_buy_cost
  if consume_reserved_cash
      then modify
          (λ s. record s { reserved_cash = reserved_after s.reserved_cash (gross + fee) rebate })
      else pure tt
  s ← get
  raise_when (ltb_ℤ (s.cash +ℤ pos eps_cash) net_cash_cost) insufficient_cash
  modify (λ s. record s { cash = s.cash -ℤ net_cash_cost })
  modify (λ s.
      put_position key
        (record { qty = (held key s).qty + n; cost_basis = (held key s).cost_basis + gross }) s)
  modify (λ s. record s { realized_pnl = s.realized_pnl -ℤ pos fee +ℤ pos rebate })
  normalize

-- `average_cost * qty`, the quotient rounded down.
abbrev pub removed_cost : Position → ℕ → ℕ
removed_cost p n = p.cost_basis * n / p.qty

-- What is left of a position never goes below zero by more than `_EPS`, which the normalisation takes
-- away, so the subtractions on ℕ give the same.
unfoldable pub apply_sell_fill :
    Key → Float → Float → Float → Float → Action PortfolioState (Unit {0})
unfolding positive_finite nonnegative_finite
apply_sell_fill key qty price fee_cost rebate_credit = do
  n ← lift (positive_finite qty Field.qty)
  p ← lift (positive_finite price Field.price)
  fee ← lift (nonnegative_finite fee_cost Field.fee_cost)
  rebate ← lift (nonnegative_finite rebate_credit Field.rebate_credit)
  modify (ensure_position key)
  s ← get
  let position = held key s
  raise_when (ltb (position.qty + eps) n) sell_exceeds_held
  raise_when (leb position.qty eps) empty_position_sold
  let removed = removed_cost position n
  let gross = p * n
  modify (λ s. record s { cash = s.cash +ℤ (pos gross -ℤ pos fee +ℤ pos rebate) })
  modify (
      put_position key
        (record { qty = position.qty - n; cost_basis = position.cost_basis - removed }))
  modify (λ s. record s {
    realized_pnl = s.realized_pnl +ℤ (pos gross -ℤ pos removed -ℤ pos fee +ℤ pos rebate);
  })
  normalize
