-- ===== src/Portfolio.antt =====
-- The portfolio, src/std0_quant/execution/portfolio.py: cash, positions, reservations and fills.
-- Of a key, the two strings that `_key` lets through are numbers here: they are only compared.
-- Quantities and prices are grains; cash, costs and profit are products of the two, so squares of a
-- grain. `Portfolio.Fills` has the two fills.
pub mod Fills
pub mod Reserve
pub mod Buy
pub mod Equity
mod Tests
use polymarket_quant.Common.{
  ℕ, ◌+◌, ◌-◌, Bool, true, false, ◌&&◌, Option, none, some, List, [], ◌∷◌, ltb, leb, sum_of,
  if◌then◌else◌, lookup, store, drop_key, get_or, pair_eq,
}
use polymarket_quant.Common.Int.{ℤ, pos, pos_part, ltb_ℤ, leb_ℤ, ◌+ℤ◌, ◌-ℤ◌}
use polymarket_quant.Numeric.{
  Float, Field, Result, ok, err, eps, positive_finite, nonnegative_finite, not_finite, finite,
  reserved_exceeds_cash, insufficient_position, release_exceeds_reserved, insufficient_cash,
  negative_cash,
}
use polymarket_quant.Numeric
use polymarket_quant.Action.{Action, ◌>>=◌, ◌>>◌, pure, lift, get, modify, raise_when}

-- `_EPS` as an amount of cash.
abbrev pub eps_cash : ℕ
eps_cash = 1000000000000

-- `(condition_id, outcome)`
abbrev pub Key : Type 0
Key = ℕ × ℕ

pub record Position : Type 0 where
  pub qty : ℕ
  pub cost_basis : ℕ

-- The cash can be below zero only where the last assertion of `_normalize` on it has failed.
pub record PortfolioState : Type 0 where
  pub cash : ℤ
  pub reserved_cash : ℕ
  pub realized_pnl : ℤ
  pub positions : List (Key × Position)
  pub reserved_positions : List (Key × ℕ)

abbrev pub empty_position : Position
empty_position = record { qty = 0; cost_basis = 0 }

-- `_finite`
finite_number : Float → Field → Result ℤ
finite_number (finite z) name = ok z
finite_number _ name = err (not_finite name)

-- `PortfolioState(...)` and its `__post_init__`, on the two dictionaries that it keeps.
unfoldable pub create :
    Float → Float → Float → List (Key × Position) → List (Key × ℕ) → Result PortfolioState
unfolding nonnegative_finite finite_number
create cash reserved_cash realized_pnl positions reserved_positions =
    Numeric.◌>>=◌ (nonnegative_finite cash Field.cash) λ c.
      Numeric.◌>>=◌ (nonnegative_finite reserved_cash Field.reserved_cash) λ r.
        Numeric.◌>>=◌ (finite_number realized_pnl Field.realized_pnl) λ p.
          Numeric.◌>>◌ (Numeric.raise_if (ltb (c + eps_cash) r) reserved_exceeds_cash) (
            ok (record {
              cash = pos c;
              reserved_cash = r;
              realized_pnl = p;
              positions = positions;
              reserved_positions = reserved_positions;
            }))

-- `max(0.0, cash - reserved_cash)`: subtraction on ℕ stops at 0.
abbrev pub available_cash : PortfolioState → ℕ
available_cash s = pos_part s.cash - s.reserved_cash

abbrev pub cost_of : Key × Position → ℕ
cost_of p = p.1.cost_basis

abbrev pub gross_cost_exposure : PortfolioState → ℕ
gross_cost_exposure s = sum_of cost_of s.positions

abbrev pub reserved_position_qty : Key → PortfolioState → ℕ
reserved_position_qty key s = get_or 0 key s.reserved_positions

-- `positions.get(key)`, where none stands for the empty position.
abbrev pub held : Key → PortfolioState → Position
held key s = get_or empty_position key s.positions

-- `max(0.0, held - reserved)`: subtraction on ℕ stops at 0.
abbrev pub available_position_qty : Key → PortfolioState → ℕ
available_position_qty key s = (held key s).qty - reserved_position_qty key s

unfoldable pub reserve_sell_qty : Key → Float → Action PortfolioState (Unit {0})
unfolding positive_finite
reserve_sell_qty key qty = do
  n ← lift (positive_finite qty Field.qty)
  s ← get
  raise_when (ltb (available_position_qty key s + eps) n) insufficient_position
  modify (λ p. record p {
    reserved_positions = store key (reserved_position_qty key p + n) p.reserved_positions;
  })

unfoldable pub release_reserved_sell_qty : Key → Float → Action PortfolioState (Unit {0})
unfolding positive_finite
release_reserved_sell_qty key qty = do
  n ← lift (positive_finite qty Field.qty)
  s ← get
  let reserved = reserved_position_qty key s
  raise_when (ltb (reserved + eps) n) release_exceeds_reserved
  let remaining = reserved - n
  modify (λ p. record p {
    reserved_positions =
        if leb remaining eps
        then drop_key key p.reserved_positions
        else store key remaining p.reserved_positions;
  })

-- `abs(cash) <= _EPS`
abbrev pub is_dust : ℤ → Bool
is_dust c = leb_ℤ c (pos eps_cash) && leb_ℤ (pos 0) (c +ℤ pos eps_cash)

abbrev pub snap_cash : ℤ → ℤ
snap_cash c = if is_dust c then pos 0 else c

abbrev pub snap_reserved : ℕ → ℕ
snap_reserved c = if leb c eps_cash then 0 else c

-- `_normalize`
abbrev pub normalize : Action PortfolioState (Unit {0})
normalize = do
  modify (λ p. record p { cash = snap_cash p.cash; reserved_cash = snap_reserved p.reserved_cash })
  s ← get
  raise_when (ltb_ℤ (s.cash +ℤ pos eps_cash) (pos 0)) negative_cash
  raise_when (ltb_ℤ (s.cash +ℤ pos eps_cash) (pos s.reserved_cash)) reserved_exceeds_cash

unfoldable pub reserve_buy_cash : Float → Action PortfolioState (Unit {0})
unfolding positive_finite
reserve_buy_cash amount = do
  n ← lift (positive_finite amount Field.amount)
  s ← get
  raise_when (ltb (available_cash s + eps_cash) n) insufficient_cash
  modify (λ p. record p { reserved_cash = p.reserved_cash + n })
  normalize

unfoldable pub release_reserved_cash : Float → Action PortfolioState (Unit {0})
unfolding positive_finite
release_reserved_cash amount = do
  n ← lift (positive_finite amount Field.amount)
  s ← get
  raise_when (ltb (s.reserved_cash + eps_cash) n) release_exceeds_reserved
  modify (λ p. record p { reserved_cash = p.reserved_cash - n })
  normalize
