-- ===== src/Portfolio/Reserve.antt =====
-- Reservations of cash and of positions (src/std0_quant/execution/portfolio.py).
use polymarket_quant.Common.{
  ℕ, ◌+◌, ◌-◌, ◌≤◌, ◌<◌, ◌≡◌, leb, arith, if◌then◌else◌, store, same, pair_eq, lookup-store,
  lookup-drop_key,
}
use polymarket_quant.Numeric.{ok, eps, of_nat}
use polymarket_quant.Portfolio.{
  Key, PortfolioState, held, reserved_position_qty, available_position_qty, available_cash,
  eps_cash, snap_reserved, reserve_sell_qty, release_reserved_sell_qty, reserve_buy_cash,
  release_reserved_cash,
}
use polymarket_quant.Common.Int.{pos, ◌+ℤ◌}

-- No more of a position is reserved than is held, up to `_EPS`.
abbrev pub IsCovered : Key → PortfolioState → Type 0
IsCovered key s = reserved_position_qty key s ≤ (held key s).qty + eps

-- Reserving more than `_EPS` of any position, and releasing anything, accepted or not, never reserves
-- more of a position than is held, up to `_EPS`.
pub reservations-IsCovered :
    (k key : Key) (n : ℕ) (s : PortfolioState)
    → IsCovered k s
    → (eps < n → IsCovered k (reserve_sell_qty key (of_nat n) s).1)
      × IsCovered k (release_reserved_sell_qty key (of_nat n) s).1
unfolding reserve_sell_qty release_reserved_sell_qty
reservations-IsCovered k key n s c = (
  λ l. ground (arith, lookup-store k key (reserved_position_qty key s + n) s.reserved_positions),
  ground (
    arith,
    lookup-store k key (reserved_position_qty key s - n) s.reserved_positions,
    lookup-drop_key k key s.reserved_positions,
  ),
)

-- Of a positive quantity that is available, up to `_EPS`, the reservation and then its release are both
-- accepted, and give back every reserved quantity, except that dust under the key becomes 0; cash and
-- held positions stay.
release_undoes_reserve :
    (k key : Key) (n : ℕ) (s : PortfolioState)
    → 0 < n
    → n ≤ available_position_qty key s + eps
    → let (r, s1) = reserve_sell_qty key (of_nat n) s in
      let (q, s2) = release_reserved_sell_qty key (of_nat n) s1 in
      (r ≡ ok tt)
      × (q ≡ ok tt)
      × (reserved_position_qty k s2 ≡ (
          if same k key
          then (if leb (reserved_position_qty key s) eps then 0 else reserved_position_qty key s)
          else reserved_position_qty k s))
      × (s2.cash ≡ s.cash)
      × (s2.positions ≡ s.positions)
unfolding reserve_sell_qty release_reserved_sell_qty
release_undoes_reserve k key n s p a =
    let d = store key (reserved_position_qty key s + n) s.reserved_positions in
    ground (
      arith,
      lookup-store key key (reserved_position_qty key s + n) s.reserved_positions,
      lookup-store k key (reserved_position_qty key s + n) s.reserved_positions,
      lookup-store k key (reserved_position_qty key s + n - n) d,
      lookup-drop_key k key d,
    )

-- For a portfolio whose cash is not negative, a reservation of more than `_EPS` that is available is accepted and takes its amount off the available
-- cash; its release is accepted and gives back the reserved cash, except that dust becomes 0.
reserve_buy_cash_lem :
    (n c : ℕ) (s : PortfolioState)
    → s.cash ≡ pos c
    → eps_cash < n
    → n ≤ available_cash s
    → let (r, s1) = reserve_buy_cash (of_nat n) s in
      let (q, s2) = release_reserved_cash (of_nat n) s1 in
      (r ≡ ok tt)
      × (available_cash s1 + n ≡ available_cash s)
      × (q ≡ ok tt)
      × (s2.cash ≡ s.cash)
      × (s2.reserved_cash ≡ snap_reserved s.reserved_cash)
unfolding reserve_buy_cash release_reserved_cash ◌+ℤ◌
reserve_buy_cash_lem n c s e p a = ground arith
