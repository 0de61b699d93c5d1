-- ===== src/Portfolio/Equity.antt =====
-- What fills do to the equity at cost (src/std0_quant/execution/portfolio.py).
use polymarket_quant.Common.{
  ap, subst, sym, ℕ, ◌+◌, ◌-◌, ◌*◌, ◌≤◌, ◌<◌, ◌≡◌, Bool, true, false, sum_of, arith, ◌⊎◌, inl, inr,
  store, sum_of-store, pair_eq, lookup-store, same_refl,
}
use polymarket_quant.Common.Int.{ℤ, pos, ◌+ℤ◌, ◌-ℤ◌, IsWithin, int_laws}
use polymarket_quant.Numeric.{eps, of_nat}
use polymarket_quant.Portfolio.{
  Key, Position, PortfolioState, held, gross_cost_exposure, cost_of, eps_cash, snap_cash,
}
use polymarket_quant.Portfolio.Fills.{
  apply_buy_fill, apply_sell_fill, removed_cost, ensure_position, snap_position,
}
use native.Mathlib.Nat.{mul-div_left, div-le_of_le-mul, mul-le-mul_left}

-- Cash and positions at cost, without the realized profit.
abbrev pub equity : PortfolioState → ℤ
equity s = s.cash +ℤ pos (gross_cost_exposure s) -ℤ s.realized_pnl

pub snap_cash_near : (c : ℤ) → IsWithin eps_cash (snap_cash c) c
snap_cash_near c = grind int_laws

pub exposure-store :
    (key : Key) (p : Position) (s : PortfolioState)
    → sum_of cost_of (store key p s.positions) + (held key s).cost_basis
      ≡ gross_cost_exposure s + p.cost_basis
exposure-store key p s = ground (arith, sum_of-store cost_of key p s.positions)

abbrev pub Untouched : PortfolioState → PortfolioState → Type 0
Untouched s s' =
    (s'.cash ≡ s.cash) × (s'.positions ≡ s.positions) × (s'.realized_pnl ≡ s.realized_pnl)

-- A new key with an empty position does not change the exposure.
abbrev Unchanged : PortfolioState → PortfolioState → Type 0
Unchanged s s' =
    (s'.cash ≡ s.cash)
    × (gross_cost_exposure s' ≡ gross_cost_exposure s)
    × (s'.realized_pnl ≡ s.realized_pnl)

module _ (key : Key) (n p fee rebate : ℕ) (s : PortfolioState) where
  abbrev pub net : ℤ
  net = pos (n * p + fee) -ℤ pos rebate

  abbrev pub bought : Bool → PortfolioState
  bought consume =
      (apply_buy_fill key (of_nat n) (of_nat p) (of_nat fee) (of_nat rebate) consume s).1

  abbrev pub after_buy : Position
  after_buy = record { qty = (held key s).qty + n; cost_basis = (held key s).cost_basis + n * p }

  abbrev pub Booked : PortfolioState → Type 0
  Booked s' =
      (s'.cash ≡ snap_cash (s.cash -ℤ net))
      × (s'.positions ≡ store key after_buy s.positions)
      × (s'.realized_pnl ≡ s.realized_pnl -ℤ pos fee +ℤ pos rebate)

  -- A call leaves the cash, the positions and the profit as they were, or books the whole fill.
  pub buy_books :
      (consume : Bool) → eps < n → Untouched s (bought consume) ⊎ Booked (bought consume)
  unfolding apply_buy_fill
  buy_books true l = ground arith
  buy_books false l = ground arith

  Booked-equity : (s' : PortfolioState) → Booked s' → IsWithin eps_cash (equity s') (equity s)
  Booked-equity s' b =
      grind (int_laws, snap_cash_near (s.cash -ℤ net), exposure-store key after_buy s)

Unchanged-equity :
    (s s' : PortfolioState) → Unchanged s s' → IsWithin eps_cash (equity s') (equity s)
Unchanged-equity s s' u = grind int_laws

-- A buy of more than `_EPS`, accepted or not, keeps the equity at cost up to `_EPS`: what leaves the cash
-- is in the positions, or in the realized profit.
pub buy_keeps_equity :
    (key : Key) (n p fee rebate : ℕ) (s : PortfolioState) (consume : Bool)
    → eps < n
    → IsWithin eps_cash
        (equity (apply_buy_fill key (of_nat n) (of_nat p) (of_nat fee) (of_nat rebate) consume s).1)
        (equity s)
buy_keeps_equity key n p fee rebate s consume l = elim (buy_books key n p fee rebate s consume l) [
  | inl u ↦
      Unchanged-equity s (bought key n p fee rebate s consume) (u.0, ap (sum_of cost_of) u.1, u.2)
  | inr b ↦ Booked-equity key n p fee rebate s (bought key n p fee rebate s consume) b
]

held-ensure : (key : Key) (s : PortfolioState) → held key (ensure_position key s) ≡ held key s
held-ensure key s = grind (arith, lookup-store key key (held key s) s.positions, same_refl key)

exposure-ensure :
    (key : Key) (s : PortfolioState)
    → gross_cost_exposure (ensure_position key s) ≡ gross_cost_exposure s
exposure-ensure key s = omega (arith, exposure-store key (held key s) s)

-- A sale of the whole position, or one that leaves more than `_EPS` of it.
abbrev pub IsClean : ℕ → Position → Type 0
IsClean n h = (n ≡ h.qty) ⊎ (n + eps < h.qty)

removed_cost-le : (n : ℕ) (h : Position) → 0 < h.qty → IsClean n h → removed_cost h n ≤ h.cost_basis
removed_cost-le n h l c =
    div-le_of_le-mul h.qty (grind (arith, mul-le-mul_left {m = n} {n = h.qty} h.cost_basis))

removed_cost_whole : (h : Position) → 0 < h.qty → removed_cost h h.qty ≡ h.cost_basis
removed_cost_whole h l = mul-div_left h.cost_basis l

module _ (key : Key) (n p fee rebate : ℕ) (s : PortfolioState) where
  abbrev sold : PortfolioState
  sold = (apply_sell_fill key (of_nat n) (of_nat p) (of_nat fee) (of_nat rebate) s).1

  abbrev proceeds : ℤ
  proceeds = pos (p * n) -ℤ pos fee +ℤ pos rebate

  abbrev removed : ℕ
  removed = removed_cost (held key s) n

  abbrev Sold : PortfolioState → Type 0
  Sold s' =
      (s'.cash ≡ snap_cash (s.cash +ℤ proceeds))
      × (gross_cost_exposure s' + removed ≡ gross_cost_exposure s)
      × (s'.realized_pnl ≡ s.realized_pnl +ℤ (pos (p * n) -ℤ pos removed -ℤ pos fee +ℤ pos rebate))

  abbrev after_sell : Position
  after_sell = record { qty = (held key s).qty - n; cost_basis = (held key s).cost_basis - removed }

  snap_after_sell :
      0 < (held key s).qty
      → IsClean n (held key s)
      → (snap_position after_sell).cost_basis + removed ≡ (held key s).cost_basis
  snap_after_sell l (inl e) =
      let all : removed ≡ (held key s).cost_basis =
        subst (λ m. removed_cost (held key s) m ≡ (held key s).cost_basis) (sym e)
          (removed_cost_whole (held key s) l) in
      ground (arith, all)
  snap_after_sell l (inr m) = ground (arith, removed_cost-le n (held key s) l (inr m))

  sell_books : IsClean n (held key s) → Unchanged s sold ⊎ Sold sold
  unfolding apply_sell_fill
  sell_books c =
      let put = exposure-store key (snap_position after_sell) (ensure_position key s) in
      ground (arith, held-ensure key s, exposure-ensure key s, snap_after_sell, put)

  Sold-equity : (s' : PortfolioState) → Sold s' → IsWithin eps_cash (equity s') (equity s)
  Sold-equity s' b = grind (int_laws, snap_cash_near (s.cash +ℤ proceeds))

  -- A sale of the whole position, or one that leaves more than `_EPS` of it, accepted or not, keeps the
  -- equity at cost up to `_EPS`: what comes into the cash leaves the positions at their cost, and the
  -- rest is realized profit.
  pub sell_keeps_equity : IsClean n (held key s) → IsWithin eps_cash (equity sold) (equity s)
  sell_keeps_equity c = elim (sell_books c) [
    | inl u ↦ Unchanged-equity s sold u
    | inr b ↦ Sold-equity sold b
  ]
