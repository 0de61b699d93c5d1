-- ===== src/Pipeline/Booking.antt =====
-- What booking the fills of an order adds to the exposures
-- (src/std0_quant/execution/risk_execution_pipeline.py, passive_risk_pipeline.py).
use polymarket_quant.Common.{
  ℕ, ◌+◌, ◌*◌, ◌≤◌, ◌<◌, ◌≡◌, refl, true, inl, inr, List, [], ◌∷◌, sum_of, store, ap, pair_eq, All,
  arith,
}
use polymarket_quant.Numeric.{eps}
use polymarket_quant.Action.{Action, >>-cases}
use polymarket_quant.Fill.{Fill, notional}
use polymarket_quant.Portfolio.{Key, Position, PortfolioState, held, gross_cost_exposure, cost_of}
use polymarket_quant.Portfolio.Equity.{exposure-store, buy_books, after_buy, bought}
use polymarket_quant.Risk.{in_market, market_exposure}
use polymarket_quant.Risk.Gate.{market-store}
use polymarket_quant.Cost.{FeeSchedule, fee_of, rebate_of}
use polymarket_quant.Pipeline.{Working, book_buy, for_each}

-- Both exposures grow by at most `k`.
abbrev pub Grows : Key → ℕ → PortfolioState → PortfolioState → Type 0
Grows key k s s' =
    (market_exposure key.0 s' ≤ market_exposure key.0 s + k)
    × (gross_cost_exposure s' ≤ gross_cost_exposure s + k)

module _ (key : Key) (s s' : PortfolioState) where
  pub same_positions-Grows : s'.positions ≡ s.positions → Grows key 0 s s'
  same_positions-Grows e =
      (rw (ap (sum_of (in_market key.0)) e) (omega arith), rw (ap (sum_of cost_of) e) (omega arith))

  pub stored-Grows :
      (p : Position) (k : ℕ)
      → s'.positions ≡ store key p s.positions
      → p.cost_basis ≤ (held key s).cost_basis + k
      → Grows key k s s'
  stored-Grows p k e l = (
    rw (ap (sum_of (in_market key.0)) e) (omega (arith, market-store key p s)),
    rw (ap (sum_of cost_of) e) (omega (arith, exposure-store key p s)),
  )

pub Grows-trans :
    (key : Key) (a b : ℕ) (s t u : PortfolioState) {c : ℕ}
    → a + b ≤ c
    → Grows key a s t
    → Grows key b t u
    → Grows key c s u
Grows-trans key a b s t u l g h = ground arith

-- A buy of more than `_EPS` adds at most its gross amount, whatever comes of it.
pub buy-Grows :
    (key : Key) (n p fee rebate : ℕ) (s : PortfolioState)
    → eps < n
    → Grows key (p * n) s (bought key n p fee rebate s true)
buy-Grows key n p fee rebate s l =
    let s' : PortfolioState = bought key n p fee rebate s true in
    elim (buy_books key n p fee rebate s true l) [
      | inl u ↦
          let same = same_positions-Grows key s s' u.1 in
          (omega (arith, same.0), omega (arith, same.1))
      | inr b ↦ stored-Grows key s s' (after_buy key n p fee rebate s) (p * n) b.1 (omega arith)
    ]

-- The same of the loop's body, its test of the reservation included.
pub book_buy-Grows :
    (key : Key) (fees : FeeSchedule) (f : Fill) (w : Working)
    → eps < f.qty
    → Grows key (notional f) w.portfolio (book_buy key fees f w).1.portfolio
unfolding book_buy
book_buy-Grows key fees f w l =
    ground (arith, buy-Grows key f.qty f.price (fee_of fees f) (rebate_of fees f) w.portfolio l)

-- The loop over the fills, whether it ends or is left by an exception.
module _ {S : Type 0} (key : Key) (portfolio : S → PortfolioState)
    (body : Fill → Action S (Unit {0})) (P : Fill → Type 0)
    (step : (f : Fill) (w : S)
      → P f
      → Grows key (notional f) (portfolio w) (portfolio (body f w).1)) where
  pub for_each-Grows :
      (fs : List Fill) (w : S)
      → All P fs
      → Grows key (sum_of notional fs) (portfolio w) (portfolio (for_each body fs w).1)
  unfolding for_each
  for_each-Grows [] w a = same_positions-Grows key (portfolio w) (portfolio w) refl
  for_each-Grows (f ∷ fs) w a =
      let w' : S = (body f w).1 in
      let first = step f w a.0 in
      >>-cases (λ r. Grows key (sum_of notional (f ∷ fs)) (portfolio w) (portfolio r.1)) (body f)
        (for_each body fs) w
        (λ e.
          Grows-trans key (notional f) 0 (portfolio w) (portfolio w') (portfolio w') (omega arith)
            first (same_positions-Grows key (portfolio w') (portfolio w') refl))
        (Grows-trans key (notional f) (sum_of notional fs) (portfolio w) (portfolio w')
          (portfolio (for_each body fs w').1) (omega arith) first (for_each-Grows fs w' a.1))
