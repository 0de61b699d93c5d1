-- ===== src/Submit/Positions.antt =====
-- What reservations leave of a portfolio (src/std0_quant/execution/exclusive_submit_path_v1.py).
use polymarket_quant.Common.{ℕ, ◌≡◌, refl, ◌∙◌, true, false, arith, leb, nat_eq, if◌then◌else◌}
use polymarket_quant.Numeric.{Float, Result, of_nat}
use polymarket_quant.Action.{Action, >>-cases, pure}
use polymarket_quant.Portfolio.{
  Key, PortfolioState, reserve_buy_cash, release_reserved_cash, reserve_sell_qty,
  release_reserved_sell_qty,
}
use polymarket_quant.Submit.{SubmitHold}
use polymarket_quant.Submit.Hold.{when_positive, reserve_on, release_on}

-- Reservations do not touch the positions.
module _ (s : PortfolioState) where
  abbrev SamePositions : {A : Type 0} → Result A × PortfolioState → Type 0
  SamePositions r = r.1.positions ≡ s.positions

  reserve_cash : (n : Float) → SamePositions (reserve_buy_cash n s)
  unfolding reserve_buy_cash
  reserve_cash n = ground arith

  release_cash : (n : Float) → SamePositions (release_reserved_cash n s)
  unfolding release_reserved_cash
  release_cash n = ground arith

  reserve_qty : (key : Key) (n : Float) → SamePositions (reserve_sell_qty key n s)
  unfolding reserve_sell_qty
  reserve_qty key n = ground arith

  release_qty : (key : Key) (n : Float) → SamePositions (release_reserved_sell_qty key n s)
  unfolding release_reserved_sell_qty
  release_qty key n = ground arith

  positive-SamePositions :
      (n : ℕ) (m : Action PortfolioState (Unit {0}))
      → SamePositions (m s)
      → SamePositions (when_positive n m s)
  positive-SamePositions n m h =
      elim (leb n 0) as (λ b. SamePositions ((if b then pure tt else m) s)) [
        | true ↦ refl
        | false ↦ h
      ]

module _ (h : SubmitHold) (s : PortfolioState) where
  pub reserve_on-positions : (reserve_on h s).1.positions ≡ s.positions
  reserve_on-positions =
      let first : Action PortfolioState (Unit {0}) =
        when_positive h.cash (reserve_buy_cash (of_nat h.cash)) in
      let second : Action PortfolioState (Unit {0}) =
        when_positive h.sell_qty (reserve_sell_qty h.key (of_nat h.sell_qty)) in
      let t : PortfolioState = (first s).1 in
      let same_cash : t.positions ≡ s.positions =
        positive-SamePositions s h.cash (reserve_buy_cash (of_nat h.cash))
          (reserve_cash s (of_nat h.cash)) in
      >>-cases (SamePositions s) first second s (λ e. same_cash)
        (positive-SamePositions t h.sell_qty (reserve_sell_qty h.key (of_nat h.sell_qty))
            (reserve_qty t h.key (of_nat h.sell_qty))
          ∙ same_cash)

  pub release_on-positions : (release_on h s).1.positions ≡ s.positions
  release_on-positions =
      let first : Action PortfolioState (Unit {0}) =
        when_positive h.cash (release_reserved_cash (of_nat h.cash)) in
      let second : Action PortfolioState (Unit {0}) =
        when_positive h.sell_qty (release_reserved_sell_qty h.key (of_nat h.sell_qty)) in
      let t : PortfolioState = (first s).1 in
      let same_cash : t.positions ≡ s.positions =
        positive-SamePositions s h.cash (release_reserved_cash (of_nat h.cash))
          (release_cash s (of_nat h.cash)) in
      >>-cases (SamePositions s) first second s (λ e. same_cash)
        (positive-SamePositions t h.sell_qty (release_reserved_sell_qty h.key (of_nat h.sell_qty))
            (release_qty t h.key (of_nat h.sell_qty))
          ∙ same_cash)
