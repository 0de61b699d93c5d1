-- ===== src/Pipeline/Exposure.antt =====
-- The exposures after a whole call of the aggressive pipeline for a BUY order
-- (src/std0_quant/execution/risk_execution_pipeline.py).
use polymarket_quant.Common.{
  ℕ, ◌+◌, ◌*◌, ◌≤◌, ◌≡◌, refl, true, false, not, none, some, inl, inr, ◌⊎◌, List, arith, subst, sym,
  if◌then◌else◌,
}
use polymarket_quant.Numeric.{Result, ok, err, Float, eps, of_nat}
use polymarket_quant.Action.{
  Action, ◌>>◌, ◌>>=◌, >>-cases, >>=-cases, lift, get, pure, try_cleanup, try_cleanup-cases,
}
use polymarket_quant.Fill.{Side}
use polymarket_quant.Timestamps.{OrderTimestamps}
use polymarket_quant.Taker.{AggressiveTif}
use polymarket_quant.Taker.Prices.{IsCheap}
use polymarket_quant.Portfolio.{
  Key, PortfolioState, eps_cash, gross_cost_exposure, reserve_buy_cash, release_reserved_cash,
}
use polymarket_quant.Risk.{
  RiskLimits, RiskOrderIntent, RiskContext, RiskResult, allowed, market_exposure,
  evaluate_order_risk,
}
use polymarket_quant.Risk.Gate.{passed_iff}
use polymarket_quant.Cost.{FeeSchedule}
use polymarket_quant.Costed.{CostedAggressiveResult, simulate_aggressive_with_costs}
use polymarket_quant.Pipeline.{Working, for_each}
use polymarket_quant.Pipeline.Aggressive.{
  RiskGatedExecutionResult, result_of, executable_levels, book, release_rest, execute,
  effective_context, reserve, reserved_for, with_reservation, execute_aggressive_with_risk,
}
use polymarket_quant.Pipeline.Booking.{
  Grows, Grows-trans, same_positions-Grows, book_buy-Grows, for_each-Grows,
}
use polymarket_quant.Pipeline.Spending.{Affordable, costed-Affordable}

within-Grows :
    (key : Key) (s t : PortfolioState) {c d : ℕ} → c ≤ d → Grows key c s t → Grows key d s t
within-Grows key s t l g = ground arith

-- The exposure did not grow, or what the limit leaves for the order's notional covers what its fills can
-- cost.
abbrev pub IsBounded : ℕ → ℕ → ℕ → ℕ → ℕ → Type 0
IsBounded qty limit most before after =
    (after ≤ before) ⊎ (after + limit * qty ≤ most + eps_cash + (limit + eps) * (qty + eps))

module _ (key : Key) (qty limit : ℕ) (fees : FeeSchedule) where
  abbrev buy_order : RiskOrderIntent
  buy_order = record { key = key; side = Side.buy; qty = qty; limit_price = limit }

  -- What the fills of the order can cost: they may be `_EPS` dearer and `_EPS` more than it says.
  abbrev dearest : ℕ
  dearest = (limit + eps) * (qty + eps)

  release_rest_positions :
      (w : Working) → (release_rest Side.buy w).1.portfolio.positions ≡ w.portfolio.positions
  unfolding release_rest release_reserved_cash
  release_rest_positions w = ground arith

  module _ (tif : AggressiveTif) (levels : List (Float × Float)) (times : OrderTimestamps)
      (reference_price mark_price : Float) where
    abbrev Worked : {A : Type 0} → PortfolioState → Result A × Working → Type 0
    Worked s r = Grows key dearest s r.1.portfolio

    released-Grows :
        {A : Type 0} (k : Action Working A) (s : PortfolioState) (w : Working)
        → ((v : Working) → (k v).1.portfolio ≡ v.portfolio)
        → Grows key dearest s w.portfolio
        → Worked s ((release_rest Side.buy >> k) w)
    released-Grows k s w keeps g =
        let w' : Working = (release_rest Side.buy w).1 in
        let same : Grows key dearest s w'.portfolio =
          Grows-trans key dearest 0 s w.portfolio w'.portfolio (omega arith) g
            (same_positions-Grows key w.portfolio w'.portfolio (release_rest_positions w)) in
        >>-cases (Worked s) (release_rest Side.buy) k w (λ e. same)
          (subst (Grows key dearest s) (sym (keeps w')) same)

    module _ (risk : RiskResult) where
      -- What follows the simulation.
      abbrev rest : CostedAggressiveResult → Action Working RiskGatedExecutionResult
      rest e =
          for_each (book buy_order fees) e.simulation.fills
          >> (release_rest Side.buy >> (get >>= λ v. pure (result_of risk (some e) v.portfolio)))

      rest-Grows :
          (e : CostedAggressiveResult) (w : Working)
          → Affordable qty limit (ok e)
          → Worked w.portfolio (rest e w)
      rest-Grows e w can =
          let s : PortfolioState = w.portfolio in
          let fs = e.simulation.fills in
          let finish : Action Working RiskGatedExecutionResult =
            get >>= λ v. pure (result_of risk (some e) v.portfolio) in
          let w1 : Working = (for_each (book buy_order fees) fs w).1 in
          let booked : Grows key dearest s w1.portfolio = within-Grows key s w1.portfolio can.1 (
            for_each-Grows key (λ v. v.portfolio) (book buy_order fees) (IsCheap (limit + eps))
              (λ f v c. book_buy-Grows key fees f v c.1) fs w can.0) in
          >>-cases (Worked s) (for_each (book buy_order fees) fs) (release_rest Side.buy >> finish)
            w (λ x. booked) (released-Grows finish s w1 (λ v. refl) booked)

      execute-Grows :
          (w : Working)
          → Worked w.portfolio
              (execute buy_order tif levels times reference_price mark_price fees risk w)
      unfolding execute
      execute-Grows w =
          let s : PortfolioState = w.portfolio in
          >>=-cases (Worked s)
            (lift (
              simulate_aggressive_with_costs Side.buy tif (of_nat qty)
                (executable_levels Side.buy limit levels) times reference_price mark_price fees))
            rest w (λ e. within-Grows key s s (omega arith) (same_positions-Grows key s s refl))
            (λ e h. rest-Grows e w (
              subst (Affordable qty limit) h
                (costed-Affordable qty limit fees tif levels times reference_price mark_price)))

    tried-Grows :
        (risk : RiskResult) (w : Working)
        → Worked w.portfolio (
            try_cleanup
              (execute buy_order tif levels times reference_price mark_price fees risk)
              (release_rest Side.buy)
              w)
    tried-Grows risk w =
        let run : Action Working RiskGatedExecutionResult =
          execute buy_order tif levels times reference_price mark_price fees risk in
        let g : Worked w.portfolio (run w) = execute-Grows risk w in
        let s : PortfolioState = w.portfolio in
        try_cleanup-cases (Worked s) run (release_rest Side.buy) w (λ a h. g)
          (λ e. released-Grows (λ t. (err e, t)) s (run w).1 (λ t. refl) g)

    abbrev BothBounded : RiskLimits → PortfolioState → PortfolioState → Type 0
    BothBounded limits s s' =
        IsBounded qty limit limits.max_market_exposure (market_exposure key.0 s)
          (market_exposure key.0 s')
        × IsBounded qty limit limits.max_gross_exposure (gross_cost_exposure s)
            (gross_cost_exposure s')

    unchanged-BothBounded :
        (limits : RiskLimits) (s s' : PortfolioState) → Grows key 0 s s' → BothBounded limits s s'
    unchanged-BothBounded limits s s' g = (inl (omega (arith, g.0)), inl (omega (arith, g.1)))

    reserve_positions :
        (n : Float) (s : PortfolioState) → (reserve_buy_cash n s).1.positions ≡ s.positions
    unfolding reserve_buy_cash
    reserve_positions n s = ground arith

    module _ (limits : RiskLimits) (context : RiskContext) (s : PortfolioState) where
      abbrev risk : RiskResult
      risk = evaluate_order_risk s buy_order limits (effective_context buy_order fees context)

      -- The part of the call that an allowed order reaches.
      abbrev go_on : Action PortfolioState RiskGatedExecutionResult
      go_on =
          reserve buy_order risk
          >> with_reservation (reserved_for buy_order risk) (
              try_cleanup (execute buy_order tif levels times reference_price mark_price fees risk)
                (release_rest Side.buy))

      go_on-BothBounded : allowed risk ≡ true → BothBounded limits s (go_on s).1
      go_on-BothBounded h =
          let may =
            (passed_iff s buy_order limits (effective_context buy_order fees context)).0 h in
          let s1 : PortfolioState = (reserve buy_order risk s).1 in
          let kept : Grows key 0 s s1 =
            same_positions-Grows key s s1 (reserve_positions (of_nat risk.cash_required) s) in
          let w : Working = record { portfolio = s1; remaining = risk.cash_required } in
          let g = tried-Grows risk w in
          >>-cases (λ r. BothBounded limits s r.1) (reserve buy_order risk)
            (with_reservation (reserved_for buy_order risk) (
              try_cleanup (execute buy_order tif levels times reference_price mark_price fees risk)
                (release_rest Side.buy)))
            s (λ e. unchanged-BothBounded limits s s1 kept)
            (inr (omega (arith, kept.0, g.0, may.5)), inr (omega (arith, kept.1, g.1, may.6)))

    -- Whatever comes of the call for a BUY order, also when it raises: each exposure, of the order's market
    -- and of all positions, did not grow, or it stays within its limit, up to `_CASH_EPS` and what the fills
    -- can cost more than the order's notional, as they may be `_EPS` dearer and `_EPS` more.
    pub exposure-IsBounded :
        (limits : RiskLimits) (context : RiskContext) (s : PortfolioState)
        → let s' =
            (execute_aggressive_with_risk buy_order tif levels times reference_price mark_price
              limits context fees s).1 in
          IsBounded qty limit limits.max_market_exposure
            (market_exposure key.0 s)
            (market_exposure key.0 s')
          × IsBounded qty limit limits.max_gross_exposure
              (gross_cost_exposure s)
              (gross_cost_exposure s')
    unfolding execute_aggressive_with_risk
    exposure-IsBounded limits context s =
        let r = risk limits context s in
        elim (allowed r)
            as (λ c.
              allowed r ≡ c
              → BothBounded limits s
                  ((if not c then pure (result_of r none s) else go_on limits context s) s).1) [
                    | true ↦ go_on-BothBounded limits context s
                    | false ↦
                        λ h. unchanged-BothBounded limits s s (same_positions-Grows key s s refl)
                  ]
          refl
