-- ===== src/Pipeline/Release.antt =====
-- What a call of the aggressive pipeline for a BUY order leaves reserved
-- (src/std0_quant/execution/risk_execution_pipeline.py).
use polymarket_quant.Common.{
  ℕ, ◌+◌, ◌*◌, ◌≤◌, ◌≡◌, true, false, not, none, some, List, [], ◌∷◌, arith, subst, if◌then◌else◌,
}
use polymarket_quant.Common.Int.{◌-ℤ◌}
use polymarket_quant.Numeric.{Result, ok, err, Float, of_nat, Field, positive_finite-of_nat}
use polymarket_quant.Action.{
  Action, ◌>>◌, ◌>>=◌, >>-cases, >>=-cases, lift, get, pure, try_cleanup, try_cleanup-cases,
}
use polymarket_quant.Fill.{Side, Fill}
use polymarket_quant.Timestamps.{OrderTimestamps}
use polymarket_quant.Taker.{AggressiveTif}
use polymarket_quant.Portfolio.{
  Key, PortfolioState, eps_cash, reserve_buy_cash, release_reserved_cash,
}
use polymarket_quant.Portfolio.Fills.{apply_buy_fill, reserved_after}
use polymarket_quant.Cost.{FeeSchedule, fee_of, rebate_of}
use polymarket_quant.Pipeline.{Working, book_buy, for_each}
use polymarket_quant.Risk.{
  RiskLimits, RiskOrderIntent, RiskContext, RiskResult, allowed, evaluate_order_risk,
}
use polymarket_quant.Costed.{CostedAggressiveResult, simulate_aggressive_with_costs}
use polymarket_quant.Pipeline.Aggressive.{
  RiskGatedExecutionResult, result_of, executable_levels, release_rest, execute, reserve,
  reserved_for, with_reservation, effective_context, execute_aggressive_with_risk,
}

buy_reserved :
    (key : Key) (n p fee rebate : ℕ) (s : PortfolioState)
    → (apply_buy_fill key (of_nat n) (of_nat p) (of_nat fee) (of_nat rebate) true s).0 ≡ ok tt
    → (apply_buy_fill key (of_nat n) (of_nat p) (of_nat fee) (of_nat rebate) true s).1.reserved_cash
      ≤ reserved_after s.reserved_cash (p * n + fee) rebate
unfolding apply_buy_fill
buy_reserved key n p fee rebate s h =
    ground (arith, positive_finite-of_nat n Field.qty, positive_finite-of_nat p Field.price)

-- Where an action is accepted, no more than `base` and what is left of the order's own is reserved.
abbrev pub Kept : {A : Type 0} → ℕ → Result A × Working → Type 0
Kept base (err _, w) = Unit
Kept base (ok _, w) = w.portfolio.reserved_cash ≤ base + w.remaining

pub kept :
    {A : Type 0} (base : ℕ) (m : Result A × Working) {a : A}
    → m.0 ≡ ok a
    → Kept base m
    → m.1.portfolio.reserved_cash ≤ base + m.1.remaining
kept base m h k = subst (λ r. Kept base (r, m.1)) h k

pub book_buy-Kept :
    (base : ℕ) (key : Key) (fees : FeeSchedule) (f : Fill) (w : Working)
    → w.portfolio.reserved_cash ≤ base + w.remaining
    → Kept base (book_buy key fees f w)
unfolding book_buy ◌-ℤ◌
book_buy-Kept base key fees f w l =
    ground (arith, buy_reserved key f.qty f.price (fee_of fees f) (rebate_of fees f) w.portfolio)

for_each-Kept :
    (base : ℕ) (key : Key) (fees : FeeSchedule) (fs : List Fill) (w : Working)
    → w.portfolio.reserved_cash ≤ base + w.remaining
    → Kept base (for_each (book_buy key fees) fs w)
unfolding for_each
for_each-Kept base key fees [] w l = l
for_each-Kept base key fees (f ∷ fs) w l =
    >>=-cases (Kept base) (book_buy key fees f) (λ _. for_each (book_buy key fees) fs) w (λ e. tt)
      (λ u h.
        for_each-Kept base key fees fs (book_buy key fees f w).1
          (kept base (book_buy key fees f w) h (book_buy-Kept base key fees f w l)))

module _ (base : ℕ) where
  -- Where an action is accepted, no more than `base` is reserved, up to the tolerance of cash.
  abbrev Released : {A : Type 0} → Result A × Working → Type 0
  Released (err _, w) = Unit
  Released (ok _, w) = w.portfolio.reserved_cash ≤ base + eps_cash

  release_rest-Released :
      (w : Working)
      → w.portfolio.reserved_cash ≤ base + w.remaining
      → Released (release_rest Side.buy w)
  unfolding release_rest release_reserved_cash
  release_rest-Released w l = ground (arith, positive_finite-of_nat w.remaining Field.amount)

  module _ (key : Key) (qty limit : ℕ) (fees : FeeSchedule) (tif : AggressiveTif)
      (levels : List (Float × Float)) (times : OrderTimestamps) (reference_price mark_price : Float)
      (risk : RiskResult) where
    abbrev order : RiskOrderIntent
    order = record { key = key; side = Side.buy; qty = qty; limit_price = limit }

    -- What follows the simulation.
    abbrev rest : CostedAggressiveResult → Action Working RiskGatedExecutionResult
    rest e =
        for_each (book_buy key fees) e.simulation.fills
        >> (release_rest Side.buy >> (get >>= λ v. pure (result_of risk (some e) v.portfolio)))

    rest-Released :
        (e : CostedAggressiveResult) (w : Working)
        → w.portfolio.reserved_cash ≤ base + w.remaining
        → Released (rest e w)
    rest-Released e w l =
        let fs = e.simulation.fills in
        let finish : Action Working RiskGatedExecutionResult =
          get >>= λ v. pure (result_of risk (some e) v.portfolio) in
        let w1 : Working = (for_each (book_buy key fees) fs w).1 in
        >>=-cases Released (for_each (book_buy key fees) fs) (λ _. release_rest Side.buy >> finish)
          w (λ x. tt)
          (λ u h.
            let k =
              kept base (for_each (book_buy key fees) fs w) h
                (for_each-Kept base key fees fs w l) in
            >>=-cases Released (release_rest Side.buy) (λ _. finish) w1 (λ x. tt)
              (λ v g.
                subst (λ r. Released (r, (release_rest Side.buy w1).1)) g
                  (release_rest-Released w1 k)))

    abbrev tried : Action Working RiskGatedExecutionResult
    tried =
        try_cleanup (execute order tif levels times reference_price mark_price fees risk)
          (release_rest Side.buy)

    execute-Released :
        (w : Working)
        → w.portfolio.reserved_cash ≤ base + w.remaining
        → Released (execute order tif levels times reference_price mark_price fees risk w)
    unfolding execute
    execute-Released w l =
        >>=-cases Released
          (lift (
            simulate_aggressive_with_costs Side.buy tif (of_nat qty)
              (executable_levels Side.buy limit levels) times reference_price mark_price fees))
          rest w (λ e. tt) (λ e h. rest-Released e w l)

    tried-Released :
        (w : Working) → w.portfolio.reserved_cash ≤ base + w.remaining → Released (tried w)
    tried-Released w l =
        let run : Action Working RiskGatedExecutionResult =
          execute order tif levels times reference_price mark_price fees risk in
        let done = execute-Released w l in
        try_cleanup-cases Released run (release_rest Side.buy) w
          (λ a h. subst (λ r. Released (r, (run w).1)) h done)
          (λ e. >>-cases Released (release_rest Side.buy) (λ t. (err e, t)) (run w).1 (λ x. tt) tt)

pub reserve_kept :
    (k : ℕ) (s : PortfolioState)
    → (reserve_buy_cash (of_nat k) s).1.reserved_cash ≤ s.reserved_cash + k
unfolding reserve_buy_cash
reserve_kept k s = ground (arith, positive_finite-of_nat k Field.amount)

-- The same of a call that ends.
abbrev pub Ended : {A : Type 0} → ℕ → Result A × PortfolioState → Type 0
Ended base (err _, s) = Unit
Ended base (ok _, s) = s.reserved_cash ≤ base + eps_cash

ended :
    {A : Type 0} (base : ℕ) (m : Result A × Working)
    → Released base m
    → Ended base (m.0, m.1.portfolio)
ended base (ok a, w) h = h
ended base (err e, w) h = tt

module _ (key : Key) (qty limit : ℕ) (tif : AggressiveTif) (levels : List (Float × Float))
    (times : OrderTimestamps) (reference_price mark_price : Float) (limits : RiskLimits)
    (context : RiskContext) (fees : FeeSchedule) (s : PortfolioState) where
  abbrev intent : RiskOrderIntent
  intent = record { key = key; side = Side.buy; qty = qty; limit_price = limit }

  abbrev risk : RiskResult
  risk = evaluate_order_risk s intent limits (effective_context intent fees context)

  -- The part of the call that an allowed order reaches.
  abbrev reserved_call : Action PortfolioState RiskGatedExecutionResult
  reserved_call = with_reservation (reserved_for intent risk) (
      try_cleanup (execute intent tif levels times reference_price mark_price fees risk)
        (release_rest Side.buy))

  abbrev go_on : Action PortfolioState RiskGatedExecutionResult
  go_on = reserve intent risk >> reserved_call

  go_on-Ended : Ended s.reserved_cash (go_on s)
  go_on-Ended =
      let s1 : PortfolioState = (reserve intent risk s).1 in
      let w : Working = record { portfolio = s1; remaining = risk.cash_required } in
      >>-cases (Ended s.reserved_cash) (reserve intent risk) reserved_call s (λ e. tt)
        (ended s.reserved_cash _ (
          tried-Released s.reserved_cash key qty limit fees tif levels times reference_price
            mark_price risk w (reserve_kept risk.cash_required s)))

  -- When the call for a BUY order returns, the order's reservation is gone, up to `_CASH_EPS`: no more
  -- cash is reserved than before the call.
  pub reservation_is_released :
      {r : RiskGatedExecutionResult} {s' : PortfolioState}
      → execute_aggressive_with_risk
          (record { key = key; side = Side.buy; qty = qty; limit_price = limit })
          tif
          levels
          times
          reference_price
          mark_price
          limits
          context
          fees
          s
        ≡ (ok r, s')
      → s'.reserved_cash ≤ s.reserved_cash + eps_cash
  unfolding execute_aggressive_with_risk
  reservation_is_released h =
      subst (Ended s.reserved_cash) h
        (elim (allowed risk)
          as (λ c.
            Ended s.reserved_cash ((if not c then pure (result_of risk none s) else go_on) s)) [
              | true ↦ go_on-Ended
              | false ↦ omega arith
            ])
