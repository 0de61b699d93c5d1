-- ===== src/Pipeline/Outstanding.antt =====
-- What a call of the passive pipeline for a BUY order leaves reserved
-- (src/std0_quant/execution/passive_risk_pipeline.py).
use polymarket_quant.Common.{
  ℕ, ◌+◌, ◌≤◌, ◌≡◌, Bool, true, false, not, ◌&&◌, ◌||◌, Option, some, List, [], ◌∷◌, arith, subst,
  if◌then◌else◌, ltb,
}
use polymarket_quant.Numeric.{Result, ok, err, Float, of_nat, eps, Field, positive_finite-of_nat}
use polymarket_quant.Action.{
  Action, ◌>>◌, ◌>>=◌, >>-cases, >>=-cases, lift, get, pure, try_cleanup, try_cleanup-cases,
}
use polymarket_quant.Order.{is_terminal_status}
use polymarket_quant.Fill.{Side, Fill}
use polymarket_quant.Timestamps.{OrderTimestamps, CancelTimestamps}
use polymarket_quant.Simulator.{ConfirmedTradeEvent}
use polymarket_quant.Portfolio.{Key, PortfolioState, eps_cash, release_reserved_cash}
use polymarket_quant.Cost.{FeeSchedule}
use polymarket_quant.Risk.{
  RiskLimits, RiskOrderIntent, RiskContext, RiskResult, allowed, evaluate_order_risk,
}
use polymarket_quant.Costed.{CostedPassiveResult, simulate_passive_with_costs}
use polymarket_quant.Pipeline.{for_each}
use polymarket_quant.Pipeline.Passive.{
  RiskGatedPassiveResult, Resting, book, release_rest, execute, reserve, reservation,
  with_reservation, refused, effective_context, execute_passive_with_risk,
}
use polymarket_quant.Pipeline.Release.{book_buy-Kept, reserve_kept}

abbrev reserved : Resting → ℕ
reserved r = r.working.portfolio.reserved_cash

-- Where an action is accepted, no more than `base` and what is left of the order's own is reserved.
abbrev Held : {A : Type 0} → ℕ → Result A × Resting → Type 0
Held base (err _, r) = Unit
Held base (ok _, r) = reserved r ≤ base + r.working.remaining

-- What a result that is returned with a state of the order says of the reserved cash.
abbrev Reported : ℕ → Result RiskGatedPassiveResult × Resting → Type 0
Reported base (err _, r) = Unit
Reported base (ok x, r) =
    (reserved r ≤ base + x.reserved_cash_remaining + eps_cash)
    × (x.reservation_active ≡ false → reserved r ≤ base + eps_cash)

module _ (base : ℕ) (key : Key) (qty limit : ℕ) (fees : FeeSchedule) where
  abbrev order : RiskOrderIntent
  order = record { key = key; side = Side.buy; qty = qty; limit_price = limit }

  book-Held :
      (f : Fill) (r : Resting)
      → reserved r ≤ base + r.working.remaining
      → Held base (book order fees f r)
  unfolding book
  book-Held f r l = ground (arith, book_buy-Kept base key fees f r.working l)

  for_each-Held :
      (fs : List Fill) (r : Resting)
      → reserved r ≤ base + r.working.remaining
      → Held base (for_each (book order fees) fs r)
  unfolding for_each
  for_each-Held [] r l = l
  for_each-Held (f ∷ fs) r l =
      >>=-cases (Held base) (book order fees f) (λ _. for_each (book order fees) fs) r (λ e. tt)
        (λ u h.
          for_each-Held fs (book order fees f r).1
            (subst (λ x. Held base (x, (book order fees f r).1)) h (book-Held f r l)))

  -- The rest is released, up to the tolerance of cash, or kept.
  abbrev Rested : {A : Type 0} → Bool → Result A × Resting → Type 0
  Rested terminal (err _, r) = Unit
  Rested terminal (ok _, r) =
      (terminal ≡ false → reserved r ≤ base + r.working.remaining)
      × (terminal ≡ true → reserved r ≤ base + eps_cash)

  release_rest-Rested :
      (terminal : Bool) (r : Resting)
      → reserved r ≤ base + r.working.remaining
      → Rested terminal ((if terminal then release_rest order else pure tt) r)
  unfolding release_rest release_reserved_cash
  release_rest-Rested true r l =
      ground (arith, positive_finite-of_nat r.working.remaining Field.amount)
  release_rest-Rested false r l = ground arith

  module _ (displayed : Float) (times : OrderTimestamps) (trades : List ConfirmedTradeEvent)
      (reference_price mark_price : Float) (cancel : Option CancelTimestamps)
      (risk : RiskResult) where
    abbrev report : Bool → CostedPassiveResult → Resting → RiskGatedPassiveResult
    report terminal execution r = record {
      risk = risk;
      execution = some execution;
      reservation_active =
          not terminal && (ltb eps_cash r.working.remaining || ltb eps r.remaining_position);
      reserved_cash_remaining = r.working.remaining;
      reserved_position_remaining = r.remaining_position;
      portfolio_cash_after = r.working.portfolio.cash;
      portfolio_reserved_cash_after = r.working.portfolio.reserved_cash;
      portfolio_realized_pnl_after = r.working.portfolio.realized_pnl;
    }

    report-Reported :
        (terminal : Bool) (execution : CostedPassiveResult) (r : Resting)
        → (terminal ≡ false → reserved r ≤ base + r.working.remaining)
          × (terminal ≡ true → reserved r ≤ base + eps_cash)
        → Reported base (ok (report terminal execution r), r)
    report-Reported terminal execution r h = ground arith

    -- What follows the simulation.
    abbrev rest : CostedPassiveResult → Action Resting RiskGatedPassiveResult
    rest e =
        let terminal = is_terminal_status e.simulation.final_status in
        for_each (book order fees) e.simulation.fills
        >> ((if terminal then release_rest order else pure tt)
            >> (get >>= λ r. pure (report terminal e r)))

    rest-Reported :
        (e : CostedPassiveResult) (r : Resting)
        → reserved r ≤ base + r.working.remaining
        → Reported base (rest e r)
    rest-Reported e r l =
        let fs = e.simulation.fills in
        let terminal = is_terminal_status e.simulation.final_status in
        let release : Action Resting (Unit {0}) =
          if terminal then release_rest order else pure tt in
        let finish : Action Resting RiskGatedPassiveResult =
          get >>= λ r. pure (report terminal e r) in
        let r1 : Resting = (for_each (book order fees) fs r).1 in
        >>=-cases (Reported base) (for_each (book order fees) fs) (λ _. release >> finish) r
          (λ x. tt)
          (λ u h.
            let k = subst (λ x. Held base (x, r1)) h (for_each-Held fs r l) in
            >>=-cases (Reported base) release (λ _. finish) r1 (λ x. tt)
              (λ v g.
                let rested =
                  subst (λ x. Rested terminal (x, (release r1).1)) g
                    (release_rest-Rested terminal r1 k) in
                report-Reported terminal e (release r1).1 rested))

    execute-Reported :
        (r : Resting)
        → reserved r ≤ base + r.working.remaining
        → Reported base
            (execute order displayed times trades reference_price mark_price fees cancel risk r)
    unfolding execute
    execute-Reported r l =
        >>=-cases (Reported base)
          (lift (
            simulate_passive_with_costs Side.buy (of_nat qty) (of_nat limit) displayed times trades
              reference_price mark_price fees cancel))
          rest r (λ e. tt) (λ e h. rest-Reported e r l)

    tried-Reported :
        (r : Resting)
        → reserved r ≤ base + r.working.remaining
        → Reported base (
            try_cleanup
              (execute order displayed times trades reference_price mark_price fees cancel risk)
              (release_rest order)
              r)
    tried-Reported r l =
        let run : Action Resting RiskGatedPassiveResult =
          execute order displayed times trades reference_price mark_price fees cancel risk in
        try_cleanup-cases (Reported base) run (release_rest order) r
          (λ a h. subst (λ x. Reported base (x, (run r).1)) h (execute-Reported r l))
          (λ e.
            >>-cases (Reported base) (release_rest order) (λ t. (err e, t)) (run r).1 (λ x. tt) tt)

-- The same of the call on the portfolio.
abbrev Ended : ℕ → Result RiskGatedPassiveResult × PortfolioState → Type 0
Ended base (err _, s) = Unit
Ended base (ok x, s) =
    (s.reserved_cash ≤ base + x.reserved_cash_remaining + eps_cash)
    × (x.reservation_active ≡ false → s.reserved_cash ≤ base + eps_cash)

ended :
    (base : ℕ) (m : Result RiskGatedPassiveResult × Resting)
    → Reported base m
    → Ended base (m.0, m.1.working.portfolio)
ended base (ok a, r) h = h
ended base (err e, r) h = tt

module _ (key : Key) (qty limit : ℕ) (displayed : Float) (times : OrderTimestamps)
    (trades : List ConfirmedTradeEvent) (reference_price mark_price : Float) (limits : RiskLimits)
    (context : RiskContext) (fees : FeeSchedule) (cancel : Option CancelTimestamps)
    (s : PortfolioState) where
  abbrev intent : RiskOrderIntent
  intent = record { key = key; side = Side.buy; qty = qty; limit_price = limit }

  abbrev risk : RiskResult
  risk = evaluate_order_risk s intent limits (effective_context intent fees context)

  -- The part of the call that an allowed order reaches.
  abbrev reserved_call : Action PortfolioState RiskGatedPassiveResult
  reserved_call = with_reservation intent risk (
      try_cleanup
        (execute intent displayed times trades reference_price mark_price fees cancel risk)
        (release_rest intent))

  abbrev go_on : Action PortfolioState RiskGatedPassiveResult
  go_on = reserve intent risk >> reserved_call

  go_on-Ended : Ended s.reserved_cash (go_on s)
  go_on-Ended =
      let r : Resting = reservation intent risk (reserve intent risk s).1 in
      >>-cases (Ended s.reserved_cash) (reserve intent risk) reserved_call s (λ e. tt)
        (ended s.reserved_cash _ (
          tried-Reported s.reserved_cash key qty limit fees displayed times trades reference_price
            mark_price cancel risk r (reserve_kept risk.cash_required s)))

  -- When the call for a BUY order returns, no more cash is reserved than before it and what the result
  -- reports as remaining of the order's reservation, and than before it where the result reports the
  -- reservation as not active; both up to `_CASH_EPS`.
  pub reservation_is_reported :
      {x : RiskGatedPassiveResult} {s' : PortfolioState}
      → execute_passive_with_risk
          (record { key = key; side = Side.buy; qty = qty; limit_price = limit })
          displayed
          times
          trades
          reference_price
          mark_price
          limits
          context
          fees
          cancel
          s
        ≡ (ok x, s')
      → (s'.reserved_cash ≤ s.reserved_cash + x.reserved_cash_remaining + eps_cash)
        × (x.reservation_active ≡ false → s'.reserved_cash ≤ s.reserved_cash + eps_cash)
  unfolding execute_passive_with_risk
  reservation_is_reported h =
      subst (Ended s.reserved_cash) h
        (elim (allowed risk)
          as (λ c. Ended s.reserved_cash ((if not c then pure (refused risk s) else go_on) s)) [
            | true ↦ go_on-Ended
            | false ↦ (omega arith, λ _. omega arith)
          ])
