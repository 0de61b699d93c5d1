-- ===== src/Submit/Exposure.antt =====
-- What the reservations of a path and its positions come to, against the limits of its policy
-- (src/std0_quant/execution/exclusive_submit_path_v1.py).
use polymarket_quant.Common.{
  ℕ, ◌+◌, ◌≤◌, ◌≡◌, refl, sym, ap, subst, ◌∙◌, ◌⊎◌, inl, inr, Bool, true, false, List, [], ◌∷◌,
  ◌++◌, arith, ltb, ◌==◌, Eq, nat_eq, store, drop_key, sum_of, sum_of-store, sum_of-drop_key,
  Bool-cases,
}
use polymarket_quant.Numeric.{Result, ok, err}
use polymarket_quant.Portfolio.{PortfolioState, gross_cost_exposure}
use polymarket_quant.Risk.{RiskResult, RiskLimits, market_exposure, evaluate_order_risk}
use polymarket_quant.Contracts.{OrderIntent}
use polymarket_quant.Ledger.{Digests, Ledger}
use polymarket_quant.Submit.{
  SubmitPolicy, SubmitHold, SubmitPath, SubmitInput, SubmitReason, Scenario,
}
use polymarket_quant.Submit.Hold.{release_on, hold_of}
use polymarket_quant.Submit.Stages.{
  notional_in, notional_of, gross_worst, market_worst, cash_needed, risk_of, risk_reasons, larger,
  reason_if,
}
use polymarket_quant.Submit.Call.{open_path, submit_all}
use polymarket_quant.Submit.Open.{open_path-cases}
use polymarket_quant.Submit.Rules.{View, Rules}
use polymarket_quant.Submit.Keeps.{submit_all-Free}
use polymarket_quant.Submit.Positions.{reserve_on-positions, release_on-positions}

-- Nothing is pending, or what is pending and the exposure are at most the limit together.
abbrev pub Fits : ℕ → ℕ → ℕ → Type 0
Fits most exposure pending = (pending ≡ 0) ⊎ (exposure + pending ≤ most)

fewer-Fits :
    (most exposure pending less : ℕ)
    → less ≤ pending
    → Fits most exposure pending
    → Fits most exposure less
fewer-Fits most exposure pending less h (inl f) = inl (omega arith)
fewer-Fits most exposure pending less h (inr f) = inr (omega arith)

-- Both limits, the second for every market.
abbrev pub IsWithinLimits : RiskLimits → PortfolioState → List (ℕ × SubmitHold) → Type 0
IsWithinLimits limits s holds =
    Fits limits.max_gross_exposure (gross_cost_exposure s) (sum_of notional_of holds)
    × ((condition_id : ℕ)
        → Fits limits.max_market_exposure (market_exposure condition_id s)
            (sum_of (notional_in condition_id) holds))

-- Only the positions of a portfolio count.
moved-IsWithinLimits :
    (limits : RiskLimits) (s t : PortfolioState) (holds : List (ℕ × SubmitHold))
    → t.positions ≡ s.positions
    → IsWithinLimits limits s holds
    → IsWithinLimits limits t holds
moved-IsWithinLimits limits s t holds h w =
    subst (λ ps. IsWithinLimits limits (record s { positions = ps }) holds) (sym h) w

both_empty : (xs ys : List SubmitReason) → xs ++ ys ≡ [] → (xs ≡ []) × (ys ≡ [])
both_empty [] ys h = (refl, h)
both_empty (x ∷ xs) ys h = absurd (ground arith)

nat_same : (m n : ℕ) → (m == n) ≡ true → m ≡ n
nat_same m n h = ground arith

no_reason : (most n : ℕ) (r : SubmitReason) → reason_if (ltb most n) r ≡ [] → n ≤ most
no_reason most n r h = ground arith

fewer_holds :
    (limits : RiskLimits) (n : ℕ) (d : SubmitHold) (s s' : PortfolioState)
    (h : List (ℕ × SubmitHold))
    → release_on d s ≡ (ok tt, s')
    → IsWithinLimits limits s h
    → IsWithinLimits limits s' (drop_key n h)
fewer_holds limits n d s s' h taken b =
    moved-IsWithinLimits limits s s' (drop_key n h)
      (sym (ap (λ m. m.1.positions) taken) ∙ release_on-positions d s)
      (
        fewer-Fits limits.max_gross_exposure (gross_cost_exposure s) (sum_of notional_of h)
            (sum_of notional_of (drop_key n h)) (sum_of-drop_key notional_of n h) b.0,
        λ k.
            fewer-Fits limits.max_market_exposure (market_exposure k s) (sum_of (notional_in k) h)
              (sum_of (notional_in k) (drop_key n h)) (sum_of-drop_key (notional_in k) n h) (b.1 k),
      )

module _ (policy : SubmitPolicy) where
  abbrev Bounded : {H : Type 0} → View H
  Bounded sc s h c q l = IsWithinLimits policy.limits s h

  -- What an empty list of reasons says.
  allowed_bounds :
      (r : RiskResult) (i : OrderIntent) (s : PortfolioState) (holds : List (ℕ × SubmitHold))
      → risk_reasons policy r i s holds ≡ []
      → (market_worst r i.condition_id holds ≤ policy.limits.max_market_exposure)
        × (gross_worst r holds ≤ policy.limits.max_gross_exposure)
  unfolding risk_reasons
  allowed_bounds r i s holds h =
      let exposures = (both_empty _ _ (both_empty _ _ h).0).0 in
      let gross = both_empty _ _ exposures in
      let market = both_empty _ _ gross.0 in
      (
        no_reason policy.limits.max_market_exposure (market_worst r i.condition_id holds)
            SubmitReason.pending_market_exceeded market.1,
        no_reason policy.limits.max_gross_exposure (gross_worst r holds)
            SubmitReason.pending_gross_exceeded gross.1,
      )

  worst_gross :
      (kill : Bool) (now : ℕ) (i : OrderIntent) (s : PortfolioState) (cash : ℕ)
      → let r = risk_of policy kill now i s in
        gross_cost_exposure s + (hold_of i cash).buy_notional
        ≤ larger r.gross_exposure_before r.gross_exposure_after
  unfolding evaluate_order_risk
  worst_gross kill now i s cash = ground arith

  worst_market :
      (kill : Bool) (now : ℕ) (i : OrderIntent) (s : PortfolioState) (cash : ℕ)
      → let r = risk_of policy kill now i s in
        market_exposure i.condition_id s + (hold_of i cash).buy_notional
        ≤ larger r.market_exposure_before r.market_exposure_after
  unfolding evaluate_order_risk
  worst_market kill now i s cash = ground arith

  module _ (i : OrderIntent) (s : PortfolioState) (holds : List (ℕ × SubmitHold)) (cash : ℕ) where
    abbrev more_holds : List (ℕ × SubmitHold)
    more_holds = store i.intent_id (hold_of i cash) holds

    -- The new hold adds at most its own notional.
    store_adds :
        (w : ℕ × SubmitHold → ℕ)
        → sum_of w more_holds ≤ sum_of w holds + w (i.intent_id, hold_of i cash)
    store_adds w = omega (arith, sum_of-store w i.intent_id (hold_of i cash) holds)

    other_market :
        (condition_id : ℕ)
        → (i.condition_id == condition_id) ≡ false
        → notional_in condition_id (i.intent_id, hold_of i cash) ≡ 0
    other_market condition_id h = rw h refl

    own_market :
        notional_in i.condition_id (i.intent_id, hold_of i cash) ≤ (hold_of i cash).buy_notional
    own_market = ground arith

    taken-IsWithinLimits :
        (kill : Bool) (now : ℕ)
        → risk_reasons policy (risk_of policy kill now i s) i s holds ≡ []
        → IsWithinLimits policy.limits s holds
        → IsWithinLimits policy.limits s more_holds
    taken-IsWithinLimits kill now h w =
        let r : RiskResult = risk_of policy kill now i s in
        let b = allowed_bounds r i s holds h in
        (
          inr (omega (arith, b.1, worst_gross kill now i s cash, store_adds notional_of)),
          λ condition_id. elim (Bool-cases (i.condition_id == condition_id)) [
            | inl same_market ↦
                subst
                  (λ c.
                    Fits policy.limits.max_market_exposure (market_exposure c s)
                      (sum_of (notional_in c) more_holds))
                  (nat_same i.condition_id condition_id same_market)
                  (inr (
                    omega (
                      arith,
                      b.0,
                      worst_market kill now i s cash,
                      own_market,
                      store_adds (notional_in i.condition_id),
                    )))
            | inr another ↦
                fewer-Fits policy.limits.max_market_exposure (market_exposure condition_id s)
                  (sum_of (notional_in condition_id) holds)
                  (sum_of (notional_in condition_id) more_holds)
                  (omega (
                    arith,
                    other_market condition_id another,
                    store_adds (notional_in condition_id),
                  ))
                  (w.1 condition_id)
          ],
        )

  module _ {H : Type 0} ⦃e : Eq H⦄ (digests : Digests H) where
    exposure-Rules : Rules digests policy Bounded (λ i. Bounded) (λ i r. Bounded)
    exposure-Rules = record {
      free_guard = λ sc s h c q l u b. b;
      committed_guard = λ i r sc s h c q l u b. b;
      start = λ kill now i sc s s' h c q l t risk taken b.
          moved-IsWithinLimits policy.limits s s'
            (store i.intent_id (hold_of i (cash_needed policy i)) h)
            (sym (ap (λ m. m.1.positions) taken)
              ∙ reserve_on-positions (hold_of i (cash_needed policy i)) s)
            (taken-IsWithinLimits i s h (cash_needed policy i) kill now risk b);
      not_appended = λ i sc s h c q l io b. b;
      appended = λ i sc s h c q l io r f b. b;
      not_sent = λ i r sc s h c q l b. b;
      sent = λ i r now sc s h c q l b. b;
      abandon =
          λ i r d sc s s' h c q l t taken b. fewer_holds policy.limits i.intent_id d s s' h taken b;
      release = λ n d sc s s' h c q l x t taken b. fewer_holds policy.limits n d s s' h taken b;
    }

    abbrev Opened : Result (SubmitPath H) → Type 0
    Opened (err _) = Unit
    Opened (ok p) = IsWithinLimits policy.limits p.portfolio p.holds

    -- The holds that a path has are within the limits.
    pub path-IsWithinLimits :
        (unchanged : Bool) (l : Ledger H) (portfolio : PortfolioState) (scenario : Scenario)
        (p : SubmitPath H) (cs : List (SubmitInput × OrderIntent))
        → open_path unchanged l portfolio scenario ≡ ok p
        → let q = submit_all digests policy cs p in IsWithinLimits policy.limits q.portfolio q.holds
    path-IsWithinLimits unchanged l portfolio scenario p cs f =
        submit_all-Free exposure-Rules cs p (
          subst Opened f (
            open_path-cases unchanged l portfolio scenario Opened (λ x. tt)
              (inl refl, λ k. inl refl)))
