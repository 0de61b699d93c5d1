-- ===== src/Submit/Rules.antt =====
-- The facts that make a statement about a path hold after every call, and what they give for releases
-- (src/std0_quant/execution/exclusive_submit_path_v1.py).
use polymarket_quant.Common.{
  ℕ, ◌≡◌, refl, ap, Bool, true, false, Option, none, some, List, [], ◌∷◌, ◌++◌, Eq, lookup, store,
  drop_key, nat_eq, if◌then◌else◌,
}
use polymarket_quant.Numeric.{Error, Result, ok, err, hold_missing}
use polymarket_quant.Action.{Action, ◌>>◌, >>-cases}
use polymarket_quant.Portfolio.{PortfolioState}
use polymarket_quant.Contracts.{OrderIntent, intent_eq}
use polymarket_quant.Ledger.{Digests, Ledger, DurableIntentReceipt, AppendInput, append, guard}
use polymarket_quant.Ledger.Calls.{checkpoint-leaves}
use polymarket_quant.Submit.{
  SubmitPolicy, SubmitHold, SubmitPath, DispatchRequest, SubmitReason, SubmitStatus, Scenario,
}
use polymarket_quant.Submit.Hold.{
  reserve_on, release_on, hold_of, replace, release_hold, validate_candidate,
}
use polymarket_quant.Submit.Stages.{cash_needed, risk_of, risk_reasons}
use polymarket_quant.Submit.Path.{OfflineEvent, is_at_tip, store_answer}
use polymarket_quant.Submit.Call.{finish}

abbrev pub View : Type 0 → Type 1
View H =
    Scenario
    → PortfolioState
    → List (ℕ × SubmitHold)
    → List (ℕ × H)
    → List (DispatchRequest H)
    → Ledger H
    → Type 0

abbrev pub At : {H : Type 0} → View H → SubmitPath H → Type 0
At I p = I p.scenario p.portfolio p.holds p.consumed_hashes p.requests p.ledger

-- `free` is said between calls, `held` once an id is consumed, and `committed` once its receipt is bound.
pub record Rules {H : Type 0} (digests : Digests H) (policy : SubmitPolicy) (free : View H)
    (held : OrderIntent → View H) (committed : OrderIntent → DurableIntentReceipt H → View H)
    : Type 0 where
  pub free_guard :
      (sc : Scenario) (s : PortfolioState) (h : List (ℕ × SubmitHold)) (c : List (ℕ × H))
      (q : List (DispatchRequest H)) (l : Ledger H) (u : Bool)
      → free sc s h c q l
      → free sc s h c q (guard u l).1
  pub committed_guard :
      (i : OrderIntent) (r : DurableIntentReceipt H) (sc : Scenario) (s : PortfolioState)
      (h : List (ℕ × SubmitHold)) (c : List (ℕ × H)) (q : List (DispatchRequest H)) (l : Ledger H)
      (u : Bool)
      → committed i r sc s h c q l
      → committed i r sc s h c q (guard u l).1
  pub start :
      (kill : Bool) (now : ℕ) (i : OrderIntent) (sc : Scenario) (s s' : PortfolioState)
      (h : List (ℕ × SubmitHold)) (c : List (ℕ × H)) (q : List (DispatchRequest H)) (l : Ledger H)
      → lookup i.intent_id c ≡ none
      → risk_reasons policy (risk_of policy kill now i s) i s h ≡ []
      → reserve_on (hold_of i (cash_needed policy i)) s ≡ (ok tt, s')
      → free sc s h c q l
      → held i sc s'
          (store i.intent_id (hold_of i (cash_needed policy i)) h)
          (store i.intent_id (digests.of_intent i) c)
          q
          l
  pub not_appended :
      (i : OrderIntent) (sc : Scenario) (s : PortfolioState) (h : List (ℕ × SubmitHold))
      (c : List (ℕ × H)) (q : List (DispatchRequest H)) (l : Ledger H) (io : AppendInput)
      → held i sc s h c q l
      → free sc s h c q (append digests io i l).1
  pub appended :
      (i : OrderIntent) (sc : Scenario) (s : PortfolioState) (h : List (ℕ × SubmitHold))
      (c : List (ℕ × H)) (q : List (DispatchRequest H)) (l : Ledger H) (io : AppendInput)
      (r : DurableIntentReceipt H)
      → (append digests io i l).0 ≡ ok r
      → held i sc s h c q l
      → committed i r sc s h c q (append digests io i l).1
  pub not_sent :
      (i : OrderIntent) (r : DurableIntentReceipt H) (sc : Scenario) (s : PortfolioState)
      (h : List (ℕ × SubmitHold)) (c : List (ℕ × H)) (q : List (DispatchRequest H)) (l : Ledger H)
      → committed i r sc s h c q l
      → free sc s h c q l
  pub sent :
      (i : OrderIntent) (r : DurableIntentReceipt H) (now : ℕ) (sc : Scenario) (s : PortfolioState)
      (h : List (ℕ × SubmitHold)) (c : List (ℕ × H)) (q : List (DispatchRequest H)) (l : Ledger H)
      → committed i r sc s h c q l
      → free sc s h c
          (q
            ++ record {
              intent = i;
              intent_hash = digests.of_intent i;
              receipt = r;
              submit_ts_ms = now;
            }
              ∷ [])
          l
  pub abandon :
      (i : OrderIntent) (r : DurableIntentReceipt H) (d : SubmitHold) (sc : Scenario)
      (s s' : PortfolioState) (h : List (ℕ × SubmitHold)) (c : List (ℕ × H))
      (q : List (DispatchRequest H)) (l : Ledger H)
      → lookup i.intent_id h ≡ some d
      → release_on d s ≡ (ok tt, s')
      → committed i r sc s h c q l
      → free sc s' (drop_key i.intent_id h) c q l
  pub release :
      (intent_id : ℕ) (d : SubmitHold) (sc : Scenario) (s s' : PortfolioState)
      (h : List (ℕ × SubmitHold)) (c : List (ℕ × H)) (q : List (DispatchRequest H)) (l : Ledger H)
      → sc ≡ Scenario.reject
      → lookup intent_id h ≡ some d
      → release_on d s ≡ (ok tt, s')
      → free sc s h c q l
      → free sc s' (drop_key intent_id h) c q l

module _ {H : Type 0} where
  pub replace_cases :
      (P : Result (Unit {0}) × SubmitPath H → Type 0) (m : Action PortfolioState (Unit {0}))
      (holds : List (ℕ × SubmitHold)) (p : SubmitPath H)
      → ((x : Error) → P (err x, p))
      → ((s : PortfolioState)
          → m p.portfolio ≡ (ok tt, s)
          → P (ok tt, record p { portfolio = s; holds = holds }))
      → P (replace m holds p)
  replace_cases P m holds p bad good =
      let kept : PortfolioState → Result (Unit {0}) → Result (Unit {0}) × SubmitPath H = λ s v.
        elim v [ err x ↦ (err x, p) | ok _ ↦ (ok tt, record p { portfolio = s; holds = holds }) ] in
      let go : (r : Result (Unit {0}))
          → (m p.portfolio).0 ≡ r
          → P (elim r [
            | err x ↦ (err x, p)
            | ok _ ↦ kept (m p.portfolio).1 (validate_candidate p.portfolio (m p.portfolio).1 holds)
          ]) =
        λ r.
          elim r
            as (λ r.
              (m p.portfolio).0 ≡ r
              → P (elim r [
                | err x ↦ (err x, p)
                | ok _ ↦
                    kept (m p.portfolio).1 (validate_candidate p.portfolio (m p.portfolio).1 holds)
              ])) [
                | err x ↦ λ h. bad x
                | ok u ↦ λ h.
                    elim (validate_candidate p.portfolio (m p.portfolio).1 holds)
                      as (λ v. P (kept (m p.portfolio).1 v)) [
                        | err x ↦ bad x
                        | ok v ↦ good (m p.portfolio).1 (ap (λ a. (a, (m p.portfolio).1)) h)
                      ]
              ] in
      go (m p.portfolio).0 refl

module _ {H : Type 0} ⦃e : Eq H⦄ (digests : Digests H) where
  pub is_at_tip-ledger :
      (u : Bool) (p : SubmitPath H) (P : Ledger H → Type 0)
      → P (guard u p.ledger).1
      → P (is_at_tip digests u p).1.ledger
  is_at_tip-ledger u p P g = checkpoint-leaves P u p.ledger g

-- Only an adapter that rejects answers with a rejection.
abbrev pub Answered : Scenario → Result OfflineEvent → Type 0
Answered sc (err _) = Unit
Answered sc (ok event) = event.acknowledged ≡ false → sc ≡ Scenario.reject

module _ {H : Type 0} ⦃e : Eq H⦄ {digests : Digests H} {policy : SubmitPolicy} {free : View H}
    {held : OrderIntent → View H} {committed : OrderIntent → DurableIntentReceipt H → View H}
    (rules : Rules digests policy free held committed) where
  abbrev Free : {A : Type 0} → Result A × SubmitPath H → Type 0
  Free r = At free r.1

  -- What a release makes of a path, where it succeeds.
  abbrev Released : ℕ → SubmitPath H → Type 0
  Released intent_id p =
      (d : SubmitHold) (s : PortfolioState)
      → lookup intent_id p.holds ≡ some d
      → release_on d p.portfolio ≡ (ok tt, s)
      → free p.scenario s (drop_key intent_id p.holds) p.consumed_hashes p.requests p.ledger

  release_hold-Free :
      (intent_id : ℕ) (p : SubmitPath H)
      → At free p
      → Released intent_id p
      → Free (release_hold intent_id p)
  unfolding release_hold
  release_hold-Free intent_id p f released =
      let go_on : Option SubmitHold → Result (Unit {0}) × SubmitPath H = λ o. elim o [
        | none ↦ (err hold_missing, p)
        | some h ↦ replace (release_on h) (drop_key intent_id p.holds) p
      ] in
      elim (lookup intent_id p.holds) as (λ o. lookup intent_id p.holds ≡ o → Free (go_on o)) [
        | none ↦ λ t. f
        | some d ↦ λ t.
            replace_cases Free (release_on d) (drop_key intent_id p.holds) p (λ x. f)
              (λ s h. released d s t h)
      ]
        refl

  -- A release, then a result that is kept.
  pub answered_without-Free :
      (i : OrderIntent) (status : SubmitStatus) (reasons : List SubmitReason) (called : Bool)
      (receipt : Option (DurableIntentReceipt H)) (p : SubmitPath H)
      → At free p
      → Released i.intent_id p
      → Free ((release_hold i.intent_id >> store_answer digests i status reasons called receipt) p)
  answered_without-Free i status reasons called receipt p f released =
      let g = release_hold-Free i.intent_id p f released in
      >>-cases Free (release_hold i.intent_id)
        (store_answer digests i status reasons called receipt) p (λ x. g) g

  pub finish-Free :
      (i : OrderIntent) (receipt : DurableIntentReceipt H) (event : Result OfflineEvent)
      (p : SubmitPath H)
      → At free p
      → Answered p.scenario event
      → Free (finish digests policy i receipt event p)
  unfolding finish
  finish-Free i receipt (err x) p f a = f
  finish-Free i receipt (ok event) p f a =
      elim event.acknowledged
          as (λ b.
            (b ≡ false → p.scenario ≡ Scenario.reject)
            → Free (
                (if b
                    then store_answer digests i SubmitStatus.offline_ack [] true (some receipt)
                    else (release_hold i.intent_id
                        >> store_answer digests i SubmitStatus.offline_rejected [] true
                            (some receipt)))
                  p)) [
                    | true ↦ λ rejects. f
                    | false ↦ λ rejects.
                        answered_without-Free i SubmitStatus.offline_rejected [] true (some receipt)
                          p f
                          (λ d s t h.
                            rules.release i.intent_id d p.scenario p.portfolio s p.holds
                              p.consumed_hashes p.requests p.ledger (rejects refl) t h f)
                  ]
        a
