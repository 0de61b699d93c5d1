-- ===== src/Submit/Retained.antt =====
-- The holds of the requests that reached the adapter
-- (src/std0_quant/execution/exclusive_submit_path_v1.py).
use polymarket_quant.Common.{
  ℕ, ◌≡◌, ◌≢◌, refl, ap, subst, ◌∙◌, ◌⊎◌, inl, inr, Bool, false, none, some, List, [], ◌∷◌, Eq,
  lookup, store, drop_key, lookup-store, lookup-drop_key, same, same_eq, same_refl, nat_eq,
  Bool-cases, All, All-append, All-map,
}
use polymarket_quant.Numeric.{Result, ok, err}
use polymarket_quant.Portfolio.{PortfolioState}
use polymarket_quant.Contracts.{OrderIntent}
use polymarket_quant.Ledger.{Digests, Ledger}
use polymarket_quant.Submit.{
  SubmitPolicy, SubmitHold, SubmitPath, SubmitInput, DispatchRequest, Scenario,
}
use polymarket_quant.Submit.Hold.{hold_of}
use polymarket_quant.Submit.Stages.{cash_needed}
use polymarket_quant.Submit.Call.{open_path, submit_all}
use polymarket_quant.Submit.Open.{open_path-cases}
use polymarket_quant.Submit.Rules.{View, At, Rules}
use polymarket_quant.Submit.Keeps.{submit_all-Free}
use polymarket_quant.Submit.Once.{intent_id_of, lookup_consumed, just_consumed}
use polymarket_quant.Submit.Exposure.{IsWithinLimits, path-IsWithinLimits}

another_key : (m n : ℕ) → m ≢ n → same m n ≡ false
another_key m n d = elim (Bool-cases (same m n)) [ inl h ↦ absurd (d (same_eq m n h)) | inr h ↦ h ]

module _ {H : Type 0} ⦃e : Eq H⦄ (digests : Digests H) (policy : SubmitPolicy) where
  -- What `_reserve` keeps for an intent.
  abbrev pub reserved_for : OrderIntent → SubmitHold
  reserved_for i = hold_of i (cash_needed policy i)

  -- The request's hold is kept, whole, unless the adapter is one that rejects.
  abbrev pub IsRetained : Scenario → List (ℕ × SubmitHold) → DispatchRequest H → Type 0
  IsRetained sc h q =
      (sc ≡ Scenario.reject) ⊎ (lookup (intent_id_of q) h ≡ some (reserved_for q.intent))

  abbrev Kept : Scenario → List (ℕ × SubmitHold) → List (ℕ × H) → DispatchRequest H → Type 0
  Kept sc h c q = (lookup (intent_id_of q) c ≢ none) × IsRetained sc h q

  abbrev Retained : View H
  Retained sc s h c q l = All (Kept sc h c) q

  abbrev Held : OrderIntent → View H
  Held i sc s h c q l =
      Retained sc s h c q l
      × (lookup i.intent_id c ≢ none)
      × (lookup i.intent_id h ≡ some (reserved_for i))
      × All (λ q. intent_id_of q ≢ i.intent_id) q

  stored-IsRetained :
      (sc : Scenario) (h : List (ℕ × SubmitHold)) (n : ℕ) (d : SubmitHold) (q : DispatchRequest H)
      → intent_id_of q ≢ n
      → IsRetained sc h q
      → IsRetained sc (store n d h) q
  stored-IsRetained sc h n d q m (inl r) = inl r
  stored-IsRetained sc h n d q m (inr r) =
      inr (lookup-store (intent_id_of q) n d h ∙ rw (another_key (intent_id_of q) n m) r)

  dropped-IsRetained :
      (sc : Scenario) (h : List (ℕ × SubmitHold)) (n : ℕ) (q : DispatchRequest H)
      → intent_id_of q ≢ n
      → IsRetained sc h q
      → IsRetained sc (drop_key n h) q
  dropped-IsRetained sc h n q m (inl r) = inl r
  dropped-IsRetained sc h n q m (inr r) =
      inr (lookup-drop_key (intent_id_of q) n h ∙ rw (another_key (intent_id_of q) n m) r)

  -- No request has an id that is not consumed.
  unsent :
      (sc : Scenario) (h : List (ℕ × SubmitHold)) (c : List (ℕ × H)) (n : ℕ)
      (qs : List (DispatchRequest H))
      → lookup n c ≡ none
      → All (Kept sc h c) qs
      → All (λ q. intent_id_of q ≢ n) qs
  unsent sc h c n qs t b = All-map qs (λ q k f. k.0 (ap (λ m. lookup m c) f ∙ t)) b

  dropped-All :
      (sc : Scenario) (h : List (ℕ × SubmitHold)) (c : List (ℕ × H)) (n : ℕ)
      (qs : List (DispatchRequest H))
      → All (λ q. intent_id_of q ≢ n) qs
      → All (Kept sc h c) qs
      → All (Kept sc (drop_key n h) c) qs
  dropped-All sc h c n [] m b = tt
  dropped-All sc h c n (q ∷ qs) m b =
      ((b.0.0, dropped-IsRetained sc h n q m.0 b.0.1), dropped-All sc h c n qs m.1 b.1)

  retained-Rules : Rules digests policy Retained Held (λ i r. Held i)
  retained-Rules = record {
    free_guard = λ sc s h c q l u b. b;
    committed_guard = λ i r sc s h c q l u b. b;
    start = λ kill now i sc s s' h c q l t risk taken b. (
      All-map q
          (λ x k. (
            lookup_consumed (intent_id_of x) i.intent_id (digests.of_intent i) c k.0,
            stored-IsRetained sc h i.intent_id (reserved_for i) x
                (λ f. k.0 (ap (λ m. lookup m c) f ∙ t)) k.1,
          ))
          b,
      just_consumed i.intent_id (digests.of_intent i) c,
      lookup-store i.intent_id i.intent_id (reserved_for i) h ∙ rw (same_refl i.intent_id) refl,
      unsent sc h c i.intent_id q t b,
    );
    not_appended = λ i sc s h c q l io b. b.0;
    appended = λ i sc s h c q l io r f b. b;
    not_sent = λ i r sc s h c q l b. b.0;
    sent = λ i r now sc s h c q l b. All-append (Kept sc h c) q _ b.0 ((b.1, inr b.2), tt);
    abandon = λ i r d sc s s' h c q l t f b. dropped-All sc h c i.intent_id q b.3 b.0;
    release = λ n d sc s s' h c q l rejects t f b. All-map q (λ x k. (k.0, inl rejects)) b;
  }

  abbrev Opened : Result (SubmitPath H) → Type 0
  Opened (err _) = Unit
  Opened (ok p) = At Retained p

  -- Of an opened path, whatever calls come, and whatever goes wrong in them: every request to the adapter
  -- has its whole reservation still among the holds, whether it was acknowledged or its outcome is unknown,
  -- unless the adapter is one that rejects; and where the holds have the notional of a BUY order, the cost of
  -- all positions and the notionals of all holds are together at most the gross limit, and the same in every
  -- market with its limit.
  pub pending-IsWithinLimits :
      (unchanged : Bool) (l : Ledger H) (portfolio : PortfolioState) (scenario : Scenario)
      (p : SubmitPath H) (cs : List (SubmitInput × OrderIntent))
      → open_path unchanged l portfolio scenario ≡ ok p
      → let q = submit_all digests policy cs p in
        All (IsRetained q.scenario q.holds) q.requests
        × IsWithinLimits policy.limits q.portfolio q.holds
  pending-IsWithinLimits unchanged l portfolio scenario p cs f =
      let q : SubmitPath H = submit_all digests policy cs p in
      let kept : At Retained q =
        submit_all-Free retained-Rules cs p
          (subst Opened f (open_path-cases unchanged l portfolio scenario Opened (λ x. tt) tt)) in
      (
        All-map q.requests (λ x k. k.1) kept,
        path-IsWithinLimits policy digests unchanged l portfolio scenario p cs f,
      )
