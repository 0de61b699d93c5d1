-- ===== src/Submit/Once.antt =====
-- What the requests that reached the adapter say of the ledger
-- (src/std0_quant/execution/exclusive_submit_path_v1.py).
use mathlib.Core.Option.{some-ne-none}
use polymarket_quant.Common.{
  ℕ, ◌≡◌, ◌≢◌, refl, sym, ap, subst, ◌∙◌, Bool, Option, none, List, Eq, lookup, store, lookup-store,
  same, same_refl, nat_eq, inl, inr, Bool-cases, All, All-append, All-map, Distinct,
  Distinct-append,
}
use polymarket_quant.Numeric.{Result, ok, err}
use polymarket_quant.Portfolio.{PortfolioState}
use polymarket_quant.Contracts.{OrderIntent}
use polymarket_quant.Ledger.{
  Digests, Line, Index, Ledger, LedgerCheckpoint, DurableIntentReceipt, append, Call, append_call,
  read_call, perform,
}
use polymarket_quant.Ledger.Recover.{recover, open_existing}
use polymarket_quant.Ledger.Durable.{IsKept, perform-IsKept}
use polymarket_quant.Ledger.Receipts.{
  IsRemembered, perform-keeps, append-Answers, Answers, recovered-IsRemembered,
}
use polymarket_quant.Ledger.Reopen.{open_existing-IsKept}
use polymarket_quant.Submit.{
  SubmitPolicy, SubmitHold, SubmitPath, SubmitInput, DispatchRequest, Scenario,
}
use polymarket_quant.Submit.Call.{open_path, submit_all}
use polymarket_quant.Submit.Open.{open_path-cases}
use polymarket_quant.Submit.Rules.{View, At, Rules}
use polymarket_quant.Submit.Keeps.{submit_all-Free}

module _ {H : Type 0} where
  abbrev pub intent_id_of : DispatchRequest H → ℕ
  intent_id_of q = q.intent.intent_id

  -- The id of a request is consumed, and its intent and its receipt are in the ledger.
  abbrev IsBacked : List (ℕ × H) → Ledger H → DispatchRequest H → Type 0
  IsBacked c l q = (lookup (intent_id_of q) c ≢ none) × IsRemembered l.index q.intent q.receipt

  pub lookup_consumed :
      (n k : ℕ) (d : H) (c : List (ℕ × H)) → lookup n c ≢ none → lookup n (store k d c) ≢ none
  lookup_consumed n k d c h t = elim (Bool-cases (same n k)) [
    | inl f ↦ some-ne-none d (sym (lookup-store n k d c ∙ rw f refl) ∙ t)
    | inr f ↦ h (sym (lookup-store n k d c ∙ rw f refl) ∙ t)
  ]

  pub just_consumed : (k : ℕ) (d : H) (c : List (ℕ × H)) → lookup k (store k d c) ≢ none
  just_consumed k d c t = some-ne-none d (sym (lookup-store k k d c ∙ rw (same_refl k) refl) ∙ t)

  not_consumed :
      (k : ℕ) (c : List (ℕ × H)) (l : Ledger H) (qs : List (DispatchRequest H))
      → lookup k c ≡ none
      → All (IsBacked c l) qs
      → All (λ q. intent_id_of q ≢ k) qs
  not_consumed k c l qs t h = All-map qs (λ q b f. b.0 (ap (λ n. lookup n c) f ∙ t)) h

module _ {H : Type 0} ⦃e : Eq H⦄ (digests : Digests H) (policy : SubmitPolicy) where
  -- The file is kept, no id is sent twice, and every request is backed.
  abbrev Backed : View H
  Backed sc s h c q l = IsKept digests l × Distinct intent_id_of q × All (IsBacked c l) q

  abbrev Held : OrderIntent → View H
  Held i sc s h c q l =
      Backed sc s h c q l
      × (lookup i.intent_id c ≢ none)
      × All (λ q. intent_id_of q ≢ i.intent_id) q

  abbrev Committed : OrderIntent → DurableIntentReceipt H → View H
  Committed i r sc s h c q l = Held i sc s h c q l × IsRemembered l.index i r

  -- A call on the ledger.
  moved :
      (sc : Scenario) (s : PortfolioState) (h : List (ℕ × SubmitHold)) (c : List (ℕ × H))
      (q : List (DispatchRequest H)) (l : Ledger H) (call : Call)
      → Backed sc s h c q l
      → Backed sc s h c q (perform digests call l)
  moved sc s h c q l call (k, d, b) = (
    perform-IsKept digests call l k,
    d,
    All-map q (λ x y. (y.0, perform-keeps digests x.intent x.receipt call l y.1)) b,
  )

  once-Rules : Rules digests policy Backed Held Committed
  once-Rules = record {
    free_guard = λ sc s h c q l u b. moved sc s h c q l (read_call u) b;
    committed_guard = λ i r sc s h c q l u b. (
      (moved sc s h c q l (read_call u) b.0.0, b.0.1, b.0.2),
      perform-keeps digests i r (read_call u) l b.1,
    );
    start = λ kill now i sc s s' h c q l t risk taken b. (
      (
        b.0,
        b.1,
        All-map q
            (λ x y. (lookup_consumed (intent_id_of x) i.intent_id (digests.of_intent i) c y.0, y.1))
            b.2,
      ),
      just_consumed i.intent_id (digests.of_intent i) c,
      not_consumed i.intent_id c l q t b.2,
    );
    not_appended = λ i sc s h c q l io b. moved sc s h c q l (append_call io i) b.0;
    appended = λ i sc s h c q l io r f b. (
      (moved sc s h c q l (append_call io i) b.0, b.1, b.2),
      (subst (λ m. Answers digests i (m, (append digests io i l).1)) f
          (append-Answers digests io i l)).1,
    );
    not_sent = λ i r sc s h c q l b. b.0.0;
    sent = λ i r now sc s h c q l b. (
      b.0.0.0,
      Distinct-append intent_id_of q _ b.0.0.1 b.0.2,
      All-append (IsBacked c l) q _ b.0.0.2 ((b.0.1, b.1), tt),
    );
    abandon = λ i r d sc s s' h c q l t f b. b.0.0;
    release = λ n d sc s s' h c q l x t f b. b;
  }

  abbrev Opened : Result (SubmitPath H) → Type 0
  Opened (err _) = Unit
  Opened (ok p) = At Backed p

  path_is_backed :
      (unchanged : Bool) (l : Ledger H) (portfolio : PortfolioState) (scenario : Scenario)
      (p : SubmitPath H) (cs : List (SubmitInput × OrderIntent))
      → IsKept digests l
      → open_path unchanged l portfolio scenario ≡ ok p
      → At Backed (submit_all digests policy cs p)
  path_is_backed unchanged l portfolio scenario p cs k f =
      submit_all-Free once-Rules cs p (
        subst Opened f
          (open_path-cases unchanged l portfolio scenario Opened (λ x. tt) (k, tt, tt)))

  module _ (ledger_id : ℕ) (c : Option (LedgerCheckpoint H)) (synced : Bool) (file : List (Line H))
      (l : Ledger H) (unchanged : Bool) (portfolio : PortfolioState) (scenario : Scenario)
      (p : SubmitPath H) (cs : List (SubmitInput × OrderIntent)) where
    -- Of a path on a ledger that was opened, whatever calls come, and whatever goes wrong in them: no two
    -- requests to the adapter have the same intent id.
    pub each_id_is_sent_once :
        open_existing digests ledger_id c synced file ≡ ok l
        → open_path unchanged l portfolio scenario ≡ ok p
        → Distinct intent_id_of (submit_all digests policy cs p).requests
    each_id_is_sent_once f g =
        (path_is_backed unchanged l portfolio scenario p cs
          (open_existing-IsKept digests ledger_id c synced file l f) g).1

    -- Nothing is sent that is not durable: of a path on a ledger that was opened, whatever calls come, and
    -- whatever goes wrong in them, an index that the ledger's file is then read back as has the intent of
    -- every request to the adapter, with the receipt that the request carries.
    pub requests_are_durable :
        (x : Index H)
        → open_existing digests ledger_id c synced file ≡ ok l
        → open_path unchanged l portfolio scenario ≡ ok p
        → recover digests
            (submit_all digests policy cs p).ledger.ledger_id
            (submit_all digests policy cs p).ledger.file
          ≡ ok x
        → All (λ q. IsRemembered x q.intent q.receipt) (submit_all digests policy cs p).requests
    requests_are_durable x f g read =
        let q : SubmitPath H = submit_all digests policy cs p in
        let b : At Backed q =
          path_is_backed unchanged l portfolio scenario p cs
            (open_existing-IsKept digests ledger_id c synced file l f) g in
        All-map q.requests
          (λ r y. recovered-IsRemembered digests q.ledger r.intent r.receipt x b.0 y.1 read) b.2
