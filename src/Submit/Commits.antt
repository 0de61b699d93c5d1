-- ===== src/Submit/Commits.antt =====
-- What a call keeps from the append to the dispatch
-- (src/std0_quant/execution/exclusive_submit_path_v1.py).
use polymarket_quant.Common.{
  ℕ, ◌≡◌, refl, arith, Bool, true, false, not, Option, some, List, [], ◌∷◌, ◌++◌, Eq, nat_eq, ltb,
  if◌then◌else◌,
}
use polymarket_quant.Numeric.{Result, ok, err, submit_unavailable, malformed_response}
use polymarket_quant.Action.{Action, ◌>>=◌, ◌>>◌, >>-cases, >>=-cases, pure, lift, raise_when}
use polymarket_quant.Portfolio.{PortfolioState}
use polymarket_quant.Contracts.{OrderIntent, intent_eq}
use polymarket_quant.Ledger.{
  Digests, Ledger, LedgerCheckpoint, DurableIntentReceipt, append, checkpoint, get_intent, receipts,
  guard,
}
use polymarket_quant.Ledger.Calls.{checkpoint-leaves, receipts-leaves, get_intent-leaves}
use polymarket_quant.Submit.{
  SubmitPolicy, SubmitHold, SubmitResult, SubmitPath, SubmitInput, DispatchRequest, HaltReason,
  SubmitReason, SubmitStatus, Scenario,
}
use polymarket_quant.Submit.Stages.{time_reasons, reason_if}
use polymarket_quant.Submit.Path.{
  OfflineEvent, halt, is_at_tip, store_answer, is_bound, bind_receipt, commit, stub_dispatch,
  validate_response,
}
use polymarket_quant.Submit.Call.{dispatch, dispatch_unless, recheck, after_commit, number}
use polymarket_quant.Submit.Rules.{
  View, At, Rules, Answered, is_at_tip-ledger, answered_without-Free, finish-Free,
}

module _ {H : Type 0} ⦃e : Eq H⦄ (digests : Digests H) where
  -- A response that is accepted is about its own event.
  accepted_event :
      (sc : Scenario) (event : OfflineEvent) (b : Bool)
      → (event.acknowledged ≡ false → sc ≡ Scenario.reject)
      → Answered sc (if b then ok event else err malformed_response)
  accepted_event sc event true h = h
  accepted_event sc event false h = tt

  -- The stub's answer, as it is validated.
  answered :
      (request : DispatchRequest H) (i : OrderIntent) (p : SubmitPath H)
      → Answered p.scenario (elim (stub_dispatch digests request p).0 [
        | ok x ↦ validate_response digests x request i
        | err x ↦ err x
      ])
  answered request i p =
      elim p.scenario
        as (λ sc. Answered sc (elim (stub_dispatch digests request (record p { scenario = sc })).0 [
          | ok x ↦ validate_response digests x request i
          | err x ↦ err x
        ])) [
          | Scenario.ack ↦ accepted_event Scenario.ack _ _ (λ h. absurd (ground (arith, h)))
          | Scenario.reject ↦ accepted_event Scenario.reject _ _ (λ h. refl)
          | Scenario.timeout ↦ tt
          | Scenario.malformed ↦ tt
        ]

module _ {H : Type 0} ⦃e : Eq H⦄ {digests : Digests H} {policy : SubmitPolicy} {free : View H}
    {held : OrderIntent → View H} {committed : OrderIntent → DurableIntentReceipt H → View H}
    (rules : Rules digests policy free held committed) where
  abbrev Free : {A : Type 0} → Result A × SubmitPath H → Type 0
  Free r = At free r.1

  module _ (io : SubmitInput) (i : OrderIntent) where
    module _ (r : DurableIntentReceipt H) where
      abbrev Bound : {A : Type 0} → Result A × SubmitPath H → Type 0
      Bound m = At (committed i r) m.1

      dispatch_unless-Free :
          (reasons : List SubmitReason) (now : ℕ) (p : SubmitPath H)
          → At (committed i r) p
          → Free (dispatch_unless digests policy reasons i r now p)
      unfolding dispatch_unless dispatch
      dispatch_unless-Free [] now p b =
          let request : DispatchRequest H = record {
            intent = i;
            intent_hash = digests.of_intent i;
            receipt = r;
            submit_ts_ms = now;
          } in
          let (m, q) = stub_dispatch digests request p in
          finish-Free rules i r
            (elim m [ ok x ↦ validate_response digests x request i | err x ↦ err x ]) q
            (rules.sent i r now p.scenario p.portfolio p.holds p.consumed_hashes p.requests p.ledger
              b)
            (answered digests request i p)
      dispatch_unless-Free (x ∷ xs) now p b =
          answered_without-Free rules i SubmitStatus.not_dispatched (x ∷ xs) false (some r) p
            (rules.not_sent i r p.scenario p.portfolio p.holds p.consumed_hashes p.requests p.ledger
              b)
            (λ d s t h.
              rules.abandon i r d p.scenario p.portfolio s p.holds p.consumed_hashes p.requests
                p.ledger t h b)

      bound-Free : (p : SubmitPath H) → At (committed i r) p → At free p
      bound-Free p b =
          rules.not_sent i r p.scenario p.portfolio p.holds p.consumed_hashes p.requests p.ledger b

      recheck-Free :
          (dispatch_now : ℕ) (reasons : List SubmitReason) (p : SubmitPath H)
          → At (committed i r) p
          → Free (recheck digests policy io i r dispatch_now reasons p)
      unfolding recheck
      recheck-Free dispatch_now reasons p b =
          >>=-cases Free (lift (number io.final_now))
            (λ final.
              dispatch_unless digests policy
                (reasons
                  ++ time_reasons policy io.kill_before_dispatch i final
                  ++ reason_if (ltb final dispatch_now) SubmitReason.clock_moved_backwards)
                i r final)
            p (λ x. bound-Free p b) (λ final h. dispatch_unless-Free _ final p b)

      -- The continuations of `after_commit`.
      abbrev checked : ℕ → ℕ → Bool → Action (SubmitPath H) (SubmitResult H)
      checked now dispatch_now at_tip =
          if at_tip
          then recheck digests policy io i r dispatch_now (
              time_reasons policy io.kill_after_commit i dispatch_now
              ++ reason_if (ltb dispatch_now now) SubmitReason.clock_moved_backwards)
          else (do
            halt digests HaltReason.ledger_changed_before_dispatch
            store_answer digests i SubmitStatus.reconciliation_required
                (SubmitReason.halted HaltReason.ledger_changed_before_dispatch ∷ []) false (some r))

      checked-Free :
          (now dispatch_now : ℕ) (at_tip : Bool) (p : SubmitPath H)
          → At (committed i r) p
          → Free (checked now dispatch_now at_tip p)
      checked-Free now dispatch_now true p b = recheck-Free dispatch_now _ p b
      checked-Free now dispatch_now false p b = bound-Free p b

      pub after_commit-Free :
          (now : ℕ) (p : SubmitPath H)
          → At (committed i r) p
          → Free (after_commit digests policy io i now r p)
      unfolding after_commit
      after_commit-Free now p b =
          let looked : SubmitPath H = (is_at_tip digests io.last_unchanged p).1 in
          let still : At (committed i r) looked =
            is_at_tip-ledger digests io.last_unchanged p
              (committed i r p.scenario p.portfolio p.holds p.consumed_hashes p.requests)
              (rules.committed_guard i r p.scenario p.portfolio p.holds p.consumed_hashes p.requests
                p.ledger io.last_unchanged b) in
          >>=-cases Free (lift (number io.dispatch_now))
            (λ dispatch_now. is_at_tip digests io.last_unchanged >>= checked now dispatch_now) p
            (λ x. bound-Free p b)
            (λ dispatch_now h.
              >>=-cases Free (is_at_tip digests io.last_unchanged) (checked now dispatch_now) p
                (λ x. bound-Free looked still)
                (λ at_tip k. checked-Free now dispatch_now at_tip looked still))

    module _ (sc : Scenario) (s : PortfolioState) (h : List (ℕ × SubmitHold)) (c : List (ℕ × H))
        (q : List (DispatchRequest H)) (tip : LedgerCheckpoint H) where
      -- A receipt that is bound is the one that was given, on a ledger that is committed to it.
      abbrev pub Committed :
          Result (DurableIntentReceipt H × LedgerCheckpoint H) × Ledger H → Type 0
      Committed (err _, l) = free sc s h c q l
      Committed (ok x, l) = committed i x.0 sc s h c q l

      bind_receipt-Committed :
          (r : DurableIntentReceipt H) (l : Ledger H)
          → committed i r sc s h c q l
          → Committed (bind_receipt digests io i tip r l)
      unfolding bind_receipt
      bind_receipt-Committed r l b =
          let K : Ledger H → Type 0 = committed i r sc s h c q in
          let g : (u : Bool) (m : Ledger H) → K m → K (guard u m).1 =
            λ u m k. rules.committed_guard i r sc s h c q m u k in
          let none_sent : (m : Ledger H) → K m → free sc s h c q m =
            λ m k. rules.not_sent i r sc s h c q m k in
          let checked : LedgerCheckpoint H
              → Option OrderIntent
              → List (DurableIntentReceipt H)
              → Action (Ledger H) (DurableIntentReceipt H × LedgerCheckpoint H) =
            λ cp stored all.
              raise_when (not (is_bound digests i tip r cp stored all)) submit_unavailable
              >> pure (r, cp) in
          let l1 : Ledger H = (checkpoint io.new_tip_unchanged l).1 in
          let k1 : K l1 = checkpoint-leaves K io.new_tip_unchanged l (g io.new_tip_unchanged l b) in
          let l2 : Ledger H = (get_intent io.get_unchanged i.intent_id l1).1 in
          let k2 : K l2 =
            get_intent-leaves K io.get_unchanged l1 (g io.get_unchanged l1 k1) i.intent_id in
          let l3 : Ledger H = (receipts io.receipts_unchanged l2).1 in
          let k3 : K l3 =
            receipts-leaves K io.receipts_unchanged l2 (g io.receipts_unchanged l2 k2) in
          >>=-cases Committed (checkpoint io.new_tip_unchanged)
            (λ cp. get_intent io.get_unchanged i.intent_id >>= λ stored.
              receipts io.receipts_unchanged >>= checked cp stored)
            l (λ x. none_sent l1 k1)
            (λ cp h1.
              >>=-cases Committed (get_intent io.get_unchanged i.intent_id)
                (λ stored. receipts io.receipts_unchanged >>= checked cp stored) l1
                (λ x. none_sent l2 k2)
                (λ stored h2.
                  >>=-cases Committed (receipts io.receipts_unchanged) (checked cp stored) l2
                    (λ x. none_sent l3 k3)
                    (λ all h3.
                      >>-cases Committed
                        (raise_when (not (is_bound digests i tip r cp stored all))
                          submit_unavailable)
                        (pure (r, cp)) l3 (λ x. none_sent l3 k3) k3)))

      pub commit-Committed :
          (l : Ledger H) → held i sc s h c q l → Committed (commit digests io i tip l)
      unfolding commit
      commit-Committed l k =
          >>=-cases Committed (append digests io.append_input i) (bind_receipt digests io i tip) l
            (λ x. rules.not_appended i sc s h c q l io.append_input k)
            (λ r h1.
              bind_receipt-Committed r (append digests io.append_input i l).1
                (rules.appended i sc s h c q l io.append_input r h1 k))
