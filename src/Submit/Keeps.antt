-- ===== src/Submit/Keeps.antt =====
-- What a call keeps, stage by stage, of what is said of the portfolio, the holds, the consumed ids, the
-- requests and the ledger of a path (src/std0_quant/execution/exclusive_submit_path_v1.py).
use polymarket_quant.Common.{
  ℕ, ◌≡◌, refl, sym, subst, Bool, true, false, Option, none, some, List, [], ◌∷◌, ◌++◌, Eq, lookup,
  store, nat_eq, if◌then◌else◌, Bool-cases, inl, inr, leb, same,
}
use polymarket_quant.Numeric.{Result, ok, err, submit_unavailable, notional_not_positive}
use polymarket_quant.Action.{
  Action, ◌>>=◌, ◌>>◌, >>-cases, >>=-cases, lift, get, modify, raise_when,
}
use polymarket_quant.Contracts.{OrderIntent, intent_eq, normalized, order_notional}
use polymarket_quant.Ledger.{Digests, Ledger, LedgerCheckpoint, DurableIntentReceipt}
use polymarket_quant.Submit.{
  SubmitPolicy, SubmitHold, SubmitResult, SubmitPath, SubmitInput, HaltReason, SubmitReason,
  SubmitStatus,
}
use polymarket_quant.Submit.Hold.{reserve_on, hold_of, reserve}
use polymarket_quant.Submit.Stages.{
  cash_needed, risk_of, risk_reasons, time_reasons, governance_reasons,
}
use polymarket_quant.Submit.Path.{halt, is_at_tip, answer, store_answer, repeated, commit}
use polymarket_quant.Submit.Call.{
  after_commit, commit_or_halt, consume, send_unless, assess, assess_unless, attempt, submit_locked,
  submit, submit_all, number, is_conflict,
}
use polymarket_quant.Submit.Halted.{settled}
use polymarket_quant.Submit.Rules.{View, At, Rules, replace_cases, is_at_tip-ledger}
use polymarket_quant.Submit.Commits.{Committed, after_commit-Free, commit-Committed}

module _ {H : Type 0} ⦃e : Eq H⦄ {digests : Digests H} {policy : SubmitPolicy} {free : View H}
    {held : OrderIntent → View H} {committed : OrderIntent → DurableIntentReceipt H → View H}
    (rules : Rules digests policy free held committed) where
  abbrev Free : {A : Type 0} → Result A × SubmitPath H → Type 0
  Free r = At free r.1

  repeated-path : (i : OrderIntent) (old : H) (p : SubmitPath H) → (repeated digests i old p).1 ≡ p
  repeated-path i old p = elim (Bool-cases (same old (digests.of_intent i))) [
    | inl h ↦ rw h refl
    | inr h ↦ rw h refl
  ]

  module _ (io : SubmitInput) (i : OrderIntent) where
    repeated-Free : (old : H) (p : SubmitPath H) → At free p → Free (repeated digests i old p)
    repeated-Free old p f = subst (At free) (sym (repeated-path i old p)) f

    abbrev recorded : ℕ → Option (DurableIntentReceipt H) → Action (SubmitPath H) (SubmitResult H)
    recorded now receipt = elim receipt [
      | some r ↦ after_commit digests policy io i now r
      | none ↦ do
        halt digests HaltReason.precommit_failed
        store_answer digests i SubmitStatus.precommit_failed
            (SubmitReason.halted HaltReason.precommit_failed ∷ []) false none
    ]

    commit_or_halt-Free :
        (now : ℕ) (p : SubmitPath H)
        → At (held i) p
        → Free (commit_or_halt digests policy io i now p)
    unfolding commit_or_halt
    commit_or_halt-Free now p k =
        let run : Result (DurableIntentReceipt H × LedgerCheckpoint H) × Ledger H
            → Result (Option (DurableIntentReceipt H)) × SubmitPath H =
          λ m. elim m.0 [
            | ok c ↦ (ok (some c.0), record p { ledger = m.1; tip = c.1 })
            | err _ ↦ (ok none, record p { ledger = m.1 })
          ] in
        let go_on : Result (Option (DurableIntentReceipt H)) × SubmitPath H
            → Result (SubmitResult H) × SubmitPath H =
          λ m. elim m.0 [ ok a ↦ recorded now a m.1 | err x ↦ (err x, m.1) ] in
        let go : (m : Result (DurableIntentReceipt H × LedgerCheckpoint H) × Ledger H)
            → Committed rules io i p.scenario p.portfolio p.holds p.consumed_hashes p.requests p.tip
                m
            → Free (go_on (run m)) =
          λ m.
            elim m.0
              as (λ r.
                Committed rules io i p.scenario p.portfolio p.holds p.consumed_hashes p.requests
                  p.tip (r, m.1)
                → Free (go_on (run (r, m.1)))) [
                  | ok c ↦ λ b.
                      after_commit-Free rules io i c.0 now (record p { ledger = m.1; tip = c.1 }) b
                  | err x ↦ λ f. f
                ] in
        go (commit digests io i p.tip p.ledger) (
          commit-Committed rules io i p.scenario p.portfolio p.holds p.consumed_hashes p.requests
            p.tip p.ledger k)

    -- The reservation of an allowed intent, and the id that is consumed with it.
    send-Free :
        (now : ℕ) (p : SubmitPath H)
        → lookup i.intent_id p.consumed_hashes ≡ none
        → risk_reasons policy
            (risk_of policy io.kill_at_risk now i p.portfolio)
            i
            p.portfolio
            p.holds
          ≡ []
        → At free p
        → Free (send_unless digests policy [] io i now p)
    unfolding send_unless consume reserve
    send-Free now p t h f =
        let taken : SubmitPath H → SubmitPath H = λ p. record p {
          consumed_hashes = store i.intent_id (digests.of_intent i) p.consumed_hashes;
        } in
        let hold : SubmitHold = hold_of i (cash_needed policy i) in
        let consumed : Result (Unit {0}) × SubmitPath H → Result (Unit {0}) × SubmitPath H =
          λ m. elim m.0 [ ok a ↦ modify taken m.1 | err x ↦ (err x, m.1) ] in
        let go_on : Result (Unit {0}) × SubmitPath H → Result (SubmitResult H) × SubmitPath H = λ m.
          elim m.0 [ ok a ↦ commit_or_halt digests policy io i now m.1 | err x ↦ (err x, m.1) ] in
        replace_cases (λ m. Free (go_on (consumed m))) (reserve_on hold)
          (store i.intent_id hold p.holds) p (λ x. f)
          (λ s k.
            commit_or_halt-Free now
              (taken (record p { portfolio = s; holds = store i.intent_id hold p.holds }))
              (rules.start io.kill_at_risk now i p.scenario p.portfolio s p.holds p.consumed_hashes
                p.requests p.ledger t h k f))

    send_unless-Free :
        (reasons : List SubmitReason) (now : ℕ) (p : SubmitPath H)
        → lookup i.intent_id p.consumed_hashes ≡ none
        → risk_reasons policy
            (risk_of policy io.kill_at_risk now i p.portfolio)
            i
            p.portfolio
            p.holds
          ≡ reasons
        → At free p
        → Free (send_unless digests policy reasons io i now p)
    unfolding send_unless
    send_unless-Free [] now p t h f = send-Free now p t h f
    send_unless-Free (x ∷ xs) now p t h f = f

    assess-Free :
        (now : ℕ) (p : SubmitPath H)
        → lookup i.intent_id p.consumed_hashes ≡ none
        → At free p
        → Free (assess digests policy io i now p)
    unfolding assess
    assess-Free now p t f =
        let judged : SubmitPath H → Action (SubmitPath H) (SubmitResult H) = λ q.
          send_unless digests policy
            (risk_reasons policy (risk_of policy io.kill_at_risk now i q.portfolio) i q.portfolio
              q.holds)
            io i now in
        >>-cases Free (raise_when (leb (order_notional i) 0) notional_not_positive) (get >>= judged)
          p (λ x. f) (send_unless-Free _ now p t refl f)

    assess_unless-Free :
        (reasons : List SubmitReason) (now : ℕ) (p : SubmitPath H)
        → lookup i.intent_id p.consumed_hashes ≡ none
        → At free p
        → Free (assess_unless digests policy reasons io i now p)
    unfolding assess_unless
    assess_unless-Free [] now p t f = assess-Free now p t f
    assess_unless-Free (x ∷ xs) now p t f = f

    abbrev tried : Bool → Action (SubmitPath H) (SubmitResult H)
    tried at_tip =
        if at_tip
        then (do
          now ← lift (number io.now)
          assess_unless digests policy
              (governance_reasons policy io.evidence i
                ++ time_reasons policy io.kill_at_entry i now)
              io i now)
        else (do
          halt digests HaltReason.ledger_lost
          answer digests i SubmitStatus.reconciliation_required
              (SubmitReason.halted HaltReason.ledger_lost ∷ []))

    tried-Free :
        (at_tip : Bool) (p : SubmitPath H)
        → lookup i.intent_id p.consumed_hashes ≡ none
        → At free p
        → Free (tried at_tip p)
    tried-Free true p t f =
        >>=-cases Free (lift (number io.now))
          (λ now.
            assess_unless digests policy
              (governance_reasons policy io.evidence i
                ++ time_reasons policy io.kill_at_entry i now)
              io i now)
          p (λ x. f) (λ now h. assess_unless-Free _ now p t f)
    tried-Free false p t f = f

    attempt-Free :
        (p : SubmitPath H)
        → lookup i.intent_id p.consumed_hashes ≡ none
        → At free p
        → Free (attempt digests policy io i p)
    unfolding attempt
    attempt-Free p t f =
        let looked : SubmitPath H = (is_at_tip digests io.tip_unchanged p).1 in
        let still : At free looked =
          is_at_tip-ledger digests io.tip_unchanged p
            (free p.scenario p.portfolio p.holds p.consumed_hashes p.requests)
            (rules.free_guard p.scenario p.portfolio p.holds p.consumed_hashes p.requests p.ledger
              io.tip_unchanged f) in
        >>=-cases Free (is_at_tip digests io.tip_unchanged) tried p (λ x. still)
          (λ at_tip h. tried-Free at_tip looked t still)

    locked-Free : (p : SubmitPath H) → At free p → Free (submit_locked digests policy io i p)
    unfolding submit_locked
    locked-Free p f =
        let open_call : Option HaltReason → Result (SubmitResult H) × SubmitPath H = λ h. elim h [
          | some h ↦
              answer digests i SubmitStatus.reconciliation_required (SubmitReason.halted h ∷ []) p
          | none ↦ attempt digests policy io i p
        ] in
        elim (lookup i.intent_id p.consumed_hashes)
            as (λ o.
              lookup i.intent_id p.consumed_hashes ≡ o
              → Free {A = SubmitResult H} (elim o [
                | some old ↦ repeated digests i old p
                | none ↦ open_call p.halt_reason
              ])) [
                | some old ↦ λ t. repeated-Free old p f
                | none ↦ λ t. elim p.halt_reason as (λ h. Free (open_call h)) [
                  | some h ↦ f
                  | none ↦ attempt-Free p t f
                ]
              ]
          refl

  submit-Free :
      (io : SubmitInput) (i : OrderIntent) (p : SubmitPath H)
      → At free p
      → Free (submit digests policy io i p)
  unfolding submit
  submit-Free io intent p f =
      elim p.closed
        as (λ b. Free {A = SubmitResult H} (
          if b then (err submit_unavailable, p) else elim (normalized intent) [
            | err x ↦ (err x, p)
            | ok j ↦ settled digests policy (submit_locked digests policy io j p)
          ])) [
            | true ↦ f
            | false ↦
                elim (normalized intent)
                  as (λ n. Free {A = SubmitResult H} (elim n [
                    | err x ↦ (err x, p)
                    | ok j ↦ settled digests policy (submit_locked digests policy io j p)
                  ])) [
                    | err x ↦ f
                    | ok i ↦
                        settled-Free (submit_locked digests policy io i p) (locked-Free io i p f)
                  ]
          ]
    where
      settled-Free :
          (m : Result (SubmitResult H) × SubmitPath H)
          → At free m.1
          → Free (settled digests policy m)
      settled-Free (ok a, q) g = g
      settled-Free (err x, q) g =
          elim (is_conflict x)
            as (λ b. At free (
              if b then q else record q {
                halt_reason =
                    some (elim q.halt_reason [ none ↦ HaltReason.unexpected_failure | some h ↦ h ]);
              })) [ true ↦ g | false ↦ g ]

  pub submit_all-Free :
      (cs : List (SubmitInput × OrderIntent)) (p : SubmitPath H)
      → At free p
      → At free (submit_all digests policy cs p)
  submit_all-Free [] p f = f
  submit_all-Free (c ∷ cs) p f =
      submit_all-Free cs (submit digests policy c.0 c.1 p).1 (submit-Free c.0 c.1 p f)
