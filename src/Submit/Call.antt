-- ===== src/Submit/Call.antt =====
-- `_open`, `_submit_locked` and `submit` (src/std0_quant/execution/exclusive_submit_path_v1.py).
use polymarket_quant.Common.{
  ℕ, Bool, true, false, not, none, some, List, [], ◌∷◌, ◌++◌, leb, ltb, ◌==◌, lookup, store, Eq,
  nat_eq, if◌then◌else◌,
}
use polymarket_quant.Numeric.{
  Error, Float, Field, Result, ok, err, nonnegative_finite, notional_not_positive,
  submit_unavailable, submit_conflict, reservation_mismatch,
}
use polymarket_quant.Action.{Action, ◌>>=◌, ◌>>◌, lift, get, modify, raise_when}
use polymarket_quant.Portfolio.{PortfolioState}
use polymarket_quant.Contracts.{OrderIntent, order_notional, normalized}
use polymarket_quant.Ledger.{
  Digests, Ledger, LedgerCheckpoint, DurableIntentReceipt, checkpoint, close,
}
use polymarket_quant.Submit.{
  SubmitPolicy, SubmitReason, SubmitStatus, SubmitResult, SubmitPath, SubmitInput, HaltReason,
  DispatchRequest, Scenario,
}
use polymarket_quant.Submit.Hold.{reserve, release_hold}
use polymarket_quant.Submit.Stages.{
  reason_if, time_reasons, governance_reasons, cash_needed, risk_of, risk_reasons,
}
use polymarket_quant.Submit.Path.{
  OfflineEvent, halt, is_at_tip, answer, store_answer, repeated, precommit, stub_dispatch,
  validate_response,
}

abbrev pub number : Float → Result ℕ
number x = nonnegative_finite x Field.clock_ms

abbrev pub is_conflict : Error → Bool
is_conflict submit_conflict = true
is_conflict _ = false

module _ {H : Type 0} where
  -- A path on a ledger whose checkpoint is read.
  abbrev pub opened : Ledger H → LedgerCheckpoint H → PortfolioState → Scenario → SubmitPath H
  opened ledger tip portfolio scenario = record {
    closed = false;
    halt_reason = if leb tip.sequence 0 then none else some HaltReason.recovered_history;
    portfolio = portfolio;
    ledger = ledger;
    tip = tip;
    holds = [];
    results = [];
    consumed_hashes = [];
    scenario = scenario;
    requests = [];
  }

  -- `_open` on an opened ledger: the portfolio must have no reservations.
  unfoldable pub open_path : Bool → Ledger H → PortfolioState → Scenario → Result (SubmitPath H)
  open_path unchanged ledger portfolio scenario =
      if not (portfolio.reserved_cash == 0)
      then err reservation_mismatch
      else elim portfolio.reserved_positions [
        | _ ∷ _ ↦ err reservation_mismatch
        | [] ↦
            let (r, l) = checkpoint unchanged ledger in
            elim r [ err x ↦ err x | ok tip ↦ ok (opened l tip portfolio scenario) ]
      ]

module _ {H : Type 0} ⦃e : Eq H⦄ (digests : Digests H) (policy : SubmitPolicy) where
  -- From the stub's answer to the end.
  unfoldable pub finish :
      OrderIntent
      → DurableIntentReceipt H
      → Result OfflineEvent
      → Action (SubmitPath H) (SubmitResult H)
  finish i receipt (err _) = do
    halt digests HaltReason.dispatch_outcome_unknown
    store_answer digests i SubmitStatus.unknown
        (SubmitReason.halted HaltReason.dispatch_outcome_unknown ∷ []) true (some receipt)
  finish i receipt (ok event) =
      if event.acknowledged
      then store_answer digests i SubmitStatus.offline_ack [] true (some receipt)
      else (do
        release_hold i.intent_id
        store_answer digests i SubmitStatus.offline_rejected [] true (some receipt))

  unfoldable pub dispatch :
      OrderIntent → DurableIntentReceipt H → ℕ → Action (SubmitPath H) (SubmitResult H)
  dispatch i receipt now p =
      let request : DispatchRequest H = record {
        intent = i;
        intent_hash = digests.of_intent i;
        receipt = receipt;
        submit_ts_ms = now;
      } in
      let (r, sent) = stub_dispatch digests request p in
      finish i receipt (elim r [ ok x ↦ validate_response digests x request i | err x ↦ err x ])
        sent

  -- `if reasons: release ... else dispatch`
  unfoldable pub dispatch_unless :
      List SubmitReason
      → OrderIntent
      → DurableIntentReceipt H
      → ℕ
      → Action (SubmitPath H) (SubmitResult H)
  dispatch_unless [] i receipt now = dispatch i receipt now
  dispatch_unless (r ∷ rs) i receipt now = do
    release_hold i.intent_id
    store_answer digests i SubmitStatus.not_dispatched (r ∷ rs) false (some receipt)

  -- The last look at the clock and at the kill switch.
  unfoldable pub recheck :
      SubmitInput
      → OrderIntent
      → DurableIntentReceipt H
      → ℕ
      → List SubmitReason
      → Action (SubmitPath H) (SubmitResult H)
  recheck io i receipt dispatch_now reasons = do
    final ← lift (number io.final_now)
    dispatch_unless
        (reasons
          ++ time_reasons policy io.kill_before_dispatch i final
          ++ reason_if (ltb final dispatch_now) SubmitReason.clock_moved_backwards)
        i receipt final

  -- From the precommit on.
  unfoldable pub after_commit :
      SubmitInput
      → OrderIntent
      → ℕ
      → DurableIntentReceipt H
      → Action (SubmitPath H) (SubmitResult H)
  after_commit io i now receipt = do
    dispatch_now ← lift (number io.dispatch_now)
    at_tip ← is_at_tip digests io.last_unchanged
    if at_tip
        then recheck io i receipt dispatch_now (
            time_reasons policy io.kill_after_commit i dispatch_now
            ++ reason_if (ltb dispatch_now now) SubmitReason.clock_moved_backwards)
        else (do
          halt digests HaltReason.ledger_changed_before_dispatch
          store_answer digests i SubmitStatus.reconciliation_required
              (SubmitReason.halted HaltReason.ledger_changed_before_dispatch ∷ []) false
              (some receipt))

  unfoldable pub commit_or_halt :
      SubmitInput → OrderIntent → ℕ → Action (SubmitPath H) (SubmitResult H)
  commit_or_halt io i now = do
    receipt ← precommit digests io i
    elim receipt [
      | some r ↦ after_commit io i now r
      | none ↦ do
        halt digests HaltReason.precommit_failed
        store_answer digests i SubmitStatus.precommit_failed
            (SubmitReason.halted HaltReason.precommit_failed ∷ []) false none
    ]

  unfoldable pub consume : OrderIntent → Action (SubmitPath H) (Unit {0})
  consume i = do
    reserve i (cash_needed policy i)
    modify (λ p. record p {
      consumed_hashes = store i.intent_id (digests.of_intent i) p.consumed_hashes;
    })

  unfoldable pub send_unless :
      List SubmitReason → SubmitInput → OrderIntent → ℕ → Action (SubmitPath H) (SubmitResult H)
  send_unless [] io i now = do consume i; commit_or_halt io i now
  send_unless (r ∷ rs) io i now = answer digests i SubmitStatus.blocked (r ∷ rs)

  unfoldable pub assess : SubmitInput → OrderIntent → ℕ → Action (SubmitPath H) (SubmitResult H)
  assess io i now = do
    raise_when (leb (order_notional i) 0) notional_not_positive
    p ← get
    send_unless
        (risk_reasons policy (risk_of policy io.kill_at_risk now i p.portfolio) i p.portfolio
          p.holds)
        io i now

  unfoldable pub assess_unless :
      List SubmitReason → SubmitInput → OrderIntent → ℕ → Action (SubmitPath H) (SubmitResult H)
  assess_unless [] io i now = assess io i now
  assess_unless (r ∷ rs) io i now = answer digests i SubmitStatus.blocked (r ∷ rs)

  -- The call for an id that is not consumed, on a path that is not halted.
  unfoldable pub attempt : SubmitInput → OrderIntent → Action (SubmitPath H) (SubmitResult H)
  attempt io i = do
    at_tip ← is_at_tip digests io.tip_unchanged
    if at_tip
        then (do
          now ← lift (number io.now)
          assess_unless
              (governance_reasons policy io.evidence i
                ++ time_reasons policy io.kill_at_entry i now)
              io i now)
        else (do
          halt digests HaltReason.ledger_lost
          answer digests i SubmitStatus.reconciliation_required
              (SubmitReason.halted HaltReason.ledger_lost ∷ []))

  -- `_submit_locked`
  unfoldable pub submit_locked : SubmitInput → OrderIntent → Action (SubmitPath H) (SubmitResult H)
  submit_locked io i p = elim (lookup i.intent_id p.consumed_hashes) [
    | some old ↦ repeated digests i old p
    | none ↦ elim p.halt_reason [
      | some h ↦
          answer digests i SubmitStatus.reconciliation_required (SubmitReason.halted h ∷ []) p
      | none ↦ attempt io i p
    ]
  ]

  -- What an exception leaves: the path is halted, but not by a conflict.
  abbrev pub after_failure : Error → SubmitPath H → SubmitPath H
  after_failure x p = if is_conflict x then p else record p {
    halt_reason = some (elim p.halt_reason [ none ↦ HaltReason.unexpected_failure | some h ↦ h ]);
  }

  unfoldable pub submit : SubmitInput → OrderIntent → Action (SubmitPath H) (SubmitResult H)
  submit io intent p = if p.closed then (err submit_unavailable, p) else elim (normalized intent) [
    | err x ↦ (err x, p)
    | ok i ↦
        let (r, q) = submit_locked io i p in
        elim r [ ok a ↦ (ok a, q) | err x ↦ (err x, after_failure x q) ]
  ]

  -- `close`, which releases no reservation.
  abbrev pub close_path : SubmitPath H → SubmitPath H
  close_path p = record p { closed = true; ledger = close p.ledger }

  -- Calls one after another.
  abbrev pub submit_all : List (SubmitInput × OrderIntent) → SubmitPath H → SubmitPath H
  submit_all [] p = p
  submit_all (c ∷ cs) p = submit_all cs (submit c.0 c.1 p).1
