-- ===== src/Submit/Path.antt =====
-- What `_submit_locked` calls, on the path (src/std0_quant/execution/exclusive_submit_path_v1.py). Of a result, the
-- hashes of the policy and of the gate, the risk and the event are left out, and its reasons keep their
-- repetitions.
use polymarket_quant.Common.{
  ℕ, ◌+◌, Bool, true, false, not, ◌&&◌, Option, none, some, List, [], ◌∷◌, ◌++◌, ◌==◌, lookup,
  store, same, Eq, nat_eq, if◌then◌else◌,
}
use polymarket_quant.Numeric.{
  Result, ok, err, submit_unavailable, submit_conflict, dispatch_timeout, malformed_response,
}
use polymarket_quant.Action.{Action, ◌>>=◌, ◌>>◌, pure, modify, raise_when}
use polymarket_quant.Contracts.{OrderIntent, intent_eq}
use polymarket_quant.Ledger.{
  Digests, Ledger, LedgerCheckpoint, DurableIntentReceipt, append, checkpoint, get_intent, receipts,
}
use polymarket_quant.Submit.{
  SubmitReason, SubmitStatus, SubmitResult, SubmitPath, SubmitInput, HaltReason, DispatchRequest,
  Scenario,
}

-- The event of the stub's answer: an acknowledgement with the venue's order id, or a rejection.
pub record OfflineEvent : Type 0 where
  pub intent_id : ℕ
  pub acknowledged : Bool
  pub remaining_qty : ℕ
  pub receive_ts_ms : ℕ
  pub venue_order_id : Option ℕ

pub record OfflineResponse (H : Type 0) : Type 0 where
  pub intent_hash : H
  pub record_hash : H
  pub event : OfflineEvent

abbrev same_id : Option ℕ → Option ℕ → Bool
same_id none none = true
same_id (some a) (some b) = a == b
same_id _ _ = false

module _ {H : Type 0} ⦃e : Eq H⦄ (digests : Digests H) where
  abbrev pub same_checkpoint : LedgerCheckpoint H → LedgerCheckpoint H → Bool
  same_checkpoint a b =
      a.ledger_id == b.ledger_id && a.sequence == b.sequence && same a.record_hash b.record_hash

  abbrev same_receipt : DurableIntentReceipt H → DurableIntentReceipt H → Bool
  same_receipt a b =
      a.ledger_id == b.ledger_id
      && a.sequence == b.sequence
      && a.intent_id == b.intent_id
      && same a.intent_hash b.intent_hash
      && same a.record_hash b.record_hash

  -- `receipts()[-1] == receipt`
  abbrev ends_with : List (DurableIntentReceipt H) → DurableIntentReceipt H → Bool
  ends_with [] r = false
  ends_with (a ∷ []) r = same_receipt a r
  ends_with (a ∷ b ∷ rs) r = ends_with (b ∷ rs) r

  abbrev pub halt : HaltReason → Action (SubmitPath H) (Unit {0})
  halt reason = modify (λ p. record p { halt_reason = some reason })

  -- `self._ledger.checkpoint() != self._tip`, where an exception counts as a difference.
  abbrev pub is_at_tip : Bool → Action (SubmitPath H) Bool
  is_at_tip unchanged p =
      let (r, l) = checkpoint unchanged p.ledger in
      (ok (elim r [ ok c ↦ same_checkpoint c p.tip | err _ ↦ false ]), record p { ledger = l })

  abbrev pub result_of :
      OrderIntent
      → SubmitStatus
      → List SubmitReason
      → Bool
      → Option (DurableIntentReceipt H)
      → SubmitPath H
      → SubmitResult H
  result_of i status reasons called receipt p = record {
    intent_id = i.intent_id;
    intent_hash = digests.of_intent i;
    status = status;
    reasons = reasons;
    adapter_called = called;
    receipt = receipt;
    reserved_cash = elim (lookup i.intent_id p.holds) [ none ↦ 0 | some h ↦ h.cash ];
    reserved_sell_qty = elim (lookup i.intent_id p.holds) [ none ↦ 0 | some h ↦ h.sell_qty ];
    previous_status = none;
  }

  -- A result that is only returned.
  abbrev pub answer :
      OrderIntent → SubmitStatus → List SubmitReason → Action (SubmitPath H) (SubmitResult H)
  answer i status reasons p = (ok (result_of i status reasons false none p), p)

  -- `_store(_result(...))`
  abbrev pub store_answer :
      OrderIntent
      → SubmitStatus
      → List SubmitReason
      → Bool
      → Option (DurableIntentReceipt H)
      → Action (SubmitPath H) (SubmitResult H)
  store_answer i status reasons called receipt p =
      let r = result_of i status reasons called receipt p in
      (ok r, record p { results = store i.intent_id r p.results })

  -- The answer to an id that is consumed already.
  abbrev pub repeated : OrderIntent → H → Action (SubmitPath H) (SubmitResult H)
  repeated i old p =
      if not (same old (digests.of_intent i))
      then (err submit_conflict, p)
      else let known = lookup i.intent_id p.results in
        let r =
          result_of i SubmitStatus.duplicate (SubmitReason.already_consumed ∷ []) false
            (elim known [ none ↦ none | some r ↦ r.receipt ]) p in
        (
          ok (record r {
            previous_status = some (elim known [ none ↦ SubmitStatus.unknown | some k ↦ k.status ]);
          }),
          p,
        )

  -- The comparisons that bind a receipt to what the ledger then says.
  abbrev pub is_bound :
      OrderIntent
      → LedgerCheckpoint H
      → DurableIntentReceipt H
      → LedgerCheckpoint H
      → Option OrderIntent
      → List (DurableIntentReceipt H)
      → Bool
  is_bound i tip receipt c stored all =
      elim stored [ none ↦ false | some s ↦ same (digests.of_intent s) (digests.of_intent i) ]
      && receipt.intent_id == i.intent_id
      && same receipt.intent_hash (digests.of_intent i)
      && receipt.ledger_id == tip.ledger_id
      && receipt.sequence == tip.sequence + 1
      && same_checkpoint c (record {
        ledger_id = receipt.ledger_id;
        sequence = receipt.sequence;
        record_hash = receipt.record_hash;
      })
      && ends_with all receipt

  unfoldable pub bind_receipt :
      SubmitInput
      → OrderIntent
      → LedgerCheckpoint H
      → DurableIntentReceipt H
      → Action (Ledger H) (DurableIntentReceipt H × LedgerCheckpoint H)
  bind_receipt io i tip receipt = do
    c ← checkpoint io.new_tip_unchanged
    stored ← get_intent io.get_unchanged i.intent_id
    all ← receipts io.receipts_unchanged
    raise_when (not (is_bound i tip receipt c stored all)) submit_unavailable
    pure (receipt, c)

  -- The append of the intent, and those comparisons.
  unfoldable pub commit :
      SubmitInput
      → OrderIntent
      → LedgerCheckpoint H
      → Action (Ledger H) (DurableIntentReceipt H × LedgerCheckpoint H)
  commit io i tip = append digests io.append_input i >>= bind_receipt io i tip

  -- The same on the path: none where an exception is caught.
  abbrev pub precommit :
      SubmitInput → OrderIntent → Action (SubmitPath H) (Option (DurableIntentReceipt H))
  precommit io i p =
      let (r, l) = commit io i p.tip p.ledger in
      elim r [
        | ok c ↦ (ok (some c.0), record p { ledger = l; tip = c.1 })
        | err _ ↦ (ok none, record p { ledger = l })
      ]

  -- `OfflineSubmitStubV1._dispatch`
  abbrev pub stub_dispatch : DispatchRequest H → Action (SubmitPath H) (Option (OfflineResponse H))
  stub_dispatch request p =
      let event : Bool → Option ℕ → OfflineEvent = λ acknowledged id. record {
        intent_id = request.intent.intent_id;
        acknowledged = acknowledged;
        remaining_qty = request.intent.qty;
        receive_ts_ms = request.submit_ts_ms;
        venue_order_id = id;
      } in
      let respond : OfflineEvent → Option (OfflineResponse H) = λ event. some (record {
        intent_hash = request.intent_hash;
        record_hash = request.receipt.record_hash;
        event = event;
      }) in
      (
        elim p.scenario [
          | Scenario.ack ↦ ok (respond (event true (some request.receipt.sequence)))
          | Scenario.reject ↦ ok (respond (event false none))
          | Scenario.timeout ↦ err dispatch_timeout
          | Scenario.malformed ↦ ok none
        ],
        record p { requests = p.requests ++ request ∷ [] },
      )

  -- `_validate_response`
  abbrev pub validate_response :
      Option (OfflineResponse H) → DispatchRequest H → OrderIntent → Result OfflineEvent
  validate_response none request i = err malformed_response
  validate_response (some r) request i =
      if same r.intent_hash request.intent_hash
        && same r.record_hash request.receipt.record_hash
        && r.event.intent_id == i.intent_id
        && r.event.remaining_qty == i.qty
        && r.event.receive_ts_ms == request.submit_ts_ms
        && same_id r.event.venue_order_id
            (if r.event.acknowledged then some request.receipt.sequence else none)
      then ok r.event
      else err malformed_response
