-- ===== src/Ledger/Tests.antt =====
-- Calls on a ledger (src/std0_quant/execution/durable_intent_ledger_v1.py).
use polymarket_quant.Common.{
  ◌≡◌, ◌≢◌, refl, ap, true, none, List, [], ◌∷◌, ◌++◌, lookup, store, arith,
}
use polymarket_quant.Numeric.{ok, err, intent_conflict, positive_finite, nonnegative_finite}
use polymarket_quant.Contracts.{OrderIntent, normalized, create_order_intent}
use polymarket_quant.Ledger.{
  Ledger, LedgerCheckpoint, DurableIntentReceipt, append_call, close_call, AppendInput,
  WriteOutcome, append, checkpoint, guard, perform_all, create_ledger, receipt_of, next_payload,
}
use polymarket_quant.Ledger.Recover.{
  recover, read_lines, read_entry, check_checkpoint, open_existing,
}
use polymarket_quant.Ledger.Durable.{Reads, file_is_recovered}
use polymarket_quant.Ledger.Receipts.{IsRemembered, receipt_is_final}
use polymarket_quant.Ledger.Survive.{Arises, Later, receipt_survives}
use polymarket_quant.Ledger.Anchor.{checkpoint_anchors}
use polymarket_quant.Ledger.Samples.{
  Mark, same_mark, mark_eq, marks, marks_differ, sample_intent, smooth,
}

-- A write whose acknowledgement is lost.
abbrev lost : AppendInput
lost = record smooth { outcome = WriteOutcome.unacknowledged }

abbrev fresh : Ledger Mark
fresh = create_ledger marks 3

abbrev first : Ledger Mark
first = perform_all marks (append_call smooth (sample_intent 1 5) ∷ []) fresh

abbrev second : Ledger Mark
second = perform_all marks (append_call smooth (sample_intent 2 6) ∷ []) first

abbrev first_receipt : DurableIntentReceipt Mark
first_receipt = receipt_of marks (next_payload marks 3 fresh.index (sample_intent 1 5))

file_is_recovered_example :
    let l = perform_all marks (append_call lost (sample_intent 1 5) ∷ close_call ∷ []) fresh in
    Reads marks l.ledger_id l.poisoned l.index (recover marks l.ledger_id l.file)
file_is_recovered_example =
    file_is_recovered marks 3 (append_call lost (sample_intent 1 5) ∷ close_call ∷ [])

another_quantity : sample_intent 1 6 ≢ sample_intent 1 5
another_quantity h = absurd (ground (arith, ap (λ (i : OrderIntent). i.qty) h))

receipt_is_final_example :
    (append marks smooth (sample_intent 1 5) second ≡ (ok first_receipt, second))
    × (append marks smooth (sample_intent 1 6) second ≡ (err intent_conflict, second))
unfolding append guard normalized create_order_intent positive_finite nonnegative_finite lookup
    store
receipt_is_final_example =
    receipt_is_final marks smooth (sample_intent 1 5) fresh first first_receipt
      (append_call smooth (sample_intent 2 6) ∷ []) smooth (sample_intent 1 6) refl refl refl refl
      refl refl another_quantity

-- A second intent, a closing, and a new handle on the file.
receipt_survives_example :
    IsRemembered second.index (sample_intent 1 5) first_receipt
    × IsRemembered second.index (sample_intent 1 5) first_receipt
unfolding append guard normalized create_order_intent positive_finite nonnegative_finite lookup
    store recover read_lines read_entry same_mark open_existing check_checkpoint
receipt_survives_example =
    receipt_survives marks smooth (sample_intent 1 5) first_receipt fresh first second second.index
      (Arises.created 3) refl
      (Later.reopens
        (Later.calls (Later.calls Later.here (append_call smooth (sample_intent 2 6))) close_call)
        none true second refl)
      refl

checkpoint_anchors_example :
    (rest : List (DurableIntentReceipt Mark × OrderIntent)) × (second.index.records
      ≡ first.index.records ++ rest)
unfolding append guard normalized create_order_intent positive_finite nonnegative_finite lookup
    store recover read_lines read_entry same_mark open_existing check_checkpoint checkpoint
checkpoint_anchors_example =
    let c : LedgerCheckpoint Mark = record {
      ledger_id = 3;
      sequence = 1;
      record_hash = first.index.tip;
    } in
    checkpoint_anchors marks 3 marks_differ none c true true true first.file second.file first
      second refl refl refl
