-- ===== src/Ledger/Anchor.antt =====
-- What a checkpoint says of a file that is opened with it
-- (src/std0_quant/execution/durable_intent_ledger_v1.py).
use polymarket_quant.Common.{
  ℕ, ◌≡◌, refl, sym, ap, subst, ◌∙◌, inl, inr, Bool, true, false, not, Option, none, some, List,
  ◌++◌, Eq, ◌==◌, same, same_eq, nat_eq, arith, if◌then◌else◌, length, Bool-cases,
}
use polymarket_quant.Numeric.{
  Result, ok, err, bind_cases, raise_if, ledger_corrupt, ledger_unavailable,
}
use polymarket_quant.Contracts.{OrderIntent, intent_eq}
use polymarket_quant.Ledger.{
  Digests, RecordPayload, Line, LedgerCheckpoint, DurableIntentReceipt, Index, Ledger, checkpoint,
}
use polymarket_quant.Ledger.Calls.{guard_cases}
use polymarket_quant.Ledger.Recover.{recover, hash_at, check_checkpoint, open_existing}
use polymarket_quant.Ledger.History.{
  index_of, IsHistory, recover-IsHistory, length-index_of, starts_with, longer_records,
}

module _ {H : Type 0} ⦃e : Eq H⦄ (digests : Digests H) (ledger_id : ℕ) where
  agreed :
      (b : Bool) (o : Option H) (k : H)
      → (if not b then err ledger_corrupt else elim o [
        | none ↦ err ledger_corrupt
        | some h ↦ raise_if (not (same h k)) ledger_corrupt
      ])
        ≡ ok tt
      → o ≡ some k
  agreed false o k h = ground arith
  agreed true none k h = ground arith
  agreed true (some x) k h = elim (Bool-cases (same x k)) [
    | inl f ↦ ap (λ y. some y) (same_eq x k f)
    | inr f ↦ absurd (ground arith)
  ]

  check-hash_at :
      (c : LedgerCheckpoint H) (x : Index H)
      → check_checkpoint digests ledger_id (some c) x ≡ ok tt
      → hash_at digests ledger_id x c.sequence ≡ some c.record_hash
  unfolding check_checkpoint
  check-hash_at c x h =
      agreed (c.ledger_id == ledger_id) (hash_at digests ledger_id x c.sequence) c.record_hash h

  -- What is known of a handle that was opened with a checkpoint, or without one.
  abbrev Opened : Option (LedgerCheckpoint H) → Result (Ledger H) → Type 0
  Opened c (err _) = Unit
  Opened c (ok l) =
      (l.ledger_id ≡ ledger_id)
      × ((is : List OrderIntent) × (l.index ≡ index_of digests ledger_id is))
      × (check_checkpoint digests ledger_id c l.index ≡ ok tt)

  open_existing-Opened :
      (c : Option (LedgerCheckpoint H)) (synced : Bool) (file : List (Line H))
      → Opened c (open_existing digests ledger_id c synced file)
  unfolding open_existing
  open_existing-Opened c synced file =
      bind_cases (Opened c) (recover digests ledger_id file) _ (λ x. tt)
        (λ x h.
          bind_cases (Opened c) (check_checkpoint digests ledger_id c x) _ (λ y. tt)
            (λ u k.
              bind_cases (Opened c) (raise_if (not synced) ledger_unavailable) _ (λ y. tt)
                (λ v m.
                  let l : Ledger H = record {
                    ledger_id = ledger_id;
                    is_open = true;
                    poisoned = false;
                    index = x;
                    file = file;
                  } in
                  let found : Opened c (ok l) = (
                    refl,
                    subst (IsHistory digests ledger_id) h
                        (recover-IsHistory digests ledger_id file),
                    k,
                  ) in
                  found)))

  abbrev Taken : Ledger H → Result (LedgerCheckpoint H) → Type 0
  Taken l (err _) = Unit
  Taken l (ok c) = (c.sequence ≡ length l.index.records) × (c.record_hash ≡ l.index.tip)

  abbrev checkpoint_of : Ledger H → LedgerCheckpoint H
  checkpoint_of l = record {
    ledger_id = l.ledger_id;
    sequence = length l.index.records;
    record_hash = l.index.tip;
  }

  checkpoint-Taken : (unchanged : Bool) (l : Ledger H) → Taken l (checkpoint unchanged l).0
  unfolding checkpoint
  checkpoint-Taken unchanged l =
      let go_on : Result (Unit {0}) × Ledger H → Result (LedgerCheckpoint H) × Ledger H =
        λ r. elim r.0 [ ok a ↦ (ok (checkpoint_of r.1), r.1) | err x ↦ (err x, r.1) ] in
      guard_cases (λ r. Taken l (go_on r).0) unchanged l tt (λ p. (refl, refl)) tt

  -- Digests of records that do not collide make a checkpoint an anchor: a file that opens with a checkpoint
  -- of a handle that was opened before, on whatever file, has all records of that handle, in their order, and
  -- then its own. No record of them was removed, changed or put elsewhere.
  pub checkpoint_anchors :
      ((p q : RecordPayload H) → digests.of_record p ≡ digests.of_record q → p ≡ q)
      → (c0 : Option (LedgerCheckpoint H)) (c : LedgerCheckpoint H) (s0 s unchanged : Bool)
        (earlier later : List (Line H)) (l0 l : Ledger H)
      → open_existing digests ledger_id c0 s0 earlier ≡ ok l0
      → (checkpoint unchanged l0).0 ≡ ok c
      → open_existing digests ledger_id (some c) s later ≡ ok l
      → (rest : List (DurableIntentReceipt H × OrderIntent)) × (l.index.records
          ≡ l0.index.records ++ rest)
  checkpoint_anchors collision_free c0 c s0 s unchanged earlier later l0 l h0 hc h =
      let o0 : Opened c0 (ok l0) = subst (Opened c0) h0 (open_existing-Opened c0 s0 earlier) in
      let o : Opened (some c) (ok l) =
        subst (Opened (some c)) h (open_existing-Opened (some c) s later) in
      let t : Taken l0 (ok c) = subst (Taken l0) hc (checkpoint-Taken unchanged l0) in
      let (is, x0) = o0.1 in
      let (js, x) = o.1 in
      let same_length : length is ≡ c.sequence =
        sym (t.0 ∙ (ap (λ y. length y.records) x0 ∙ length-index_of digests ledger_id is)) in
      let at : hash_at digests ledger_id (index_of digests ledger_id js) (length is)
          ≡ some (index_of digests ledger_id is).tip =
        ap (hash_at digests ledger_id (index_of digests ledger_id js)) same_length
        ∙ (ap (λ y. hash_at digests ledger_id y c.sequence) (sym x)
            ∙ (check-hash_at c l.index o.2 ∙ ap (λ y. some y) (t.1 ∙ ap (λ y. y.tip) x0))) in
      let (ks, f) = starts_with digests ledger_id collision_free is js at in
      let (rest, g) = longer_records digests ledger_id ks is in
      (
        rest,
        ap (λ y. y.records) x
            ∙ (ap (λ y. (index_of digests ledger_id y).records) f
                ∙ (g ∙ ap (λ y. y ++ rest) (sym (ap (λ y. y.records) x0)))),
      )
