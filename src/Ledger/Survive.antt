-- ===== src/Ledger/Survive.antt =====
-- A receipt through later calls and through handles that are opened again on the file
-- (src/std0_quant/execution/durable_intent_ledger_v1.py).
use polymarket_quant.Common.{ℕ, ◌≡◌, subst, Bool, not, Option, List, Eq}
use polymarket_quant.Numeric.{Result, ok, err, bind_cases, raise_if, ledger_unavailable}
use polymarket_quant.Contracts.{OrderIntent}
use polymarket_quant.Ledger.{
  Digests, Line, LedgerCheckpoint, Index, Ledger, DurableIntentReceipt, AppendInput, append, Call,
  perform, create_ledger,
}
use polymarket_quant.Ledger.Recover.{recover, check_checkpoint, open_existing}
use polymarket_quant.Ledger.Durable.{IsKept, append-IsKept, perform-IsKept, create-IsKept}
use polymarket_quant.Ledger.Reopen.{open_existing-IsKept}
use polymarket_quant.Ledger.Receipts.{
  IsRemembered, Answers, append-Answers, perform-keeps, recovered-IsRemembered,
}

module _ {H : Type 0} ⦃e : Eq H⦄ (digests : Digests H) where
  -- A handle that was created, or opened on any file that is accepted, and called any number of times.
  pub data Arises : Ledger H → Type 0 where
    created : (ledger_id : ℕ) → Arises (create_ledger digests ledger_id)
    on_file :
        (ledger_id : ℕ) (c : Option (LedgerCheckpoint H)) (synced : Bool) (file : List (Line H))
        (l : Ledger H)
        → open_existing digests ledger_id c synced file ≡ ok l
        → Arises l
    called : {l : Ledger H} → Arises l → (c : Call) → Arises (perform digests c l)

  -- What may become of a handle: calls, and a new handle opened on the file as it is left.
  pub data Later (l : Ledger H) : Ledger H → Type 0 where
    here : Later l l
    calls : {m : Ledger H} → Later l m → (c : Call) → Later l (perform digests c m)
    reopens :
        {m : Ledger H}
        → Later l m
        → (c : Option (LedgerCheckpoint H)) (synced : Bool) (n : Ledger H)
        → open_existing digests m.ledger_id c synced m.file ≡ ok n
        → Later l n

  Arises-IsKept : {l : Ledger H} → Arises l → IsKept digests l
  Arises-IsKept (created ledger_id) = create-IsKept digests ledger_id
  Arises-IsKept (on_file ledger_id c synced file l f) =
      open_existing-IsKept digests ledger_id c synced file l f
  Arises-IsKept (called {l} a c) = perform-IsKept digests c l (Arises-IsKept a)

  abbrev ReadAs : ℕ → List (Line H) → Result (Ledger H) → Type 0
  ReadAs ledger_id file (err _) = Unit
  ReadAs ledger_id file (ok n) = recover digests ledger_id file ≡ ok n.index

  -- A handle that is opened has the records that the file is read back as.
  opened_index :
      (ledger_id : ℕ) (c : Option (LedgerCheckpoint H)) (synced : Bool) (file : List (Line H))
      (n : Ledger H)
      → open_existing digests ledger_id c synced file ≡ ok n
      → recover digests ledger_id file ≡ ok n.index
  unfolding open_existing
  opened_index ledger_id c synced file n f = subst (ReadAs ledger_id file) f (
      bind_cases (ReadAs ledger_id file) (recover digests ledger_id file) _ (λ x. tt)
        (λ x h.
          bind_cases (ReadAs ledger_id file) (check_checkpoint digests ledger_id c x) _ (λ y. tt)
            (λ u k.
              bind_cases (ReadAs ledger_id file) (raise_if (not synced) ledger_unavailable) _
                (λ y. tt) (λ v m. h))))

  module _ (i : OrderIntent) (r : DurableIntentReceipt H) where
    abbrev Keeps : Ledger H → Type 0
    Keeps l = IsKept digests l × IsRemembered l.index i r

    Later-Keeps : {l m : Ledger H} → Later l m → Keeps l → Keeps m
    Later-Keeps here k = k
    Later-Keeps (calls {m} s c) k =
        let before : Keeps m = Later-Keeps s k in
        (perform-IsKept digests c m before.0, perform-keeps digests i r c m before.1)
    Later-Keeps (reopens {m} s c synced n f) k =
        let before : Keeps m = Later-Keeps s k in
        (
          open_existing-IsKept digests m.ledger_id c synced m.file n f,
          recovered-IsRemembered digests m i r n.index before.0 before.1
              (opened_index m.ledger_id c synced m.file n f),
        )

  -- Let an append be acknowledged on a handle that was created, or opened on any file, and called any
  -- number of times. After any calls and any openings of a new handle on the file: the handle has the
  -- intent as a record, with the receipt that was given; and so does whatever the file is read back as.
  pub receipt_survives :
      (io : AppendInput) (i : OrderIntent) (r : DurableIntentReceipt H) (l0 l m : Ledger H)
      (x : Index H)
      → Arises l0
      → append digests io i l0 ≡ (ok r, l)
      → Later l m
      → recover digests m.ledger_id m.file ≡ ok x
      → IsRemembered m.index i r × IsRemembered x i r
  receipt_survives io i r l0 l m x a h s g =
      let first : Keeps i r l = (
        subst (λ p. IsKept digests p.1) h (append-IsKept digests io i l0 (Arises-IsKept a)),
        (subst (Answers digests i) h (append-Answers digests io i l0)).1,
      ) in
      let now : Keeps i r m = Later-Keeps i r s first in
      (now.1, recovered-IsRemembered digests m i r x now.0 now.1 g)
