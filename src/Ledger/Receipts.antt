-- ===== src/Ledger/Receipts.antt =====
-- What a receipt is worth after later calls, and after the file is opened again
-- (src/std0_quant/execution/durable_intent_ledger_v1.py).
use mathlib.Core.Option.{some-ne-none}
use polymarket_quant.Common.{
  ℕ, ◌≡◌, ◌≢◌, refl, sym, ap, subst, ◌∙◌, inl, inr, true, false, not, none, some, List, [], ◌∷◌, Eq,
  same, same_eq, same_refl, nat_eq, arith, lookup, lookup-store, if◌then◌else◌, length, get_elem?,
  get_elem?-append, get_elem?-last, Bool-cases,
}
use polymarket_quant.Numeric.{Result, ok, err, intent_conflict, record_too_long}
use polymarket_quant.Action.{>>-eq}
use polymarket_quant.Contracts.{OrderIntent, intent_eq, normalized}
use polymarket_quant.Ledger.{
  Digests, Index, Ledger, DurableIntentReceipt, AppendInput, WriteOutcome, receipt_of, next_payload,
  add_record, guard, append, write, after_write, known, Call, append_call, read_call, close_call,
  perform, perform_all,
}
use polymarket_quant.Ledger.Calls.{guard_cases, append_cases, from_guard}
use polymarket_quant.Ledger.Recover.{recover}
use polymarket_quant.Ledger.Durable.{IsKept, kept-Reads}

-- The receipt and the intent are a record, and the intent's id leads to it.
abbrev pub IsRemembered : {H : Type 0} → Index H → OrderIntent → DurableIntentReceipt H → Type 0
IsRemembered x i r =
    (k : ℕ) × (lookup i.intent_id x.by_id ≡ some k) × (get_elem? x.records k ≡ some (r, i))

module _ {H : Type 0} (digests : Digests H) where
  add_record-IsRemembered :
      (ledger_id : ℕ) (x : Index H) (i j : OrderIntent) (r : DurableIntentReceipt H)
      → lookup j.intent_id x.by_id ≡ none
      → IsRemembered x i r
      → IsRemembered (add_record digests ledger_id j x) i r
  add_record-IsRemembered ledger_id x i j r t (k, f, g) = (
    k,
    lookup-store i.intent_id j.intent_id (length x.records) x.by_id
        ∙ (elim (Bool-cases (same i.intent_id j.intent_id)) [
          | inl h ↦ absurd (
              some-ne-none k
                (sym f ∙ ap (λ n. lookup n x.by_id) (same_eq i.intent_id j.intent_id h) ∙ t))
          | inr h ↦ rw h f
        ]),
    get_elem?-append x.records _ k g,
  )

  new_record-IsRemembered :
      (ledger_id : ℕ) (x : Index H) (i : OrderIntent)
      → IsRemembered
          (add_record digests ledger_id i x)
          i
          (receipt_of digests (next_payload digests ledger_id x i))
  new_record-IsRemembered ledger_id x i = (
    length x.records,
    lookup-store i.intent_id i.intent_id (length x.records) x.by_id
        ∙ rw (same_refl i.intent_id) refl,
    get_elem?-last x.records _,
  )

  after_write-keeps :
      (outcome : WriteOutcome) (j : OrderIntent) (l : Ledger H) (i : OrderIntent)
      (r : DurableIntentReceipt H)
      → lookup j.intent_id l.index.by_id ≡ none
      → IsRemembered l.index i r
      → IsRemembered (after_write digests outcome j l).1.index i r
  after_write-keeps WriteOutcome.acknowledged j l i r t m =
      add_record-IsRemembered l.ledger_id l.index i j r t m
  after_write-keeps WriteOutcome.nothing_written j l i r t m = m
  after_write-keeps WriteOutcome.torn j l i r t m = m
  after_write-keeps WriteOutcome.unacknowledged j l i r t m = m

  module _ (i : OrderIntent) (r : DurableIntentReceipt H) where
    abbrev Has : Ledger H → Type 0
    Has l = IsRemembered l.index i r

    write-keeps :
        (io : AppendInput) (j : OrderIntent) (l : Ledger H)
        → lookup j.intent_id l.index.by_id ≡ none
        → Has l
        → Has (write digests io j l).1
    write-keeps io j l t m =
        elim io.fits
          as (λ b.
            Has
              (if not b then (err record_too_long, l) else after_write digests io.outcome j l).1) [
                | false ↦ m
                | true ↦ after_write-keeps io.outcome j l i r t m
              ]

    pub perform-keeps : (c : Call) (l : Ledger H) → Has l → Has (perform digests c l)
    perform-keeps (append_call io j) l m =
        append_cases digests (λ p. Has p.1) io j l (λ e. m) m (λ k n t. m)
          (λ n t p. write-keeps io j l t m)
    perform-keeps (read_call unchanged) l m = guard_cases (λ p. Has p.1) unchanged l m (λ p. m) m
    perform-keeps close_call l m = m

    perform_all-keeps : (cs : List Call) (l : Ledger H) → Has l → Has (perform_all digests cs l)
    perform_all-keeps [] l m = m
    perform_all-keeps (c ∷ cs) l m =
        perform_all-keeps cs (perform digests c l) (perform-keeps c l m)

  -- An append that is acknowledged leaves its intent remembered with the receipt.
  abbrev pub Answers : OrderIntent → Result (DurableIntentReceipt H) × Ledger H → Type 0
  Answers i (err e, l) = Unit
  Answers i (ok r, l) = (normalized i ≡ ok i) × IsRemembered l.index i r

  after_write-Answers :
      (outcome : WriteOutcome) (i : OrderIntent) (l : Ledger H)
      → normalized i ≡ ok i
      → Answers i (after_write digests outcome i l)
  after_write-Answers WriteOutcome.acknowledged i l n =
      (n, new_record-IsRemembered l.ledger_id l.index i)
  after_write-Answers WriteOutcome.nothing_written i l n = tt
  after_write-Answers WriteOutcome.torn i l n = tt
  after_write-Answers WriteOutcome.unacknowledged i l n = tt

  known-Answers :
      (i : OrderIntent) (l : Ledger H) (k : ℕ)
      → normalized i ≡ ok i
      → lookup i.intent_id l.index.by_id ≡ some k
      → Answers i (known digests i (get_elem? l.index.records k), l)
  known-Answers i l k n t =
      elim (get_elem? l.index.records k)
          as (λ o. get_elem? l.index.records k ≡ o → Answers i (known digests i o, l)) [
            | none ↦ λ g. tt
            | some (q, j) ↦ λ g.
                elim (same i j)
                    as (λ b.
                      same i j ≡ b → Answers i ((if b then ok q else err intent_conflict), l)) [
                        | true ↦ λ h. (
                          n,
                          (k, t, g ∙ ap (λ (x : OrderIntent). some (q, x)) (sym (same_eq i j h))),
                        )
                        | false ↦ λ h. tt
                      ]
                  refl
          ]
        refl

  pub append-Answers :
      (io : AppendInput) (i : OrderIntent) (l : Ledger H) → Answers i (append digests io i l)
  append-Answers io i l =
      append_cases digests (Answers i) io i l (λ e. tt) tt (λ k n t. known-Answers i l k n t)
        (λ n t p.
          elim io.fits
            as (λ b.
              Answers i (
                (if not b then (err record_too_long, l) else after_write digests io.outcome i l))) [
                  | false ↦ tt
                  | true ↦ after_write-Answers io.outcome i l n
                ])

  guard_live : (l : Ledger H) → l.is_open ≡ true → l.poisoned ≡ false → guard true l ≡ (ok tt, l)
  unfolding guard
  guard_live l o p = rw (o, p) (ground arith)

  -- What a live handle that remembers an intent answers to its id.
  retried :
      (io : AppendInput) (i j : OrderIntent) (l : Ledger H) (r : DurableIntentReceipt H)
      → io.unchanged ≡ true
      → l.is_open ≡ true
      → l.poisoned ≡ false
      → normalized j ≡ ok j
      → j.intent_id ≡ i.intent_id
      → IsRemembered l.index i r
      → append digests io j l ≡ ((if same j i then ok r else err intent_conflict), l)
  unfolding append
  retried io i j l r u o p n e (k, f, g) =
      let t : lookup j.intent_id l.index.by_id ≡ some k = ap (λ x. lookup x l.index.by_id) e ∙ f in
      >>-eq (guard io.unchanged) (from_guard digests io j) l l (rw u (guard_live l o p))
      ∙ rw (n, t, g) refl

  -- Once an append is acknowledged with a receipt, then after any further calls, as long as the handle is
  -- open and not poisoned and the file is unchanged, the same intent gets the same receipt again, and every
  -- other intent with its id is refused; neither changes anything.
  pub receipt_is_final :
      (io : AppendInput) (i : OrderIntent) (l l1 : Ledger H) (r : DurableIntentReceipt H)
      (cs : List Call) (again : AppendInput) (j : OrderIntent)
      → append digests io i l ≡ (ok r, l1)
      → again.unchanged ≡ true
      → (perform_all digests cs l1).is_open ≡ true
      → (perform_all digests cs l1).poisoned ≡ false
      → normalized j ≡ ok j
      → j.intent_id ≡ i.intent_id
      → j ≢ i
      → let l2 = perform_all digests cs l1 in
        (append digests again i l2 ≡ (ok r, l2))
        × (append digests again j l2 ≡ (err intent_conflict, l2))
  receipt_is_final io i l l1 r cs again j h u o p n e d =
      let answer : Answers i (ok r, l1) = subst (Answers i) h (append-Answers io i l) in
      let l2 : Ledger H = perform_all digests cs l1 in
      let known_now : IsRemembered l2.index i r = perform_all-keeps i r cs l1 answer.1 in
      (
        retried again i i l2 r u o p answer.0 refl known_now ∙ rw (same_refl i) refl,
        retried again i j l2 r u o p n e known_now ∙ (elim (Bool-cases (same j i)) [
          | inl t ↦ absurd (d (same_eq j i t))
          | inr t ↦ rw t refl
        ]),
      )

-- What a kept file is read back as has every record of the handle.
pub recovered-IsRemembered :
    {H : Type 0} ⦃e : Eq H⦄ (digests : Digests H) (l : Ledger H) (i : OrderIntent)
    (r : DurableIntentReceipt H) (x : Index H)
    → IsKept digests l
    → IsRemembered l.index i r
    → recover digests l.ledger_id l.file ≡ ok x
    → IsRemembered x i r
recovered-IsRemembered {H} digests l i r x kept m g =
    let Found : Result (Index H) → Type 0 =
      λ m. elim m [ ok y ↦ IsRemembered y i r | err e ↦ Unit ] in
    elim (kept-Reads digests l kept) [
      | inl same_records ↦ subst Found (sym same_records ∙ g) m
      | inr (p, inl bad) ↦ subst Found (sym bad ∙ g) tt
      | inr (p, inr (j, t, more)) ↦
          subst Found (sym more ∙ g) (add_record-IsRemembered digests l.ledger_id l.index i j r t m)
    ]
