-- ===== src/Ledger/History.antt =====
-- The index that a file is read back as, as the history of its intents
-- (src/std0_quant/execution/durable_intent_ledger_v1.py).
use mathlib.Core.Option.{some-ne-none, some_inj}
use mathlib.Core.List.{append_assoc, append-nil}
use polymarket_quant.Common.{
  ℕ, zero, suc, ◌≤◌, ◌<◌, ◌≡◌, refl, sym, ap, subst, ◌∙◌, inl, inr, Bool, true, false, not, none,
  some, List, [], ◌∷◌, ◌++◌, Eq, nat_eq, arith, if◌then◌else◌, leb, length, length-append,
  get_elem?, get_elem?-last, get_elem?-before, get_elem?-past, Bool-cases,
}
use polymarket_quant.Numeric.{Result, ok, err, ◌>>◌, bind_cases, raise_if, ledger_corrupt}
use polymarket_quant.Contracts.{OrderIntent, intent_eq, normalized}
use polymarket_quant.Ledger.{
  Digests, RecordPayload, header, entry, other, Line, DurableIntentReceipt, Index, receipt_of,
  next_payload, add_record, empty_index,
}
use polymarket_quant.Ledger.Recover.{
  or_corrupt, is_next, take_entry, is_taken, is_header, read_entry, read_line, read_lines, recover,
  hash_at,
}

module _ {H : Type 0} ⦃e : Eq H⦄ (digests : Digests H) (ledger_id : ℕ) where
  -- The index of intents, the last one first.
  abbrev pub index_of : List OrderIntent → Index H
  index_of [] = empty_index digests ledger_id
  index_of (i ∷ is) = add_record digests ledger_id i (index_of is)

  abbrev next : List OrderIntent → OrderIntent → RecordPayload H
  next is i = next_payload digests ledger_id (index_of is) i

  abbrev pub IsHistory : Result (Index H) → Type 0
  IsHistory (err _) = Unit
  IsHistory (ok x) = (is : List OrderIntent) × (x ≡ index_of is)

  after_check :
      (b : Bool) (m : Result (Index H)) → IsHistory m → IsHistory (raise_if b ledger_corrupt >> m)
  after_check true m h = tt
  after_check false m h = h

  read_line-IsHistory :
      (l : Line H) (is : List OrderIntent) → IsHistory (read_line digests ledger_id l (index_of is))
  unfolding read_entry
  read_line-IsHistory none is = tt
  read_line-IsHistory (some (header a b)) is = tt
  read_line-IsHistory (some other) is = tt
  read_line-IsHistory (some (entry p k)) is =
      bind_cases IsHistory (or_corrupt (normalized p.intent))
        (take_entry digests ledger_id p k (index_of is)) (λ x. tt)
        (λ i n.
          let added : Result (Index H) = ok (add_record digests ledger_id i (index_of is)) in
          let taken : Bool = is_taken digests i.intent_id (index_of is) in
          let done : IsHistory added = (i ∷ is, refl) in
          after_check (not (is_next digests ledger_id p k (index_of is) i))
            (raise_if taken ledger_corrupt >> added) (after_check taken added done))

  read_lines-IsHistory :
      (ls : List (Line H)) (is : List OrderIntent)
      → IsHistory (read_lines digests ledger_id ls (index_of is))
  unfolding read_lines
  read_lines-IsHistory [] is = (is, refl)
  read_lines-IsHistory (l ∷ ls) is =
      bind_cases IsHistory (read_line digests ledger_id l (index_of is))
        (read_lines digests ledger_id ls) (λ x. tt)
        (λ x h.
          let (js, f) = subst IsHistory h (read_line-IsHistory l is) in
          subst (λ y. IsHistory (read_lines digests ledger_id ls y)) (sym f)
            (read_lines-IsHistory ls js))

  pub recover-IsHistory : (file : List (Line H)) → IsHistory (recover digests ledger_id file)
  unfolding recover
  recover-IsHistory [] = tt
  recover-IsHistory (l ∷ ls) =
      elim (is_header digests ledger_id l)
        as (λ b. IsHistory (
          if b
          then read_lines digests ledger_id ls (empty_index digests ledger_id)
          else err ledger_corrupt)) [ true ↦ read_lines-IsHistory ls [] | false ↦ tt ]

  pub length-index_of : (is : List OrderIntent) → length (index_of is).records ≡ length is
  length-index_of [] = refl
  length-index_of (i ∷ is) =
      omega (arith, length-index_of is, length-append (index_of is).records (_ ∷ []))

  hash_last :
      (js : List OrderIntent)
      → hash_at digests ledger_id (index_of js) (length js) ≡ some (index_of js).tip
  hash_last [] = refl
  hash_last (j ∷ js) =
      ap (λ o. elim o [ none ↦ none | some r ↦ some r.0.record_hash ])
        (ap (get_elem? (index_of (j ∷ js)).records) (sym (length-index_of js))
          ∙ get_elem?-last (index_of js).records _)

  hash_before :
      (j : OrderIntent) (js : List OrderIntent) (n : ℕ)
      → n ≤ length js
      → hash_at digests ledger_id (index_of (j ∷ js)) n ≡ hash_at digests ledger_id (index_of js) n
  hash_before j js zero l = refl
  hash_before j js (suc k) l =
      ap (λ o. elim o [ none ↦ none | some r ↦ some r.0.record_hash ])
        (get_elem?-before (index_of js).records _ k (omega (arith, length-index_of js)))

  hash_past :
      (js : List OrderIntent) (n : ℕ)
      → length js < n
      → hash_at digests ledger_id (index_of js) n ≡ none
  hash_past js zero l = absurd (omega arith)
  hash_past js (suc k) l =
      ap (λ o. elim o [ none ↦ none | some r ↦ some r.0.record_hash ])
        (get_elem?-past (index_of js).records k (omega (arith, length-index_of js)))

  -- The records of a longer history begin with those of a shorter one.
  pub longer_records :
      (ks is : List OrderIntent)
      → (rest : List (DurableIntentReceipt H × OrderIntent)) × ((index_of (ks ++ is)).records
          ≡ (index_of is).records ++ rest)
  longer_records [] is = ([], sym (append-nil (index_of is).records))
  longer_records (k ∷ ks) is =
      let (rest, f) = longer_records ks is in
      let last = (receipt_of digests (next (ks ++ is) k), k) ∷ [] in
      (rest ++ last, ap (λ x. x ++ last) f ∙ append_assoc (index_of is).records rest last)

  module _
      (collision_free : (p q : RecordPayload H)
        → digests.of_record p ≡ digests.of_record q
        → p ≡ q) where
    same_tip :
        (is js : List OrderIntent)
        → length is ≡ length js
        → (index_of is).tip ≡ (index_of js).tip
        → is ≡ js
    same_tip [] [] n h = refl
    same_tip [] (j ∷ js) n h = absurd (omega arith)
    same_tip (i ∷ is) [] n h = absurd (omega arith)
    same_tip (i ∷ is) (j ∷ js) n h =
        let p = collision_free (next is i) (next js j) h in
        let tails : is ≡ js =
          same_tip is js (omega arith) (ap (λ (q : RecordPayload H). q.previous_hash) p) in
        ap (λ x. x ∷ is) (ap (λ (q : RecordPayload H). q.intent) p) ∙ ap (λ x. j ∷ x) tails

    -- The digest after as many records as a history has, found in another, makes that history its start.
    pub starts_with :
        (is js : List OrderIntent)
        → hash_at digests ledger_id (index_of js) (length is) ≡ some (index_of is).tip
        → (ks : List OrderIntent) × (js ≡ ks ++ is)
    starts_with [] [] h = ([], refl)
    starts_with (i ∷ is) [] h = absurd (some-ne-none _ (sym h))
    starts_with is (j ∷ js) h = elim (Bool-cases (leb (length is) (length js))) [
      | inl l ↦
          let (ks, f) = starts_with is js (sym (hash_before j js (length is) (ground arith)) ∙ h) in
          (j ∷ ks, ap (λ x. j ∷ x) f)
      | inr l ↦ elim (Bool-cases (leb (length is) (length (j ∷ js)))) [
        | inl m ↦
            let n : length is ≡ length (j ∷ js) = ground arith in
            let tips = some_inj.0 (
              sym h
              ∙ (ap (hash_at digests ledger_id (index_of (j ∷ js))) n ∙ hash_last (j ∷ js))) in
            ([], sym (same_tip is (j ∷ js) n tips))
        | inr m ↦ absurd (some-ne-none _ (sym h ∙ hash_past (j ∷ js) (length is) (ground arith)))
      ]
    ]
