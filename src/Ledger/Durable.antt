-- ===== src/Ledger/Durable.antt =====
-- What a file holds after any calls on the handle that wrote it
-- (src/std0_quant/execution/durable_intent_ledger_v1.py).
use mathlib.Core.Bool.{true≢false}
use mathlib.Core.List.{append-nil}
use polymarket_quant.Common.{
  ℕ, ◌≡◌, refl, sym, ap, subst, ◌∙◌, ◌⊎◌, inl, inr, Bool, true, false, not, none, some, List, [],
  ◌∷◌, ◌++◌, Eq, same_refl, nat_eq, arith, lookup, if◌then◌else◌,
}
use polymarket_quant.Numeric.{Result, ok, err, ◌>>=◌, ledger_corrupt, record_too_long}
use polymarket_quant.Ledger.Calls.{guard_cases, append_cases}
use polymarket_quant.Contracts.{OrderIntent, intent_eq, normalized}
use polymarket_quant.Ledger.{
  Digests, Line, Index, Ledger, DurableIntentReceipt, AppendInput, WriteOutcome, row_of, header_row,
  next_payload, add_record, empty_index, guard, append, write, create_ledger, after_write, Call,
  append_call, read_call, close_call, perform, perform_all,
}
use polymarket_quant.Ledger.Recover.{read_entry, read_line, read_lines, recover}

>>=-ok : {A : Type 0} (m : Result A) → m >>= (λ a. ok a) ≡ m
>>=-ok (ok a) = refl
>>=-ok (err x) = refl

module _ {H : Type 0} ⦃e : Eq H⦄ (digests : Digests H) (ledger_id : ℕ) where
  read_lines-append :
      (ls : List (Line H)) (l : Line H) (x : Index H)
      → read_lines digests ledger_id (ls ++ l ∷ []) x
        ≡ read_lines digests ledger_id ls x >>= read_line digests ledger_id l
  unfolding read_lines
  read_lines-append [] l x = >>=-ok (read_line digests ledger_id l x)
  read_lines-append (k ∷ ls) l x =
      elim (read_line digests ledger_id k x)
        as (λ m.
          m >>= read_lines digests ledger_id (ls ++ l ∷ [])
          ≡ (m >>= read_lines digests ledger_id ls) >>= read_line digests ledger_id l) [
            | ok y ↦ read_lines-append ls l y
            | err x ↦ refl
          ]

  -- The line that a write adds is read back as the new record.
  read_next :
      (i : OrderIntent) (x : Index H)
      → normalized i ≡ ok i
      → lookup i.intent_id x.by_id ≡ none
      → read_line digests ledger_id (some (row_of digests (next_payload digests ledger_id x i))) x
        ≡ ok (add_record digests ledger_id i x)
  unfolding read_entry
  read_next i x n t =
      let p = next_payload digests ledger_id x i in
      rw
        (
          n,
          same_refl x.tip,
          same_refl i,
          same_refl (digests.of_intent i),
          same_refl (digests.of_record p),
        )
        (ground arith)

module _ {H : Type 0} ⦃e : Eq H⦄ (digests : Digests H) where
  -- How the file reads: as the handle's records, or, where the handle is poisoned, not at all or with one
  -- more record.
  abbrev pub Reads : ℕ → Bool → Index H → Result (Index H) → Type 0
  Reads ledger_id poisoned x r =
      (r ≡ ok x)
      ⊎ ((poisoned ≡ true)
          × ((r ≡ err ledger_corrupt)
              ⊎ ((i : OrderIntent) × (lookup i.intent_id x.by_id ≡ none)
                  × (r ≡ ok (add_record digests ledger_id i x)))))

  abbrev pub IsKept : Ledger H → Type 0
  IsKept l =
      (ls : List (Line H)) × (l.file ≡ some (header_row digests l.ledger_id) ∷ ls)
      × Reads l.ledger_id l.poisoned l.index
          (read_lines digests l.ledger_id ls (empty_index digests l.ledger_id))

  poisoned-IsKept : (l : Ledger H) → IsKept l → IsKept (record l { poisoned = true })
  poisoned-IsKept l (ls, f, inl r) = (ls, f, inl r)
  poisoned-IsKept l (ls, f, inr (p, r)) = (ls, f, inr (refl, r))

  guard-IsKept : (unchanged : Bool) (l : Ledger H) → IsKept l → IsKept (guard unchanged l).1
  guard-IsKept unchanged l k =
      guard_cases (λ r. IsKept r.1) unchanged l k (λ p. k) (poisoned-IsKept l k)

  -- The file with one more line.
  longer_file :
      (l : Ledger H) (line : Line H) (ls : List (Line H))
      → l.file ≡ some (header_row digests l.ledger_id) ∷ ls
      → read_lines digests l.ledger_id ls (empty_index digests l.ledger_id) ≡ ok l.index
      → (l.file ++ line ∷ [] ≡ some (header_row digests l.ledger_id) ∷ (ls ++ line ∷ []))
        × (read_lines digests l.ledger_id (ls ++ line ∷ []) (empty_index digests l.ledger_id)
            ≡ read_line digests l.ledger_id line l.index)
  longer_file l line ls f h = (
    ap (λ x. x ++ line ∷ []) f,
    read_lines-append digests l.ledger_id ls line (empty_index digests l.ledger_id)
        ∙ ap (λ m. m >>= read_line digests l.ledger_id line) h,
  )

  after_write-IsKept :
      (outcome : WriteOutcome) (i : OrderIntent) (l : Ledger H) (ls : List (Line H))
      → normalized i ≡ ok i
      → lookup i.intent_id l.index.by_id ≡ none
      → l.file ≡ some (header_row digests l.ledger_id) ∷ ls
      → read_lines digests l.ledger_id ls (empty_index digests l.ledger_id) ≡ ok l.index
      → IsKept (after_write digests outcome i l).1
  after_write-IsKept WriteOutcome.nothing_written i l ls n t f r =
      (ls, append-nil l.file ∙ f, inl r)
  after_write-IsKept WriteOutcome.torn i l ls n t f r =
      let torn = longer_file l none ls f r in (ls ++ none ∷ [], torn.0, inr (refl, inl torn.1))
  after_write-IsKept WriteOutcome.acknowledged i l ls n t f r =
      let line : Line H = some (row_of digests (next_payload digests l.ledger_id l.index i)) in
      let whole = longer_file l line ls f r in
      (ls ++ line ∷ [], whole.0, inl (whole.1 ∙ read_next digests l.ledger_id i l.index n t))
  after_write-IsKept WriteOutcome.unacknowledged i l ls n t f r =
      let line : Line H = some (row_of digests (next_payload digests l.ledger_id l.index i)) in
      let whole = longer_file l line ls f r in
      let read = whole.1 ∙ read_next digests l.ledger_id i l.index n t in
      (ls ++ line ∷ [], whole.0, inr (refl, inr (i, t, read)))

  write-IsKept :
      (io : AppendInput) (i : OrderIntent) (l : Ledger H)
      → normalized i ≡ ok i
      → lookup i.intent_id l.index.by_id ≡ none
      → l.poisoned ≡ false
      → IsKept l
      → IsKept (write digests io i l).1
  write-IsKept io i l n t p (ls, f, inr (q, r)) = absurd (true≢false (sym q ∙ p))
  write-IsKept io i l n t p (ls, f, inl r) =
      let P : Result (DurableIntentReceipt H) × Ledger H → Type 0 = λ m. IsKept m.1 in
      let kept : IsKept l = (ls, f, inl r) in
      elim io.fits
        as (λ b.
          P (if not b then (err record_too_long, l) else after_write digests io.outcome i l)) [
            | false ↦ kept
            | true ↦ after_write-IsKept io.outcome i l ls n t f r
          ]

  pub append-IsKept :
      (io : AppendInput) (i : OrderIntent) (l : Ledger H)
      → IsKept l
      → IsKept (append digests io i l).1
  append-IsKept io i l k =
      append_cases digests (λ r. IsKept r.1) io i l (λ e. k) (poisoned-IsKept l k) (λ j n t. k)
        (λ n t p. write-IsKept io i l n t p k)

  pub perform-IsKept : (c : Call) (l : Ledger H) → IsKept l → IsKept (perform digests c l)
  perform-IsKept (append_call io i) l k = append-IsKept io i l k
  perform-IsKept (read_call unchanged) l k = guard-IsKept unchanged l k
  perform-IsKept close_call l k = k

  pub perform_all-IsKept :
      (cs : List Call) (l : Ledger H) → IsKept l → IsKept (perform_all digests cs l)
  perform_all-IsKept [] l k = k
  perform_all-IsKept (c ∷ cs) l k =
      perform_all-IsKept cs (perform digests c l) (perform-IsKept c l k)

  pub create-IsKept : (ledger_id : ℕ) → IsKept (create_ledger digests ledger_id)
  unfolding read_lines
  create-IsKept ledger_id = ([], refl, inl refl)

  recover-header :
      (ledger_id : ℕ) (ls : List (Line H))
      → recover digests ledger_id (some (header_row digests ledger_id) ∷ ls)
        ≡ read_lines digests ledger_id ls (empty_index digests ledger_id)
  unfolding recover
  recover-header ledger_id ls = rw (same_refl (digests.of_header ledger_id)) (ground arith)

  pub kept-Reads :
      (l : Ledger H)
      → IsKept l
      → Reads l.ledger_id l.poisoned l.index (recover digests l.ledger_id l.file)
  kept-Reads l (ls, f, r) =
      subst (Reads l.ledger_id l.poisoned l.index)
        (sym (ap (recover digests l.ledger_id) f ∙ recover-header l.ledger_id ls)) r

  -- After any calls on a created handle, however the writes go, its file is read back as exactly the records
  -- of the handle; only where the handle is poisoned may it instead be refused as corrupt, or have one more
  -- record, of an intent whose id the handle does not know.
  pub file_is_recovered :
      (ledger_id : ℕ) (cs : List Call)
      → let l = perform_all digests cs (create_ledger digests ledger_id) in
        Reads l.ledger_id l.poisoned l.index (recover digests l.ledger_id l.file)
  file_is_recovered ledger_id cs =
      kept-Reads (perform_all digests cs (create_ledger digests ledger_id))
        (perform_all-IsKept cs (create_ledger digests ledger_id) (create-IsKept ledger_id))
