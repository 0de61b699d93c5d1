-- ===== src/Ledger/Reopen.antt =====
-- A handle that is opened on a file holds what the file has
-- (src/std0_quant/execution/durable_intent_ledger_v1.py).
use polymarket_quant.Common.{
  ℕ, ◌≡◌, ap, subst, ◌∙◌, Bool, true, false, not, Option, none, some, List, [], ◌∷◌, Eq, same,
  same_eq, nat_eq, arith, inl,
}
use polymarket_quant.Numeric.{Result, ok, err, bind_cases, raise_if, ledger_unavailable}
use polymarket_quant.Ledger.{
  Digests, header, entry, other, Line, LedgerCheckpoint, Index, Ledger, header_row, empty_index,
}
use polymarket_quant.Ledger.Recover.{
  is_header, read_lines, recover, check_checkpoint, open_existing,
}
use polymarket_quant.Ledger.Durable.{IsKept}

module _ {H : Type 0} ⦃e : Eq H⦄ (digests : Digests H) (ledger_id : ℕ) where
  header_found :
      (line : Line H)
      → is_header digests ledger_id line ≡ true
      → line ≡ some (header_row digests ledger_id)
  header_found none h = absurd (ground arith)
  header_found (some other) h = absurd (ground arith)
  header_found (some (entry p k)) h = absurd (ground arith)
  header_found (some (header id k)) h =
      let parts : (id ≡ ledger_id) × (same k (digests.of_header ledger_id) ≡ true) = ground arith in
      ap (λ n. some (header n k)) parts.0
      ∙ ap (λ d. some (header ledger_id d)) (same_eq k (digests.of_header ledger_id) parts.1)

  recover-IsKept :
      (file : List (Line H)) (x : Index H)
      → recover digests ledger_id file ≡ ok x
      → (ls : List (Line H)) × (file ≡ some (header_row digests ledger_id) ∷ ls)
        × (read_lines digests ledger_id ls (empty_index digests ledger_id) ≡ ok x)
  unfolding recover
  recover-IsKept [] x h = absurd (ground arith)
  recover-IsKept (line ∷ ls) x h =
      let parts : (is_header digests ledger_id line ≡ true)
          × (read_lines digests ledger_id ls (empty_index digests ledger_id) ≡ ok x) =
        ground arith in
      (ls, ap (λ k. k ∷ ls) (header_found line parts.0), parts.1)

  abbrev Kept : Result (Ledger H) → Type 0
  Kept (err _) = Unit
  Kept (ok l) = IsKept digests l

  pub open_existing-IsKept :
      (c : Option (LedgerCheckpoint H)) (synced : Bool) (file : List (Line H)) (l : Ledger H)
      → open_existing digests ledger_id c synced file ≡ ok l
      → IsKept digests l
  unfolding open_existing
  open_existing-IsKept c synced file l opened = subst Kept opened (
      bind_cases Kept (recover digests ledger_id file) _ (λ x. tt)
        (λ x h.
          bind_cases Kept (check_checkpoint digests ledger_id c x) _ (λ y. tt)
            (λ u k.
              bind_cases Kept (raise_if (not synced) ledger_unavailable) _ (λ y. tt)
                (λ v m.
                  let (ls, f, r) = recover-IsKept file x h in
                  let found : Kept (
                      ok (record {
                        ledger_id = ledger_id;
                        is_open = true;
                        poisoned = false;
                        index = x;
                        file = file;
                      })) =
                    (ls, f, inl r) in
                  found))))
