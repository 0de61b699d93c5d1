-- ===== src/Ledger/Recover.antt =====
-- Opening a file: `_recover`, `_check_checkpoint` and `open_existing`
-- (src/std0_quant/execution/durable_intent_ledger_v1.py).
use polymarket_quant.Common.{
  ℕ, zero, suc, Bool, true, false, not, ◌&&◌, Option, none, some, List, [], ◌∷◌, Eq, same, nat_eq,
  ◌==◌, lookup, get_elem?, if◌then◌else◌,
}
use polymarket_quant.Numeric.{
  Result, ok, err, ◌>>=◌, ◌>>◌, raise_if, ledger_corrupt, ledger_unavailable,
}
use polymarket_quant.Contracts.{OrderIntent, intent_eq, normalized}
use polymarket_quant.Ledger.{
  Digests, RecordPayload, header, entry, other, Line, LedgerCheckpoint, Index, Ledger, next_payload,
  add_record, empty_index,
}

-- Every exception in the loop becomes `LedgerCorruptionError`.
abbrev pub or_corrupt : {A : Type 0} → Result A → Result A
or_corrupt (ok a) = ok a
or_corrupt (err _) = err ledger_corrupt

module _ {H : Type 0} ⦃e : Eq H⦄ (digests : Digests H) where
  -- Equality of the canonical texts of two rows.
  abbrev pub same_row : RecordPayload H → H → RecordPayload H → H → Bool
  same_row p h q k =
      p.ledger_id == q.ledger_id
      && p.sequence == q.sequence
      && same p.previous_hash q.previous_hash
      && same p.intent q.intent
      && same p.intent_hash q.intent_hash
      && same h k

  abbrev pub is_taken : ℕ → Index H → Bool
  is_taken intent_id x = elim (lookup intent_id x.by_id) [ none ↦ false | some _ ↦ true ]

  -- Whether a record is the one that comes next, for its intent.
  abbrev pub is_next : ℕ → RecordPayload H → H → Index H → OrderIntent → Bool
  is_next ledger_id p h x i =
      let expected = next_payload digests ledger_id x i in
      same_row p h expected (digests.of_record expected)

  -- The loop's body for a record, after its intent.
  abbrev pub take_entry : ℕ → RecordPayload H → H → Index H → OrderIntent → Result (Index H)
  take_entry ledger_id p h x i = do
    raise_if (not (is_next ledger_id p h x i)) ledger_corrupt
    raise_if (is_taken i.intent_id x) ledger_corrupt
    ok (add_record digests ledger_id i x)

  unfoldable pub read_entry : ℕ → RecordPayload H → H → Index H → Result (Index H)
  read_entry ledger_id p h x = or_corrupt (normalized p.intent) >>= take_entry ledger_id p h x

  abbrev pub read_line : ℕ → Line H → Index H → Result (Index H)
  read_line ledger_id none x = err ledger_corrupt
  read_line ledger_id (some (header _ _)) x = err ledger_corrupt
  read_line ledger_id (some other) x = err ledger_corrupt
  read_line ledger_id (some (entry p h)) x = read_entry ledger_id p h x

  -- The loop after the header.
  unfoldable pub read_lines : ℕ → List (Line H) → Index H → Result (Index H)
  read_lines ledger_id [] x = ok x
  read_lines ledger_id (l ∷ ls) x = read_line ledger_id l x >>= read_lines ledger_id ls

  abbrev pub is_header : ℕ → Line H → Bool
  is_header ledger_id (some (header id h)) = id == ledger_id && same h (digests.of_header ledger_id)
  is_header ledger_id _ = false

  unfoldable pub recover : ℕ → List (Line H) → Result (Index H)
  recover ledger_id [] = err ledger_corrupt
  recover ledger_id (l ∷ ls) =
      if is_header ledger_id l
      then read_lines ledger_id ls (empty_index digests ledger_id)
      else err ledger_corrupt

  -- The digest after the first `sequence` records.
  abbrev pub hash_at : ℕ → Index H → ℕ → Option H
  hash_at ledger_id x zero = some (digests.of_header ledger_id)
  hash_at ledger_id x (suc k) = elim (get_elem? x.records k) [
    | none ↦ none
    | some r ↦ some r.0.record_hash
  ]

  -- `_check_checkpoint`, after the comparison of the identities in `_open`. A sequence past the end has
  -- no digest.
  unfoldable pub check_checkpoint : ℕ → Option (LedgerCheckpoint H) → Index H → Result (Unit {0})
  check_checkpoint ledger_id none x = ok tt
  check_checkpoint ledger_id (some c) x =
      if not (c.ledger_id == ledger_id)
      then err ledger_corrupt
      else elim (hash_at ledger_id x c.sequence) [
        | none ↦ err ledger_corrupt
        | some h ↦ raise_if (not (same h c.record_hash)) ledger_corrupt
      ]

  -- `synced`: the lock, both syncs and the comparisons of the stamp succeed.
  unfoldable pub open_existing :
      ℕ → Option (LedgerCheckpoint H) → Bool → List (Line H) → Result (Ledger H)
  unfolding recover check_checkpoint
  open_existing ledger_id c synced file = do
    x ← recover ledger_id file
    check_checkpoint ledger_id c x
    raise_if (not synced) ledger_unavailable
    ok (record { ledger_id = ledger_id; is_open = true; poisoned = false; index = x; file = file })
