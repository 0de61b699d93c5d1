-- ===== src/Ledger.antt =====
-- The ledger of intents, src/std0_quant/execution/durable_intent_ledger_v1.py.
-- The digests (`_digest` of canonical texts) are a parameter, and a line of the file is what `_decode_line`
-- makes of it. The operating system is an input of each call: whether `_guard` finds the file and its
-- stamp as they were left, and how far a write comes. `Ledger.Recover` has what opens a file.
pub mod Recover
pub mod Calls
pub mod Durable
pub mod Receipts
pub mod Survive
pub mod Reopen
pub mod History
pub mod Anchor
pub mod Samples
mod Tests
use polymarket_quant.Common.{
  ℕ, suc, ◌+◌, Bool, true, false, not, ◌||◌, Option, none, some, List, [], ◌∷◌, ◌++◌, Eq, same,
  nat_eq, lookup, store, length, get_elem?, map, if◌then◌else◌,
}
use polymarket_quant.Numeric.{
  Result, ok, err, ledger_unavailable, intent_conflict, record_too_long, index_error,
}
use polymarket_quant.Action.{Action, ◌>>=◌, ◌>>◌, pure, lift, get, modify, raise_when}
use polymarket_quant.Contracts.{OrderIntent, intent_eq, normalized}

-- The payload of `_record` that its digest is taken of.
pub record RecordPayload (H : Type 0) : Type 0 where
  pub ledger_id : ℕ
  pub sequence : ℕ
  pub previous_hash : H
  pub intent : OrderIntent
  pub intent_hash : H

-- The three kinds of `_digest`.
pub record Digests (H : Type 0) : Type 0 where
  pub of_header : ℕ → H
  pub of_intent : OrderIntent → H
  pub of_record : RecordPayload H → H

-- A decoded line; the schema versions are those of this version of the ledger.
pub data Row (H : Type 0) : Type 0 where
  header : ℕ → H → Row H
  entry : RecordPayload H → H → Row H
  other : Row H

-- None where `_decode_line` raises: a line that is too long, incomplete or not canonical.
abbrev pub Line : Type 0 → Type 0
Line H = Option (Row H)

pub record LedgerCheckpoint (H : Type 0) : Type 0 where
  pub ledger_id : ℕ
  pub sequence : ℕ
  pub record_hash : H

pub record DurableIntentReceipt (H : Type 0) : Type 0 where
  pub ledger_id : ℕ
  pub sequence : ℕ
  pub intent_id : ℕ
  pub intent_hash : H
  pub record_hash : H

-- `_records`, `_by_id` and `_tip`.
pub record Index (H : Type 0) : Type 0 where
  pub records : List (DurableIntentReceipt H × OrderIntent)
  pub by_id : List (ℕ × ℕ)
  pub tip : H

-- A handle, with the file that it has locked.
pub record Ledger (H : Type 0) : Type 0 where
  pub ledger_id : ℕ
  pub is_open : Bool
  pub poisoned : Bool
  pub index : Index H
  pub file : List (Line H)

-- What a write, its fsync and the check of the size come to. An exception may leave nothing in the file,
-- an incomplete line, or the whole line.
pub data WriteOutcome : Type 0 where
  acknowledged nothing_written torn unacknowledged : WriteOutcome

module _ {H : Type 0} (digests : Digests H) where
  -- `_header`
  abbrev pub header_row : ℕ → Row H
  header_row ledger_id = header ledger_id (digests.of_header ledger_id)

  -- `_record`
  abbrev pub payload_of : ℕ → ℕ → H → OrderIntent → RecordPayload H
  payload_of ledger_id sequence previous_hash i = record {
    ledger_id = ledger_id;
    sequence = sequence;
    previous_hash = previous_hash;
    intent = i;
    intent_hash = digests.of_intent i;
  }

  abbrev pub row_of : RecordPayload H → Row H
  row_of p = entry p (digests.of_record p)

  -- `_receipt`
  abbrev pub receipt_of : RecordPayload H → DurableIntentReceipt H
  receipt_of p = record {
    ledger_id = p.ledger_id;
    sequence = p.sequence;
    intent_id = p.intent.intent_id;
    intent_hash = p.intent_hash;
    record_hash = digests.of_record p;
  }

  -- The next record of an index.
  abbrev pub next_payload : ℕ → Index H → OrderIntent → RecordPayload H
  next_payload ledger_id x i = payload_of ledger_id (length x.records + 1) x.tip i

  -- The new record in `_by_id`, `_records` and `_tip`.
  abbrev pub add_record : ℕ → OrderIntent → Index H → Index H
  add_record ledger_id i x = record {
    records = x.records ++ (receipt_of (next_payload ledger_id x i), i) ∷ [];
    by_id = store i.intent_id (length x.records) x.by_id;
    tip = digests.of_record (next_payload ledger_id x i);
  }

  abbrev pub empty_index : ℕ → Index H
  empty_index ledger_id = record { records = []; by_id = []; tip = digests.of_header ledger_id }

  -- `create`, where the header is written and the file kept.
  abbrev pub create_ledger : ℕ → Ledger H
  create_ledger ledger_id = record {
    ledger_id = ledger_id;
    is_open = true;
    poisoned = false;
    index = empty_index ledger_id;
    file = some (header_row ledger_id) ∷ [];
  }

module _ {H : Type 0} where
  -- `_guard`: `unchanged` tells whether the file, its name and its stamp are as they were left.
  unfoldable pub guard : Bool → Action (Ledger H) (Unit {0})
  guard unchanged l =
      if not l.is_open || l.poisoned
      then (err ledger_unavailable, l)
      else if unchanged
      then (ok tt, l)
      else (err ledger_unavailable, record l { poisoned = true })

  -- The content of a file after a write, and the handle that the exception leaves.
  abbrev pub fail_with : List (Line H) → Ledger H → Ledger H
  fail_with lines l = record l { poisoned = true; file = l.file ++ lines }

  unfoldable pub checkpoint : Bool → Action (Ledger H) (LedgerCheckpoint H)
  unfolding guard
  checkpoint unchanged = do
    guard unchanged
    l ← get
    pure (record {
      ledger_id = l.ledger_id;
      sequence = length l.index.records;
      record_hash = l.index.tip;
    })

  unfoldable pub receipts : Bool → Action (Ledger H) (List (DurableIntentReceipt H))
  unfolding guard
  receipts unchanged = do guard unchanged; l ← get; pure (map (λ r. r.0) l.index.records)

  -- The record that an id leads to.
  abbrev pub find : ℕ → Index H → Option (DurableIntentReceipt H × OrderIntent)
  find intent_id x = elim (lookup intent_id x.by_id) [
    | none ↦ none
    | some k ↦ get_elem? x.records k
  ]

  unfoldable pub get_intent : Bool → ℕ → Action (Ledger H) (Option OrderIntent)
  unfolding guard
  get_intent unchanged intent_id = do
    guard unchanged
    l ← get
    pure (elim (find intent_id l.index) [ none ↦ none | some r ↦ some r.1 ])

  abbrev pub close : Ledger H → Ledger H
  close l = record l { is_open = false }

-- What the operating system does in a call of `append`; `fits` tells whether the record is at most
-- `MAX_LINE_BYTES` long.
pub record AppendInput : Type 0 where
  pub unchanged : Bool
  pub fits : Bool
  pub outcome : WriteOutcome

module _ {H : Type 0} (digests : Digests H) where
  -- `_write_all`, `os.fsync` and what follows them.
  abbrev pub after_write : WriteOutcome → OrderIntent → Action (Ledger H) (DurableIntentReceipt H)
  after_write outcome i l =
      let p = next_payload digests l.ledger_id l.index i in
      let line : Line H = some (row_of digests p) in
      elim outcome [
        | WriteOutcome.acknowledged ↦ (
          ok (receipt_of digests p),
          record l { index = add_record digests l.ledger_id i l.index; file = l.file ++ line ∷ [] },
        )
        | WriteOutcome.nothing_written ↦ (err ledger_unavailable, fail_with [] l)
        | WriteOutcome.torn ↦ (err ledger_unavailable, fail_with (none ∷ []) l)
        | WriteOutcome.unacknowledged ↦ (err ledger_unavailable, fail_with (line ∷ []) l)
      ]

  -- The write of a new record.
  abbrev pub write : AppendInput → OrderIntent → Action (Ledger H) (DurableIntentReceipt H)
  write io i l = if not io.fits then (err record_too_long, l) else after_write io.outcome i l

  -- The answer to an id that has a record already. A position past the end would be an `IndexError`.
  abbrev pub known :
      OrderIntent → Option (DurableIntentReceipt H × OrderIntent) → Result (DurableIntentReceipt H)
  known i none = err index_error
  known i (some r) = if same i r.1 then ok r.0 else err intent_conflict

  unfoldable pub append : AppendInput → OrderIntent → Action (Ledger H) (DurableIntentReceipt H)
  unfolding guard
  append io intent = do
    guard io.unchanged
    i ← lift (normalized intent)
    l ← get
    elim (lookup i.intent_id l.index.by_id) [
      | none ↦ write io i
      | some k ↦ lift (known i (get_elem? l.index.records k))
    ]

-- A call on a handle: one that writes, one that only reads, or `close`.
pub data Call : Type 0 where
  append_call : AppendInput → OrderIntent → Call
  read_call : Bool → Call
  close_call : Call

module _ {H : Type 0} (digests : Digests H) where
  abbrev pub perform : Call → Ledger H → Ledger H
  perform (append_call io i) l = (append digests io i l).1
  perform (read_call unchanged) l = (guard unchanged l).1
  perform close_call l = close l

  abbrev pub perform_all : List Call → Ledger H → Ledger H
  perform_all [] l = l
  perform_all (c ∷ cs) l = perform_all cs (perform c l)
