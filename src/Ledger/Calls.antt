-- ===== src/Ledger/Calls.antt =====
-- The ways that a call on a handle can go
-- (src/std0_quant/execution/durable_intent_ledger_v1.py).
use polymarket_quant.Common.{
  ℕ, ◌≡◌, refl, sym, subst, Bool, true, false, not, ◌||◌, Option, none, some, lookup, get_elem?,
  nat_eq, arith, if◌then◌else◌, map, length,
}
use polymarket_quant.Numeric.{Error, Result, ok, err, ledger_unavailable}
use polymarket_quant.Action.{Action, ◌>>=◌, ◌>>◌, >>-cases, >>=-cases, lift, get, pure}
use polymarket_quant.Contracts.{OrderIntent, normalized, normalized_same}
use polymarket_quant.Ledger.{
  Digests, Ledger, DurableIntentReceipt, AppendInput, guard, append, write, known, checkpoint,
  receipts, get_intent, find,
}

pub guard_cases :
    {H : Type 0} (P : Result (Unit {0}) × Ledger H → Type 0) (unchanged : Bool) (l : Ledger H)
    → P (err ledger_unavailable, l)
    → (l.poisoned ≡ false → P (ok tt, l))
    → P (err ledger_unavailable, record l { poisoned = true })
    → P (guard unchanged l)
unfolding guard
guard_cases {H} P unchanged l refuses passes poisons =
    let R : Type 0 = Result (Unit {0}) × Ledger H in
    let found : R =
      (if unchanged then (ok tt, l) else (err ledger_unavailable, record l { poisoned = true })) in
    elim (not l.is_open || l.poisoned)
        as (λ b.
          (not l.is_open || l.poisoned) ≡ b
          → P (if b then (err ledger_unavailable, l) else found)) [
            | true ↦ λ h. refuses
            | false ↦ λ h.
                elim unchanged
                  as (λ b. P (
                    if b
                    then (ok tt, l)
                    else (err ledger_unavailable, record l { poisoned = true }))) [
                      | true ↦ passes (ground arith)
                      | false ↦ poisons
                    ]
          ]
      refl

-- What follows the guard.
module _ {H : Type 0} (digests : Digests H) (io : AppendInput) where
  abbrev pub from_found :
      OrderIntent → Ledger H → Option ℕ → Action (Ledger H) (DurableIntentReceipt H)
  from_found i m o = elim o [
    | none ↦ write digests io i
    | some k ↦ lift (known digests i (get_elem? m.index.records k))
  ]

  abbrev pub from_lookup : OrderIntent → Action (Ledger H) (DurableIntentReceipt H)
  from_lookup i = get >>= λ m. from_found i m (lookup i.intent_id m.index.by_id)

  abbrev pub from_guard : OrderIntent → Action (Ledger H) (DurableIntentReceipt H)
  from_guard intent = lift (normalized intent) >>= from_lookup

module _ {H : Type 0} (digests : Digests H)
    (P : Result (DurableIntentReceipt H) × Ledger H → Type 0) (io : AppendInput)
    (intent : OrderIntent) (l : Ledger H) where
  pub append_cases :
      ((e : Error) → P (err e, l))
      → P (err ledger_unavailable, record l { poisoned = true })
      → ((k : ℕ)
          → normalized intent ≡ ok intent
          → lookup intent.intent_id l.index.by_id ≡ some k
          → P (known digests intent (get_elem? l.index.records k), l))
      → (normalized intent ≡ ok intent
          → lookup intent.intent_id l.index.by_id ≡ none
          → l.poisoned ≡ false
          → P (write digests io intent l))
      → P (append digests io intent l)
  unfolding append
  append_cases refuses poisons answers writes =
      let Q : Result (Unit {0}) × Ledger H → Type 0 =
        λ r. P (elim r.0 [ ok a ↦ from_guard digests io intent r.1 | err x ↦ (err x, r.1) ]) in
      guard_cases Q io.unchanged l (refuses ledger_unavailable)
        (λ p. >>=-cases P (lift (normalized intent)) (from_lookup digests io) l refuses (λ i h.
          subst (λ j. normalized intent ≡ ok j → P (from_lookup digests io j l))
            (sym (normalized_same intent h)) (looked_up p) h))
        poisons
    where
      looked_up :
          l.poisoned ≡ false → normalized intent ≡ ok intent → P (from_lookup digests io intent l)
      looked_up p n =
          elim (lookup intent.intent_id l.index.by_id)
              as (λ o.
                lookup intent.intent_id l.index.by_id ≡ o
                → P (from_found digests io intent l o l)) [
                  | none ↦ λ t. writes n t p
                  | some k ↦ λ t. answers k n t
                ]
            refl

-- What the guard leaves is what each call leaves that only reads.
module _ {H : Type 0} (P : Ledger H → Type 0) (unchanged : Bool) (l : Ledger H)
    (guarded : P (guard unchanged l).1) where
  read-leaves :
      {A : Type 0} (f : Ledger H → A) → P ((guard unchanged >> (get >>= λ m. pure (f m))) l).1
  read-leaves f =
      >>-cases (λ r. P r.1) (guard unchanged) (get >>= λ m. pure (f m)) l (λ e. guarded) guarded

  pub checkpoint-leaves : P (checkpoint unchanged l).1
  unfolding checkpoint
  checkpoint-leaves = read-leaves (λ m. record {
    ledger_id = m.ledger_id;
    sequence = length m.index.records;
    record_hash = m.index.tip;
  })

  pub receipts-leaves : P (receipts unchanged l).1
  unfolding receipts
  receipts-leaves = read-leaves (λ m. map (λ r. r.0) m.index.records)

  pub get_intent-leaves : (intent_id : ℕ) → P (get_intent unchanged intent_id l).1
  unfolding get_intent
  get_intent-leaves intent_id =
      read-leaves (λ m. elim (find intent_id m.index) [ none ↦ none | some r ↦ some r.1 ])
