-- ===== src/Ledger/Samples.antt =====
-- Digests and intents to run the ledger on (src/std0_quant/execution/durable_intent_ledger_v1.py).
use polymarket_quant.Common.{
  ℕ, ◌≡◌, ◌↔◌, refl, ap, subst, ◌∙◌, Bool, true, false, ◌&&◌, Eq, ◌==◌, same, same_eq, same_refl,
  nat_eq, arith,
}
use polymarket_quant.Fill.{Side}
use polymarket_quant.Contracts.{OrderIntent, TimeInForce, intent_eq}
use polymarket_quant.Ledger.{Digests, RecordPayload, AppendInput, WriteOutcome}

-- What is digested, itself: a digest that does not collide.
pub data Mark : Type 0 where
  tag : ℕ → Mark
  text : OrderIntent → Mark
  pair : Mark → Mark → Mark

unfoldable pub same_mark : Mark → Mark → Bool
same_mark (tag m) (tag n) = m == n
same_mark (text i) (text j) = same i j
same_mark (pair a b) (pair c d) =
    let first = same_mark a c in let second = same_mark b d in first && second
same_mark _ _ = false

same_mark_refl : (a : Mark) → same_mark a a ≡ true
unfolding same_mark
same_mark_refl (tag n) = same_refl n
same_mark_refl (text i) = same_refl i
same_mark_refl (pair a b) = rw (same_mark_refl a, same_mark_refl b) refl

same_mark_eq : (a b : Mark) → same_mark a b ≡ true → a ≡ b
unfolding same_mark
same_mark_eq (tag m) (tag n) h = ap (λ k. tag k) (same_eq m n h)
same_mark_eq (tag m) (text j) h = absurd (ground arith)
same_mark_eq (tag m) (pair c d) h = absurd (ground arith)
same_mark_eq (text i) (tag n) h = absurd (ground arith)
same_mark_eq (text i) (text j) h = ap (λ k. text k) (same_eq i j h)
same_mark_eq (text i) (pair c d) h = absurd (ground arith)
same_mark_eq (pair a b) (tag n) h = absurd (ground arith)
same_mark_eq (pair a b) (text j) h = absurd (ground arith)
same_mark_eq (pair a b) (pair c d) h =
    let both : (same_mark a c ≡ true) × (same_mark b d ≡ true) = ground arith in
    ap (λ k. pair k b) (same_mark_eq a c both.0) ∙ ap (λ k. pair c k) (same_mark_eq b d both.1)

pub same_mark_iff : (a b : Mark) → (same_mark a b ≡ true) ↔ (a ≡ b)
same_mark_iff a b = (same_mark_eq a b, λ h. subst (λ k. same_mark a k ≡ true) h (same_mark_refl a))

instance abbrev pub mark_eq : Eq Mark
mark_eq = record { beq = same_mark; beq_iff = same_mark_iff }

abbrev pub marks : Digests Mark
marks = record {
  of_header = λ n. tag n;
  of_intent = λ i. text i;
  of_record = λ p.
      pair (pair (tag p.ledger_id) (tag p.sequence))
        (pair p.previous_hash (pair (text p.intent) p.intent_hash));
}

abbrev number_of : Mark → ℕ
number_of (tag n) = n
number_of _ = 0

abbrev left_of : Mark → Mark
left_of (pair a b) = a
left_of a = a

abbrev right_of : Mark → Mark
right_of (pair a b) = b
right_of a = a

abbrev pub sample_intent : ℕ → ℕ → OrderIntent
sample_intent intent_id qty = record {
  intent_id = intent_id;
  condition_id = 7;
  outcome = 1;
  side = Side.buy;
  qty = qty;
  limit_price = 500000;
  time_in_force = TimeInForce.ioc;
  decision_ts_ms = 100;
  market_data_ts_ms = 90;
  strategy_id = 1;
  strategy_version = 1;
  risk_policy_version = 1;
}

abbrev text_of : Mark → OrderIntent
text_of (text i) = i
text_of _ = sample_intent 0 1

-- The payload is read back from its mark.
abbrev payload_in : Mark → RecordPayload Mark
payload_in m = record {
  ledger_id = number_of (left_of (left_of m));
  sequence = number_of (right_of (left_of m));
  previous_hash = left_of (right_of m);
  intent = text_of (left_of (right_of (right_of m)));
  intent_hash = right_of (right_of (right_of m));
}

pub marks_differ : (p q : RecordPayload Mark) → marks.of_record p ≡ marks.of_record q → p ≡ q
marks_differ p q h = ap payload_in h

-- A call of `append` in which all goes well.
abbrev pub smooth : AppendInput
smooth = record { unchanged = true; fits = true; outcome = WriteOutcome.acknowledged }
