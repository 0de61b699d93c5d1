-- ===== src/Contracts/Roundtrip.antt =====
-- What an accepted order event says, and that its row is accepted again
-- (src/std0_quant/execution/contracts.py).
use polymarket_quant.Common.{ℕ, ◌<◌, ◌≡◌, refl, true, not, Option, none, some, arith, subst}
use polymarket_quant.Numeric.{
  Float, Field, Result, ok, err, raise_if, positive_finite, nonnegative_finite, bind_cases,
  unsupported_event_schema,
}
use polymarket_quant.Contracts.Text.{
  Text, same_text, same_text-eq, nonempty, IsStripped, nonempty-IsStripped, nonempty_again,
}
use polymarket_quant.Contracts.Events.{
  OrderEventType, OrderEvent, EventRow, value_of, event_type_of, order_event_schema, when_present,
  check_fill, check_remaining, create_order_event, of_option, row_of,
}

-- A number is there and is positive.
abbrev IsPositive : Option ℕ → Type 0
IsPositive none = ⊥
IsPositive (some n) = 0 < n

-- A fill has a quantity and a price, and any other event has neither.
abbrev pub FitsFill : OrderEventType → ℕ → Option ℕ → Type 0
FitsFill OrderEventType.partial_fill qty price = (0 < qty) × IsPositive price
FitsFill OrderEventType.filled qty price = (0 < qty) × IsPositive price
FitsFill _ qty price = (qty ≡ 0) × (price ≡ none)

-- If it is said what remains: nothing of a whole fill, something of a partial one.
abbrev pub FitsRemaining : OrderEventType → Option ℕ → Type 0
FitsRemaining OrderEventType.filled (some n) = n ≡ 0
FitsRemaining OrderEventType.partial_fill (some n) = 0 < n
FitsRemaining _ _ = Unit

pub record IsSound (e : OrderEvent) : Type 0 where
  pub named : IsStripped e.event_id
  pub ordered : IsStripped e.intent_id
  pub fill : FitsFill e.event_type e.fill_qty e.fill_price
  pub remaining : FitsRemaining e.event_type e.remaining_qty
  pub versioned : e.schema_version ≡ order_event_schema

-- None, or a positive number.
abbrev NotZero : Option ℕ → Type 0
NotZero none = Unit
NotZero (some n) = 0 < n

present-NotZero :
    (x : Option Float) {p : Option ℕ}
    → when_present positive_finite x Field.fill_price ≡ ok p
    → NotZero p
unfolding positive_finite
present-NotZero none h = ground arith
present-NotZero (some x) h = ground arith

positive_again :
    (p : Option ℕ) → NotZero p → when_present positive_finite (of_option p) Field.fill_price ≡ ok p
unfolding positive_finite
positive_again none h = refl
positive_again (some n) h = ground arith

nonnegative_again :
    (o : Option ℕ) (name : Field) → when_present nonnegative_finite (of_option o) name ≡ ok o
unfolding nonnegative_finite
nonnegative_again none name = refl
nonnegative_again (some n) name = refl

checked-FitsFill :
    (t : OrderEventType) (qty : ℕ) (price : Option ℕ)
    → NotZero price
    → check_fill t qty price ≡ ok tt
    → FitsFill t qty price
checked-FitsFill t qty none z h = ground arith
checked-FitsFill t qty (some n) z h = ground arith

checked-FitsRemaining :
    (t : OrderEventType) (o : Option ℕ) → check_remaining t o ≡ ok tt → FitsRemaining t o
checked-FitsRemaining t none h = ground arith
checked-FitsRemaining t (some n) h = ground arith

value_again : (t : OrderEventType) → event_type_of (value_of t) ≡ ok t
unfolding event_type_of
value_again OrderEventType.submitted = refl
value_again OrderEventType.venue_ack = refl
value_again OrderEventType.partial_fill = refl
value_again OrderEventType.filled = refl
value_again OrderEventType.cancel_requested = refl
value_again OrderEventType.cancelled = refl
value_again OrderEventType.rejected = refl
value_again OrderEventType.expired = refl

-- The event is sound, and is read back from its own row.
abbrev IsReadBack : Result OrderEvent → Type 0
IsReadBack (err _) = Unit
IsReadBack (ok e) = IsSound e × (create_order_event (row_of e) ≡ ok e)

read_back :
    (e : OrderEvent)
    → IsStripped e.event_id
    → IsStripped e.intent_id
    → NotZero e.fill_price
    → check_fill e.event_type e.fill_qty e.fill_price ≡ ok tt
    → check_remaining e.event_type e.remaining_qty ≡ ok tt
    → same_text e.schema_version order_event_schema ≡ true
    → IsReadBack (ok e)
unfolding create_order_event nonnegative_finite
read_back e i n z f m v = (
  record {
    named = i;
    ordered = n;
    fill = checked-FitsFill e.event_type e.fill_qty e.fill_price z f;
    remaining = checked-FitsRemaining e.event_type e.remaining_qty m;
    versioned = same_text-eq e.schema_version order_event_schema v;
  },
  rw
      (
        nonempty_again e.event_id i,
        nonempty_again e.intent_id n,
        value_again e.event_type,
        nonnegative_again e.venue_ts_ms Field.venue_ts_ms,
        positive_again e.fill_price z,
        nonnegative_again e.remaining_qty Field.remaining_qty,
        f,
        m,
        v,
      )
      refl,
)

right_schema :
    (s : Text)
    → raise_if (not (same_text s order_event_schema)) unsupported_event_schema ≡ ok tt
    → same_text s order_event_schema ≡ true
right_schema s h = ground arith

create-IsReadBack : (r : EventRow) → IsReadBack (create_order_event r)
unfolding create_order_event
create-IsReadBack r =
    bind_cases IsReadBack (nonempty r.event_id) _ (λ x. tt)
      λ id h1.
        bind_cases IsReadBack (nonempty r.intent_id) _ (λ x. tt)
          λ intent h2.
            bind_cases IsReadBack (event_type_of r.event_type) _ (λ x. tt)
              λ type h3.
                bind_cases IsReadBack (nonnegative_finite r.receive_ts_ms Field.receive_ts_ms) _
                  (λ x. tt)
                  λ received h4.
                    bind_cases IsReadBack
                      (when_present nonnegative_finite r.venue_ts_ms Field.venue_ts_ms) _ (λ x. tt)
                      λ venue h5.
                        bind_cases IsReadBack (nonnegative_finite r.fill_qty Field.fill_qty) _
                          (λ x. tt)
                          λ qty h6.
                            bind_cases IsReadBack
                              (when_present positive_finite r.fill_price Field.fill_price) _
                              (λ x. tt)
                              λ price h7.
                                bind_cases IsReadBack
                                  (nonnegative_finite r.cumulative_filled_qty
                                    Field.cumulative_filled_qty)
                                  _ (λ x. tt)
                                  λ cumulative h8.
                                    bind_cases IsReadBack
                                      (when_present nonnegative_finite r.remaining_qty
                                        Field.remaining_qty)
                                      _ (λ x. tt)
                                      λ remaining h9.
                                        bind_cases IsReadBack (check_fill type qty price) _
                                          (λ x. tt)
                                          λ u h10.
                                            bind_cases IsReadBack (check_remaining type remaining) _
                                              (λ x. tt)
                                              λ v h11.
                                                bind_cases IsReadBack
                                                  (raise_if
                                                    (not (
                                                      same_text r.schema_version
                                                        order_event_schema))
                                                    unsupported_event_schema)
                                                  _ (λ x. tt)
                                                  λ w h12.
                                                    read_back _ (nonempty-IsStripped r.event_id h1)
                                                      (nonempty-IsStripped r.intent_id h2)
                                                      (present-NotZero r.fill_price h7) h10 h11
                                                      (right_schema r.schema_version h12)

-- An event that is constructed from a row: its ids are not empty and have no space at their ends, a fill
-- has a positive quantity and price and any other event has neither, nothing remains of a whole fill and
-- something of a partial one where it is said, and its version is the one supported; and the row that it
-- gives constructs it again.
pub from_dict-to_dict :
    (r : EventRow) (e : OrderEvent)
    → create_order_event r ≡ ok e
    → IsSound e × (create_order_event (row_of e) ≡ ok e)
from_dict-to_dict r e h = subst IsReadBack h (create-IsReadBack r)
