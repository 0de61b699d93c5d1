-- ===== src/Contracts/Events.antt =====
-- The events that an execution adapter emits, `OrderEvent` of src/std0_quant/execution/contracts.py. The
-- numbers of a row are floats and its other values texts; `str(...)` and `float(...)` of other values are
-- not modelled.
use polymarket_quant.Common.{
  ℕ, Bool, true, false, not, Option, none, some, List, [], ◌∷◌, leb, ◌==◌, if◌then◌else◌,
}
use polymarket_quant.Numeric.{
  Float, Field, Result, ok, err, ◌>>=◌, ◌>>◌, raise_if, positive_finite, nonnegative_finite, of_nat,
  fill_qty_missing, fill_price_missing, unexpected_fill_qty, unexpected_fill_price,
  filled_with_remaining, partial_without_remaining, unsupported_event_type,
  unsupported_event_schema,
}
use polymarket_quant.Contracts.Text.{Text, codes, same_text, nonempty}

pub data OrderEventType : Type 0 where
  submitted venue_ack partial_fill filled cancel_requested cancelled rejected expired :
      OrderEventType

pub record OrderEvent : Type 0 where
  pub event_id : Text
  pub intent_id : Text
  pub event_type : OrderEventType
  pub receive_ts_ms : ℕ
  pub venue_ts_ms : Option ℕ
  pub venue_order_id : Option Text
  pub fill_qty : ℕ
  pub fill_price : Option ℕ
  pub cumulative_filled_qty : ℕ
  pub remaining_qty : Option ℕ
  pub reason : Option Text
  pub schema_version : Text

-- The row of `to_dict`, before its numbers are checked.
pub record EventRow : Type 0 where
  pub event_id : Text
  pub intent_id : Text
  pub event_type : Text
  pub receive_ts_ms : Float
  pub venue_ts_ms : Option Float
  pub venue_order_id : Option Text
  pub fill_qty : Float
  pub fill_price : Option Float
  pub cumulative_filled_qty : Float
  pub remaining_qty : Option Float
  pub reason : Option Text
  pub schema_version : Text

-- `event_type.value`
abbrev pub value_of : OrderEventType → Text
value_of OrderEventType.submitted = codes "SUBMITTED"
value_of OrderEventType.venue_ack = codes "VENUE_ACK"
value_of OrderEventType.partial_fill = codes "PARTIAL_FILL"
value_of OrderEventType.filled = codes "FILLED"
value_of OrderEventType.cancel_requested = codes "CANCEL_REQUESTED"
value_of OrderEventType.cancelled = codes "CANCELLED"
value_of OrderEventType.rejected = codes "REJECTED"
value_of OrderEventType.expired = codes "EXPIRED"

-- The member with that value, of those.
abbrev pub member_of : List OrderEventType → Text → Result OrderEventType
member_of [] value = err unsupported_event_type
member_of (m ∷ members) value =
    if same_text value (value_of m) then ok m else member_of members value

-- `OrderEventType(value)`
unfoldable pub event_type_of : Text → Result OrderEventType
event_type_of value =
    member_of
      (OrderEventType.submitted ∷ OrderEventType.venue_ack ∷ OrderEventType.partial_fill
        ∷ OrderEventType.filled ∷ OrderEventType.cancel_requested ∷ OrderEventType.cancelled
        ∷ OrderEventType.rejected ∷ OrderEventType.expired ∷ [])
      value

-- `ORDER_EVENT_SCHEMA_V1`
abbrev pub order_event_schema : Text
order_event_schema = codes "order_event_v1"

-- A check where there is a value.
abbrev pub when_present : (Float → Field → Result ℕ) → Option Float → Field → Result (Option ℕ)
when_present check none name = ok none
when_present check (some x) name = check x name >>= λ n. ok (some n)

abbrev pub is_fill : OrderEventType → Bool
is_fill OrderEventType.partial_fill = true
is_fill OrderEventType.filled = true
is_fill _ = false

abbrev pub is_present : Option ℕ → Bool
is_present none = false
is_present (some _) = true

-- What the quantity and the price of a fill must be, by the type of the event.
abbrev pub check_fill : OrderEventType → ℕ → Option ℕ → Result (Unit {0})
check_fill event_type qty price =
    if is_fill event_type
    then (raise_if (leb qty 0) fill_qty_missing
        >> raise_if (not (is_present price)) fill_price_missing)
    else (raise_if (not (qty == 0)) unexpected_fill_qty
        >> raise_if (is_present price) unexpected_fill_price)

-- What may remain, by the type of the event.
abbrev pub check_remaining : OrderEventType → Option ℕ → Result (Unit {0})
check_remaining _ none = ok tt
check_remaining OrderEventType.filled (some n) = raise_if (not (n == 0)) filled_with_remaining
check_remaining OrderEventType.partial_fill (some n) = raise_if (leb n 0) partial_without_remaining
check_remaining _ (some n) = ok tt

-- `from_dict`, with `__post_init__`.
unfoldable pub create_order_event : EventRow → Result OrderEvent
unfolding positive_finite nonnegative_finite nonempty event_type_of
create_order_event r = do
  event_id ← nonempty r.event_id
  intent_id ← nonempty r.intent_id
  event_type ← event_type_of r.event_type
  received ← nonnegative_finite r.receive_ts_ms Field.receive_ts_ms
  venue ← when_present nonnegative_finite r.venue_ts_ms Field.venue_ts_ms
  qty ← nonnegative_finite r.fill_qty Field.fill_qty
  price ← when_present positive_finite r.fill_price Field.fill_price
  cumulative ← nonnegative_finite r.cumulative_filled_qty Field.cumulative_filled_qty
  remaining ← when_present nonnegative_finite r.remaining_qty Field.remaining_qty
  check_fill event_type qty price
  check_remaining event_type remaining
  raise_if (not (same_text r.schema_version order_event_schema)) unsupported_event_schema
  ok (record {
    event_id = event_id;
    intent_id = intent_id;
    event_type = event_type;
    receive_ts_ms = received;
    venue_ts_ms = venue;
    venue_order_id = r.venue_order_id;
    fill_qty = qty;
    fill_price = price;
    cumulative_filled_qty = cumulative;
    remaining_qty = remaining;
    reason = r.reason;
    schema_version = r.schema_version;
  })

abbrev pub of_option : Option ℕ → Option Float
of_option none = none
of_option (some n) = some (of_nat n)

-- `to_dict`
abbrev pub row_of : OrderEvent → EventRow
row_of e = record {
  event_id = e.event_id;
  intent_id = e.intent_id;
  event_type = value_of e.event_type;
  receive_ts_ms = of_nat e.receive_ts_ms;
  venue_ts_ms = of_option e.venue_ts_ms;
  venue_order_id = e.venue_order_id;
  fill_qty = of_nat e.fill_qty;
  fill_price = of_option e.fill_price;
  cumulative_filled_qty = of_nat e.cumulative_filled_qty;
  remaining_qty = of_option e.remaining_qty;
  reason = e.reason;
  schema_version = e.schema_version;
}
