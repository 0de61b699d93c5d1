-- ===== src/Contracts/Tests.antt =====
-- Events of an order (src/std0_quant/execution/contracts.py).
use polymarket_quant.Common.{◌≡◌, refl, none, some}
use polymarket_quant.Numeric.{
  ok, err, of_nat, positive_finite, nonnegative_finite, unexpected_fill_price, empty_text,
  unsupported_event_type,
}
use polymarket_quant.Contracts.Text.{codes, nonempty}
use polymarket_quant.Contracts.Events.{
  OrderEventType, OrderEvent, EventRow, create_order_event, event_type_of, value_of, row_of,
  order_event_schema,
}
use polymarket_quant.Contracts.Roundtrip.{IsSound, from_dict-to_dict}

abbrev partial_event : OrderEvent
partial_event = record {
  event_id = codes "event-1";
  intent_id = codes "intent 2";
  event_type = OrderEventType.partial_fill;
  receive_ts_ms = 120;
  venue_ts_ms = none;
  venue_order_id = some (codes " 5");
  fill_qty = 3;
  fill_price = some 48;
  cumulative_filled_qty = 3;
  remaining_qty = some 7;
  reason = none;
  schema_version = order_event_schema;
}

-- Only fills have a price.
unfilled_with_price :
    create_order_event (record (row_of partial_event) {
      event_type = value_of OrderEventType.cancelled;
      fill_qty = of_nat 0;
    })
    ≡ err unexpected_fill_price
unfolding create_order_event positive_finite nonnegative_finite nonempty event_type_of
unfilled_with_price = refl

-- A text of spaces is empty.
blank : nonempty (codes " \t ") ≡ err empty_text
unfolding nonempty
blank = refl

no_such_type : event_type_of (codes "Filled") ≡ err unsupported_event_type
unfolding event_type_of
no_such_type = refl

-- The ids with spaces around them.
abbrev spaced : EventRow
spaced = record (row_of partial_event) {
  event_id = codes "  event-1 ";
  intent_id = codes "\tintent 2";
}

from_dict-to_dict_example :
    IsSound partial_event × (create_order_event (row_of partial_event) ≡ ok partial_event)
unfolding create_order_event positive_finite nonnegative_finite nonempty event_type_of
from_dict-to_dict_example = from_dict-to_dict spaced partial_event refl
