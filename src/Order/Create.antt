-- ===== src/Order/Create.antt =====
-- `OrderStateMachine(...)` and its `__post_init__`, src/std0_quant/execution/order_state.py.
use polymarket_quant.Common.{
  ℕ, ◌+◌, Bool, true, false, ◌&&◌, ◌||◌, Option, none, some, ltb, leb, abs_diff,
}
use polymarket_quant.Numeric.{
  Float, Field, Result, ok, eps, ◌>>=◌, ◌>>◌, raise_if, of_nat, positive_finite, nonnegative_finite,
  filled_exceeds_order, filled_status_mismatch, partial_status_mismatch,
}
use polymarket_quant.Order.{OrderStatus, OrderStateMachine, normalize, is_filled_status}

abbrev is_partial_status : OrderStatus → Bool
is_partial_status OrderStatus.partially_filled = true
is_partial_status _ = false

-- `if self.last_event_ts_ms is not None: ...`
abbrev checked_last : Option Float → Result (Option ℕ)
checked_last none = ok none
checked_last (some t) = do n ← nonnegative_finite t Field.last_event_ts_ms; ok (some n)

unfoldable pub create : Float → OrderStatus → Float → Option Float → Result OrderStateMachine
unfolding positive_finite nonnegative_finite
create order_qty status filled_qty last = do
  order ← positive_finite order_qty Field.order_qty
  filled ← nonnegative_finite filled_qty Field.filled_qty
  raise_if (ltb (order + eps) filled) filled_exceeds_order
  raise_if (is_filled_status status && ltb eps (abs_diff filled order)) filled_status_mismatch
  raise_if (is_partial_status status && (leb filled eps || leb order (filled + eps)))
      partial_status_mismatch
  ts ← checked_last last
  ok (
      normalize
        (record { order_qty = order; status = status; filled_qty = filled; last_event_ts_ms = ts }))

-- `OrderStateMachine(order_qty=...)`, with the dataclass's defaults.
unfoldable pub create_new : Float → Result OrderStateMachine
unfolding create
create_new order_qty = create order_qty OrderStatus.new (of_nat 0) none
