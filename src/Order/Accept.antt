-- ===== src/Order/Accept.antt =====
-- When a method of the order accepts, and what it then does (src/std0_quant/execution/order_state.py).
-- The components that drive an order use these lemmas with the methods shut.
use polymarket_quant.Common.{ℕ, ◌+◌, ◌≤◌, ◌<◌, ◌≡◌, true, false, some, arith}
use polymarket_quant.Numeric.{Float, ok, eps, of_nat}
use polymarket_quant.Order.{
  OrderStatus, EventType, OrderEvent, OrderStateMachine, remaining_qty, precedes, is_fillable,
  snap_filled, status_after_fill, mark_sent, acknowledge, expire, request_cancel,
  acknowledge_cancel, apply_fill, is_working,
}

-- The order after a fill of `qty` at `ts`.
abbrev pub filled_order : OrderStateMachine → ℕ → ℕ → OrderStateMachine
filled_order o qty ts =
    let f = snap_filled o.order_qty (o.filled_qty + qty) in
    let r = remaining_qty (record o { filled_qty = f }) in
    record o { filled_qty = f; status = status_after_fill o.status r; last_event_ts_ms = some ts }

-- What an accepted fill says of its arguments and of the order.
pub record Fills (q t : Float) (o : OrderStateMachine) (e : OrderEvent) (o' : OrderStateMachine)
    : Type 0 where
  pub qty_value : q ≡ of_nat e.fill_qty
  pub ts_value : t ≡ of_nat e.event_ts_ms
  pub in_order : precedes e.event_ts_ms o.last_event_ts_ms ≡ false
  pub fillable : is_fillable o.status ≡ true
  pub positive : 0 < e.fill_qty
  pub within : e.fill_qty ≤ remaining_qty o + eps
  pub before : e.status_before ≡ o.status
  pub after : e.status_after ≡ o'.status
  pub result : o' ≡ filled_order o e.fill_qty e.event_ts_ms

pub apply_fill-Fills :
    (q t : Float) (o : OrderStateMachine) {e : OrderEvent}
    → (apply_fill q t o).0 ≡ ok e
    → Fills q t o e (apply_fill q t o).1
unfolding apply_fill
apply_fill-Fills q t o h = ground arith

pub apply_fill_accepts :
    (qty ts : ℕ) (o : OrderStateMachine)
    → precedes ts o.last_event_ts_ms ≡ false
    → is_fillable o.status ≡ true
    → 0 < qty
    → qty ≤ remaining_qty o + eps
    → apply_fill (of_nat qty) (of_nat ts) o ≡ (
      ok (record {
        event_type = EventType.fill;
        event_ts_ms = ts;
        status_before = o.status;
        status_after = (filled_order o qty ts).status;
        fill_qty = qty;
      }),
      filled_order o qty ts,
    )
unfolding apply_fill
apply_fill_accepts qty ts o a b c d = ground arith

abbrev pub moved_order : OrderStateMachine → OrderStatus → ℕ → OrderStateMachine
moved_order o target ts = record o { status = target; last_event_ts_ms = some ts }

abbrev pub moved_event : EventType → OrderStateMachine → OrderStatus → ℕ → OrderEvent
moved_event event_type o target ts = record {
  event_type = event_type;
  event_ts_ms = ts;
  status_before = o.status;
  status_after = target;
  fill_qty = 0;
}

module _ (ts : ℕ) (o : OrderStateMachine) (in_order : precedes ts o.last_event_ts_ms ≡ false) where
  pub mark_sent_accepts :
      o.status ≡ OrderStatus.new
      → mark_sent (of_nat ts) o
        ≡ (ok (moved_event EventType.sent o OrderStatus.sent ts), moved_order o OrderStatus.sent ts)
  unfolding mark_sent
  mark_sent_accepts s = ground arith

  pub acknowledge_accepts :
      o.status ≡ OrderStatus.sent
      → acknowledge (of_nat ts) o ≡ (
        ok (moved_event EventType.acknowledged o OrderStatus.acknowledged ts),
        moved_order o OrderStatus.acknowledged ts,
      )
  unfolding acknowledge
  acknowledge_accepts s = ground arith

  pub expire_accepts :
      is_working o.status ≡ true
      → expire (of_nat ts) o ≡ (
        ok (moved_event EventType.expired o OrderStatus.expired ts),
        moved_order o OrderStatus.expired ts,
      )
  unfolding expire
  expire_accepts s = ground arith

  pub request_cancel_accepts :
      is_working o.status ≡ true
      → request_cancel (of_nat ts) o ≡ (
        ok (moved_event EventType.cancel_requested o OrderStatus.cancel_requested ts),
        moved_order o OrderStatus.cancel_requested ts,
      )
  unfolding request_cancel
  request_cancel_accepts s = ground arith

  pub acknowledge_cancel_accepts :
      o.status ≡ OrderStatus.cancel_requested
      → acknowledge_cancel (of_nat ts) o ≡ (
        ok (moved_event EventType.cancelled o OrderStatus.cancelled ts),
        moved_order o OrderStatus.cancelled ts,
      )
  unfolding acknowledge_cancel
  acknowledge_cancel_accepts s = ground arith
