-- ===== src/Replace.antt =====
-- Cancel and replace, src/std0_quant/execution/cancel_replace.py.
pub mod Fresh
use polymarket_quant.Common.{ℕ, Bool, true, false, not}
use polymarket_quant.Numeric.{
  Float, Field, Result, ok, ◌>>=◌, ◌>>◌, raise_if, of_nat, positive_finite, nonnegative_finite,
  replacement_needs_cancelled,
}
use polymarket_quant.Action.{Action}
use polymarket_quant.Order.{OrderStatus, OrderEvent, OrderStateMachine}
use polymarket_quant.Order
use polymarket_quant.Order.Create
use polymarket_quant.Queue.{FifoQueueModel}
use polymarket_quant.Queue.Create as QueueCreate

-- A fresh replacement order and its new queue.
pub record ReplacementOrder : Type 0 where
  pub price : ℕ
  pub order : OrderStateMachine
  pub queue : FifoQueueModel

pub request_cancel : Float → Action OrderStateMachine OrderEvent
request_cancel event_ts_ms = Order.request_cancel event_ts_ms

pub confirm_cancel : Float → Action OrderStateMachine OrderEvent
confirm_cancel event_ts_ms = Order.acknowledge_cancel event_ts_ms

abbrev pub is_cancelled : OrderStatus → Bool
is_cancelled OrderStatus.cancelled = true
is_cancelled _ = false

unfoldable pub create_replacement_after_cancel :
    OrderStateMachine → Float → Float → Float → Result ReplacementOrder
unfolding positive_finite nonnegative_finite
create_replacement_after_cancel old_order new_price new_qty displayed_qty_at_arrival = do
  raise_if (not (is_cancelled old_order.status)) replacement_needs_cancelled
  price ← positive_finite new_price Field.new_price
  qty ← positive_finite new_qty Field.new_qty
  queue_ahead ← nonnegative_finite displayed_qty_at_arrival Field.displayed_qty
  new_order ← Create.create_new (of_nat qty)
  new_queue ← QueueCreate.create_new (of_nat qty) (of_nat queue_ahead)
  ok (record { price = price; order = new_order; queue = new_queue })
