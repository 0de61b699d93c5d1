-- ===== src/Queue/Create.antt =====
-- `FIFOQueueModel(...)` and its `__post_init__`, src/std0_quant/execution/queue_model.py.
use polymarket_quant.Common.{◌+◌, ltb}
use polymarket_quant.Numeric.{
  Float, Field, Result, ok, eps, ◌>>=◌, ◌>>◌, raise_if, positive_finite, nonnegative_finite,
  filled_exceeds_order, of_nat,
}
use polymarket_quant.Queue.{FifoQueueModel, normalize}

unfoldable pub create : Float → Float → Float → Result FifoQueueModel
unfolding positive_finite nonnegative_finite
create order_qty queue_ahead_qty filled_qty = do
  order ← positive_finite order_qty Field.order_qty
  ahead ← nonnegative_finite queue_ahead_qty Field.queue_ahead_qty
  filled ← nonnegative_finite filled_qty Field.filled_qty
  raise_if (ltb (order + eps) filled) filled_exceeds_order
  ok (normalize (record { order_qty = order; queue_ahead_qty = ahead; filled_qty = filled }))

-- `FIFOQueueModel(order_qty=..., queue_ahead_qty=...)`, with the dataclass's default.
unfoldable pub create_new : Float → Float → Result FifoQueueModel
unfolding create
create_new order_qty queue_ahead_qty = create order_qty queue_ahead_qty (of_nat 0)
