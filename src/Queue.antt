-- ===== src/Queue.antt =====
-- The FIFO queue of one resting order, src/std0_quant/execution/queue_model.py.
-- `Queue.Create` has the constructor, `Queue.Priority` what one trade does, `Queue.Refinement` whole
-- sequences of observations against the exact price-time priority.
pub mod Create
pub mod Priority
pub mod Refinement
mod Tests
use polymarket_quant.Common.{ℕ, ◌+◌, ◌-◌, Bool, leb, abs_diff, minimum, if◌then◌else◌}
use polymarket_quant.Numeric.{Float, Field, eps, nonnegative_finite, reset_of_filled_order}
use polymarket_quant.Action.{Action, ◌>>=◌, ◌>>◌, pure, lift, get, modify, raise_when}

pub record QueueFill : Type 0 where
  pub traded_qty : ℕ
  pub queue_consumed_qty : ℕ
  pub own_fill_qty : ℕ
  pub queue_ahead_after : ℕ
  pub remaining_qty_after : ℕ

pub record FifoQueueModel : Type 0 where
  pub order_qty : ℕ
  pub queue_ahead_qty : ℕ
  pub filled_qty : ℕ

-- `max(0.0, order_qty - filled_qty)`: subtraction on ℕ stops at 0.
abbrev pub remaining_qty : FifoQueueModel → ℕ
remaining_qty q = q.order_qty - q.filled_qty

abbrev pub is_filled : FifoQueueModel → Bool
is_filled q = leb (remaining_qty q) eps

-- `_normalize`
abbrev pub normalize : FifoQueueModel → FifoQueueModel
normalize q = record q {
  queue_ahead_qty = if leb q.queue_ahead_qty eps then 0 else q.queue_ahead_qty;
  filled_qty = if leb (abs_diff q.filled_qty q.order_qty) eps then q.order_qty else q.filled_qty;
}

-- The source's subtractions do not go below zero here: what is taken off is a minimum.
unfoldable pub on_confirmed_trade : Float → Action FifoQueueModel QueueFill
unfolding nonnegative_finite
on_confirmed_trade traded = do
  traded_qty ← lift (nonnegative_finite traded Field.traded_qty)
  before ← get
  let queue_consumed = minimum before.queue_ahead_qty traded_qty
  modify (λ q. record q { queue_ahead_qty = before.queue_ahead_qty - queue_consumed })
  let residual_trade = traded_qty - queue_consumed
  let own_fill = minimum (remaining_qty before) residual_trade
  modify (λ q. record q { filled_qty = q.filled_qty + own_fill })
  modify normalize
  after ← get
  pure (record {
    traded_qty = traded_qty;
    queue_consumed_qty = queue_consumed;
    own_fill_qty = own_fill;
    queue_ahead_after = after.queue_ahead_qty;
    remaining_qty_after = remaining_qty after;
  })

unfoldable pub on_same_price_add : Float → Action FifoQueueModel (Unit {0})
unfolding nonnegative_finite
on_same_price_add added = do n ← lift (nonnegative_finite added Field.added_qty); pure tt

unfoldable pub on_unexplained_size_decrease : Float → Action FifoQueueModel (Unit {0})
unfolding nonnegative_finite
on_unexplained_size_decrease decreased = do
  n ← lift (nonnegative_finite decreased Field.decreased_qty)
  pure tt

unfoldable pub reset_priority : Float → Action FifoQueueModel (Unit {0})
unfolding nonnegative_finite
reset_priority displayed = do
  q ← get
  raise_when (is_filled q) reset_of_filled_order
  ahead ← lift (nonnegative_finite displayed Field.displayed_qty)
  modify (λ p. record p { queue_ahead_qty = ahead })
  modify normalize
