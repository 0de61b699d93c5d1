-- ===== src/Queue/Priority.antt =====
-- What one observation does to the queue (src/std0_quant/execution/queue_model.py).
use polymarket_quant.Common.{
  ℕ, ◌+◌, ◌-◌, ◌≤◌, ◌<◌, ◌≡◌, refl, ◌⊎◌, leb, minimum, arith, if◌then◌else◌,
}
use polymarket_quant.Numeric.{Float, ok, eps, of_nat}
use polymarket_quant.Queue.{
  FifoQueueModel, QueueFill, remaining_qty, normalize, on_confirmed_trade, on_same_price_add,
  on_unexplained_size_decrease, reset_priority,
}
use polymarket_quant.Queue.Create.{create}

-- The filled quantity is the whole order or more than `_EPS` short of it, and what is ahead is
-- nothing or more than `_EPS`.
pub record IsValid (q : FifoQueueModel) : Type 0 where
  pub positive : 0 < q.order_qty
  pub filled_snapped : (q.filled_qty ≡ q.order_qty) ⊎ (q.filled_qty + eps < q.order_qty)
  pub ahead_snapped : (q.queue_ahead_qty ≡ 0) ⊎ (eps < q.queue_ahead_qty)

-- The constructor accepts only what it makes valid.
create-IsValid : (o a f : Float) {q : FifoQueueModel} → create o a f ≡ ok q → IsValid q
unfolding create
create-IsValid o a f h = ground arith

-- Every observation keeps a valid queue valid.
observations-IsValid :
    (x : Float) (q : FifoQueueModel)
    → IsValid q
    → IsValid (on_confirmed_trade x q).1
      × IsValid (on_same_price_add x q).1
      × IsValid (on_unexplained_size_decrease x q).1
      × IsValid (reset_priority x q).1
unfolding on_confirmed_trade on_same_price_add on_unexplained_size_decrease reset_priority
observations-IsValid x q v = (ground arith, ground arith, ground arith, ground arith)

-- Price-time priority of one accepted trade on a valid queue: the trade is split into what it takes from the quantity ahead,
-- what it fills of the order and what is left over; the order gets a fill only when nothing stays
-- ahead of it, and leaves something over only when it is filled.
on_confirmed_trade_splits :
    (x : Float) (q : FifoQueueModel) {r : QueueFill}
    → IsValid q
    → (on_confirmed_trade x q).0 ≡ ok r
    → (r.queue_consumed_qty + r.own_fill_qty ≤ r.traded_qty)
      × (r.queue_consumed_qty ≤ q.queue_ahead_qty)
      × (r.own_fill_qty ≤ remaining_qty q)
      × (0 < r.own_fill_qty
          → (r.queue_consumed_qty ≡ q.queue_ahead_qty) × (r.queue_ahead_after ≡ 0))
      × (r.queue_consumed_qty + r.own_fill_qty < r.traded_qty
          → (r.own_fill_qty ≡ remaining_qty q) × (r.remaining_qty_after ≡ 0))
unfolding on_confirmed_trade
on_confirmed_trade_splits x q v h =
    (ground arith, ground arith, ground arith, λ p. ground arith, λ p. ground arith)

-- What a trade of `n` fills of the order, and the queue after it.
abbrev pub own_fill : FifoQueueModel → ℕ → ℕ
own_fill q n = minimum (remaining_qty q) (n - minimum q.queue_ahead_qty n)

abbrev pub traded_queue : FifoQueueModel → ℕ → FifoQueueModel
traded_queue q n = normalize (record q {
  queue_ahead_qty = q.queue_ahead_qty - minimum q.queue_ahead_qty n;
  filled_qty = q.filled_qty + own_fill q n;
})

pub on_confirmed_trade_lem :
    (n : ℕ) (q : FifoQueueModel)
    → on_confirmed_trade (of_nat n) q ≡ (
      ok (record {
        traded_qty = n;
        queue_consumed_qty = minimum q.queue_ahead_qty n;
        own_fill_qty = own_fill q n;
        queue_ahead_after = (traded_queue q n).queue_ahead_qty;
        remaining_qty_after = remaining_qty (traded_queue q n);
      }),
      traded_queue q n,
    )
unfolding on_confirmed_trade
on_confirmed_trade_lem n q = refl

-- Neither an addition behind the order nor an unexplained decrease changes the queue.
pub book_change_unchanged :
    (x : Float) (q : FifoQueueModel)
    → ((on_same_price_add x q).1 ≡ q) × ((on_unexplained_size_decrease x q).1 ≡ q)
unfolding on_same_price_add on_unexplained_size_decrease
book_change_unchanged x q = (ground arith, ground arith)

-- A new priority leaves the fills alone, and is refused exactly when at most `_EPS` remains.
pub reset_priority_lem :
    (n : ℕ) (q : FifoQueueModel)
    → eps < remaining_qty q
    → IsValid q
    → reset_priority (of_nat n) q
      ≡ (ok tt, record q { queue_ahead_qty = if leb n eps then 0 else n })
unfolding reset_priority
reset_priority_lem n q h v = ground arith
