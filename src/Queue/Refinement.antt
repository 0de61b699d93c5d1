-- ===== src/Queue/Refinement.antt =====
-- The queue against exact price-time priority (src/std0_quant/execution/queue_model.py): an order of
-- `order` units behind `ahead` units has, after `total` units traded at its price, exactly
-- min(order, total - ahead) filled. The code normalises dust away after every trade.
use polymarket_quant.Common.{ℕ, ◌+◌, ◌-◌, ◌≤◌, ◌<◌, ◌≡◌, ◌⊎◌, List, [], ◌∷◌, sum_of, minimum, arith}
use polymarket_quant.Common.Int.{pos, negsuc}
use polymarket_quant.Numeric.{Float, ok, eps, finite, nan, pos_inf, neg_inf, of_nat}
use polymarket_quant.Queue.{
  FifoQueueModel, on_confirmed_trade, on_same_price_add, on_unexplained_size_decrease,
}
use polymarket_quant.Queue.Priority.{traded_queue, book_change_unchanged}
use polymarket_quant.Queue.Create.{create_new}

-- What the simulation may observe at the price of the order.
pub data Observation : Type 0 where
  trade add decrease : Float → Observation

-- The queue after an observation, which stays as it is where the call raises.
unfoldable pub observe : Observation → FifoQueueModel → FifoQueueModel
observe (trade x) q = (on_confirmed_trade x q).1
observe (add x) q = (on_same_price_add x q).1
observe (decrease x) q = (on_unexplained_size_decrease x q).1

unfoldable pub watch : List Observation → FifoQueueModel → FifoQueueModel
watch [] q = q
watch (x ∷ xs) q = watch xs (observe x q)

-- The quantity that an observation proves to have traded: none, for an addition or a decrease.
abbrev pub traded : Observation → ℕ
traded (trade (finite (pos n))) = n
traded _ = 0

abbrev pub exact_fill : ℕ → ℕ → ℕ → ℕ
exact_fill order ahead total = minimum order (total - ahead)

-- Where the queue stands after `total` units, with what the normalisation may have added.
abbrev pub Tracks : ℕ → ℕ → ℕ → FifoQueueModel → Type 0
Tracks order ahead total q =
    (q.order_qty ≡ order)
    × (((q.filled_qty ≡ 0) × (q.queue_ahead_qty + total ≡ ahead) × (eps < q.queue_ahead_qty))
        ⊎ ((q.queue_ahead_qty ≡ 0)
            × (ahead ≤ total + eps)
            × (((total ≤ ahead + q.filled_qty)
                  × (q.filled_qty + ahead ≤ total + eps)
                  × (q.filled_qty + eps < order))
                ⊎ ((q.filled_qty ≡ order) × (order + ahead ≤ total + eps + eps)))))

module _ (order ahead : ℕ) (large : eps < order) where
  pub traded_queue-Tracks :
      (n : ℕ) (q : FifoQueueModel) (total : ℕ)
      → Tracks order ahead total q
      → Tracks order ahead (total + n) (traded_queue q n)
  traded_queue-Tracks n q total t = ground arith

  unchanged-Tracks :
      (q : FifoQueueModel) (total : ℕ)
      → Tracks order ahead total q
      → Tracks order ahead (total + 0) q
  unchanged-Tracks q total t = ground arith

  observe-Tracks :
      (x : Observation) (q : FifoQueueModel) (total : ℕ)
      → Tracks order ahead total q
      → Tracks order ahead (total + traded x) (observe x q)
  unfolding observe on_confirmed_trade on_same_price_add on_unexplained_size_decrease
  observe-Tracks (trade (finite (pos n))) q total t = traded_queue-Tracks n q total t
  observe-Tracks (trade nan) q total t = unchanged-Tracks q total t
  observe-Tracks (trade pos_inf) q total t = unchanged-Tracks q total t
  observe-Tracks (trade neg_inf) q total t = unchanged-Tracks q total t
  observe-Tracks (trade (finite (negsuc n))) q total t = unchanged-Tracks q total t
  observe-Tracks (add x) q total t = rw (book_change_unchanged x q).0 (unchanged-Tracks q total t)
  observe-Tracks (decrease x) q total t =
      rw (book_change_unchanged x q).1 (unchanged-Tracks q total t)

  watch-Tracks :
      (xs : List Observation) (q : FifoQueueModel) (total : ℕ)
      → Tracks order ahead total q
      → Tracks order ahead (total + sum_of traded xs) (watch xs q)
  unfolding watch
  watch-Tracks [] q total t = ground arith
  watch-Tracks (x ∷ xs) q total t =
      ground (arith, watch-Tracks xs (observe x q) (total + traded x) (observe-Tracks x q total t))

pub create_new-Tracks :
    (order ahead : ℕ) {q : FifoQueueModel}
    → eps < order
    → create_new (of_nat order) (of_nat ahead) ≡ ok q
    → Tracks order ahead 0 q
unfolding create_new
create_new-Tracks order ahead l h = ground arith

-- From the creation of a queue for an order of more than `_EPS`, whatever trades, additions and decreases
-- are seen, in whatever order, the filled quantity is that of exact price-time priority over the
-- confirmed trades alone, or above it by at most two `_EPS`.
pub watch_refines :
    (order ahead : ℕ) (xs : List Observation) {q : FifoQueueModel}
    → eps < order
    → create_new (of_nat order) (of_nat ahead) ≡ ok q
    → (exact_fill order ahead (sum_of traded xs) ≤ (watch xs q).filled_qty)
      × ((watch xs q).filled_qty ≤ exact_fill order ahead (sum_of traded xs) + (eps + eps))
watch_refines order ahead xs {q} l h =
    let t = watch-Tracks order ahead l xs q 0 (create_new-Tracks order ahead l h) in
    ground (arith, t)
