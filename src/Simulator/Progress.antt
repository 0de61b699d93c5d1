-- ===== src/Simulator/Progress.antt =====
-- One step of the simulation: what holds of the order and its queue together, and that a step whose
-- time does not go back is accepted (src/std0_quant/execution/simulator.py).
use polymarket_quant.Common.{
  ℕ, ◌+◌, ◌≤◌, ◌<◌, ◌≡◌, subst, ◌⊎◌, true, false, List, ◌++◌, ltb, sum_of, sum_of-append, ltb→lt,
  arith,
}
use polymarket_quant.Numeric.{ok, eps}
use polymarket_quant.Order.{OrderStateMachine, is_fillable, is_terminal, precedes, remaining_qty}
use polymarket_quant.Order.Accept.{filled_order, apply_fill_accepts}
use polymarket_quant.Order.Lifecycle.{Fits}
use polymarket_quant.Order.Account.{Accounts}
use polymarket_quant.Queue.{FifoQueueModel}
use polymarket_quant.Queue.Priority.{own_fill, traded_queue}
use polymarket_quant.Queue.Refinement.{Tracks, traded_queue-Tracks}
use polymarket_quant.Fill.{Fill, Liquidity, maker_fills}
use polymarket_quant.Fill.Passive.{passive_fill_lem}
use polymarket_quant.Fill.Sweep.{fill_qty}
use polymarket_quant.Simulator.{Simulation, SimulationEventType, noted, Kind, step}

-- A fill of more than `_EPS` as maker at the price of the order.
abbrev pub IsMaker : ℕ → Fill → Type 0
IsMaker price f = (f.price ≡ price) × (f.liquidity ≡ Liquidity.maker) × (eps < f.qty)

-- The order and its queue, `total` units after the acceptance. The queue may be ahead of the order, by
-- fills of at most `_EPS` that are not passed on to it.
pub record IsLinked (order_qty displayed total : ℕ) (o : OrderStateMachine) (q : FifoQueueModel)
    (fills : List Fill) : Type 0 where
  pub same_qty : o.order_qty ≡ order_qty
  pub fits : Fits o.status o.filled_qty order_qty
  pub active : (is_fillable o.status ≡ true) ⊎ (is_terminal o ≡ true)
  pub tracks : Tracks order_qty displayed total q
  pub behind : o.filled_qty ≤ q.filled_qty
  pub accounts : Accounts (sum_of fill_qty fills) o

module _ (order_qty displayed price : ℕ) (large : eps + eps < order_qty) where
  own_fill_within :
      (total n : ℕ) (o : OrderStateMachine) (q : FifoQueueModel) (fills : List Fill)
      → IsLinked order_qty displayed total o q fills
      → own_fill q n ≤ remaining_qty o
  own_fill_within total n o q fills l = ground arith

  big_fill-Fits :
      (total n ts : ℕ) (o : OrderStateMachine) (q : FifoQueueModel) (fills : List Fill)
      → IsLinked order_qty displayed total o q fills
      → is_fillable o.status ≡ true
      → ltb eps (own_fill q n) ≡ true
      → let o' = filled_order o (own_fill q n) ts in
        Fits o'.status o'.filled_qty order_qty
        × ((is_fillable o'.status ≡ true) ⊎ (is_terminal o' ≡ true))
  big_fill-Fits total n ts o q fills l f b = (ground arith, ground arith)

  big_fill_behind :
      (total n ts : ℕ) (o : OrderStateMachine) (q : FifoQueueModel) (fills : List Fill)
      → IsLinked order_qty displayed total o q fills
      → is_fillable o.status ≡ true
      → ltb eps (own_fill q n) ≡ true
      → (filled_order o (own_fill q n) ts).filled_qty ≤ (traded_queue q n).filled_qty
  big_fill_behind total n ts o q fills l f b = ground arith

  big_fill-Accounts :
      (acc k ts : ℕ) (o : OrderStateMachine)
      → o.order_qty ≡ order_qty
      → Fits o.status o.filled_qty order_qty
      → is_fillable o.status ≡ true
      → eps < k
      → k ≤ remaining_qty o
      → Accounts acc o
      → Accounts (acc + k) (filled_order o k ts)
  big_fill-Accounts acc k ts o same fits f b w a = ground arith

  sum_of-maker_fills :
      (k : ℕ) (fills : List Fill)
      → ltb eps k ≡ true
      → sum_of fill_qty fills + k ≡ sum_of fill_qty (fills ++ maker_fills price k)
  sum_of-maker_fills k fills b =
      rw (sum_of-append fill_qty fills (maker_fills price k)) (rw b (omega arith))

  pub big_trade-IsLinked :
      (total n ts : ℕ) (o : OrderStateMachine) (q : FifoQueueModel) (fills : List Fill)
      → IsLinked order_qty displayed total o q fills
      → is_fillable o.status ≡ true
      → ltb eps (own_fill q n) ≡ true
      → IsLinked order_qty displayed
          (total + n)
          (filled_order o (own_fill q n) ts)
          (traded_queue q n)
          (fills ++ maker_fills price (own_fill q n))
  big_trade-IsLinked total n ts o q fills l f b = record {
    same_qty = l.same_qty;
    fits = (big_fill-Fits total n ts o q fills l f b).0;
    active = (big_fill-Fits total n ts o q fills l f b).1;
    tracks = traded_queue-Tracks order_qty displayed (omega arith) n q total l.tracks;
    behind = big_fill_behind total n ts o q fills l f b;
    accounts =
        subst (λ t. Accounts t (filled_order o (own_fill q n) ts))
          (sum_of-maker_fills (own_fill q n) fills b)
          (big_fill-Accounts (sum_of fill_qty fills) (own_fill q n) ts o l.same_qty l.fits f
            (ltb→lt _ _ b) (own_fill_within total n o q fills l) l.accounts);
  }

  pub small_trade-IsLinked :
      (total n : ℕ) (o : OrderStateMachine) (q : FifoQueueModel) (fills : List Fill)
      → IsLinked order_qty displayed total o q fills
      → IsLinked order_qty displayed (total + n) o (traded_queue q n) fills
  small_trade-IsLinked total n o q fills l = record {
    same_qty = l.same_qty;
    fits = l.fits;
    active = l.active;
    tracks = traded_queue-Tracks order_qty displayed (omega arith) n q total l.tracks;
    behind = ground (arith, l.behind, l.tracks);
    accounts = l.accounts;
  }

  -- What a big trade does to the simulation, and what a small one does.
  pub step_big_trade :
      (total n ts : ℕ) (s : Simulation)
      → 0 < price
      → IsLinked order_qty displayed total s.order s.queue s.fills
      → is_fillable s.order.status ≡ true
      → precedes ts s.order.last_event_ts_ms ≡ false
      → ltb eps (own_fill s.queue n) ≡ true
      → step price ts (Kind.trade n) s ≡ (
        ok tt,
        noted SimulationEventType.confirmed_trade ts (record s {
          order = filled_order s.order (own_fill s.queue n) ts;
          queue = traded_queue s.queue n;
          fills = s.fills ++ maker_fills price (own_fill s.queue n);
        }),
      )
  unfolding step
  step_big_trade total n ts s p l f k b = ground (
    arith,
    passive_fill_lem price n s.queue p,
    own_fill_within total n s.order s.queue s.fills l,
    apply_fill_accepts (own_fill s.queue n) ts s.order,
  )

  pub step_small_trade :
      (n ts : ℕ) (s : Simulation)
      → 0 < price
      → is_fillable s.order.status ≡ true
      → ltb eps (own_fill s.queue n) ≡ false
      → step price ts (Kind.trade n) s ≡ (
        ok tt,
        noted SimulationEventType.confirmed_trade ts (record s { queue = traded_queue s.queue n }),
      )
  unfolding step
  step_small_trade n ts s p f b = ground (arith, passive_fill_lem price n s.queue p)
