-- ===== src/Simulator/Cancel.antt =====
-- The steps of a cancellation in the simulation (src/std0_quant/execution/simulator.py).
use polymarket_quant.Common.{ℕ, ◌+◌, ◌<◌, ◌≡◌, refl, inl, inr, true, false, List, arith}
use polymarket_quant.Numeric.{ok, eps}
use polymarket_quant.Order.{
  OrderStatus, OrderStateMachine, is_fillable, is_cancel_requested, precedes,
}
use polymarket_quant.Order.Accept.{moved_order, request_cancel_accepts, acknowledge_cancel_accepts}
use polymarket_quant.Queue.{FifoQueueModel}
use polymarket_quant.Fill.{Fill}
use polymarket_quant.Simulator.{Simulation, SimulationEventType, noted, Kind, step}
use polymarket_quant.Simulator.Progress.{IsLinked}

module _ (order_qty displayed total : ℕ) (large : eps + eps < order_qty) where
  pub requested-IsLinked :
      (ts : ℕ) (o : OrderStateMachine) (q : FifoQueueModel) (fills : List Fill)
      → IsLinked order_qty displayed total o q fills
      → is_fillable o.status ≡ true
      → IsLinked order_qty displayed total (moved_order o OrderStatus.cancel_requested ts) q fills
  requested-IsLinked ts o q fills l f = record {
    same_qty = l.same_qty;
    fits = ground (arith, l.fits, l.same_qty);
    active = inl refl;
    tracks = l.tracks;
    behind = l.behind;
    accounts = ground (arith, l.accounts);
  }

  pub cancelled-IsLinked :
      (ts : ℕ) (o : OrderStateMachine) (q : FifoQueueModel) (fills : List Fill)
      → IsLinked order_qty displayed total o q fills
      → is_cancel_requested o.status ≡ true
      → IsLinked order_qty displayed total (moved_order o OrderStatus.cancelled ts) q fills
  cancelled-IsLinked ts o q fills l f = record {
    same_qty = l.same_qty;
    fits = ground (arith, l.fits, l.same_qty);
    active = inr refl;
    tracks = l.tracks;
    behind = l.behind;
    accounts = ground (arith, l.accounts);
  }

module _ (price ts : ℕ) (s : Simulation)
    (in_order : precedes ts s.order.last_event_ts_ms ≡ false) where
  pub step_request :
      is_fillable s.order.status ≡ true
      → is_cancel_requested s.order.status ≡ false
      → step price ts Kind.cancel_request s ≡ (
        ok tt,
        noted SimulationEventType.cancel_requested ts
            (record s { order = moved_order s.order OrderStatus.cancel_requested ts }),
      )
  unfolding step
  step_request f c = ground (arith, request_cancel_accepts ts s.order in_order)

  pub step_effective :
      is_cancel_requested s.order.status ≡ true
      → step price ts Kind.cancel_effective s ≡ (
        ok tt,
        noted SimulationEventType.cancel_effective ts
            (record s { order = moved_order s.order OrderStatus.cancelled ts }),
      )
  unfolding step
  step_effective c = ground (arith, acknowledge_cancel_accepts ts s.order in_order)

pub step_effective_ignored :
    (price ts : ℕ) (s : Simulation)
    → is_cancel_requested s.order.status ≡ false
    → step price ts Kind.cancel_effective s ≡ (ok tt, s)
unfolding step
step_effective_ignored price ts s c = rw c
