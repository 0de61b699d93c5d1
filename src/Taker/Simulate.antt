-- ===== src/Taker/Simulate.antt =====
-- `simulate_aggressive_order`, src/std0_quant/execution/taker_simulator.py.
use polymarket_quant.Common.{ℕ, List, []}
use polymarket_quant.Numeric.{Float, Field, Result, ok, err, ◌>>=◌, of_nat, positive_finite}
use polymarket_quant.Order.{OrderStatus, remaining_qty}
use polymarket_quant.Order.Create
use polymarket_quant.Fill.{Side, Fill}
use polymarket_quant.Timestamps.{OrderTimestamps}
use polymarket_quant.Taker.{AggressiveTif, AggressiveSimulationEvent, Taking, run}

pub record AggressiveSimulationResult : Type 0 where
  pub side : Side
  pub tif : AggressiveTif
  pub final_status : OrderStatus
  pub order_qty : ℕ
  pub filled_qty : ℕ
  pub remaining : ℕ
  pub fills : List Fill
  pub events : List AggressiveSimulationEvent
  pub order_timestamps : OrderTimestamps

-- The result that a run leaves. A FOK order that expires has made no fill, so its list of fills is the
-- empty one that the source writes there.
abbrev pub result_of : Side → AggressiveTif → OrderTimestamps → Taking → AggressiveSimulationResult
result_of side tif times s = record {
  side = side;
  tif = tif;
  final_status = s.order.status;
  order_qty = s.order.order_qty;
  filled_qty = s.order.filled_qty;
  remaining = remaining_qty s.order;
  fills = s.fills;
  events = s.events;
  order_timestamps = times;
}

-- The result of the run, or the exception that left it.
abbrev pub finish :
    Side
    → AggressiveTif
    → OrderTimestamps
    → Result (Unit {0}) × Taking
    → Result AggressiveSimulationResult
finish side tif times (err e, s) = err e
finish side tif times (ok _, s) = ok (result_of side tif times s)

unfoldable pub simulate_aggressive_order :
    Side
    → AggressiveTif
    → Float
    → List (Float × Float)
    → OrderTimestamps
    → Result AggressiveSimulationResult
unfolding positive_finite
simulate_aggressive_order side tif order_qty levels times = do
  qty ← positive_finite order_qty Field.order_qty
  order ← Create.create_new (of_nat qty)
  finish side tif times
      (run side tif qty levels times (record { order = order; fills = []; events = [] }))
