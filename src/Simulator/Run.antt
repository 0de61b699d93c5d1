-- ===== src/Simulator/Run.antt =====
-- `simulate_passive_order` from the construction of its timeline to the end of its loop
-- (src/std0_quant/execution/simulator.py).
use polymarket_quant.Common.{ℕ, Option, none, some, List, [], ◌∷◌, ◌++◌, map, sort}
use polymarket_quant.Numeric.{Result, ok, err, of_nat}
use polymarket_quant.Action.{Action, ◌>>=◌, ◌>>◌, modify}
use polymarket_quant.Order.{mark_sent, acknowledge, remaining_qty}
use polymarket_quant.Timestamps.{OrderTimestamps, CancelTimestamps}
use polymarket_quant.Simulator.{
  ConfirmedTradeEvent, SimulationEventType, PassiveSimulationResult, Simulation, on_order, noted,
  Kind, TimelineEvent, timeline_le, run_timeline,
}

abbrev pub trade_entry : ConfirmedTradeEvent → TimelineEvent
trade_entry t = record { ts = t.venue_ts_ms; kind = Kind.trade t.traded_qty }

abbrev pub cancel_entries : Option CancelTimestamps → List TimelineEvent
cancel_entries none = []
cancel_entries (some c) =
    record { ts = c.cancel_send_ts_ms; kind = Kind.cancel_request }
    ∷ record { ts = c.cancel_effective_ts_ms; kind = Kind.cancel_effective }
    ∷ []

-- `timeline_events`, sorted.
abbrev pub timeline : List ConfirmedTradeEvent → Option CancelTimestamps → List TimelineEvent
timeline checked cancel = sort timeline_le (map trade_entry checked ++ cancel_entries cancel)

-- From `order.mark_sent` to the end of the loop.
unfoldable pub run : ℕ → OrderTimestamps → List TimelineEvent → Action Simulation (Unit {0})
run price times entries = do
  e ← on_order (mark_sent (of_nat times.order_send_ts_ms))
  modify (noted SimulationEventType.order_sent times.order_send_ts_ms)
  a ← on_order (acknowledge (of_nat times.order_venue_accept_ts_ms))
  modify (noted SimulationEventType.order_venue_accepted times.order_venue_accept_ts_ms)
  run_timeline price entries

-- The result of the run, or the exception that left it.
abbrev pub finish :
    OrderTimestamps
    → Option CancelTimestamps
    → Result (Unit {0}) × Simulation
    → Result PassiveSimulationResult
finish times cancel (err e, s) = err e
finish times cancel (ok _, s) = ok (record {
  final_status = s.order.status;
  order_qty = s.order.order_qty;
  filled_qty = s.order.filled_qty;
  remaining = remaining_qty s.order;
  queue_ahead_qty = s.queue.queue_ahead_qty;
  fills = s.fills;
  events = s.events;
  order_timestamps = times;
  cancel_timestamps = cancel;
})
