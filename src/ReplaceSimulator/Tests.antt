-- ===== src/ReplaceSimulator/Tests.antt =====
-- An order of ten grains that is cancelled unfilled, and its replacement
-- (src/std0_quant/execution/replacement_simulator.py).
use polymarket_quant.Common.{ℕ, ◌+◌, ◌≤◌, ◌≡◌, refl, none, some, List, [], ◌∷◌}
use polymarket_quant.Numeric.{ok, of_nat, eps}
use polymarket_quant.Order.{OrderStatus, mark_sent, acknowledge, request_cancel, acknowledge_cancel}
use polymarket_quant.Order.Create.{create, create_new}
use polymarket_quant.Queue.Create as QueueCreate
use polymarket_quant.Timestamps.{OrderTimestamps, CancelTimestamps}
use polymarket_quant.Simulator.{
  ConfirmedTradeEvent, PassiveSimulationResult, SimulationEvent, SimulationEventType, step,
  run_timeline,
}
use polymarket_quant.Simulator.Run.{run}
use polymarket_quant.Simulator.Passive.{simulate_passive_order}
use polymarket_quant.Replace.{create_replacement_after_cancel}
use polymarket_quant.ReplaceSimulator.{
  Inputs, CancelReplaceSimulationResult, simulate_cancel_then_replace,
}
use polymarket_quant.ReplaceSimulator.Independence.{
  simulate_old, displayed_qty, replacement_is_independent,
}

abbrev times_from : ℕ → OrderTimestamps
times_from t = record {
  order_send_ts_ms = t;
  order_venue_arrival_ts_ms = t;
  order_venue_accept_ts_ms = t;
  order_ack_receive_ts_ms = t;
}

abbrev cancel : CancelTimestamps
cancel = record {
  cancel_send_ts_ms = 200;
  cancel_venue_arrival_ts_ms = 220;
  cancel_effective_ts_ms = 224;
  cancel_ack_receive_ts_ms = 244;
}

abbrev old_with : List ConfirmedTradeEvent → Inputs
old_with trades = record {
  qty = of_nat 10;
  price = of_nat 50;
  displayed = of_nat 7;
  times = times_from 100;
  trades = trades;
}

abbrev old : Inputs
old = old_with []

abbrev new : Inputs
new = record {
  qty = of_nat 6;
  price = of_nat 48;
  displayed = of_nat 30;
  times = times_from 250;
  trades = [];
}

abbrev note : SimulationEventType → ℕ → OrderStatus → ℕ → SimulationEvent
note k t s q = record {
  event_type = k;
  event_ts_ms = t;
  status_after = s;
  queue_ahead_after = q;
  filled_qty_after = 0;
}

abbrev old_result : PassiveSimulationResult
old_result = record {
  final_status = OrderStatus.cancelled;
  order_qty = 10;
  filled_qty = 0;
  remaining = 10;
  queue_ahead_qty = 7;
  fills = [];
  events =
      note SimulationEventType.order_sent 100 OrderStatus.sent 7
      ∷ note SimulationEventType.order_venue_accepted 100 OrderStatus.acknowledged 7
      ∷ note SimulationEventType.cancel_requested 200 OrderStatus.cancel_requested 7
      ∷ note SimulationEventType.cancel_effective 224 OrderStatus.cancelled 7
      ∷ [];
  order_timestamps = times_from 100;
  cancel_timestamps = some cancel;
}

abbrev new_result : PassiveSimulationResult
new_result = record {
  final_status = OrderStatus.acknowledged;
  order_qty = 6;
  filled_qty = 0;
  remaining = 6;
  queue_ahead_qty = 30;
  fills = [];
  events =
      note SimulationEventType.order_sent 250 OrderStatus.sent 30
      ∷ note SimulationEventType.order_venue_accepted 250 OrderStatus.acknowledged 30
      ∷ [];
  order_timestamps = times_from 250;
  cancel_timestamps = none;
}

old_runs : simulate_old old cancel ≡ ok old_result
unfolding simulate_passive_order run run_timeline step mark_sent acknowledge request_cancel
    acknowledge_cancel create_new QueueCreate.create_new
old_runs = refl

new_runs :
    simulate_passive_order (of_nat 6) (of_nat 48) (of_nat 30) (times_from 250) [] none
    ≡ ok new_result
unfolding simulate_passive_order run run_timeline mark_sent acknowledge create_new
    QueueCreate.create_new
new_runs = refl

abbrev both : CancelReplaceSimulationResult
both = record { old_order = old_result; replacement_order = new_result }

replaced : simulate_cancel_then_replace old cancel new ≡ ok both
unfolding simulate_cancel_then_replace create_replacement_after_cancel create create_new
    QueueCreate.create_new simulate_passive_order run run_timeline step mark_sent acknowledge
    request_cancel acknowledge_cancel
replaced = refl

replacement_is_independent_example :
    (cancel.cancel_ack_receive_ts_ms ≤ new.times.order_send_ts_ms + eps)
    × (simulate_old old cancel ≡ ok both.old_order)
    × (both.old_order.final_status ≡ OrderStatus.cancelled)
    × (simulate_passive_order new.qty new.price
          (of_nat (displayed_qty new.displayed))
          new.times
          new.trades
          none
        ≡ ok both.replacement_order)
replacement_is_independent_example = replacement_is_independent old new cancel both replaced
