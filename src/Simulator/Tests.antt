-- ===== src/Simulator/Tests.antt =====
-- An order of 10 grains behind 7, three trades listed out of order and a cancellation between them
-- (src/std0_quant/execution/simulator.py).
use polymarket_quant.Common.{ℕ, ◌≡◌, refl, Option, none, some, List, [], ◌∷◌, arith}
use polymarket_quant.Numeric.{Result, ok, err, of_nat, ambiguous_cancel_fill_race}
use polymarket_quant.Order.{
  OrderStatus, mark_sent, acknowledge, request_cancel, acknowledge_cancel, apply_fill,
}
use polymarket_quant.Order.Create.{create_new}
use polymarket_quant.Queue.{on_confirmed_trade}
use polymarket_quant.Queue.Create as QueueCreate
use polymarket_quant.Fill.{passive_fill_from_confirmed_trade}
use polymarket_quant.Latency.{LatencyProfile}
use polymarket_quant.Timestamps.{OrderTimestamps, CancelTimestamps}
use polymarket_quant.Simulator.{ConfirmedTradeEvent, PassiveSimulationResult, step, run_timeline}
use polymarket_quant.Simulator.Run.{run}
use polymarket_quant.Simulator.Passive.{simulate_passive_order}
use polymarket_quant.Simulator.Entries.{traded_total}
use polymarket_quant.Simulator.Total.{Reports, simulate_total}

abbrev times : OrderTimestamps
times = record {
  order_send_ts_ms = 100;
  order_venue_arrival_ts_ms = 120;
  order_venue_accept_ts_ms = 124;
  order_ack_receive_ts_ms = 144;
}

abbrev cancel : CancelTimestamps
cancel = record {
  cancel_send_ts_ms = 200;
  cancel_venue_arrival_ts_ms = 220;
  cancel_effective_ts_ms = 224;
  cancel_ack_receive_ts_ms = 244;
}

abbrev trades : List ConfirmedTradeEvent
trades =
    record { venue_ts_ms = 230; traded_qty = 9 }
    ∷ record { venue_ts_ms = 210; traded_qty = 5 }
    ∷ record { venue_ts_ms = 150; traded_qty = 5 }
    ∷ []

simulate_total_example :
    (r : PassiveSimulationResult) × (simulate_passive_order
        (of_nat 10)
        (of_nat 50)
        (of_nat 7)
        times
        trades
        (some cancel)
      ≡ ok r)
    × Reports 10 50 7 (traded_total trades) r
simulate_total_example =
    simulate_total 10 50 7 times trades (some cancel) (omega arith) (omega arith) (omega arith)
      (omega arith) (omega arith) (omega arith)

abbrev final_status : Result PassiveSimulationResult → Option OrderStatus
final_status (ok r) = some r.final_status
final_status (err e) = none

abbrev filled_qty : Result PassiveSimulationResult → Option ℕ
filled_qty (ok r) = some r.filled_qty
filled_qty (err e) = none

abbrev simulated : Result PassiveSimulationResult
simulated = simulate_passive_order (of_nat 10) (of_nat 50) (of_nat 7) times trades (some cancel)

-- The cancellation is effective before the last trade, so only three units are filled.
cancelled_in_time :
    (final_status simulated ≡ some OrderStatus.cancelled) × (filled_qty simulated ≡ some 3)
unfolding simulate_passive_order run run_timeline step mark_sent acknowledge request_cancel
    acknowledge_cancel apply_fill create_new QueueCreate.create_new
    passive_fill_from_confirmed_trade on_confirmed_trade
cancelled_in_time = (refl, refl)

race_refused :
    simulate_passive_order
      (of_nat 10)
      (of_nat 50)
      (of_nat 7)
      times
      (record { venue_ts_ms = 224; traded_qty = 9 } ∷ [])
      (some cancel)
    ≡ err ambiguous_cancel_fill_race
unfolding simulate_passive_order
race_refused = refl

abbrev profile : LatencyProfile
profile = record {
  market_data_ms = 5;
  feature_compute_ms = 2;
  decision_compute_ms = 1;
  order_send_ms = 3;
  outbound_network_ms = 20;
  venue_processing_ms = 4;
  ack_network_ms = 20;
}
