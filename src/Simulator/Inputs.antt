-- ===== src/Simulator/Inputs.antt =====
-- The inputs of the passive simulation (src/std0_quant/execution/simulator.py): a trade's checks, and
-- the timestamps of the order and of its cancellation from a latency profile, which always suit it.
use polymarket_quant.Common.{ℕ, ◌+◌, ◌≤◌, ◌≡◌, refl, some, arith}
use polymarket_quant.Numeric.{
  Float, Field, Result, ok, ◌>>=◌, of_nat, positive_finite, nonnegative_finite,
}
use polymarket_quant.Timestamps.{
  OrderTimestamps, CancelTimestamps, create_order_timestamps, create_cancel_timestamps,
}
use polymarket_quant.Latency.{
  LatencyProfile, timeline, venue_arrival_from_send, venue_ack_from_arrival,
}
use polymarket_quant.Simulator.{ConfirmedTradeEvent}
use polymarket_quant.Simulator.Entries.{CancelsAfter}

-- `ConfirmedTradeEvent(...)` and its `__post_init__`.
unfoldable pub create_trade : Float → Float → Result ConfirmedTradeEvent
unfolding positive_finite nonnegative_finite
create_trade venue_ts_ms traded_qty = do
  ts ← nonnegative_finite venue_ts_ms Field.venue_ts_ms
  qty ← positive_finite traded_qty Field.traded_qty
  ok (record { venue_ts_ms = ts; traded_qty = qty })

unfoldable pub order_timestamps_from_latency : LatencyProfile → Float → Result OrderTimestamps
unfolding timeline create_order_timestamps
order_timestamps_from_latency profile market_event_ts_ms = do
  t ← timeline profile market_event_ts_ms
  let venue_accept = t.venue_arrival_ts_ms + profile.venue_processing_ms
  create_order_timestamps (of_nat t.order_send_ts_ms) (of_nat t.venue_arrival_ts_ms)
      (of_nat venue_accept) (of_nat t.venue_ack_ts_ms)

unfoldable pub cancel_timestamps_from_latency : LatencyProfile → Float → Result CancelTimestamps
unfolding venue_arrival_from_send venue_ack_from_arrival create_cancel_timestamps nonnegative_finite
cancel_timestamps_from_latency profile cancel_send_ts_ms = do
  send ← nonnegative_finite cancel_send_ts_ms Field.cancel_send_ts_ms
  arrival ← venue_arrival_from_send profile (of_nat send)
  let effective = arrival + profile.venue_processing_ms
  ack_receive ← venue_ack_from_arrival profile (of_nat arrival)
  create_cancel_timestamps (of_nat send) (of_nat arrival) (of_nat effective) (of_nat ack_receive)

-- For every profile and event the timestamps of the order exist and its sending is not after its
-- acceptance; and a cancellation sent at the acceptance or later has timestamps that suit the
-- simulation of that order, effective after the latencies of the profile.
latency_suits_simulation :
    (p : LatencyProfile) (event send : ℕ)
    → (t : OrderTimestamps) × (c : CancelTimestamps) × (order_timestamps_from_latency p
          (of_nat event)
        ≡ ok t)
      × (cancel_timestamps_from_latency p (of_nat send) ≡ ok c)
      × (t.order_send_ts_ms ≤ t.order_venue_accept_ts_ms)
      × (c.cancel_effective_ts_ms ≡ send + p.outbound_network_ms + p.venue_processing_ms)
      × (t.order_venue_accept_ts_ms ≤ send → CancelsAfter t.order_venue_accept_ts_ms (some c))
unfolding order_timestamps_from_latency cancel_timestamps_from_latency
latency_suits_simulation p event send =
    let arrival =
      event + p.market_data_ms + p.feature_compute_ms + p.decision_compute_ms + p.order_send_ms
      + p.outbound_network_ms in
    let t : OrderTimestamps = record {
      order_send_ts_ms =
          event + p.market_data_ms + p.feature_compute_ms + p.decision_compute_ms + p.order_send_ms;
      order_venue_arrival_ts_ms = arrival;
      order_venue_accept_ts_ms = arrival + p.venue_processing_ms;
      order_ack_receive_ts_ms = arrival + p.venue_processing_ms + p.ack_network_ms;
    } in
    let c : CancelTimestamps = record {
      cancel_send_ts_ms = send;
      cancel_venue_arrival_ts_ms = send + p.outbound_network_ms;
      cancel_effective_ts_ms = send + p.outbound_network_ms + p.venue_processing_ms;
      cancel_ack_receive_ts_ms =
          send + p.outbound_network_ms + p.venue_processing_ms + p.ack_network_ms;
    } in
    (t, c, ground arith, ground arith, omega arith, refl, λ h. omega arith)
