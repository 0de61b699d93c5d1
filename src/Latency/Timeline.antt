-- ===== src/Latency/Timeline.antt =====
-- The timeline of a profile (src/std0_quant/execution/latency_model.py).
use polymarket_quant.Common.{ℕ, ◌+◌, ◌≡◌, refl, arith}
use polymarket_quant.Numeric.{ok, of_nat}
use polymarket_quant.Latency.{
  LatencyProfile, LatencyTimeline, timeline, event_to_arrival_ms, event_to_ack_ms,
  profile_event_to_arrival_ms, profile_event_to_ack_ms, venue_arrival_from_send,
  venue_ack_from_arrival,
}

-- The timeline that the model computes.
abbrev pub timeline_of : LatencyProfile → ℕ → LatencyTimeline
timeline_of p event =
    let receive = event + p.market_data_ms in
    let feature_ready = receive + p.feature_compute_ms in
    let decision = feature_ready + p.decision_compute_ms in
    let order_send = decision + p.order_send_ms in
    let venue_arrival = order_send + p.outbound_network_ms in
    record {
      market_event_ts_ms = event;
      receive_ts_ms = receive;
      feature_ready_ts_ms = feature_ready;
      decision_ts_ms = decision;
      order_send_ts_ms = order_send;
      venue_arrival_ts_ms = venue_arrival;
      venue_ack_ts_ms = venue_arrival + p.venue_processing_ms + p.ack_network_ms;
    }

pub timeline_lem :
    (p : LatencyProfile) (event : ℕ) → timeline p (of_nat event) ≡ ok (timeline_of p event)
unfolding timeline
timeline_lem p event = ground arith

-- For every profile and every event the timeline passes its own check, spends between the event and
-- the arrival, and between the event and the acknowledgement, what the profile says, and agrees with
-- the stages computed one by one from the time of sending.
timeline_total :
    (p : LatencyProfile) (event : ℕ)
    → (t : LatencyTimeline) × (timeline p (of_nat event) ≡ ok t)
      × (event_to_arrival_ms t ≡ profile_event_to_arrival_ms p)
      × (event_to_ack_ms t ≡ profile_event_to_ack_ms p)
      × (venue_arrival_from_send p (of_nat t.order_send_ts_ms) ≡ ok t.venue_arrival_ts_ms)
      × (venue_ack_from_arrival p (of_nat t.venue_arrival_ts_ms) ≡ ok t.venue_ack_ts_ms)
unfolding venue_arrival_from_send venue_ack_from_arrival
timeline_total p event =
    (timeline_of p event, timeline_lem p event, omega arith, omega arith, refl, refl)
