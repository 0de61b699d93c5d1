-- ===== src/Latency.antt =====
-- The fixed latency model, src/std0_quant/execution/latency_model.py.
pub mod Timeline
use polymarket_quant.Common.{ℕ, ◌+◌, ◌-◌, [], ◌∷◌}
use polymarket_quant.Numeric.{
  Float, Field, Result, ok, of_nat, ◌>>=◌, ◌>>◌, raise_if, nonnegative_finite, not_monotonic,
}
use polymarket_quant.Timestamps.{goes_back}

pub record LatencyProfile : Type 0 where
  pub market_data_ms : ℕ
  pub feature_compute_ms : ℕ
  pub decision_compute_ms : ℕ
  pub order_send_ms : ℕ
  pub outbound_network_ms : ℕ
  pub venue_processing_ms : ℕ
  pub ack_network_ms : ℕ

unfoldable pub create_profile :
    Float → Float → Float → Float → Float → Float → Float → Result LatencyProfile
unfolding nonnegative_finite
create_profile market_data feature_compute decision_compute order_send outbound_network
      venue_processing ack_network =
    do
      m ← nonnegative_finite market_data Field.latency_stage
      f ← nonnegative_finite feature_compute Field.latency_stage
      d ← nonnegative_finite decision_compute Field.latency_stage
      s ← nonnegative_finite order_send Field.latency_stage
      o ← nonnegative_finite outbound_network Field.latency_stage
      v ← nonnegative_finite venue_processing Field.latency_stage
      a ← nonnegative_finite ack_network Field.latency_stage
      ok (record {
        market_data_ms = m;
        feature_compute_ms = f;
        decision_compute_ms = d;
        order_send_ms = s;
        outbound_network_ms = o;
        venue_processing_ms = v;
        ack_network_ms = a;
      })

abbrev pub profile_event_to_arrival_ms : LatencyProfile → ℕ
profile_event_to_arrival_ms p =
    p.market_data_ms + p.feature_compute_ms + p.decision_compute_ms + p.order_send_ms
    + p.outbound_network_ms

abbrev pub profile_event_to_ack_ms : LatencyProfile → ℕ
profile_event_to_ack_ms p = profile_event_to_arrival_ms p + p.venue_processing_ms + p.ack_network_ms

pub record LatencyTimeline : Type 0 where
  pub market_event_ts_ms : ℕ
  pub receive_ts_ms : ℕ
  pub feature_ready_ts_ms : ℕ
  pub decision_ts_ms : ℕ
  pub order_send_ts_ms : ℕ
  pub venue_arrival_ts_ms : ℕ
  pub venue_ack_ts_ms : ℕ

-- `LatencyTimeline(...)` and its `__post_init__`.
unfoldable pub create_timeline :
    Float → Float → Float → Float → Float → Float → Float → Result LatencyTimeline
unfolding nonnegative_finite
create_timeline market_event receive feature_ready decision order_send venue_arrival venue_ack = do
  m ← nonnegative_finite market_event Field.timestamps
  r ← nonnegative_finite receive Field.timestamps
  f ← nonnegative_finite feature_ready Field.timestamps
  d ← nonnegative_finite decision Field.timestamps
  s ← nonnegative_finite order_send Field.timestamps
  v ← nonnegative_finite venue_arrival Field.timestamps
  a ← nonnegative_finite venue_ack Field.timestamps
  raise_if (goes_back (m ∷ r ∷ f ∷ d ∷ s ∷ v ∷ a ∷ [])) not_monotonic
  ok (record {
    market_event_ts_ms = m;
    receive_ts_ms = r;
    feature_ready_ts_ms = f;
    decision_ts_ms = d;
    order_send_ts_ms = s;
    venue_arrival_ts_ms = v;
    venue_ack_ts_ms = a;
  })

-- The properties of the timeline are `venue_arrival - market_event` and `venue_ack - market_event`.
abbrev pub event_to_arrival_ms : LatencyTimeline → ℕ
event_to_arrival_ms t = t.venue_arrival_ts_ms - t.market_event_ts_ms

abbrev pub event_to_ack_ms : LatencyTimeline → ℕ
event_to_ack_ms t = t.venue_ack_ts_ms - t.market_event_ts_ms

-- `FixedLatencyModel.timeline`
unfoldable pub timeline : LatencyProfile → Float → Result LatencyTimeline
unfolding nonnegative_finite create_timeline
timeline profile market_event_ts_ms = do
  event ← nonnegative_finite market_event_ts_ms Field.market_event_ts_ms
  let receive = event + profile.market_data_ms
  let feature_ready = receive + profile.feature_compute_ms
  let decision = feature_ready + profile.decision_compute_ms
  let order_send = decision + profile.order_send_ms
  let venue_arrival = order_send + profile.outbound_network_ms
  let venue_ack = venue_arrival + profile.venue_processing_ms + profile.ack_network_ms
  create_timeline (of_nat event) (of_nat receive) (of_nat feature_ready) (of_nat decision)
      (of_nat order_send) (of_nat venue_arrival) (of_nat venue_ack)

-- `FixedLatencyModel.venue_arrival_from_send`
unfoldable pub venue_arrival_from_send : LatencyProfile → Float → Result ℕ
unfolding nonnegative_finite
venue_arrival_from_send profile send_ts_ms = do
  send ← nonnegative_finite send_ts_ms Field.send_ts_ms
  ok (send + profile.outbound_network_ms)

-- `FixedLatencyModel.venue_ack_from_arrival`
unfoldable pub venue_ack_from_arrival : LatencyProfile → Float → Result ℕ
unfolding nonnegative_finite
venue_ack_from_arrival profile arrival_ts_ms = do
  arrival ← nonnegative_finite arrival_ts_ms Field.arrival_ts_ms
  ok (arrival + profile.venue_processing_ms + profile.ack_network_ms)
