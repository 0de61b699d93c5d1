-- ===== src/Timestamps/Ordering.antt =====
-- The order of a fill and a cancellation at the venue
-- (src/std0_quant/execution/execution_timestamps.py).
use polymarket_quant.Common.{ℕ, ◌+◌, ◌≤◌, ◌<◌, ◌≡◌, refl, ◌↔◌, arith}
use polymarket_quant.Numeric.{ok, eps, of_nat}
use polymarket_quant.Timestamps.{
  VenueRaceOrdering, venue_ordering, compare_fill_vs_cancel, create_order_timestamps,
  create_cancel_timestamps,
}

abbrev mirror : VenueRaceOrdering → VenueRaceOrdering
mirror VenueRaceOrdering.fill_before_cancel = VenueRaceOrdering.cancel_before_fill
mirror VenueRaceOrdering.cancel_before_fill = VenueRaceOrdering.fill_before_cancel
mirror VenueRaceOrdering.ambiguous_same_timestamp = VenueRaceOrdering.ambiguous_same_timestamp

-- Two timestamps are ordered exactly when they are more than `_EPS` apart, the earlier one first, and
-- exchanging them exchanges the verdict.
compare_fill_vs_cancel_orders :
    (f c : ℕ)
    → (r : VenueRaceOrdering) × (compare_fill_vs_cancel (of_nat f) (of_nat c) ≡ ok r)
      × (compare_fill_vs_cancel (of_nat c) (of_nat f) ≡ ok (mirror r))
      × ((r ≡ VenueRaceOrdering.fill_before_cancel) ↔ (f + eps < c))
      × ((r ≡ VenueRaceOrdering.cancel_before_fill) ↔ (c + eps < f))
unfolding compare_fill_vs_cancel
compare_fill_vs_cancel_orders f c = (
  venue_ordering f c,
  refl,
  ground arith,
  (λ h. ground arith, λ h. ground arith),
  (λ h. ground arith, λ h. ground arith),
)

-- Timestamps that never go back are accepted as they are.
pub create_order_timestamps_accepts :
    (s v a k : ℕ)
    → s ≤ v
    → v ≤ a
    → a ≤ k
    → create_order_timestamps (of_nat s) (of_nat v) (of_nat a) (of_nat k)
      ≡ ok (record {
        order_send_ts_ms = s;
        order_venue_arrival_ts_ms = v;
        order_venue_accept_ts_ms = a;
        order_ack_receive_ts_ms = k;
      })
unfolding create_order_timestamps
create_order_timestamps_accepts s v a k p q r = ground arith

pub create_cancel_timestamps_accepts :
    (s v a k : ℕ)
    → s ≤ v
    → v ≤ a
    → a ≤ k
    → create_cancel_timestamps (of_nat s) (of_nat v) (of_nat a) (of_nat k)
      ≡ ok (record {
        cancel_send_ts_ms = s;
        cancel_venue_arrival_ts_ms = v;
        cancel_effective_ts_ms = a;
        cancel_ack_receive_ts_ms = k;
      })
unfolding create_cancel_timestamps
create_cancel_timestamps_accepts s v a k p q r = ground arith
