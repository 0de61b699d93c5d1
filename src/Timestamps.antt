-- ===== src/Timestamps.antt =====
-- Timestamps at the venue and at the client, src/std0_quant/execution/execution_timestamps.py.
-- The checks of each constructor are a function `create_...` into `Result`.
pub mod Ordering
use polymarket_quant.Common.{
  ℕ, ◌+◌, Bool, true, false, ◌||◌, List, [], ◌∷◌, leb, ltb, abs_diff, if◌then◌else◌,
}
use polymarket_quant.Numeric.{
  Float, Field, Result, ok, eps, ◌>>=◌, ◌>>◌, raise_if, nonnegative_finite, not_monotonic,
}

pub data VenueRaceOrdering : Type 0 where
  fill_before_cancel cancel_before_fill ambiguous_same_timestamp : VenueRaceOrdering

pub record OrderTimestamps : Type 0 where
  pub order_send_ts_ms : ℕ
  pub order_venue_arrival_ts_ms : ℕ
  pub order_venue_accept_ts_ms : ℕ
  pub order_ack_receive_ts_ms : ℕ

pub record CancelTimestamps : Type 0 where
  pub cancel_send_ts_ms : ℕ
  pub cancel_venue_arrival_ts_ms : ℕ
  pub cancel_effective_ts_ms : ℕ
  pub cancel_ack_receive_ts_ms : ℕ

pub record FillTimestamps : Type 0 where
  pub fill_venue_ts_ms : ℕ
  pub fill_receive_ts_ms : ℕ

-- `_checked` on one value.
unfoldable pub checked : Float → Result ℕ
unfolding nonnegative_finite
checked v = nonnegative_finite v Field.timestamps

-- `any(later + _EPS < earlier for earlier, later in zip(values, values[1:]))`
abbrev pub goes_back : List ℕ → Bool
goes_back [] = false
goes_back (a ∷ []) = false
goes_back (a ∷ b ∷ rest) = ltb (b + eps) a || goes_back (b ∷ rest)

unfoldable pub create_order_timestamps : Float → Float → Float → Float → Result OrderTimestamps
unfolding checked
create_order_timestamps send arrival accept ack = do
  s ← checked send
  v ← checked arrival
  a ← checked accept
  k ← checked ack
  raise_if (goes_back (s ∷ v ∷ a ∷ k ∷ [])) not_monotonic
  ok (record {
    order_send_ts_ms = s;
    order_venue_arrival_ts_ms = v;
    order_venue_accept_ts_ms = a;
    order_ack_receive_ts_ms = k;
  })

unfoldable pub create_cancel_timestamps : Float → Float → Float → Float → Result CancelTimestamps
unfolding checked
create_cancel_timestamps send arrival effective ack = do
  s ← checked send
  v ← checked arrival
  e ← checked effective
  k ← checked ack
  raise_if (goes_back (s ∷ v ∷ e ∷ k ∷ [])) not_monotonic
  ok (record {
    cancel_send_ts_ms = s;
    cancel_venue_arrival_ts_ms = v;
    cancel_effective_ts_ms = e;
    cancel_ack_receive_ts_ms = k;
  })

unfoldable pub create_fill_timestamps : Float → Float → Result FillTimestamps
unfolding checked
create_fill_timestamps venue receive = do
  v ← checked venue
  r ← checked receive
  raise_if (goes_back (v ∷ r ∷ [])) not_monotonic
  ok (record { fill_venue_ts_ms = v; fill_receive_ts_ms = r })

abbrev pub venue_ordering : ℕ → ℕ → VenueRaceOrdering
venue_ordering fill_ts cancel_ts =
    if leb (abs_diff fill_ts cancel_ts) eps
    then VenueRaceOrdering.ambiguous_same_timestamp
    else if ltb fill_ts cancel_ts
    then VenueRaceOrdering.fill_before_cancel
    else VenueRaceOrdering.cancel_before_fill

unfoldable pub compare_fill_vs_cancel : Float → Float → Result VenueRaceOrdering
unfolding checked
compare_fill_vs_cancel fill_venue_ts_ms cancel_effective_ts_ms = do
  fill_ts ← checked fill_venue_ts_ms
  cancel_ts ← checked cancel_effective_ts_ms
  ok (venue_ordering fill_ts cancel_ts)
