-- ===== src/Race.antt =====
-- The race of a fill and a cancellation, src/std0_quant/execution/cancel_fill_race.py.
-- `resolve_cancel_fill_race` changes the order that it is given, so it is an `Action` on it.
pub mod Outcome
mod Tests
use polymarket_quant.Common.{ℕ, Bool, false, not, Option, none, some, ltb, if◌then◌else◌}
use polymarket_quant.Numeric.{
  Float, Field, Result, err, of_nat, positive_finite, nonnegative_finite,
  race_needs_cancel_requested, fill_precedes_cancel_request, cancel_precedes_request,
  ambiguous_cancel_fill_race,
}
use polymarket_quant.Action.{Action, ◌>>=◌, ◌>>◌, pure, lift, get, raise_when}
use polymarket_quant.Order.{
  OrderStatus, OrderStateMachine, remaining_qty, is_cancel_requested, is_filled_status, apply_fill,
  acknowledge_cancel,
}
use polymarket_quant.Timestamps.{VenueRaceOrdering, compare_fill_vs_cancel}

pub data CancelFillOutcome : Type 0 where
  cancel_won fill_then_cancel fill_won_complete : CancelFillOutcome

pub record CancelFillRaceResult : Type 0 where
  pub outcome : CancelFillOutcome
  pub fill_qty_applied : ℕ
  pub final_status : OrderStatus
  pub filled_qty : ℕ
  pub remaining : ℕ

abbrev pub race_result : CancelFillOutcome → ℕ → OrderStateMachine → CancelFillRaceResult
race_result outcome applied o = record {
  outcome = outcome;
  fill_qty_applied = applied;
  final_status = o.status;
  filled_qty = o.filled_qty;
  remaining = remaining_qty o;
}

-- `last_ts is not None and ts < last_ts`
abbrev pub is_before : ℕ → Option ℕ → Bool
is_before ts none = false
is_before ts (some last) = ltb ts last

-- The part of the function below the comparison of the timestamps.
settle : VenueRaceOrdering → ℕ → ℕ → ℕ → Action OrderStateMachine CancelFillRaceResult
settle VenueRaceOrdering.ambiguous_same_timestamp qty fill_ts cancel_ts =
    lift (err ambiguous_cancel_fill_race)
settle VenueRaceOrdering.cancel_before_fill qty fill_ts cancel_ts = do
  e ← acknowledge_cancel (of_nat cancel_ts)
  o ← get
  pure (race_result CancelFillOutcome.cancel_won 0 o)
settle VenueRaceOrdering.fill_before_cancel qty fill_ts cancel_ts = do
  e ← apply_fill (of_nat qty) (of_nat fill_ts)
  o ← get
  if is_filled_status o.status
      then pure (race_result CancelFillOutcome.fill_won_complete qty o)
      else (do
        c ← acknowledge_cancel (of_nat cancel_ts)
        p ← get
        pure (race_result CancelFillOutcome.fill_then_cancel qty p))

unfoldable pub resolve_cancel_fill_race :
    Float → Float → Float → Action OrderStateMachine CancelFillRaceResult
unfolding settle positive_finite nonnegative_finite
resolve_cancel_fill_race fill_qty fill_venue_ts_ms cancel_effective_ts_ms = do
  o ← get
  raise_when (not (is_cancel_requested o.status)) race_needs_cancel_requested
  qty ← lift (positive_finite fill_qty Field.fill_qty)
  fill_ts ← lift (nonnegative_finite fill_venue_ts_ms Field.fill_venue_ts_ms)
  cancel_ts ← lift (nonnegative_finite cancel_effective_ts_ms Field.cancel_effective_ts_ms)
  raise_when (is_before fill_ts o.last_event_ts_ms) fill_precedes_cancel_request
  raise_when (is_before cancel_ts o.last_event_ts_ms) cancel_precedes_request
  ordering ← lift (compare_fill_vs_cancel (of_nat fill_ts) (of_nat cancel_ts))
  settle ordering qty fill_ts cancel_ts
