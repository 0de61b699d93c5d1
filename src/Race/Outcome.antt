-- ===== src/Race/Outcome.antt =====
-- Who wins the race, and that a race which cannot be decided changes nothing
-- (src/std0_quant/execution/cancel_fill_race.py).
use polymarket_quant.Common.{ℕ, ◌+◌, ◌≤◌, ◌<◌, ◌≡◌, false, some, abs_diff, arith}
use polymarket_quant.Numeric.{Float, ok, err, eps, of_nat, ambiguous_cancel_fill_race}
use polymarket_quant.Action.{IsAtomic}
use polymarket_quant.Order.{
  OrderStatus, OrderStateMachine, remaining_qty, apply_fill, acknowledge_cancel,
}
use polymarket_quant.Order.Accept.{moved_order}
use polymarket_quant.Race.{CancelFillOutcome, race_result, is_before, resolve_cancel_fill_race}
use polymarket_quant.Timestamps.{compare_fill_vs_cancel}

-- A race that raises, for whatever reason, leaves the order as it was, although the fill is applied
-- before the cancellation is confirmed.
resolve-IsAtomic :
    (q f c : Float) (o : OrderStateMachine) → IsAtomic o (resolve_cancel_fill_race q f c o)
unfolding resolve_cancel_fill_race compare_fill_vs_cancel apply_fill acknowledge_cancel
resolve-IsAtomic q f c o = ground arith

module _ (qty f c : ℕ) (o : OrderStateMachine) (requested : o.status ≡ OrderStatus.cancel_requested)
    (fill_later : is_before f o.last_event_ts_ms ≡ false)
    (cancel_later : is_before c o.last_event_ts_ms ≡ false) (positive : 0 < qty) where
  -- For an order that is CANCEL_REQUESTED, a positive fill, and times not before its last event: a
  -- cancellation that is effective before the fill wins, and the order is CANCELLED with the fills that
  -- it had, whatever the size of the late fill.
  cancel_wins :
      c + eps < f
      → resolve_cancel_fill_race (of_nat qty) (of_nat f) (of_nat c) o ≡ (
        ok (race_result CancelFillOutcome.cancel_won 0 (moved_order o OrderStatus.cancelled c)),
        moved_order o OrderStatus.cancelled c,
      )
  unfolding resolve_cancel_fill_race compare_fill_vs_cancel acknowledge_cancel
  cancel_wins e = ground arith

  -- Timestamps within `_EPS` of one another are refused, and nothing changes.
  pub tie_is_refused :
      abs_diff f c ≤ eps
      → resolve_cancel_fill_race (of_nat qty) (of_nat f) (of_nat c) o
        ≡ (err ambiguous_cancel_fill_race, o)
  unfolding resolve_cancel_fill_race compare_fill_vs_cancel
  tie_is_refused e = ground arith

  -- For an order that is CANCEL_REQUESTED and times not before its last event: a fill of more than `_EPS`
  -- that is executed first and leaves more than `_EPS` is added, and the rest of the order is CANCELLED.
  fill_then_cancel :
      f + eps < c
      → eps < qty
      → o.filled_qty + qty + eps < o.order_qty
      → let o' = record o {
        status = OrderStatus.cancelled;
        filled_qty = o.filled_qty + qty;
        last_event_ts_ms = some c;
      } in
        resolve_cancel_fill_race (of_nat qty) (of_nat f) (of_nat c) o
        ≡ (ok (race_result CancelFillOutcome.fill_then_cancel qty o'), o')
  unfolding resolve_cancel_fill_race compare_fill_vs_cancel acknowledge_cancel apply_fill
  fill_then_cancel e l w = ground arith

  -- For a valid order of more than two `_EPS` that is CANCEL_REQUESTED, and times not before its last
  -- event: a positive fill that is executed first, does not exceed what remains and leaves at most
  -- `_EPS` ends the order: it is FILLED, whole, at the time of the fill, and the cancellation comes too late.
  pub fill_completes :
      f + eps < c
      → o.filled_qty ≤ o.order_qty
      → eps + eps < o.order_qty
      → qty ≤ remaining_qty o + eps
      → o.order_qty ≤ o.filled_qty + qty + eps
      → let o' = record o {
        status = OrderStatus.filled;
        filled_qty = o.order_qty;
        last_event_ts_ms = some f;
      } in
        resolve_cancel_fill_race (of_nat qty) (of_nat f) (of_nat c) o
        ≡ (ok (race_result CancelFillOutcome.fill_won_complete qty o'), o')
  unfolding resolve_cancel_fill_race compare_fill_vs_cancel acknowledge_cancel apply_fill
  fill_completes e v l w k = ground arith
