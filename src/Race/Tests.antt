-- ===== src/Race/Tests.antt =====
-- A fill of 4 or 8 against the cancellation of an order of 10 of which 2 are filled
-- (src/std0_quant/execution/cancel_fill_race.py).
use polymarket_quant.Common.{◌≡◌, refl, some, arith}
use polymarket_quant.Numeric.{ok, of_nat}
use polymarket_quant.Order.{OrderStatus, OrderStateMachine}
use polymarket_quant.Race.{CancelFillOutcome, race_result, resolve_cancel_fill_race}
use polymarket_quant.Race.Outcome.{fill_completes}

abbrev leaving : OrderStatus → OrderStateMachine
leaving s = record { order_qty = 10; status = s; filled_qty = 2; last_event_ts_ms = some 100 }

abbrev order : OrderStateMachine
order = leaving OrderStatus.cancel_requested

abbrev cancelled_at : OrderStateMachine
cancelled_at = record order { status = OrderStatus.cancelled; last_event_ts_ms = some 110 }

abbrev partly : OrderStateMachine
partly = record order {
  status = OrderStatus.cancelled;
  filled_qty = 6;
  last_event_ts_ms = some 130;
}

abbrev whole : OrderStateMachine
whole = record order { status = OrderStatus.filled; filled_qty = 10; last_event_ts_ms = some 120 }

fill_completes_example :
    resolve_cancel_fill_race (of_nat 8) (of_nat 120) (of_nat 130) order
    ≡ (ok (race_result CancelFillOutcome.fill_won_complete 8 whole), whole)
fill_completes_example =
    fill_completes 8 120 130 order refl refl refl (omega arith) (omega arith) (omega arith)
      (omega arith) (omega arith) (omega arith)
