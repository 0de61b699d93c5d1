-- ===== src/ReplaceSimulator.antt =====
-- Cancel, then replace, src/std0_quant/execution/replacement_simulator.py.
pub mod Independence
mod Tests
use polymarket_quant.Common.{◌+◌, Bool, true, false, not, ◌==◌, List, none, some, ltb, abs_diff}
use polymarket_quant.Numeric.{
  Float, Field, Result, ok, eps, ◌>>=◌, ◌>>◌, raise_if, of_nat, nonnegative_finite,
  replacement_precedes_cancel_ack, old_order_not_cancelled, replacement_assertion,
}
use polymarket_quant.Order.{OrderStatus}
use polymarket_quant.Order.Create.{create}
use polymarket_quant.Replace.{is_cancelled, create_replacement_after_cancel}
use polymarket_quant.Timestamps.{OrderTimestamps, CancelTimestamps}
use polymarket_quant.Simulator.{ConfirmedTradeEvent, PassiveSimulationResult}
use polymarket_quant.Simulator.Passive.{simulate_passive_order}

pub record CancelReplaceSimulationResult : Type 0 where
  pub old_order : PassiveSimulationResult
  pub replacement_order : PassiveSimulationResult

-- The arguments of one of the two simulations.
pub record Inputs : Type 0 where
  pub qty : Float
  pub price : Float
  pub displayed : Float
  pub times : OrderTimestamps
  pub trades : List ConfirmedTradeEvent

abbrev pub is_new : OrderStatus → Bool
is_new OrderStatus.new = true
is_new _ = false

-- `float(replacement_displayed_qty_at_accept)` is the number that the replacement's own check let
-- through, so the second check of it here does not raise.
unfoldable pub simulate_cancel_then_replace :
    Inputs → CancelTimestamps → Inputs → Result CancelReplaceSimulationResult
unfolding nonnegative_finite
simulate_cancel_then_replace old cancel new = do
  raise_if (ltb (new.times.order_send_ts_ms + eps) cancel.cancel_ack_receive_ts_ms)
      replacement_precedes_cancel_ack
  old_result ←
      simulate_passive_order old.qty old.price old.displayed old.times old.trades (some cancel)
  raise_if (not (is_cancelled old_result.final_status)) old_order_not_cancelled
  old_terminal_state ←
      create (of_nat old_result.order_qty) OrderStatus.cancelled (of_nat old_result.filled_qty)
        (some (of_nat cancel.cancel_effective_ts_ms))
  replacement ← create_replacement_after_cancel old_terminal_state new.price new.qty new.displayed
  raise_if (not (is_new replacement.order.status)) replacement_assertion
  raise_if (not (replacement.order.filled_qty == 0)) replacement_assertion
  displayed ← nonnegative_finite new.displayed Field.displayed_qty
  raise_if (ltb eps (abs_diff replacement.queue.queue_ahead_qty displayed)) replacement_assertion
  replacement_result ←
      simulate_passive_order (of_nat replacement.order.order_qty) (of_nat replacement.price)
        (of_nat replacement.queue.queue_ahead_qty) new.times new.trades none
  ok (record { old_order = old_result; replacement_order = replacement_result })
