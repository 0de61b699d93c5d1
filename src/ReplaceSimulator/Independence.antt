-- ===== src/ReplaceSimulator/Independence.antt =====
-- The replacement is independent of the order that it replaces
-- (src/std0_quant/execution/replacement_simulator.py).
use polymarket_quant.Common.{
  subst, not, ◌==◌, ltb, abs_diff, ℕ, ◌+◌, ◌≤◌, ◌<◌, ◌≡◌, none, some, leb, arith, if◌then◌else◌,
}
use polymarket_quant.Common.Int.{pos}
use polymarket_quant.Numeric.{
  Float, Field, Result, ok, err, eps, of_nat, finite, bind_cases, raise_if, nonnegative_finite,
  replacement_precedes_cancel_ack, old_order_not_cancelled, replacement_assertion,
}
use polymarket_quant.Order.{OrderStatus, OrderStateMachine}
use polymarket_quant.Order.Create
use polymarket_quant.Queue.Create as QueueCreate
use polymarket_quant.Replace.{ReplacementOrder, is_cancelled, create_replacement_after_cancel}
use polymarket_quant.Timestamps.{CancelTimestamps}
use polymarket_quant.Simulator.{PassiveSimulationResult}
use polymarket_quant.Simulator.Passive.{simulate_passive_order}
use polymarket_quant.ReplaceSimulator.{
  is_new, Inputs, CancelReplaceSimulationResult, simulate_cancel_then_replace,
}

-- The simulation of the old order, with its cancellation.
abbrev pub simulate_old : Inputs → CancelTimestamps → Result PassiveSimulationResult
simulate_old i c = simulate_passive_order i.qty i.price i.displayed i.times i.trades (some c)

-- The quantity that is displayed, where it is a number; one of at most `_EPS` is none.
abbrev pub displayed_qty : Float → ℕ
displayed_qty (finite (pos n)) = if leb n eps then 0 else n
displayed_qty _ = 0

-- What a replacement takes from its arguments.
replacement_of_arguments :
    (old : OrderStateMachine) (price qty displayed : Float) {n : ReplacementOrder}
    → create_replacement_after_cancel old price qty displayed ≡ ok n
    → (price ≡ of_nat n.price)
      × (qty ≡ of_nat n.order.order_qty)
      × (displayed_qty displayed ≡ n.queue.queue_ahead_qty)
unfolding create_replacement_after_cancel Create.create_new QueueCreate.create_new
replacement_of_arguments old price qty displayed h = ground arith

-- A replacement that is sent before the receipt of the cancellation is refused.
pub early_replacement_refused :
    (old new : Inputs) (cancel : CancelTimestamps)
    → new.times.order_send_ts_ms + eps < cancel.cancel_ack_receive_ts_ms
    → simulate_cancel_then_replace old cancel new ≡ err replacement_precedes_cancel_ack
unfolding simulate_cancel_then_replace
early_replacement_refused old new cancel h = ground arith

-- The reported results, as simulations of their own.
abbrev pub IsSeparate :
    Inputs → CancelTimestamps → Inputs → Result CancelReplaceSimulationResult → Type 0
IsSeparate old cancel new (err _) = Unit
IsSeparate old cancel new (ok r) =
    (cancel.cancel_ack_receive_ts_ms ≤ new.times.order_send_ts_ms + eps)
    × (simulate_old old cancel ≡ ok r.old_order)
    × (r.old_order.final_status ≡ OrderStatus.cancelled)
    × (simulate_passive_order new.qty new.price (of_nat (displayed_qty new.displayed)) new.times
          new.trades none
        ≡ ok r.replacement_order)

simulated-IsSeparate :
    (old new : Inputs) (cancel : CancelTimestamps)
    → IsSeparate old cancel new (simulate_cancel_then_replace old cancel new)
unfolding simulate_cancel_then_replace
simulated-IsSeparate old new cancel =
    let Separate : Result CancelReplaceSimulationResult → Type 0 = IsSeparate old cancel new in
    let sent = ltb (new.times.order_send_ts_ms + eps) cancel.cancel_ack_receive_ts_ms in
    bind_cases Separate (raise_if sent replacement_precedes_cancel_ack) _ (λ e. tt)
      λ u h1.
        bind_cases Separate (simulate_old old cancel) _ (λ e. tt)
          λ before h2.
            bind_cases Separate
              (raise_if (not (is_cancelled before.final_status)) old_order_not_cancelled) _
              (λ e. tt)
              λ u h3.
                bind_cases Separate
                  (Create.create (of_nat before.order_qty) OrderStatus.cancelled
                    (of_nat before.filled_qty) (some (of_nat cancel.cancel_effective_ts_ms)))
                  _ (λ e. tt)
                  λ ended h4.
                    bind_cases Separate
                      (create_replacement_after_cancel ended new.price new.qty new.displayed) _
                      (λ e. tt)
                      λ made h5.
                        bind_cases Separate
                          (raise_if (not (is_new made.order.status)) replacement_assertion) _
                          (λ e. tt)
                          λ u h6.
                            bind_cases Separate
                              (raise_if (not (made.order.filled_qty == 0)) replacement_assertion) _
                              (λ e. tt)
                              λ u h7.
                                bind_cases Separate
                                  (nonnegative_finite new.displayed Field.displayed_qty) _ (λ e. tt)
                                  λ displayed h8.
                                    bind_cases Separate
                                      (raise_if
                                        (ltb eps (abs_diff made.queue.queue_ahead_qty displayed))
                                        replacement_assertion)
                                      _ (λ e. tt)
                                      λ u h9.
                                        bind_cases Separate
                                          (simulate_passive_order (of_nat made.order.order_qty)
                                            (of_nat made.price) (of_nat made.queue.queue_ahead_qty)
                                            new.times new.trades none)
                                          _ (λ e. tt)
                                          λ after h10.
                                            let f =
                                              replacement_of_arguments ended new.price new.qty
                                                new.displayed h5 in
                                            (ground arith, h2, ground arith, rw (f.0, f.1, f.2) h10)

-- When the simulation returns, whatever the inputs: the replacement was sent no earlier than the receipt
-- of the cancellation, up to `_EPS`; the old order's result is that of its own simulation, which reads
-- nothing of the replacement, and ended CANCELLED; and the replacement's result is that of the same order
-- simulated on its own, without cancellation, behind the quantity displayed at its arrival (dust apart),
-- which reads nothing of the old order.
pub replacement_is_independent :
    (old new : Inputs) (cancel : CancelTimestamps) (r : CancelReplaceSimulationResult)
    → simulate_cancel_then_replace old cancel new ≡ ok r
    → (cancel.cancel_ack_receive_ts_ms ≤ new.times.order_send_ts_ms + eps)
      × (simulate_old old cancel ≡ ok r.old_order)
      × (r.old_order.final_status ≡ OrderStatus.cancelled)
      × (simulate_passive_order new.qty new.price
            (of_nat (displayed_qty new.displayed))
            new.times
            new.trades
            none
          ≡ ok r.replacement_order)
replacement_is_independent old new cancel r h =
    subst (IsSeparate old cancel new) h (simulated-IsSeparate old new cancel)
