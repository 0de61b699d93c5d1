-- ===== src/Replace/Fresh.antt =====
-- A replacement starts afresh (src/std0_quant/execution/cancel_replace.py).
use polymarket_quant.Common.{ℕ, ◌<◌, ◌≡◌, none, leb, arith, if◌then◌else◌}
use polymarket_quant.Numeric.{Float, ok, err, eps, of_nat, replacement_needs_cancelled, IsOk}
use polymarket_quant.Order.{OrderStatus, OrderStateMachine, OrderEvent, remaining_qty}
use polymarket_quant.Order
use polymarket_quant.Order.Create
use polymarket_quant.Queue.Create as QueueCreate
use polymarket_quant.Replace.{
  ReplacementOrder, create_replacement_after_cancel, request_cancel, confirm_cancel,
}

-- A replacement that is created stands for an old order that is CANCELLED. It is NEW, has no fills and
-- no events, and stands behind all of the displayed quantity (dust apart), with an order and a queue
-- of the same quantity: nothing of the old order goes into it.
replacement_is_fresh :
    (old : OrderStateMachine) (price qty displayed : ℕ) {r : ReplacementOrder}
    → eps < qty
    → create_replacement_after_cancel old (of_nat price) (of_nat qty) (of_nat displayed) ≡ ok r
    → (old.status ≡ OrderStatus.cancelled)
      × (r.price ≡ price)
      × (r.order ≡ record {
        order_qty = qty;
        status = OrderStatus.new;
        filled_qty = 0;
        last_event_ts_ms = none;
      })
      × (r.queue ≡ record {
        order_qty = qty;
        queue_ahead_qty = if leb displayed eps then 0 else displayed;
        filled_qty = 0;
      })
unfolding create_replacement_after_cancel Create.create_new QueueCreate.create_new
replacement_is_fresh old price qty displayed l h = ground arith

-- An order whose cancellation is only requested is not replaced; once the venue confirms it, at a time
-- that the order accepts, a replacement at a positive price and quantity is created.
replacement_needs_confirmation :
    (old : OrderStateMachine) (t u : Float) (price qty displayed : ℕ) {e f : OrderEvent}
    → 0 < price
    → 0 < qty
    → (request_cancel t old).0 ≡ ok e
    → (confirm_cancel u (request_cancel t old).1).0 ≡ ok f
    → let requested = (request_cancel t old).1 in
      let confirmed = (confirm_cancel u requested).1 in
      (create_replacement_after_cancel requested (of_nat price) (of_nat qty) (of_nat displayed)
        ≡ err replacement_needs_cancelled)
      × IsOk
          (create_replacement_after_cancel confirmed (of_nat price) (of_nat qty) (of_nat displayed))
unfolding create_replacement_after_cancel request_cancel confirm_cancel Order.request_cancel
    Order.acknowledge_cancel Create.create_new QueueCreate.create_new
replacement_needs_confirmation old t u price qty displayed p q h k = ground arith
