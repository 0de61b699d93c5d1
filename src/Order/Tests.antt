-- ===== src/Order/Tests.antt =====
-- An order of 10 grains through its life (src/std0_quant/execution/order_state.py).
use polymarket_quant.Common.{◌+◌, ◌≤◌, ◌≡◌, refl, ◌⊎◌, none, some, List, [], ◌∷◌, arith}
use polymarket_quant.Numeric.{ok, eps, of_nat, nan, partial_status_mismatch, err}
use polymarket_quant.Action.{IsAtomic}
use polymarket_quant.Order.{
  OrderStatus, EventType, OrderEvent, OrderStateMachine, apply_fill, mark_sent, acknowledge,
  request_cancel,
}
use polymarket_quant.Order.Create.{create, create_new}
use polymarket_quant.Order.Validity.{
  IsValid, HasPart, perform-IsValid, perform-IsAtomic, new_order-IsConsistent,
}
use polymarket_quant.Order.Lifecycle.{Accepted, IsConsistent, perform-Accepted, terminal_absorbs}
use polymarket_quant.Order.Account.{fill_total, run_accounts, dust_fill_lost}
use polymarket_quant.Order.Calls.{Call, perform, run}
use polymarket_quant.Order.Calls

abbrev fresh : OrderStateMachine
fresh = record { order_qty = 10; status = OrderStatus.new; filled_qty = 0; last_event_ts_ms = none }

abbrev working : OrderStateMachine
working = record {
  order_qty = 10;
  status = OrderStatus.acknowledged;
  filled_qty = 0;
  last_event_ts_ms = some 5;
}

abbrev ended : OrderStateMachine
ended = record {
  order_qty = 10;
  status = OrderStatus.cancelled;
  filled_qty = 4;
  last_event_ts_ms = some 9;
}

abbrev life : List Call
life =
    Calls.mark_sent (of_nat 3)
    ∷ Calls.acknowledge (of_nat 5)
    ∷ Calls.apply_fill (of_nat 4) (of_nat 7)
    ∷ Calls.apply_fill nan (of_nat 8)
    ∷ Calls.request_cancel (of_nat 8)
    ∷ Calls.apply_fill (of_nat 5) (of_nat 9)
    ∷ []

fresh_is_created : create_new (of_nat 10) ≡ ok fresh
unfolding create_new
fresh_is_created = refl

-- The last fill leaves one grain, which counts as none: the order is FILLED and whole.
life_ends_filled :
    ((run life fresh).1.status ≡ OrderStatus.filled) × ((run life fresh).1.filled_qty ≡ 10)
unfolding run perform mark_sent acknowledge apply_fill request_cancel
life_ends_filled = (refl, refl)

partial_needs_fill :
    create (of_nat 10) OrderStatus.partially_filled (of_nat 0) none ≡ err partial_status_mismatch
unfolding create
partial_needs_fill = refl

perform-IsValid_example : IsValid (perform (Calls.apply_fill (of_nat 4) (of_nat 7)) working).1
perform-IsValid_example =
    perform-IsValid (Calls.apply_fill (of_nat 4) (of_nat 7)) working (omega arith)
      (unfold create in refl)

perform-IsAtomic_example :
    IsAtomic working (perform (Calls.apply_fill (of_nat 40) (of_nat 7)) working)
perform-IsAtomic_example = perform-IsAtomic (Calls.apply_fill (of_nat 40) (of_nat 7)) working

abbrev first_fill : OrderEvent
first_fill = record {
  event_type = EventType.fill;
  event_ts_ms = 7;
  status_before = OrderStatus.acknowledged;
  status_after = OrderStatus.partially_filled;
  fill_qty = 4;
}

perform-Accepted_example :
    Accepted working first_fill (perform (Calls.apply_fill (of_nat 4) (of_nat 7)) working).1
perform-Accepted_example =
    perform-Accepted (Calls.apply_fill (of_nat 4) (of_nat 7)) working
      (unfold perform apply_fill in refl)

terminal_absorbs_example : run life ended ≡ ([], ended)
terminal_absorbs_example = terminal_absorbs life ended refl

new_order-IsConsistent_example :
    let o' = (run life fresh).1 in IsValid o' × IsConsistent o' × HasPart o'.status o'.filled_qty
new_order-IsConsistent_example =
    new_order-IsConsistent (of_nat 10) life fresh_is_created (omega arith) (omega arith)

run_accounts_example :
    let (events, o') = run life fresh in
    (o'.filled_qty ≤ fill_total events + eps)
    × (fill_total events ≤ o'.filled_qty + eps)
    × ((o'.status ≡ OrderStatus.filled) ⊎ (o'.filled_qty ≡ fill_total events))
run_accounts_example = run_accounts (of_nat 10) life fresh_is_created (omega arith) (omega arith)

dust_fill_lost_example :
    let o' = (apply_fill (of_nat 1) (of_nat 7) working).1 in
    (o'.status ≡ OrderStatus.partially_filled)
    × (o'.filled_qty ≡ 0)
    × (create (of_nat o'.order_qty) o'.status (of_nat o'.filled_qty) (some (of_nat 7))
        ≡ err partial_status_mismatch)
dust_fill_lost_example =
    dust_fill_lost working 1 7 refl refl (omega arith) (omega arith) (omega arith) refl
