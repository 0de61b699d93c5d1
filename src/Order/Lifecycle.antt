-- ===== src/Order/Lifecycle.antt =====
-- The life of an order from NEW: the diagram of its statuses, what each status says of the filled
-- quantity, and the account of its fills (src/std0_quant/execution/order_state.py).
use polymarket_quant.Common.{ℕ, ◌+◌, ◌<◌, ◌≡◌, refl, true, false, List, [], ◌∷◌, some, arith}
use polymarket_quant.Numeric.{Float, Result, ok, err, eps}
use polymarket_quant.Order.{
  OrderStatus, OrderStateMachine, OrderEvent, mark_sent, acknowledge, reject, expire,
  request_cancel, acknowledge_cancel, apply_fill, is_terminal,
}
use polymarket_quant.Action.{Refuses}
use polymarket_quant.Order.{is_fillable, status_after_fill, precedes}
use polymarket_quant.Order.Accept.{Fills, apply_fill-Fills}
use polymarket_quant.Order.Create.{create_new}
use polymarket_quant.Order.Calls.{Call, perform, run, HasNoDust, logged}
use polymarket_quant.Order.Calls

-- The transition diagram.
infix 40 ◌⟶◌
pub data ◌⟶◌ : OrderStatus → OrderStatus → Type 0 where
  send : OrderStatus.new ⟶ OrderStatus.sent
  accept : OrderStatus.sent ⟶ OrderStatus.acknowledged
  refuse : OrderStatus.sent ⟶ OrderStatus.rejected
  expire_unfilled : OrderStatus.acknowledged ⟶ OrderStatus.expired
  expire_partial : OrderStatus.partially_filled ⟶ OrderStatus.expired
  cancel_unfilled : OrderStatus.acknowledged ⟶ OrderStatus.cancel_requested
  cancel_partial : OrderStatus.partially_filled ⟶ OrderStatus.cancel_requested
  confirm_cancel : OrderStatus.cancel_requested ⟶ OrderStatus.cancelled
  first_fill : OrderStatus.acknowledged ⟶ OrderStatus.partially_filled
  more_fill : OrderStatus.partially_filled ⟶ OrderStatus.partially_filled
  fill_in_flight : OrderStatus.cancel_requested ⟶ OrderStatus.cancel_requested
  fill_whole : OrderStatus.acknowledged ⟶ OrderStatus.filled
  fill_rest : OrderStatus.partially_filled ⟶ OrderStatus.filled
  fill_before_cancel : OrderStatus.cancel_requested ⟶ OrderStatus.filled

ruleset edges = (
  send, accept, refuse, expire_unfilled, expire_partial, cancel_unfilled, cancel_partial,
  confirm_cancel, first_fill, more_fill, fill_in_flight, fill_whole, fill_rest, fill_before_cancel,
)

fill_edge : (s : OrderStatus) (r : ℕ) → is_fillable s ≡ true → s ⟶ status_after_fill s r
fill_edge OrderStatus.acknowledged r h = grind (arith, edges)
fill_edge OrderStatus.partially_filled r h = grind (arith, edges)
fill_edge OrderStatus.cancel_requested r h = grind (arith, edges)
fill_edge _ r h = cc

-- What an accepted call does to the order and records in its event.
pub record Accepted (o : OrderStateMachine) (e : OrderEvent) (o' : OrderStateMachine) : Type 0 where
  pub edge : o.status ⟶ o'.status
  pub before : e.status_before ≡ o.status
  pub after : e.status_after ≡ o'.status
  pub stamped : o'.last_event_ts_ms ≡ some e.event_ts_ms
  pub in_order : precedes e.event_ts_ms o.last_event_ts_ms ≡ false
  pub same_order_qty : o'.order_qty ≡ o.order_qty

Fills-Accepted :
    {q t : Float} {o : OrderStateMachine} {e : OrderEvent} {o' : OrderStateMachine}
    → Fills q t o e o'
    → Accepted o e o'
Fills-Accepted {o = o} {e = e} f = record {
  edge = rw f.result (fill_edge o.status _ f.fillable);
  before = f.before;
  after = f.after;
  stamped = rw f.result refl;
  in_order = f.in_order;
  same_order_qty = rw f.result refl;
}

-- An accepted call follows an edge of the diagram, which its event records; its time is not before
-- the last event by more than `_EPS` and becomes the last; the quantity of the order stays.
pub perform-Accepted :
    (c : Call) (o : OrderStateMachine) {e : OrderEvent}
    → (perform c o).0 ≡ ok e
    → Accepted o e (perform c o).1
unfolding perform mark_sent acknowledge reject expire request_cancel acknowledge_cancel
perform-Accepted (Calls.mark_sent t) o h = grind (arith, edges)
perform-Accepted (Calls.apply_fill q t) o h = Fills-Accepted (apply_fill-Fills q t o h)
perform-Accepted _ o h = grind (arith, edges)

terminal-Refuses :
    (c : Call) (o : OrderStateMachine) → is_terminal o ≡ true → Refuses o (perform c o)
unfolding perform mark_sent acknowledge reject expire request_cancel acknowledge_cancel apply_fill
terminal-Refuses (Calls.mark_sent t) o h = ground arith
terminal-Refuses _ o h = ground arith

refused_step :
    (o : OrderStateMachine) (p : Result OrderEvent × OrderStateMachine) (rest : List OrderEvent)
    → Refuses o p
    → (logged p.0 rest ≡ rest) × (p.1 ≡ o)
refused_step o (ok e, o') rest h = absurd h
refused_step o (err x, o') rest h = (refl, h)

-- CANCELLED, FILLED, EXPIRED and REJECTED are final: every later call is refused and changes nothing.
pub terminal_absorbs :
    (cs : List Call) (o : OrderStateMachine) → is_terminal o ≡ true → run cs o ≡ ([], o)
unfolding run
terminal_absorbs [] o h = refl
terminal_absorbs (c ∷ cs) o h =
    let (skipped, same) =
      refused_step o (perform c o) (run cs (perform c o).1).0 (terminal-Refuses c o h) in
    rw skipped (rw same (terminal_absorbs cs o h))

-- What the status of an order that began as NEW says of its filled quantity.
abbrev pub Fits : OrderStatus → ℕ → ℕ → Type 0
Fits OrderStatus.new f q = f ≡ 0
Fits OrderStatus.sent f q = f ≡ 0
Fits OrderStatus.acknowledged f q = f ≡ 0
Fits OrderStatus.rejected f q = f ≡ 0
Fits OrderStatus.filled f q = f ≡ q
Fits _ f q = f + eps < q

pub record IsConsistent (o : OrderStateMachine) : Type 0 where
  pub large : eps + eps < o.order_qty
  pub fits : Fits o.status o.filled_qty o.order_qty

pub create_new-IsConsistent :
    (q : Float) {o : OrderStateMachine}
    → create_new q ≡ ok o
    → eps + eps < o.order_qty
    → IsConsistent o
unfolding create_new
create_new-IsConsistent q h l = ground arith

pub perform-IsConsistent :
    (c : Call) (o : OrderStateMachine) → IsConsistent o → IsConsistent (perform c o).1
unfolding perform mark_sent acknowledge reject expire request_cancel acknowledge_cancel apply_fill
perform-IsConsistent (Calls.mark_sent t) o v = ground arith
perform-IsConsistent _ o v = ground arith
