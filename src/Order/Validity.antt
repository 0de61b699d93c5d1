-- ===== src/Order/Validity.antt =====
-- What the constructor establishes and every method keeps, and that a refused call changes nothing
-- (src/std0_quant/execution/order_state.py).
use polymarket_quant.Common.{ℕ, ◌+◌, ◌<◌, ◌≡◌, ◌⊎◌, Option, none, some, List, [], ◌∷◌, All, arith}
use polymarket_quant.Numeric.{Float, ok, eps, of_nat}
use polymarket_quant.Action.{IsAtomic}
use polymarket_quant.Order.{
  OrderStatus, OrderStateMachine, mark_sent, acknowledge, reject, expire, request_cancel,
  acknowledge_cancel, apply_fill,
}
use polymarket_quant.Order.Create.{create, create_new}
use polymarket_quant.Order.Calls.{Call, perform, run, HasNoDust}
use polymarket_quant.Order.Calls
use polymarket_quant.Order.Lifecycle.{IsConsistent, create_new-IsConsistent, perform-IsConsistent}

abbrev given : Option ℕ → Option Float
given none = none
given (some t) = some (of_nat t)

-- The constructor accepts the fields of the order, and gives the order back.
abbrev pub IsValid : OrderStateMachine → Type 0
IsValid o =
    create (of_nat o.order_qty) o.status (of_nat o.filled_qty) (given o.last_event_ts_ms) ≡ ok o

create_new-IsValid : (q : Float) {o : OrderStateMachine} → create_new q ≡ ok o → IsValid o
unfolding create_new create
create_new-IsValid q h = ground arith

-- What that comes to. The filled quantity is none, or more than `_EPS`; and it is the whole order, or
-- more than `_EPS` short of it.
abbrev Agrees : OrderStatus → ℕ → ℕ → Type 0
Agrees OrderStatus.filled f q = f ≡ q
Agrees OrderStatus.partially_filled f q = (eps < f) × (f + eps < q)
Agrees _ f q = (f ≡ q) ⊎ (((f ≡ 0) ⊎ (eps < f)) × (f + eps < q))

record IsSound (o : OrderStateMachine) : Type 0 where
  positive : 0 < o.order_qty
  agrees : Agrees o.status o.filled_qty o.order_qty

valid-IsSound : (o : OrderStateMachine) → IsValid o → IsSound o
unfolding create
valid-IsSound o v = ground arith

sound-IsValid : (o : OrderStateMachine) → IsSound o → IsValid o
unfolding create
sound-IsValid o v = ground arith

perform-IsSound :
    (c : Call) (o : OrderStateMachine) → HasNoDust c → IsSound o → IsSound (perform c o).1
unfolding perform mark_sent acknowledge reject expire request_cancel acknowledge_cancel apply_fill
perform-IsSound (Calls.mark_sent t) o d v = ground arith
perform-IsSound _ o d v = ground arith

-- An order that the constructor accepts as it is stays one under every method, accepted or not, but for a
-- fill of at most `_EPS`.
pub perform-IsValid :
    (c : Call) (o : OrderStateMachine) → HasNoDust c → IsValid o → IsValid (perform c o).1
perform-IsValid c o d v = sound-IsValid (perform c o).1 (perform-IsSound c o d (valid-IsSound o v))

run-IsValid :
    (cs : List Call) (o : OrderStateMachine) → All HasNoDust cs → IsValid o → IsValid (run cs o).1
unfolding run
run-IsValid [] o d v = v
run-IsValid (c ∷ cs) o d v = run-IsValid cs (perform c o).1 d.1 (perform-IsValid c o d.0 v)

run-IsConsistent :
    (cs : List Call) (o : OrderStateMachine) → IsConsistent o → IsConsistent (run cs o).1
unfolding run
run-IsConsistent [] o v = v
run-IsConsistent (c ∷ cs) o v = run-IsConsistent cs (perform c o).1 (perform-IsConsistent c o v)

-- A PARTIALLY_FILLED order has a part.
abbrev pub HasPart : OrderStatus → ℕ → Type 0
HasPart OrderStatus.partially_filled f = eps < f
HasPart _ f = Unit

sound-HasPart : (o : OrderStateMachine) → IsSound o → HasPart o.status o.filled_qty
sound-HasPart o v = ground arith

-- After any calls without fills of at most `_EPS` on a new order of more than two `_EPS`: the constructor
-- accepts the order as it is; one that was never acknowledged has no fill, a FILLED one is filled whole, a
-- PARTIALLY_FILLED one by more than `_EPS`, and any but a FILLED one is more than `_EPS` short of its
-- quantity.
pub new_order-IsConsistent :
    (q : Float) (cs : List Call) {o : OrderStateMachine}
    → create_new q ≡ ok o
    → eps + eps < o.order_qty
    → All HasNoDust cs
    → let o' = (run cs o).1 in IsValid o' × IsConsistent o' × HasPart o'.status o'.filled_qty
new_order-IsConsistent q cs {o} h l d =
    let valid : IsValid (run cs o).1 = run-IsValid cs o d (create_new-IsValid q h) in
    (
      valid,
      run-IsConsistent cs o (create_new-IsConsistent q h l),
      sound-HasPart (run cs o).1 (valid-IsSound (run cs o).1 valid),
    )

-- A method that raises leaves the order as it was.
pub perform-IsAtomic : (c : Call) (o : OrderStateMachine) → IsAtomic o (perform c o)
unfolding perform mark_sent acknowledge reject expire request_cancel acknowledge_cancel apply_fill
perform-IsAtomic (Calls.mark_sent t) o = ground arith
perform-IsAtomic _ o = ground arith
