-- ===== src/Order/Account.antt =====
-- The account of the fills of an order (src/std0_quant/execution/order_state.py): its filled quantity
-- against the sum of the accepted fills, and what becomes of a fill of dust.
use polymarket_quant.Common.{
  ℕ, ◌+◌, ◌≤◌, ◌<◌, ◌≡◌, refl, subst, ◌⊎◌, inl, false, List, [], ◌∷◌, sum_of, All, some, arith,
}
use polymarket_quant.Numeric.{Float, Result, ok, err, eps, of_nat, partial_status_mismatch}
use polymarket_quant.Order.{
  OrderStatus, OrderStateMachine, OrderEvent, mark_sent, acknowledge, reject, expire,
  request_cancel, acknowledge_cancel, apply_fill, precedes,
}
use polymarket_quant.Order.Create.{create, create_new}
use polymarket_quant.Order.Calls.{Call, perform, run, HasNoDust, logged}
use polymarket_quant.Order.Calls
use polymarket_quant.Order.Lifecycle.{IsConsistent, create_new-IsConsistent, perform-IsConsistent}

abbrev charged : Result OrderEvent → ℕ
charged (ok e) = e.fill_qty
charged (err _) = 0

-- The filled quantity is the sum of the fills, up to `_EPS` once the order is FILLED.
abbrev pub Accounts : ℕ → OrderStateMachine → Type 0
Accounts acc o =
    (o.filled_qty ≡ acc)
    ⊎ ((o.status ≡ OrderStatus.filled) × (o.filled_qty ≤ acc + eps) × (acc ≤ o.filled_qty + eps))

perform-Accounts :
    (c : Call) (o : OrderStateMachine) (acc : ℕ)
    → IsConsistent o
    → HasNoDust c
    → Accounts acc o
    → Accounts (acc + charged (perform c o).0) (perform c o).1
unfolding perform mark_sent acknowledge reject expire request_cancel acknowledge_cancel apply_fill
perform-Accounts (Calls.mark_sent t) o acc v d a = ground arith
perform-Accounts _ o acc v d a = ground arith

abbrev pub fill_total : List OrderEvent → ℕ
fill_total = sum_of (λ (e : OrderEvent). e.fill_qty)

fill_total-logged :
    (r : Result OrderEvent) (rest : List OrderEvent)
    → fill_total (logged r rest) ≡ charged r + fill_total rest
fill_total-logged (ok e) rest = refl
fill_total-logged (err x) rest = omega arith

run-Accounts :
    (cs : List Call) (o : OrderStateMachine) (acc : ℕ)
    → IsConsistent o
    → All HasNoDust cs
    → Accounts acc o
    → Accounts (acc + fill_total (run cs o).0) (run cs o).1
unfolding run
run-Accounts [] o acc v d a = ground arith
run-Accounts (c ∷ cs) o acc v d a =
    subst (λ n. Accounts n (run (c ∷ cs) o).1)
      (omega (arith, fill_total-logged (perform c o).0 (run cs (perform c o).1).0))
      (run-Accounts cs (perform c o).1 (acc + charged (perform c o).0) (perform-IsConsistent c o v)
        d.1 (perform-Accounts c o acc v d.0 a))

create_new_unfilled :
    (q : Float) {o : OrderStateMachine}
    → create_new q ≡ ok o
    → eps + eps < o.order_qty
    → o.filled_qty ≡ 0
unfolding create_new
create_new_unfilled q h l = ground arith

-- After any calls without fills of dust on a new order of more than two `_EPS`, the filled quantity
-- and the sum of the quantities of the FILL events differ by at most `_EPS`, and not at all while
-- the order is not FILLED.
pub run_accounts :
    (q : Float) (cs : List Call) {o : OrderStateMachine}
    → create_new q ≡ ok o
    → eps + eps < o.order_qty
    → All HasNoDust cs
    → let (events, o') = run cs o in
      (o'.filled_qty ≤ fill_total events + eps)
      × (fill_total events ≤ o'.filled_qty + eps)
      × ((o'.status ≡ OrderStatus.filled) ⊎ (o'.filled_qty ≡ fill_total events))
run_accounts q cs {o} h l d =
    let total =
      run-Accounts cs o 0 (create_new-IsConsistent q h l) d (inl (create_new_unfilled q h l)) in
    grind (arith, total)

-- A fill of at most `_EPS` on a larger order that is ACKNOWLEDGED without fills, at a time that it
-- accepts, is accepted and lost: the order becomes PARTIALLY_FILLED with nothing filled, a state that
-- its own constructor refuses.
pub dust_fill_lost :
    (o : OrderStateMachine) (qty ts : ℕ)
    → o.status ≡ OrderStatus.acknowledged
    → o.filled_qty ≡ 0
    → eps < o.order_qty
    → 0 < qty
    → qty ≤ eps
    → precedes ts o.last_event_ts_ms ≡ false
    → let o' = (apply_fill (of_nat qty) (of_nat ts) o).1 in
      (o'.status ≡ OrderStatus.partially_filled)
      × (o'.filled_qty ≡ 0)
      × (create (of_nat o'.order_qty) o'.status (of_nat o'.filled_qty) (some (of_nat ts))
          ≡ err partial_status_mismatch)
unfolding apply_fill create
dust_fill_lost o qty ts s f l p d k = ground arith
