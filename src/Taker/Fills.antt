-- ===== src/Taker/Fills.antt =====
-- The fills of a sweep go through the order one after another
-- (src/std0_quant/execution/taker_simulator.py).
use polymarket_quant.Common.{
  ℕ, ◌+◌, ◌-◌, ◌≤◌, ◌<◌, ◌≡◌, ◌∙◌, refl, ◌⊎◌, inl, inr, true, some, List, [], ◌∷◌, ◌++◌, sum_of,
  All, arith, Bool-cases, leb, minimum, leb→le, leb→lt, sym,
}
use mathlib.Core.List.{append-nil, append_assoc}
use polymarket_quant.Numeric.{ok, eps}
use polymarket_quant.Order.{OrderStatus, OrderStateMachine, is_working, remaining_qty}
use polymarket_quant.Order.Accept.{filled_order, apply_fill_accepts}
use polymarket_quant.Fill.{Fill, sweep}
use polymarket_quant.Fill.Sweep.{fill_qty}
use polymarket_quant.Taker.{Taking, TakerEventType, noted, apply_fills}

-- No fill of a sweep is dust.
pub sweep_large :
    (remaining : ℕ) (levels : List (ℕ × ℕ))
    → All (λ (f : Fill). eps < f.qty) (sweep remaining levels).0
unfolding sweep
sweep_large remaining [] = tt
sweep_large remaining ((price, available) ∷ levels) = ground (
  arith,
  sweep_large remaining levels,
  sweep_large (remaining - minimum remaining available) levels,
)

-- The simulation after one fill.
abbrev after_fill : ℕ → Fill → Taking → Taking
after_fill ts f s =
    noted TakerEventType.taker_fill ts
      (record s { order = filled_order s.order f.qty ts; fills = s.fills ++ f ∷ [] })

apply_fills_step :
    (ts : ℕ) (f : Fill) (fs : List Fill) (s : Taking)
    → is_working s.order.status ≡ true
    → s.order.last_event_ts_ms ≡ some ts
    → eps < f.qty
    → f.qty ≤ remaining_qty s.order + eps
    → apply_fills ts (f ∷ fs) s ≡ apply_fills ts fs (after_fill ts f s)
unfolding apply_fills
apply_fills_step ts f fs s w l e r = ground (arith, apply_fill_accepts f.qty ts s.order)

-- The order after a fill that leaves more than `_EPS`, and after one that does not.
after_fill_working :
    (k ts : ℕ) (o : OrderStateMachine)
    → is_working o.status ≡ true
    → eps < k
    → o.filled_qty + k + eps < o.order_qty
    → (is_working (filled_order o k ts).status ≡ true)
      × ((filled_order o k ts).filled_qty ≡ o.filled_qty + k)
after_fill_working k ts o w e r = ground arith

after_fill_filled :
    (k ts : ℕ) (o : OrderStateMachine)
    → eps < k
    → o.filled_qty + k ≤ o.order_qty
    → o.order_qty ≤ o.filled_qty + k + eps
    → ((filled_order o k ts).status ≡ OrderStatus.filled)
      × ((filled_order o k ts).filled_qty ≡ o.order_qty)
after_fill_filled k ts o e r h = ground arith

-- What the fills come to: more than `_EPS` is left, or the order is FILLED and whole.
abbrev pub ComesTo : OrderStateMachine → ℕ → OrderStateMachine → Type 0
ComesTo o total o' =
    ((is_working o'.status ≡ true)
      × (o'.filled_qty ≡ o.filled_qty + total)
      × (o.filled_qty + total + eps < o.order_qty))
    ⊎ ((o'.status ≡ OrderStatus.filled)
        × (o'.filled_qty ≡ o.order_qty)
        × (o.order_qty ≤ o.filled_qty + total + eps))

pub record Goes (ts : ℕ) (fs : List Fill) (s : Taking) : Type 0 where
  pub last : Taking
  pub accepted : apply_fills ts fs s ≡ (ok tt, last)
  pub same_qty : last.order.order_qty ≡ s.order.order_qty
  pub stamp : last.order.last_event_ts_ms ≡ some ts
  pub listed : last.fills ≡ s.fills ++ fs
  pub outcome : ComesTo s.order (sum_of fill_qty fs) last.order

one_fill_outcome :
    (k ts : ℕ) (o : OrderStateMachine)
    → is_working o.status ≡ true
    → eps < k
    → o.filled_qty + k ≤ o.order_qty
    → ComesTo o (k + 0) (filled_order o k ts)
one_fill_outcome k ts o w e r = elim (Bool-cases (leb o.order_qty (o.filled_qty + k + eps))) [
  | inl h ↦
      let p = after_fill_filled k ts o e r (leb→le _ _ h) in
      inr (p.0, p.1, omega (arith, leb→le _ _ h))
  | inr h ↦
      let p = after_fill_working k ts o w e (leb→lt _ _ h) in
      inl (p.0, omega (arith, p.1), omega (arith, leb→lt _ _ h))
]

pub apply_fills_goes :
    (ts : ℕ) (fs : List Fill) (s : Taking)
    → is_working s.order.status ≡ true
    → s.order.last_event_ts_ms ≡ some ts
    → s.order.filled_qty + eps < s.order.order_qty
    → All (λ (f : Fill). eps < f.qty) fs
    → s.order.filled_qty + sum_of fill_qty fs ≤ s.order.order_qty
    → Goes ts fs s
unfolding apply_fills
apply_fills_goes ts [] s w l r a h = record {
  last = s;
  accepted = refl;
  same_qty = refl;
  stamp = l;
  listed = sym (append-nil s.fills);
  outcome = inl (w, omega arith, omega arith);
}
apply_fills_goes ts (f ∷ []) s w l r a h = record {
  last = after_fill ts f s;
  accepted = apply_fills_step ts f [] s w l a.0 (omega arith);
  same_qty = refl;
  stamp = refl;
  listed = refl;
  outcome = one_fill_outcome f.qty ts s.order w a.0 (omega arith);
}
apply_fills_goes ts (f ∷ g ∷ gs) s w l r a h =
    let p = after_fill_working f.qty ts s.order w a.0 (omega arith) in
    let rest =
      apply_fills_goes ts (g ∷ gs) (after_fill ts f s) p.0 refl (omega (arith, p.1)) a.1
        (omega (arith, p.1)) in
    record {
      last = rest.last;
      accepted = apply_fills_step ts f (g ∷ gs) s w l a.0 (omega arith) ∙ rest.accepted;
      same_qty = rest.same_qty;
      stamp = rest.stamp;
      listed = rest.listed ∙ append_assoc s.fills (f ∷ []) (g ∷ gs);
      outcome = ground (arith, rest.outcome, p.1);
    }
