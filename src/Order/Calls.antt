-- ===== src/Order/Calls.antt =====
-- Sequences of calls on one order, for the properties of whole lives of an order. A caller that
-- catches the exception of a refused call goes on with the order as that call left it.
use polymarket_quant.Common.{List, [], ◌∷◌, ◌<◌}
use polymarket_quant.Numeric.{Float, Result, ok, err, eps, finite}
use polymarket_quant.Common.Int.{pos}
use polymarket_quant.Action.{Action}
use polymarket_quant.Order.{OrderEvent, OrderStateMachine}
use polymarket_quant.Order

pub data Call : Type 0 where
  mark_sent acknowledge reject expire request_cancel acknowledge_cancel : Float → Call
  apply_fill : Float → Float → Call

unfoldable pub perform : Call → Action OrderStateMachine OrderEvent
perform (mark_sent t) = Order.mark_sent t
perform (acknowledge t) = Order.acknowledge t
perform (reject t) = Order.reject t
perform (expire t) = Order.expire t
perform (request_cancel t) = Order.request_cancel t
perform (acknowledge_cancel t) = Order.acknowledge_cancel t
perform (apply_fill q t) = Order.apply_fill q t

abbrev pub logged : Result OrderEvent → List OrderEvent → List OrderEvent
logged (ok e) rest = e ∷ rest
logged (err _) rest = rest

-- The events of the accepted calls, and the order at the end.
unfoldable pub run : List Call → OrderStateMachine → List OrderEvent × OrderStateMachine
run [] o = ([], o)
run (c ∷ cs) o =
    let (r, o') = perform c o in let (events, last) = run cs o' in (logged r events, last)

-- A quantity that is not dust: if it is a number at all, it is more than `_EPS`.
abbrev IsLarge : Float → Type 0
IsLarge (finite (pos n)) = eps < n
IsLarge _ = Unit

-- The call brings no fill of dust.
abbrev pub HasNoDust : Call → Type 0
HasNoDust (apply_fill q _) = IsLarge q
HasNoDust _ = Unit
