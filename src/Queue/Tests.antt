-- ===== src/Queue/Tests.antt =====
-- An order of 10 grains behind 7 (src/std0_quant/execution/queue_model.py).
use polymarket_quant.Common.{◌+◌, ◌≤◌, ◌≡◌, refl, List, [], ◌∷◌, sum_of, arith}
use polymarket_quant.Numeric.{ok, eps, of_nat, nan}
use polymarket_quant.Queue.{
  FifoQueueModel, QueueFill, on_confirmed_trade, on_same_price_add, on_unexplained_size_decrease,
}
use polymarket_quant.Queue.Create.{create_new}
use polymarket_quant.Queue.Priority.{IsValid}
use polymarket_quant.Queue.Refinement.{
  Observation, observe, watch, traded, exact_fill, watch_refines,
}

abbrev fresh : FifoQueueModel
fresh = record { order_qty = 10; queue_ahead_qty = 7; filled_qty = 0 }

fresh_is_created : create_new (of_nat 10) (of_nat 7) ≡ ok fresh
unfolding create_new
fresh_is_created = refl

abbrev seen : List Observation
seen =
    Observation.trade (of_nat 5)
    ∷ Observation.decrease (of_nat 2)
    ∷ Observation.add (of_nat 30)
    ∷ Observation.trade nan
    ∷ Observation.trade (of_nat 4)
    ∷ []

-- The decrease gives no credit: nine traded units less the seven ahead are two.
watched : (watch seen fresh).filled_qty ≡ 2
unfolding watch observe on_confirmed_trade on_same_price_add on_unexplained_size_decrease
watched = refl

watch_refines_example :
    (exact_fill 10 7 (sum_of traded seen) ≤ (watch seen fresh).filled_qty)
    × ((watch seen fresh).filled_qty ≤ exact_fill 10 7 (sum_of traded seen) + (eps + eps))
watch_refines_example = watch_refines 10 7 seen (omega arith) fresh_is_created

fresh-IsValid : IsValid fresh
fresh-IsValid = ground arith

abbrev nine : QueueFill
nine = record {
  traded_qty = 9;
  queue_consumed_qty = 7;
  own_fill_qty = 2;
  queue_ahead_after = 0;
  remaining_qty_after = 8;
}
