-- ===== src/Fill/Passive.antt =====
-- Fills of a resting order (src/std0_quant/execution/fill_model.py).
use polymarket_quant.Common.{ℕ, ◌<◌, ◌≡◌, arith}
use polymarket_quant.Numeric.{ok, of_nat}
use polymarket_quant.Queue.{FifoQueueModel, remaining_qty, on_confirmed_trade}
use polymarket_quant.Queue.Priority.{own_fill, traded_queue}
use polymarket_quant.Fill.{FillResult, maker_fills, passive_fill_from_confirmed_trade}

abbrev pub passive_result : ℕ → ℕ → FifoQueueModel → FillResult
passive_result price traded q = record {
  requested_qty = remaining_qty q;
  filled_qty = own_fill q traded;
  remaining = remaining_qty (traded_queue q traded);
  fills = maker_fills price (own_fill q traded);
}

pub passive_fill_lem :
    (price traded : ℕ) (q : FifoQueueModel)
    → 0 < price
    → passive_fill_from_confirmed_trade (of_nat price) (of_nat traded) q
      ≡ (ok (passive_result price traded q), traded_queue q traded)
unfolding passive_fill_from_confirmed_trade on_confirmed_trade
passive_fill_lem price traded q p = ground arith
