-- ===== src/Simulator/Passive.antt =====
-- `simulate_passive_order` with its checks (src/std0_quant/execution/simulator.py).
use polymarket_quant.Common.{
  ℕ, ◌+◌, Bool, Option, none, some, List, [], ◌∷◌, ltb, leb, abs_diff, sort, if◌then◌else◌,
}
use polymarket_quant.Numeric.{
  Float, Field, Result, ok, err, eps, of_nat, ◌>>=◌, ◌>>◌, positive_finite, nonnegative_finite,
  trade_precedes_accept, trade_at_accept, cancel_precedes_accept, ambiguous_cancel_fill_race,
}
use polymarket_quant.Order.Create
use polymarket_quant.Queue.Create as QueueCreate
use polymarket_quant.Timestamps.{OrderTimestamps, CancelTimestamps}
use polymarket_quant.Simulator.{ConfirmedTradeEvent, PassiveSimulationResult}
use polymarket_quant.Simulator.Run.{run, timeline, finish}

-- The checks of the trades, in the order of their times.
unfoldable pub check_trades : ℕ → List ConfirmedTradeEvent → Result (Unit {0})
check_trades accept [] = ok tt
check_trades accept (t ∷ ts) =
    let rest = check_trades accept ts in
    if ltb (t.venue_ts_ms + eps) accept
    then err trade_precedes_accept
    else if leb (abs_diff t.venue_ts_ms accept) eps
    then err trade_at_accept
    else rest

unfoldable pub check_race : ℕ → List ConfirmedTradeEvent → Result (Unit {0})
check_race effective [] = ok tt
check_race effective (t ∷ ts) =
    let rest = check_race effective ts in
    if leb (abs_diff t.venue_ts_ms effective) eps then err ambiguous_cancel_fill_race else rest

unfoldable pub check_cancel :
    ℕ → Option CancelTimestamps → List ConfirmedTradeEvent → Result (Unit {0})
unfolding check_race
check_cancel accept none trades = ok tt
check_cancel accept (some c) trades =
    if ltb (c.cancel_send_ts_ms + eps) accept
    then err cancel_precedes_accept
    else check_race c.cancel_effective_ts_ms trades

abbrev pub trade_le : ConfirmedTradeEvent → ConfirmedTradeEvent → Bool
trade_le a b = leb a.venue_ts_ms b.venue_ts_ms

unfoldable pub simulate_passive_order :
    Float
    → Float
    → Float
    → OrderTimestamps
    → List ConfirmedTradeEvent
    → Option CancelTimestamps
    → Result PassiveSimulationResult
unfolding check_trades check_cancel positive_finite nonnegative_finite
simulate_passive_order order_qty order_price displayed_qty_at_accept times trades cancel = do
  qty ← positive_finite order_qty Field.order_qty
  price ← positive_finite order_price Field.order_price
  displayed ← nonnegative_finite displayed_qty_at_accept Field.displayed_qty
  let accept = times.order_venue_accept_ts_ms
  let checked = sort trade_le trades
  check_trades accept checked
  check_cancel accept cancel checked
  order ← Create.create_new (of_nat qty)
  queue ← QueueCreate.create_new (of_nat qty) (of_nat displayed)
  finish times cancel (
      run price times (timeline checked cancel)
        (record { order = order; queue = queue; fills = []; events = [] }))
