-- ===== src/Taker/Tests.antt =====
-- Orders of 10 and 20 grains against 14 visible ones (src/std0_quant/execution/taker_simulator.py).
use polymarket_quant.Common.{ℕ, ◌+◌, ◌≤◌, ◌<◌, ◌≡◌, refl, ◌⊎◌, List, [], ◌∷◌, sum_of, arith}
use polymarket_quant.Numeric.{Float, ok, eps, of_nat}
use polymarket_quant.Order.{OrderStatus}
use polymarket_quant.Fill.{Side, checked_levels, sweep}
use polymarket_quant.Fill.Sweep.{visible_qty}
use polymarket_quant.Timestamps.{OrderTimestamps}
use polymarket_quant.Taker.{AggressiveTif}
use polymarket_quant.Taker.Simulate.{AggressiveSimulationResult, simulate_aggressive_order}
use polymarket_quant.Taker.Outcome.{fok_all_or_nothing, ioc_takes_visible, IsWhole}

abbrev asks : List (ℕ × ℕ)
asks = (50, 4) ∷ (52, 1) ∷ (55, 9) ∷ []

abbrev levels : List (Float × Float)
levels = (of_nat 50, of_nat 4) ∷ (of_nat 52, of_nat 1) ∷ (of_nat 55, of_nat 9) ∷ []

abbrev times : OrderTimestamps
times = record {
  order_send_ts_ms = 100;
  order_venue_arrival_ts_ms = 120;
  order_venue_accept_ts_ms = 124;
  order_ack_receive_ts_ms = 144;
}

levels_checked : checked_levels levels ≡ ok asks
unfolding checked_levels
levels_checked = refl

fok_all_or_nothing_example :
    (r : AggressiveSimulationResult) × (simulate_aggressive_order Side.buy AggressiveTif.fok
        (of_nat 20)
        levels
        times
      ≡ ok r)
    × (((20 ≤ sum_of visible_qty asks + eps) × IsWhole 20 asks r)
        ⊎ ((sum_of visible_qty asks + eps < 20)
            × (r.final_status ≡ OrderStatus.expired)
            × (r.filled_qty ≡ 0)
            × (r.remaining ≡ 20)
            × (r.fills ≡ [])))
fok_all_or_nothing_example =
    fok_all_or_nothing Side.buy 20 levels asks times (omega arith) (omega arith) levels_checked refl

ioc_takes_visible_example :
    (r : AggressiveSimulationResult) × (simulate_aggressive_order Side.buy AggressiveTif.ioc
        (of_nat 20)
        levels
        times
      ≡ ok r)
    × (((20 ≤ sum_of visible_qty asks + eps) × IsWhole 20 asks r)
        ⊎ ((sum_of visible_qty asks + eps < 20)
            × (r.final_status ≡ OrderStatus.expired)
            × (r.filled_qty ≡ sum_of visible_qty asks)
            × (r.fills ≡ (sweep 20 asks).0)))
ioc_takes_visible_example =
    ioc_takes_visible Side.buy 20 levels asks times (omega arith) (omega arith) levels_checked refl
