-- ===== src/Taker.antt =====
-- The taker simulator, src/std0_quant/execution/taker_simulator.py. The function's local order and its
-- two lists are the record `Taking`. The side and the time in force are those that the checks of their
-- spelling let through. `Taker.Simulate` has the function, `Taker.Outcome` what it guarantees.
pub mod Simulate
pub mod Fills
pub mod Outcome
pub mod Prices
mod Tests
use polymarket_quant.Common.{
  ℕ, ◌+◌, Bool, true, false, not, ◌&&◌, List, [], ◌∷◌, ◌++◌, if◌then◌else◌,
}
use polymarket_quant.Numeric.{Float, Result, ok, err, of_nat, fok_assertion}
use polymarket_quant.Action.{Action, ◌>>=◌, ◌>>◌, pure, lift, get, modify, raise_when}
use polymarket_quant.Order.{
  OrderStatus, OrderStateMachine, remaining_qty, is_filled_status, mark_sent, acknowledge, expire,
  apply_fill,
}
use polymarket_quant.Fill.{Side, Fill, aggressive_sweep, is_fully_filled}
use polymarket_quant.Timestamps.{OrderTimestamps}

pub data AggressiveTif : Type 0 where
  ioc fok : AggressiveTif

pub data TakerEventType : Type 0 where
  order_sent order_venue_accepted fok_expired_unfilled taker_fill ioc_remainder_expired :
      TakerEventType

pub record AggressiveSimulationEvent : Type 0 where
  pub event_type : TakerEventType
  pub event_ts_ms : ℕ
  pub status_after : OrderStatus
  pub filled_qty_after : ℕ

pub record Taking : Type 0 where
  pub order : OrderStateMachine
  pub fills : List Fill
  pub events : List AggressiveSimulationEvent

abbrev pub on_order : {A : Type 0} → Action OrderStateMachine A → Action Taking A
on_order m s = let (r, o) = m s.order in (r, record s { order = o })

-- `events.append(_event(...))`
abbrev pub noted : TakerEventType → ℕ → Taking → Taking
noted event_type ts s =
    let e : AggressiveSimulationEvent = record {
      event_type = event_type;
      event_ts_ms = ts;
      status_after = s.order.status;
      filled_qty_after = s.order.filled_qty;
    } in
    record s { events = s.events ++ e ∷ [] }

-- `for fill in preview.fills`
pub apply_fills : ℕ → List Fill → Action Taking (Unit {0})
apply_fills ts [] = pure tt
apply_fills ts (f ∷ fs) = do
  e ← on_order (apply_fill (of_nat f.qty) (of_nat ts))
  modify (λ s. record s { fills = s.fills ++ f ∷ [] })
  modify (noted TakerEventType.taker_fill ts)
  apply_fills ts fs

abbrev pub is_fok : AggressiveTif → Bool
is_fok AggressiveTif.fok = true
is_fok AggressiveTif.ioc = false

-- What follows the fills.
pub settle : AggressiveTif → ℕ → Action Taking (Unit {0})
settle AggressiveTif.ioc ts = do
  s ← get
  if is_filled_status s.order.status then pure tt else (do
    e ← on_order (expire (of_nat ts))
    modify (noted TakerEventType.ioc_remainder_expired ts))
settle AggressiveTif.fok ts = do
  s ← get
  raise_when (not (is_filled_status s.order.status)) fok_assertion

-- From `order.mark_sent` to the end.
unfoldable pub run :
    Side → AggressiveTif → ℕ → List (Float × Float) → OrderTimestamps → Action Taking (Unit {0})
unfolding apply_fills settle
run side tif order_qty levels times = do
  let accept = times.order_venue_accept_ts_ms
  e ← on_order (mark_sent (of_nat times.order_send_ts_ms))
  modify (noted TakerEventType.order_sent times.order_send_ts_ms)
  a ← on_order (acknowledge (of_nat accept))
  modify (noted TakerEventType.order_venue_accepted accept)
  preview ← lift (aggressive_sweep side (of_nat order_qty) levels)
  if is_fok tif && not (is_fully_filled preview)
      then (do
        x ← on_order (expire (of_nat accept))
        modify (noted TakerEventType.fok_expired_unfilled accept))
      else (do apply_fills accept preview.fills; settle tif accept)
