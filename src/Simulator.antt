-- ===== src/Simulator.antt =====
-- The passive execution simulator, src/std0_quant/execution/simulator.py.
-- The two objects that the function builds, the order and the queue, and its two lists are the record
-- `Simulation`; the body of its loop is `step`. `Simulator.Run` has the run
-- around the loop, `Simulator.Passive` the checks and the function itself, `Simulator.Inputs` the timestamps from a latency profile.
pub mod Run
pub mod Passive
pub mod Inputs
pub mod Progress
pub mod Cancel
pub mod Loop
pub mod Entries
pub mod Total
mod Tests
use polymarket_quant.Common.{
  ℕ, ◌+◌, Bool, true, false, not, ◌||◌, ◌&&◌, ◌==◌, Option, none, some, List, [], ◌∷◌, ◌++◌, map,
  ltb, leb, abs_diff, sort, if◌then◌else◌,
}
use polymarket_quant.Numeric.{
  Float, Field, Error, Result, ok, err, eps, of_nat, positive_finite, nonnegative_finite,
  trade_precedes_accept, trade_at_accept, cancel_precedes_accept, ambiguous_cancel_fill_race,
}
use polymarket_quant.Action.{Action, ◌>>=◌, ◌>>◌, pure, lift, get, modify}
use polymarket_quant.Order.{
  OrderStatus, OrderStateMachine, remaining_qty, is_terminal, is_cancel_requested, is_fillable,
  mark_sent, acknowledge, request_cancel, acknowledge_cancel, apply_fill,
}
use polymarket_quant.Order.Create
use polymarket_quant.Queue.{FifoQueueModel}
use polymarket_quant.Queue.Create as QueueCreate
use polymarket_quant.Fill.{Fill, FillResult, passive_fill_from_confirmed_trade}
use polymarket_quant.Timestamps.{OrderTimestamps, CancelTimestamps}

-- A confirmed trade at the price of the order; its constructor's checks are in `Simulator.Inputs`.
pub record ConfirmedTradeEvent : Type 0 where
  pub venue_ts_ms : ℕ
  pub traded_qty : ℕ

pub data SimulationEventType : Type 0 where
  order_sent order_venue_accepted cancel_requested cancel_effective confirmed_trade :
      SimulationEventType

pub record SimulationEvent : Type 0 where
  pub event_type : SimulationEventType
  pub event_ts_ms : ℕ
  pub status_after : OrderStatus
  pub queue_ahead_after : ℕ
  pub filled_qty_after : ℕ

pub record PassiveSimulationResult : Type 0 where
  pub final_status : OrderStatus
  pub order_qty : ℕ
  pub filled_qty : ℕ
  pub remaining : ℕ
  pub queue_ahead_qty : ℕ
  pub fills : List Fill
  pub events : List SimulationEvent
  pub order_timestamps : OrderTimestamps
  pub cancel_timestamps : Option CancelTimestamps

-- The local objects of `simulate_passive_order`.
pub record Simulation : Type 0 where
  pub order : OrderStateMachine
  pub queue : FifoQueueModel
  pub fills : List Fill
  pub events : List SimulationEvent

-- A call of a method of one of the objects.
abbrev on_order : {A : Type 0} → Action OrderStateMachine A → Action Simulation A
on_order m s = let (r, o) = m s.order in (r, record s { order = o })

abbrev on_queue : {A : Type 0} → Action FifoQueueModel A → Action Simulation A
on_queue m s = let (r, q) = m s.queue in (r, record s { queue = q })

-- `_event`
abbrev pub event : SimulationEventType → ℕ → Simulation → SimulationEvent
event event_type event_ts_ms s = record {
  event_type = event_type;
  event_ts_ms = event_ts_ms;
  status_after = s.order.status;
  queue_ahead_after = s.queue.queue_ahead_qty;
  filled_qty_after = s.order.filled_qty;
}

-- `events.append(_event(...))`
abbrev pub noted : SimulationEventType → ℕ → Simulation → Simulation
noted event_type ts s = record s { events = s.events ++ event event_type ts s ∷ [] }

-- An entry of `timeline_events`.
pub data Kind : Type 0 where
  cancel_request cancel_effective : Kind
  trade : ℕ → Kind

pub record TimelineEvent : Type 0 where
  pub ts : ℕ
  pub kind : Kind

abbrev rank : Kind → ℕ
rank Kind.cancel_request = 0
rank (Kind.trade _) = 1
rank Kind.cancel_effective = 2

-- The order of the sort key `(item[0], item[1])`.
abbrev pub timeline_le : TimelineEvent → TimelineEvent → Bool
timeline_le a b = ltb a.ts b.ts || (a.ts == b.ts && leb (rank a.kind) (rank b.kind))

-- The branch of the loop for a trade.
step_trade : ℕ → ℕ → ℕ → Action Simulation (Unit {0})
step_trade price ts traded = do
  s ← get
  if not (is_fillable s.order.status) then pure tt else (do
    r ← on_queue (passive_fill_from_confirmed_trade (of_nat price) (of_nat traded))
    if ltb eps r.filled_qty
        then (do
          e ← on_order (apply_fill (of_nat r.filled_qty) (of_nat ts))
          modify (λ p. record p { fills = p.fills ++ r.fills }))
        else pure tt
    modify (noted SimulationEventType.confirmed_trade ts))

unfoldable pub step : ℕ → ℕ → Kind → Action Simulation (Unit {0})
unfolding step_trade
step price ts Kind.cancel_request = do
  e ← on_order (request_cancel (of_nat ts))
  modify (noted SimulationEventType.cancel_requested ts)
step price ts Kind.cancel_effective = do
  s ← get
  if is_cancel_requested s.order.status
      then (do
        e ← on_order (acknowledge_cancel (of_nat ts))
        modify (noted SimulationEventType.cancel_effective ts))
      else pure tt
step price ts (Kind.trade traded) = step_trade price ts traded

-- The loop over the timeline, which a terminal order ends.
unfoldable pub run_timeline : ℕ → List TimelineEvent → Action Simulation (Unit {0})
run_timeline price [] s = (ok tt, s)
run_timeline price (e ∷ es) s = elim (is_terminal s.order) [
  | true ↦ (ok tt, s)
  | false ↦ (step price e.ts e.kind >> run_timeline price es) s
]
