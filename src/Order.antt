-- ===== src/Order.antt =====
-- The order state machine, src/std0_quant/execution/order_state.py.
-- The object is the record `OrderStateMachine`; a method is an `Action` on it. The constructor is
-- in `Order.Create`. `Order.Validity` has what every call keeps, `Order.Lifecycle` the diagram of
-- the statuses and what holds of an order that began as NEW.
pub mod Create
pub mod Accept
pub mod Calls
pub mod Validity
pub mod Lifecycle
pub mod Account
mod Tests
use polymarket_quant.Common.{
  ℕ, ◌+◌, ◌-◌, Bool, true, false, not, ◌||◌, Option, none, some, ltb, leb, abs_diff, if◌then◌else◌,
}
use polymarket_quant.Numeric.{
  Float, Field, eps, positive_finite, nonnegative_finite, fill_not_allowed, fill_exceeds_remaining,
  transition_not_allowed, not_monotonic,
}
use polymarket_quant.Action.{Action, ◌>>=◌, ◌>>◌, pure, lift, get, modify, raise_when}

pub data OrderStatus : Type 0 where
  new sent acknowledged partially_filled cancel_requested cancelled filled expired rejected :
      OrderStatus

pub data EventType : Type 0 where
  sent acknowledged rejected expired cancel_requested cancelled fill : EventType

pub record OrderEvent : Type 0 where
  pub event_type : EventType
  pub event_ts_ms : ℕ
  pub status_before : OrderStatus
  pub status_after : OrderStatus
  pub fill_qty : ℕ

pub record OrderStateMachine : Type 0 where
  pub order_qty : ℕ
  pub status : OrderStatus
  pub filled_qty : ℕ
  pub last_event_ts_ms : Option ℕ

-- `max(0.0, order_qty - filled_qty)`: subtraction on ℕ stops at 0.
abbrev pub remaining_qty : OrderStateMachine → ℕ
remaining_qty o = o.order_qty - o.filled_qty

-- `status in TERMINAL_STATUSES`
abbrev pub is_terminal_status : OrderStatus → Bool
is_terminal_status OrderStatus.cancelled = true
is_terminal_status OrderStatus.filled = true
is_terminal_status OrderStatus.expired = true
is_terminal_status OrderStatus.rejected = true
is_terminal_status _ = false

abbrev pub is_terminal : OrderStateMachine → Bool
is_terminal o = is_terminal_status o.status

-- `_normalize` on the filled quantity: dust becomes 0, and then what is close to the order is it.
abbrev pub snap_filled : ℕ → ℕ → ℕ
snap_filled order_qty q =
    let z = if leb q eps then 0 else q in if leb (abs_diff z order_qty) eps then order_qty else z

abbrev pub normalize : OrderStateMachine → OrderStateMachine
normalize o = record o { filled_qty = snap_filled o.order_qty o.filled_qty }

-- `self.last_event_ts_ms is not None and ts + _EPS < self.last_event_ts_ms`
abbrev pub precedes : ℕ → Option ℕ → Bool
precedes ts none = false
precedes ts (some last) = ltb (ts + eps) last

-- `_checked_ts`
abbrev checked_ts : Float → Action OrderStateMachine ℕ
checked_ts event_ts_ms = do
  ts ← lift (nonnegative_finite event_ts_ms Field.event_ts_ms)
  o ← get
  raise_when (precedes ts o.last_event_ts_ms) not_monotonic
  pure ts

-- `_transition`; `allowed` is the membership test of the set that the caller gives.
transition :
    EventType → Float → (OrderStatus → Bool) → OrderStatus → Action OrderStateMachine OrderEvent
unfolding nonnegative_finite
transition event_type event_ts_ms allowed target = do
  ts ← checked_ts event_ts_ms
  o ← get
  raise_when (not (allowed o.status)) transition_not_allowed
  modify (λ p. record p { status = target; last_event_ts_ms = some ts })
  pure (record {
    event_type = event_type;
    event_ts_ms = ts;
    status_before = o.status;
    status_after = target;
    fill_qty = 0;
  })

abbrev pub is_filled_status : OrderStatus → Bool
is_filled_status OrderStatus.filled = true
is_filled_status _ = false

abbrev is_new : OrderStatus → Bool
is_new OrderStatus.new = true
is_new _ = false

abbrev is_sent : OrderStatus → Bool
is_sent OrderStatus.sent = true
is_sent _ = false

-- `{ACKNOWLEDGED, PARTIALLY_FILLED}`
abbrev pub is_working : OrderStatus → Bool
is_working OrderStatus.acknowledged = true
is_working OrderStatus.partially_filled = true
is_working _ = false

abbrev pub is_cancel_requested : OrderStatus → Bool
is_cancel_requested OrderStatus.cancel_requested = true
is_cancel_requested _ = false

-- `{ACKNOWLEDGED, PARTIALLY_FILLED, CANCEL_REQUESTED}`
abbrev pub is_fillable : OrderStatus → Bool
is_fillable s = is_working s || is_cancel_requested s

unfoldable pub mark_sent : Float → Action OrderStateMachine OrderEvent
unfolding transition
mark_sent t = transition EventType.sent t is_new OrderStatus.sent

unfoldable pub acknowledge : Float → Action OrderStateMachine OrderEvent
unfolding transition
acknowledge t = transition EventType.acknowledged t is_sent OrderStatus.acknowledged

unfoldable pub reject : Float → Action OrderStateMachine OrderEvent
unfolding transition
reject t = transition EventType.rejected t is_sent OrderStatus.rejected

unfoldable pub expire : Float → Action OrderStateMachine OrderEvent
unfolding transition
expire t = transition EventType.expired t is_working OrderStatus.expired

unfoldable pub request_cancel : Float → Action OrderStateMachine OrderEvent
unfolding transition
request_cancel t = transition EventType.cancel_requested t is_working OrderStatus.cancel_requested

unfoldable pub acknowledge_cancel : Float → Action OrderStateMachine OrderEvent
unfolding transition
acknowledge_cancel t = transition EventType.cancelled t is_cancel_requested OrderStatus.cancelled

-- The status after a fill: a cancellation in flight stays in flight.
abbrev pub status_after_fill : OrderStatus → ℕ → OrderStatus
status_after_fill before remaining =
    if leb remaining eps
    then OrderStatus.filled
    else if is_cancel_requested before
    then OrderStatus.cancel_requested
    else OrderStatus.partially_filled

unfoldable pub apply_fill : Float → Float → Action OrderStateMachine OrderEvent
unfolding positive_finite nonnegative_finite
apply_fill fill_qty event_ts_ms = do
  qty ← lift (positive_finite fill_qty Field.fill_qty)
  ts ← checked_ts event_ts_ms
  o ← get
  raise_when (not (is_fillable o.status)) fill_not_allowed
  raise_when (ltb (remaining_qty o + eps) qty) fill_exceeds_remaining
  modify (λ p. record p { filled_qty = p.filled_qty + qty })
  modify normalize
  modify (λ p. record p { status = status_after_fill o.status (remaining_qty p) })
  modify (λ p. record p { last_event_ts_ms = some ts })
  after ← get
  pure (record {
    event_type = EventType.fill;
    event_ts_ms = ts;
    status_before = o.status;
    status_after = after.status;
    fill_qty = qty;
  })
