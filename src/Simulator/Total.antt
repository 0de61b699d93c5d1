-- ===== src/Simulator/Total.antt =====
-- The passive simulation on good inputs: it returns, and what it reports of the fills
-- (src/std0_quant/execution/simulator.py).
use polymarket_quant.Common.{
  ℕ, ◌+◌, ◌≤◌, ◌<◌, ◌≡◌, refl, ◌⊎◌, inl, Option, none, some, List, [], ◌∷◌, abs_diff, leb,
  if◌then◌else◌, sort, sum_of, sum_of-sort, All, All-sort, arith,
}
use polymarket_quant.Numeric.{ok, eps, of_nat}
use polymarket_quant.Order.{OrderStatus, OrderStateMachine, mark_sent, acknowledge}
use polymarket_quant.Order.Create
use polymarket_quant.Queue.{FifoQueueModel}
use polymarket_quant.Queue.Create as QueueCreate
use polymarket_quant.Queue.Refinement.{exact_fill, create_new-Tracks}
use polymarket_quant.Fill.Sweep.{fill_qty}
use polymarket_quant.Timestamps.{OrderTimestamps, CancelTimestamps}
use polymarket_quant.Simulator.{
  ConfirmedTradeEvent, PassiveSimulationResult, Simulation, SimulationEventType, noted,
  TimelineEvent, run_timeline,
}
use polymarket_quant.Simulator.Run.{run, timeline, finish}
use polymarket_quant.Simulator.Passive.{
  simulate_passive_order, check_trades, check_race, check_cancel, trade_le,
}
use polymarket_quant.Simulator.Progress.{IsMaker}
use polymarket_quant.Simulator.Loop.{IsReached, run_timeline-Ends}
use polymarket_quant.Simulator.Entries.{
  IsAfter, CancelsAfter, traded_total, timeline-IsAscending, timeline_in_order, timeline_qty,
}

check_trades_pass :
    (accept : ℕ) (trades : List ConfirmedTradeEvent)
    → All (IsAfter accept) trades
    → check_trades accept trades ≡ ok tt
unfolding check_trades
check_trades_pass accept [] a = refl
check_trades_pass accept (t ∷ ts) a = ground (arith, check_trades_pass accept ts a.1)

-- No trade is within `_EPS` of the time at which the cancellation is effective.
abbrev pub HasNoRace : Option CancelTimestamps → ConfirmedTradeEvent → Type 0
HasNoRace none t = Unit
HasNoRace (some c) t = eps < abs_diff t.venue_ts_ms c.cancel_effective_ts_ms

check_race_pass :
    (c : CancelTimestamps) (trades : List ConfirmedTradeEvent)
    → All (HasNoRace (some c)) trades
    → check_race c.cancel_effective_ts_ms trades ≡ ok tt
unfolding check_race
check_race_pass c [] a = refl
check_race_pass c (t ∷ ts) a = ground (arith, check_race_pass c ts a.1)

check_cancel_pass :
    (accept : ℕ) (cancel : Option CancelTimestamps) (trades : List ConfirmedTradeEvent)
    → CancelsAfter accept cancel
    → All (HasNoRace cancel) trades
    → check_cancel accept cancel trades ≡ ok tt
unfolding check_cancel
check_cancel_pass accept none trades h a = refl
check_cancel_pass accept (some c) trades h a = ground (arith, check_race_pass c trades a)

-- The simulation once the order is accepted.
abbrev accepted : ℕ → ℕ → OrderTimestamps → Simulation
accepted qty ahead times =
    let order : OrderStatus → Option ℕ → OrderStateMachine =
      λ s t. record { order_qty = qty; status = s; filled_qty = 0; last_event_ts_ms = t } in
    let queue : FifoQueueModel = record {
      order_qty = qty;
      queue_ahead_qty = ahead;
      filled_qty = 0;
    } in
    let s1 : Simulation = record {
      order = order OrderStatus.sent (some times.order_send_ts_ms);
      queue = queue;
      fills = [];
      events = [];
    } in
    let s2 : Simulation = noted SimulationEventType.order_sent times.order_send_ts_ms s1 in
    noted SimulationEventType.order_venue_accepted times.order_venue_accept_ts_ms
      (record s2 { order = order OrderStatus.acknowledged (some times.order_venue_accept_ts_ms) })

run_starts :
    (qty ahead price : ℕ) (times : OrderTimestamps) (entries : List TimelineEvent)
    → times.order_send_ts_ms ≤ times.order_venue_accept_ts_ms + eps
    → run price times entries (record {
      order = record {
        order_qty = qty;
        status = OrderStatus.new;
        filled_qty = 0;
        last_event_ts_ms = none;
      };
      queue = record { order_qty = qty; queue_ahead_qty = ahead; filled_qty = 0 };
      fills = [];
      events = [];
    })
      ≡ run_timeline price entries (accepted qty ahead times)
unfolding run mark_sent acknowledge
run_starts qty ahead price times entries h = ground arith

-- What the simulation of an order of `qty` behind `displayed` reports.
pub record Reports (qty price displayed total : ℕ) (r : PassiveSimulationResult) : Type 0 where
  pub same_qty : r.order_qty ≡ qty
  pub filled_and_remaining : r.filled_qty + r.remaining ≡ qty
  pub priority : r.filled_qty ≤ exact_fill qty displayed total + (eps + eps)
  pub fills_le : sum_of fill_qty r.fills ≤ r.filled_qty + eps
  pub filled_le : r.filled_qty ≤ sum_of fill_qty r.fills + eps
  pub exact : (r.final_status ≡ OrderStatus.filled) ⊎ (sum_of fill_qty r.fills ≡ r.filled_qty)
  pub whole : r.final_status ≡ OrderStatus.filled → r.filled_qty ≡ qty
  pub makers : All (IsMaker price) r.fills

finish-Reports :
    (qty price displayed seen total : ℕ) (times : OrderTimestamps)
    (cancel : Option CancelTimestamps) (s : Simulation)
    → seen ≤ total
    → IsReached qty displayed price seen s
    → (r : PassiveSimulationResult) × (finish times cancel (ok tt, s) ≡ ok r)
      × Reports qty price displayed total r
finish-Reports qty price displayed seen total times cancel s h r = (
  _,
  refl,
  record {
    same_qty = r.0.same_qty;
    filled_and_remaining = ground (arith, r.0);
    priority = ground (arith, r.0);
    fills_le = ground (arith, r.0.accounts);
    filled_le = ground (arith, r.0.accounts);
    exact = ground (arith, r.0.accounts);
    whole = ground (arith, r.0);
    makers = r.1;
  },
)

-- The queue ahead at the acceptance.
abbrev ahead_of : ℕ → ℕ
ahead_of displayed = if leb displayed eps then 0 else displayed

order_created :
    (qty : ℕ)
    → eps + eps < qty
    → Create.create_new (of_nat qty)
      ≡ ok (record {
        order_qty = qty;
        status = OrderStatus.new;
        filled_qty = 0;
        last_event_ts_ms = none;
      })
unfolding Create.create_new
order_created qty h = ground arith

queue_created :
    (qty displayed : ℕ)
    → eps + eps < qty
    → QueueCreate.create_new (of_nat qty) (of_nat displayed)
      ≡ ok (record { order_qty = qty; queue_ahead_qty = ahead_of displayed; filled_qty = 0 })
unfolding QueueCreate.create_new
queue_created qty displayed h = ground arith

accepted-IsReached :
    (qty displayed price : ℕ) (times : OrderTimestamps)
    → eps + eps < qty
    → IsReached qty displayed price 0 (accepted qty (ahead_of displayed) times)
accepted-IsReached qty displayed price times large = (
  record {
    same_qty = refl;
    fits = refl;
    active = inl refl;
    tracks = create_new-Tracks qty displayed (omega arith) (queue_created qty displayed large);
    behind = omega arith;
    accounts = inl refl;
  },
  tt,
)

module _ (qty price displayed : ℕ) (times : OrderTimestamps) (trades : List ConfirmedTradeEvent)
    (cancel : Option CancelTimestamps) (large : eps + eps < qty) (positive : 0 < price)
    (sent : times.order_send_ts_ms ≤ times.order_venue_accept_ts_ms + eps)
    (after : All (IsAfter times.order_venue_accept_ts_ms) trades)
    (cancels : CancelsAfter times.order_venue_accept_ts_ms cancel)
    (no_race : All (HasNoRace cancel) trades) where
  abbrev checked : List ConfirmedTradeEvent
  checked = sort trade_le trades

  simulate_runs :
      simulate_passive_order (of_nat qty) (of_nat price) (of_nat displayed) times trades cancel
      ≡ finish times cancel
          (run_timeline price (timeline checked cancel) (accepted qty (ahead_of displayed) times))
  unfolding simulate_passive_order
  simulate_runs = ground (
    arith,
    check_trades_pass times.order_venue_accept_ts_ms checked
        (All-sort trade_le (IsAfter times.order_venue_accept_ts_ms) trades after),
    check_cancel_pass times.order_venue_accept_ts_ms cancel checked cancels
        (All-sort trade_le (HasNoRace cancel) trades no_race),
    order_created qty large,
    queue_created qty displayed large,
    run_starts qty (ahead_of displayed) price times (timeline checked cancel) sent,
  )

  -- With an order of more than two `_EPS` at a positive price, timestamps of the order and of a
  -- cancellation that do not go back, and trades that come after the acceptance and not at the time of
  -- the cancellation, in whatever order they are listed, the simulation returns. The filled and the
  -- remaining quantity make up the order; the fills are maker fills at the price of the order which
  -- add up to the filled quantity, up to `_EPS` if it is FILLED; a FILLED order is filled whole; and no
  -- more is filled than exact price-time priority behind the displayed quantity gives, up to two `_EPS`.
  pub simulate_total :
      (r : PassiveSimulationResult) × (simulate_passive_order
          (of_nat qty)
          (of_nat price)
          (of_nat displayed)
          times
          trades
          cancel
        ≡ ok r)
      × Reports qty price displayed (traded_total trades) r
  simulate_total =
      let accept = times.order_venue_accept_ts_ms in
      let ends =
        run_timeline-Ends qty displayed price large positive (timeline checked cancel) 0
          (accepted qty (ahead_of displayed) times)
          (accepted-IsReached qty displayed price times large) (timeline-IsAscending checked cancel)
          (timeline_in_order accept checked cancel (All-sort trade_le (IsAfter accept) trades after)
            cancels)
          (omega (arith, timeline_qty checked cancel)) in
      let (r, returns, reports) =
        finish-Reports qty price displayed ends.seen (traded_total trades) times cancel ends.last
          (omega (
            arith,
            ends.seen_le,
            timeline_qty checked cancel,
            sum_of-sort trade_le (λ (t : ConfirmedTradeEvent). t.traded_qty) trades,
          ))
          ends.reached in
      (r, rw (simulate_runs, ends.accepted) returns, reports)
