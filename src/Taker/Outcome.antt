-- ===== src/Taker/Outcome.antt =====
-- IOC and FOK orders against the visible book (src/std0_quant/execution/taker_simulator.py).
use polymarket_quant.Common.{
  ℕ, ◌+◌, ◌-◌, ◌≤◌, ◌<◌, ◌≡◌, ◌∙◌, refl, ◌⊎◌, inl, inr, true, false, none, some, List, [], leb,
  sum_of, arith, Bool-cases, leb→le, leb→lt, if◌then◌else◌,
}
use polymarket_quant.Numeric.{Float, ok, eps, of_nat}
use polymarket_quant.Action.{>>-eq, ◌>>◌}
use polymarket_quant.Order.{OrderStatus, is_working, mark_sent, acknowledge, expire}
use polymarket_quant.Order.Accept.{moved_order, expire_accepts}
use polymarket_quant.Order.Create
use polymarket_quant.Fill.{Side, FillResult, sweep, aggressive_sweep, checked_levels, goes_better}
use polymarket_quant.Fill.Sweep.{visible_qty, sweep_conserves, sweep_takes}
use polymarket_quant.Timestamps.{OrderTimestamps}
use polymarket_quant.Taker.{AggressiveTif, Taking, TakerEventType, noted, apply_fills, settle, run}
use polymarket_quant.Taker.Simulate.{
  AggressiveSimulationResult, finish, result_of, simulate_aggressive_order,
}
use polymarket_quant.Taker.Fills.{sweep_large, Goes, apply_fills_goes}

settle_filled :
    (tif : AggressiveTif) (ts : ℕ) (s : Taking)
    → s.order.status ≡ OrderStatus.filled
    → settle tif ts s ≡ (ok tt, s)
unfolding settle
settle_filled AggressiveTif.ioc ts s h = ground arith
settle_filled AggressiveTif.fok ts s h = ground arith

abbrev expired : TakerEventType → ℕ → Taking → Taking
expired event ts s =
    noted event ts (record s { order = moved_order s.order OrderStatus.expired ts })

settle_working :
    (ts : ℕ) (s : Taking)
    → is_working s.order.status ≡ true
    → s.order.last_event_ts_ms ≡ some ts
    → settle AggressiveTif.ioc ts s ≡ (ok tt, expired TakerEventType.ioc_remainder_expired ts s)
unfolding settle
settle_working ts s w l = ground (arith, expire_accepts ts s.order)

-- What the simulation returns when it fills the order.
abbrev pub IsWhole : ℕ → List (ℕ × ℕ) → AggressiveSimulationResult → Type 0
IsWhole qty checked r =
    (r.final_status ≡ OrderStatus.filled)
    × (r.filled_qty ≡ qty)
    × (r.remaining ≡ 0)
    × (r.fills ≡ (sweep qty checked).0)

module _ (side : Side) (qty : ℕ) (levels : List (Float × Float)) (checked : List (ℕ × ℕ))
    (times : OrderTimestamps) (large : eps + eps < qty)
    (sent : times.order_send_ts_ms ≤ times.order_venue_accept_ts_ms + eps)
    (good : checked_levels levels ≡ ok checked) (ordered : goes_better side checked ≡ false) where
  abbrev accept : ℕ
  accept = times.order_venue_accept_ts_ms

  abbrev left : ℕ
  left = if leb (sweep qty checked).1 eps then 0 else (sweep qty checked).1

  abbrev preview : FillResult
  preview = record {
    requested_qty = qty;
    filled_qty = qty - left;
    remaining = left;
    fills = (sweep qty checked).0;
  }

  previewed : aggressive_sweep side (of_nat qty) levels ≡ ok preview
  unfolding aggressive_sweep
  previewed = ground arith

  abbrev start : Taking
  start = record {
    order = record {
      order_qty = qty;
      status = OrderStatus.new;
      filled_qty = 0;
      last_event_ts_ms = none;
    };
    fills = [];
    events = [];
  }

  -- The simulation once the order is accepted.
  abbrev accepted : Taking
  accepted =
      let s1 : Taking = noted TakerEventType.order_sent times.order_send_ts_ms (record start {
        order = moved_order start.order OrderStatus.sent times.order_send_ts_ms;
      }) in
      noted TakerEventType.order_venue_accepted accept
        (record s1 { order = moved_order s1.order OrderStatus.acknowledged accept })

  order_created : Create.create_new (of_nat qty) ≡ ok start.order
  unfolding Create.create_new
  order_created = ground arith

  simulate_runs :
      (tif : AggressiveTif)
      → simulate_aggressive_order side tif (of_nat qty) levels times
        ≡ finish side tif times (run side tif qty levels times start)
  unfolding simulate_aggressive_order
  simulate_runs tif = ground (arith, order_created)

  goes : Goes accept (sweep qty checked).0 accepted
  goes =
      apply_fills_goes accept (sweep qty checked).0 accepted refl refl (omega arith)
        (sweep_large qty checked) (omega (arith, sweep_conserves qty checked))

  -- The run of an order that is not a FOK order short of the visible quantity.
  run_reaches_fills :
      (tif : AggressiveTif)
      → (tif ≡ AggressiveTif.ioc) ⊎ ((sweep qty checked).1 ≤ eps)
      → run side tif qty levels times start
        ≡ (apply_fills accept (sweep qty checked).0 >> settle tif accept) accepted
  unfolding run mark_sent acknowledge
  run_reaches_fills AggressiveTif.ioc h = ground (arith, previewed)
  run_reaches_fills AggressiveTif.fok h = ground (arith, previewed)

  run_fills :
      (tif : AggressiveTif)
      → (tif ≡ AggressiveTif.ioc) ⊎ ((sweep qty checked).1 ≤ eps)
      → run side tif qty levels times start ≡ settle tif accept goes.last
  run_fills tif h =
      run_reaches_fills tif h
      ∙ >>-eq (apply_fills accept (sweep qty checked).0) (settle tif accept) accepted goes.last
          goes.accepted

  run_fok_short :
      eps < (sweep qty checked).1
      → run side AggressiveTif.fok qty levels times start
        ≡ (ok tt, expired TakerEventType.fok_expired_unfilled accept accepted)
  unfolding run mark_sent acknowledge expire
  run_fok_short h = ground (arith, previewed)

  whole :
      (tif : AggressiveTif)
      → (sweep qty checked).1 ≤ eps
      → (r : AggressiveSimulationResult) × (simulate_aggressive_order side tif
            (of_nat qty)
            levels
            times
          ≡ ok r)
        × IsWhole qty checked r
  whole tif h =
      let filled : goes.last.order.status ≡ OrderStatus.filled =
        ground (arith, goes.outcome, sweep_conserves qty checked) in
      let amount : goes.last.order.filled_qty ≡ qty =
        ground (arith, goes.outcome, sweep_conserves qty checked) in
      (
        result_of side tif times goes.last,
        rw (simulate_runs tif, run_fills tif (inr h), settle_filled tif accept goes.last filled)
            refl,
        (filled, amount, omega (arith, amount, goes.same_qty), goes.listed),
      )

  -- A FOK order of more than two `_EPS`, sent no later than it is accepted, is all or nothing: with
  -- levels that pass the checks, it returns FILLED, whole, with the fills of the sweep if the visible quantity covers it up to `_EPS`, and EXPIRED with no fill if not.
  pub fok_all_or_nothing :
      (r : AggressiveSimulationResult) × (simulate_aggressive_order side AggressiveTif.fok
          (of_nat qty)
          levels
          times
        ≡ ok r)
      × (((qty ≤ sum_of visible_qty checked + eps) × IsWhole qty checked r)
          ⊎ ((sum_of visible_qty checked + eps < qty)
              × (r.final_status ≡ OrderStatus.expired)
              × (r.filled_qty ≡ 0)
              × (r.remaining ≡ qty)
              × (r.fills ≡ [])))
  fok_all_or_nothing = elim (Bool-cases (leb (sweep qty checked).1 eps)) [
    | inl h ↦
        let (r, returns, w) = whole AggressiveTif.fok (leb→le _ _ h) in
        (
          r,
          returns,
          inl (
            omega (arith, leb→le _ _ h, sweep_conserves qty checked, sweep_takes qty checked),
            w,
          ),
        )
    | inr h ↦ (
      result_of side AggressiveTif.fok times
          (expired TakerEventType.fok_expired_unfilled accept accepted),
      rw (simulate_runs AggressiveTif.fok, run_fok_short (leb→lt _ _ h)) refl,
      inr (
        omega (arith, leb→lt _ _ h, sweep_conserves qty checked, sweep_takes qty checked),
        refl,
        refl,
        omega arith,
        refl,
      ),
    )
  ]

  -- An IOC order of more than two `_EPS`, sent no later than it is accepted, takes what is visible: with
  -- levels that pass the checks, it returns with the fills of the sweep, FILLED and whole if the visible quantity covers it up to `_EPS`, and else EXPIRED with
  -- exactly the visible quantity filled.
  pub ioc_takes_visible :
      (r : AggressiveSimulationResult) × (simulate_aggressive_order side AggressiveTif.ioc
          (of_nat qty)
          levels
          times
        ≡ ok r)
      × (((qty ≤ sum_of visible_qty checked + eps) × IsWhole qty checked r)
          ⊎ ((sum_of visible_qty checked + eps < qty)
              × (r.final_status ≡ OrderStatus.expired)
              × (r.filled_qty ≡ sum_of visible_qty checked)
              × (r.fills ≡ (sweep qty checked).0)))
  ioc_takes_visible = elim (Bool-cases (leb (sweep qty checked).1 eps)) [
    | inl h ↦
        let (r, returns, w) = whole AggressiveTif.ioc (leb→le _ _ h) in
        (
          r,
          returns,
          inl (
            omega (arith, leb→le _ _ h, sweep_conserves qty checked, sweep_takes qty checked),
            w,
          ),
        )
    | inr h ↦
        let short : eps < (sweep qty checked).1 = leb→lt _ _ h in
        let working : is_working goes.last.order.status ≡ true =
          ground (arith, goes.outcome, sweep_conserves qty checked) in
        let amount : goes.last.order.filled_qty ≡ sum_of visible_qty checked =
          ground (arith, goes.outcome, sweep_conserves qty checked, sweep_takes qty checked) in
        (
          result_of side AggressiveTif.ioc times
              (expired TakerEventType.ioc_remainder_expired accept goes.last),
          rw
              (
                simulate_runs AggressiveTif.ioc,
                run_fills AggressiveTif.ioc (inl refl),
                settle_working accept goes.last working goes.stamp,
              )
              refl,
          inr (
            omega (arith, short, sweep_conserves qty checked, sweep_takes qty checked),
            refl,
            amount,
            goes.listed,
          ),
        )
  ]
