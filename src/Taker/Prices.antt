-- ===== src/Taker/Prices.antt =====
-- The fills that a simulation reports against the levels that it was given
-- (src/std0_quant/execution/taker_simulator.py).
use polymarket_quant.Common.{
  true, false, subst, sym, ◌&&◌, not, ℕ, ◌-◌, ◌≤◌, ◌<◌, ◌≡◌, List, [], ◌∷◌, ◌++◌, All, All-append,
  arith, minimum, if◌then◌else◌,
}
use polymarket_quant.Numeric.{
  Result, ok, err, Float, Field, eps, of_nat, positive_finite, bind_cases,
}
use polymarket_quant.Action.{Action, ◌>>◌, ◌>>=◌, >>-cases, >>=-cases, modify, lift}
use polymarket_quant.Order.{OrderStateMachine, apply_fill, expire, mark_sent, acknowledge}
use polymarket_quant.Order.Create
use polymarket_quant.Fill.{
  Side, Fill, FillResult, checked_levels, sweep, aggressive_sweep, is_fully_filled,
}
use polymarket_quant.Timestamps.{OrderTimestamps}
use polymarket_quant.Taker.{
  AggressiveTif, Taking, TakerEventType, noted, on_order, is_fok, apply_fills, settle, run,
}
use polymarket_quant.Taker.Simulate.{AggressiveSimulationResult, finish, simulate_aggressive_order}

-- A fill of more than `_EPS` at no more than `top`.
abbrev pub IsCheap : ℕ → Fill → Type 0
IsCheap top f = (f.price ≤ top) × (eps < f.qty)

abbrev pub LevelsBelow : ℕ → Result (List (ℕ × ℕ)) → Type 0
LevelsBelow top (err _) = Unit
LevelsBelow top (ok ls) = All (λ (l : ℕ × ℕ). l.0 ≤ top) ls

sweep-IsCheap :
    (top remaining : ℕ) (ls : List (ℕ × ℕ))
    → All (λ (l : ℕ × ℕ). l.0 ≤ top) ls
    → All (IsCheap top) (sweep remaining ls).0
unfolding sweep
sweep-IsCheap top remaining [] a = tt
sweep-IsCheap top remaining ((price, available) ∷ ls) a = ground (
  arith,
  sweep-IsCheap top remaining ls a.1,
  sweep-IsCheap top (remaining - minimum remaining available) ls a.1,
)

module _ (top : ℕ) where
  abbrev AllCheap : Result FillResult → Type 0
  AllCheap (err _) = Unit
  AllCheap (ok r) = All (IsCheap top) r.fills

  aggressive_sweep-AllCheap :
      (side : Side) (qty : Float) (ls : List (Float × Float))
      → LevelsBelow top (checked_levels ls)
      → AllCheap (aggressive_sweep side qty ls)
  unfolding aggressive_sweep
  aggressive_sweep-AllCheap side qty ls b = grind (arith, sweep-IsCheap top)

  apply_fills-IsCheap :
      (ts : ℕ) (fs : List Fill) (s : Taking)
      → All (IsCheap top) s.fills
      → All (IsCheap top) fs
      → All (IsCheap top) (apply_fills ts fs s).1.fills
  unfolding apply_fills
  apply_fills-IsCheap ts [] s a b = a
  apply_fills-IsCheap ts (f ∷ fs) s a b =
      let next : Taking = noted TakerEventType.taker_fill ts (record s {
        order = (apply_fill (of_nat f.qty) (of_nat ts) s.order).1;
        fills = s.fills ++ f ∷ [];
      }) in
      let more = All-append (IsCheap top) s.fills (f ∷ []) a (b.0, tt) in
      >>=-cases (λ r. All (IsCheap top) r.1.fills)
        (on_order (apply_fill (of_nat f.qty) (of_nat ts)))
        (λ e.
          modify (λ t. record t { fills = t.fills ++ f ∷ [] })
          >> modify (noted TakerEventType.taker_fill ts)
          >> apply_fills ts fs)
        s (λ e. a) (λ e h. apply_fills-IsCheap ts fs next more b.1)

  settle_fills : (tif : AggressiveTif) (ts : ℕ) (s : Taking) → (settle tif ts s).1.fills ≡ s.fills
  unfolding settle
  settle_fills tif ts s = ground arith

  settle-IsCheap :
      (tif : AggressiveTif) (ts : ℕ) (s : Taking)
      → All (IsCheap top) s.fills
      → All (IsCheap top) (settle tif ts s).1.fills
  settle-IsCheap tif ts s a = subst (All (IsCheap top)) (sym (settle_fills tif ts s)) a

  abbrev expired : ℕ → Action Taking (Unit {0})
  expired accept = on_order (expire (of_nat accept)) >>= λ x.
      modify (noted TakerEventType.fok_expired_unfilled accept)

  abbrev executed : AggressiveTif → ℕ → FillResult → Action Taking (Unit {0})
  executed tif accept preview = apply_fills accept preview.fills >> settle tif accept

  abbrev Cheap : Result (Unit {0}) × Taking → Type 0
  Cheap r = All (IsCheap top) r.1.fills

  from_preview-Cheap :
      (tif : AggressiveTif) (accept : ℕ) (preview : FillResult) (s : Taking)
      → All (IsCheap top) s.fills
      → All (IsCheap top) preview.fills
      → Cheap (
          (if is_fok tif && not (is_fully_filled preview)
              then expired accept
              else executed tif accept preview)
            s)
  from_preview-Cheap tif accept preview s a b =
      elim (is_fok tif && not (is_fully_filled preview))
        as (λ c. Cheap ((if c then expired accept else executed tif accept preview) s)) [
          | true ↦
              >>=-cases Cheap (on_order (expire (of_nat accept)))
                (λ x. modify (noted TakerEventType.fok_expired_unfilled accept)) s (λ e. a)
                (λ e k. a)
          | false ↦
              let t : Taking = (apply_fills accept preview.fills s).1 in
              let all = apply_fills-IsCheap accept preview.fills s a b in
              >>-cases Cheap (apply_fills accept preview.fills) (settle tif accept) s (λ e. all)
                (settle-IsCheap tif accept t all)
        ]

  module _ (side : Side) (tif : AggressiveTif) (qty : ℕ) (levels : List (Float × Float))
      (times : OrderTimestamps) (below : LevelsBelow top (checked_levels levels)) where
    abbrev accept : ℕ
    accept = times.order_venue_accept_ts_ms

    abbrev preview : Result FillResult
    preview = aggressive_sweep side (of_nat qty) levels

    abbrev go_on : FillResult → Action Taking (Unit {0})
    go_on p =
        if is_fok tif && not (is_fully_filled p) then expired accept else executed tif accept p

    abbrev from_accept : Action Taking (Unit {0})
    from_accept = lift preview >>= go_on

    abbrev from_sent : Action Taking (Unit {0})
    from_sent = on_order (acknowledge (of_nat accept)) >>= λ a.
        modify (noted TakerEventType.order_venue_accepted accept) >> from_accept

    from_accept-Cheap : (s : Taking) → All (IsCheap top) s.fills → Cheap (from_accept s)
    from_accept-Cheap s a =
        >>=-cases Cheap (lift preview) go_on s (λ e. a)
          (λ p k.
            from_preview-Cheap tif accept p s a
              (subst AllCheap k (aggressive_sweep-AllCheap side (of_nat qty) levels below)))

    from_sent-Cheap : (s : Taking) → All (IsCheap top) s.fills → Cheap (from_sent s)
    from_sent-Cheap s a =
        let t : Taking = (on_order (acknowledge (of_nat accept)) s).1 in
        >>=-cases Cheap (on_order (acknowledge (of_nat accept)))
          (λ e. modify (noted TakerEventType.order_venue_accepted accept) >> from_accept) s (λ e. a)
          (λ e k. from_accept-Cheap (noted TakerEventType.order_venue_accepted accept t) a)

    run-Cheap : (s : Taking) → All (IsCheap top) s.fills → Cheap (run side tif qty levels times s)
    unfolding run
    run-Cheap s a =
        let send : ℕ = times.order_send_ts_ms in
        let t : Taking = (on_order (mark_sent (of_nat send)) s).1 in
        >>=-cases Cheap (on_order (mark_sent (of_nat send)))
          (λ e. modify (noted TakerEventType.order_sent send) >> from_sent) s (λ e. a)
          (λ e k. from_sent-Cheap (noted TakerEventType.order_sent send t) a)

  abbrev Found : Result AggressiveSimulationResult → Type 0
  Found (err _) = Unit
  Found (ok r) = All (IsCheap top) r.fills

  finish-Cheap :
      (side : Side) (tif : AggressiveTif) (times : OrderTimestamps) (r : Result (Unit {0}) × Taking)
      → Cheap r
      → Found (finish side tif times r)
  finish-Cheap side tif times (err e, s) c = tt
  finish-Cheap side tif times (ok u, s) c = c

  module _ (side : Side) (tif : AggressiveTif) (qty : Float) (levels : List (Float × Float))
      (times : OrderTimestamps) (below : LevelsBelow top (checked_levels levels)) where
    -- The fills of a simulation, on levels of which none is above `top`.
    simulated-Found : Found (simulate_aggressive_order side tif qty levels times)
    unfolding simulate_aggressive_order
    simulated-Found =
        let start : OrderStateMachine → Taking =
          λ o. record { order = o; fills = []; events = [] } in
        bind_cases Found (positive_finite qty Field.order_qty) _ (λ e. tt)
          (λ n h.
            bind_cases Found (Create.create_new (of_nat n)) _ (λ e. tt)
              (λ o k.
                finish-Cheap side tif times _
                  (run-Cheap side tif n levels times below (start o) tt)))

    pub simulated-IsCheap :
        {r : AggressiveSimulationResult}
        → simulate_aggressive_order side tif qty levels times ≡ ok r
        → All (IsCheap top) r.fills
    simulated-IsCheap h = subst Found h simulated-Found
