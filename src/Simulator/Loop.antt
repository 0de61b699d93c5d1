-- ===== src/Simulator/Loop.antt =====
-- The loop of the simulation over a sorted timeline ends with no exception, and keeps the order and
-- its queue linked (src/std0_quant/execution/simulator.py).
use polymarket_quant.Common.{
  ℕ, ◌+◌, ◌≤◌, ◌<◌, ◌≡◌, ◌∙◌, refl, subst, ◌⊎◌, inl, inr, true, false, Option, some, List, [], ◌∷◌,
  ◌++◌, ltb, sum_of, All, All-append, IsAscending, arith, Bool-cases, if◌then◌else◌, ltb→lt,
}
use polymarket_quant.Numeric.{ok, eps}
use polymarket_quant.Action.{>>-eq}
use polymarket_quant.Order.{OrderStatus, is_fillable, is_terminal, is_cancel_requested, precedes}
use polymarket_quant.Order.Accept.{filled_order, moved_order}
use polymarket_quant.Queue.Priority.{own_fill, traded_queue}
use polymarket_quant.Fill.{maker_fills}
use polymarket_quant.Simulator.{
  Simulation, SimulationEventType, noted, Kind, TimelineEvent, step, run_timeline,
}
use polymarket_quant.Simulator.Progress.{
  IsLinked, IsMaker, big_trade-IsLinked, small_trade-IsLinked, step_big_trade, step_small_trade,
}
use polymarket_quant.Simulator.Cancel.{
  requested-IsLinked, cancelled-IsLinked, step_request, step_effective, step_effective_ignored,
}

-- The units that an entry trades, and whether it requests a cancellation.
abbrev pub entry_qty : TimelineEvent → ℕ
entry_qty e = elim e.kind [ Kind.trade n ↦ n | _ ↦ 0 ]

abbrev pub requests : TimelineEvent → ℕ
requests e = elim e.kind [ Kind.cancel_request ↦ 1 | _ ↦ 0 ]

abbrev pub pending : OrderStatus → ℕ
pending s = if is_cancel_requested s then 1 else 0

abbrev pub IsReached : ℕ → ℕ → ℕ → ℕ → Simulation → Type 0
IsReached order_qty displayed price total s =
    IsLinked order_qty displayed total s.order s.queue s.fills × All (IsMaker price) s.fills

module _ (order_qty displayed price : ℕ) (large : eps + eps < order_qty)
    (positive : 0 < price) where
  maker_fills-IsMaker : (k : ℕ) → All (IsMaker price) (maker_fills price k)
  maker_fills-IsMaker k = elim (Bool-cases (ltb eps k)) [
    | inl e ↦ rw e ((refl, refl, ltb→lt _ _ e), tt)
    | inr e ↦ rw e tt
  ]

  run_timeline_stops :
      (e : TimelineEvent) (es : List TimelineEvent) (s : Simulation)
      → is_terminal s.order ≡ true
      → run_timeline price (e ∷ es) s ≡ (ok tt, s)
  unfolding run_timeline
  run_timeline_stops e es s t = rw (t, run_timeline)

  run_timeline_steps :
      (e : TimelineEvent) (es : List TimelineEvent) (s s' : Simulation)
      → is_terminal s.order ≡ false
      → step price e.ts e.kind s ≡ (ok tt, s')
      → run_timeline price (e ∷ es) s ≡ run_timeline price es s'
  unfolding run_timeline
  run_timeline_steps e es s s' t a =
      rw (t, run_timeline) (>>-eq (step price e.ts e.kind) (run_timeline price es) s s' a)

  -- What a step leads to.
  record Leads (total : ℕ) (e : TimelineEvent) (s s' : Simulation) : Type 0 where
    accepted : step price e.ts e.kind s ≡ (ok tt, s')
    reached : IsReached order_qty displayed price (total + entry_qty e) s'
    stamp :
        (s'.order.last_event_ts_ms ≡ some e.ts)
        ⊎ (s'.order.last_event_ts_ms ≡ s.order.last_event_ts_ms)
    budget : pending s'.order.status ≤ pending s.order.status + requests e

  step-Leads :
      (total ts : ℕ) (k : Kind) (s : Simulation)
      → IsReached order_qty displayed price total s
      → is_fillable s.order.status ≡ true
      → precedes ts s.order.last_event_ts_ms ≡ false
      → requests (record { ts = ts; kind = k }) + pending s.order.status ≤ 1
      → (s' : Simulation) × Leads total (record { ts = ts; kind = k }) s s'
  step-Leads total ts Kind.cancel_request s r f p b = (
    noted SimulationEventType.cancel_requested ts
        (record s { order = moved_order s.order OrderStatus.cancel_requested ts }),
    record {
      accepted = step_request price ts s p f (ground arith);
      reached = (
        subst
            (λ t.
              IsLinked order_qty displayed t (moved_order s.order OrderStatus.cancel_requested ts)
                s.queue s.fills)
            (omega arith)
            (requested-IsLinked order_qty displayed total large ts s.order s.queue s.fills r.0 f),
        r.1,
      );
      stamp = inl refl;
      budget = omega arith;
    },
  )
  step-Leads total ts Kind.cancel_effective s r f p b =
      elim (Bool-cases (is_cancel_requested s.order.status)) [
        | inl c ↦ (
          noted SimulationEventType.cancel_effective ts
              (record s { order = moved_order s.order OrderStatus.cancelled ts }),
          record {
            accepted = step_effective price ts s p c;
            reached = (
              subst
                  (λ t.
                    IsLinked order_qty displayed t (moved_order s.order OrderStatus.cancelled ts)
                      s.queue s.fills)
                  (omega arith)
                  (cancelled-IsLinked order_qty displayed total large ts s.order s.queue s.fills r.0
                    c),
              r.1,
            );
            stamp = inl refl;
            budget = omega arith;
          },
        )
        | inr c ↦ (
          s,
          record {
            accepted = step_effective_ignored price ts s c;
            reached = (
              subst (λ t. IsLinked order_qty displayed t s.order s.queue s.fills) (omega arith) r.0,
              r.1,
            );
            stamp = inr refl;
            budget = omega arith;
          },
        )
      ]
  step-Leads total ts (Kind.trade n) s r f p b = elim (Bool-cases (ltb eps (own_fill s.queue n))) [
    | inl c ↦ (
      noted SimulationEventType.confirmed_trade ts (record s {
        order = filled_order s.order (own_fill s.queue n) ts;
        queue = traded_queue s.queue n;
        fills = s.fills ++ maker_fills price (own_fill s.queue n);
      }),
      record {
        accepted = step_big_trade order_qty displayed price large total n ts s positive r.0 f p c;
        reached = (
          big_trade-IsLinked order_qty displayed price large total n ts s.order s.queue s.fills r.0
              f c,
          All-append (IsMaker price) s.fills (maker_fills price (own_fill s.queue n)) r.1
              (maker_fills-IsMaker (own_fill s.queue n)),
        );
        stamp = inl refl;
        budget = ground arith;
      },
    )
    | inr c ↦ (
      noted SimulationEventType.confirmed_trade ts (record s { queue = traded_queue s.queue n }),
      record {
        accepted = step_small_trade order_qty displayed price large n ts s positive f c;
        reached = (
          small_trade-IsLinked order_qty displayed price large total n s.order s.queue s.fills r.0,
          r.1,
        );
        stamp = inr refl;
        budget = omega arith;
      },
    )
  ]

  in_order_after :
      (ts : ℕ) (before after : Option ℕ) (es : List TimelineEvent)
      → (after ≡ some ts) ⊎ (after ≡ before)
      → All (λ (x : TimelineEvent). ts ≤ x.ts) es
      → All (λ (x : TimelineEvent). precedes x.ts before ≡ false) es
      → All (λ (x : TimelineEvent). precedes x.ts after ≡ false) es
  in_order_after ts before after [] h a b = tt
  in_order_after ts before after (x ∷ es) h a b =
      (ground (arith, a.0, b.0), in_order_after ts before after es h a.1 b.1)

  -- The end of the loop, which may come before the last entry.
  pub record Ends (total : ℕ) (es : List TimelineEvent) (s : Simulation) : Type 0 where
    pub last : Simulation
    pub seen : ℕ
    pub accepted : run_timeline price es s ≡ (ok tt, last)
    pub seen_le : seen ≤ total + sum_of entry_qty es
    pub reached : IsReached order_qty displayed price seen last

  pub run_timeline-Ends :
      (es : List TimelineEvent) (total : ℕ) (s : Simulation)
      → IsReached order_qty displayed price total s
      → IsAscending (λ (e : TimelineEvent). e.ts) es
      → All (λ (e : TimelineEvent). precedes e.ts s.order.last_event_ts_ms ≡ false) es
      → sum_of requests es + pending s.order.status ≤ 1
      → Ends total es s
  unfolding run_timeline
  run_timeline-Ends [] total s r a p b = record {
    last = s;
    seen = total;
    accepted = refl;
    seen_le = omega arith;
    reached = r;
  }
  run_timeline-Ends (e ∷ es) total s r a p b = elim (Bool-cases (is_terminal s.order)) [
    | inl t ↦ record {
      last = s;
      seen = total;
      accepted = run_timeline_stops e es s t;
      seen_le = omega arith;
      reached = r;
    }
    | inr t ↦
        let f : is_fillable s.order.status ≡ true = ground (arith, r.0.active) in
        let (s', l) = step-Leads total e.ts e.kind s r f p.0 (omega arith) in
        let rest =
          run_timeline-Ends es (total + entry_qty e) s' l.reached a.1
            (in_order_after e.ts s.order.last_event_ts_ms s'.order.last_event_ts_ms es l.stamp a.0
              p.1)
            (omega (arith, l.budget)) in
        record {
          last = rest.last;
          seen = rest.seen;
          accepted = run_timeline_steps e es s s' t l.accepted ∙ rest.accepted;
          seen_le = omega (arith, rest.seen_le);
          reached = rest.reached;
        }
  ]
