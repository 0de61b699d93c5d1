-- ===== src/Simulator/Entries.antt =====
-- The timeline that the simulation builds from its trades and its cancellation is fit for the loop
-- (src/std0_quant/execution/simulator.py).
use polymarket_quant.Common.{
  ℕ, ◌+◌, ◌≤◌, ◌<◌, ◌≡◌, refl, true, false, Option, none, some, List, [], ◌∷◌, ◌++◌, map, sum_of,
  sum_of-append, sum_of-sort, All, All-append, All-sort, IsAscending, sort-IsAscending, arith,
}
use polymarket_quant.Numeric.{eps}
use polymarket_quant.Order.{precedes}
use polymarket_quant.Timestamps.{CancelTimestamps}
use polymarket_quant.Simulator.{ConfirmedTradeEvent, TimelineEvent, timeline_le}
use polymarket_quant.Simulator.Run.{trade_entry, cancel_entries, timeline}
use polymarket_quant.Simulator.Loop.{entry_qty, requests}

-- The units that the trades report.
abbrev pub traded_total : List ConfirmedTradeEvent → ℕ
traded_total = sum_of (λ (t : ConfirmedTradeEvent). t.traded_qty)

timeline_le_before : (a b : TimelineEvent) → timeline_le a b ≡ true → a.ts ≤ b.ts
timeline_le_before a b h = ground arith

timeline_le_after : (a b : TimelineEvent) → timeline_le a b ≡ false → b.ts ≤ a.ts
timeline_le_after a b h = ground arith

pub timeline-IsAscending :
    (trades : List ConfirmedTradeEvent) (cancel : Option CancelTimestamps)
    → IsAscending (λ (e : TimelineEvent). e.ts) (timeline trades cancel)
timeline-IsAscending trades cancel =
    sort-IsAscending (λ (e : TimelineEvent). e.ts) timeline_le timeline_le_before timeline_le_after
      (map trade_entry trades ++ cancel_entries cancel)

-- A trade after the acceptance by more than `_EPS`.
abbrev pub IsAfter : ℕ → ConfirmedTradeEvent → Type 0
IsAfter accept t = accept + eps < t.venue_ts_ms

-- A cancellation that is sent and effective no earlier than the acceptance, up to `_EPS`.
abbrev pub CancelsAfter : ℕ → Option CancelTimestamps → Type 0
CancelsAfter accept none = Unit
CancelsAfter accept (some c) =
    (accept ≤ c.cancel_send_ts_ms + eps) × (accept ≤ c.cancel_effective_ts_ms + eps)

module _ (accept : ℕ) where
  trade_entries_in_order :
      (trades : List ConfirmedTradeEvent)
      → All (IsAfter accept) trades
      → All (λ (e : TimelineEvent). precedes e.ts (some accept) ≡ false) (map trade_entry trades)
  trade_entries_in_order [] a = tt
  trade_entries_in_order (t ∷ ts) a = (ground arith, trade_entries_in_order ts a.1)

  cancel_entries_in_order :
      (cancel : Option CancelTimestamps)
      → CancelsAfter accept cancel
      → All (λ (e : TimelineEvent). precedes e.ts (some accept) ≡ false) (cancel_entries cancel)
  cancel_entries_in_order none c = tt
  cancel_entries_in_order (some c) h = (ground arith, (ground arith, tt))

  pub timeline_in_order :
      (trades : List ConfirmedTradeEvent) (cancel : Option CancelTimestamps)
      → All (IsAfter accept) trades
      → CancelsAfter accept cancel
      → All (λ (e : TimelineEvent). precedes e.ts (some accept) ≡ false) (timeline trades cancel)
  timeline_in_order trades cancel a c =
      All-sort timeline_le (λ (e : TimelineEvent). precedes e.ts (some accept) ≡ false)
        (map trade_entry trades ++ cancel_entries cancel)
        (All-append (λ (e : TimelineEvent). precedes e.ts (some accept) ≡ false)
          (map trade_entry trades) (cancel_entries cancel) (trade_entries_in_order trades a)
          (cancel_entries_in_order cancel c))

trade_entries_qty :
    (trades : List ConfirmedTradeEvent)
    → (sum_of entry_qty (map trade_entry trades) ≡ traded_total trades)
      × (sum_of requests (map trade_entry trades) ≡ 0)
trade_entries_qty [] = (refl, refl)
trade_entries_qty (t ∷ ts) = omega (arith, trade_entries_qty ts)

cancel_entries_qty :
    (cancel : Option CancelTimestamps)
    → (sum_of entry_qty (cancel_entries cancel) ≡ 0) × (sum_of requests (cancel_entries cancel) ≤ 1)
cancel_entries_qty none = omega arith
cancel_entries_qty (some c) = omega arith

pub timeline_qty :
    (trades : List ConfirmedTradeEvent) (cancel : Option CancelTimestamps)
    → (sum_of entry_qty (timeline trades cancel) ≡ traded_total trades)
      × (sum_of requests (timeline trades cancel) ≤ 1)
timeline_qty trades cancel =
    let entries = map trade_entry trades ++ cancel_entries cancel in
    (
      omega (
        arith,
        sum_of-sort timeline_le entry_qty entries,
        sum_of-append entry_qty (map trade_entry trades) (cancel_entries cancel),
        trade_entries_qty trades,
        cancel_entries_qty cancel,
      ),
      omega (
        arith,
        sum_of-sort timeline_le requests entries,
        sum_of-append requests (map trade_entry trades) (cancel_entries cancel),
        trade_entries_qty trades,
        cancel_entries_qty cancel,
      ),
    )
