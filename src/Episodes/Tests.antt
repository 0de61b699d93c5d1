-- ===== src/Episodes/Tests.antt =====
-- Fills of one market in two directions (src/std0_quant/events/episode_builder.py).
use polymarket_quant.Common.{
  ℕ, ◌+◌, ◌≡◌, refl, none, some, List, [], ◌∷◌, length, map, All, sum_of, lookup, store, pair_eq,
}
use polymarket_quant.Numeric.{of_nat}
use polymarket_quant.Episodes.{
  TradeSide, TradeFill, InvalidFill, BuyFill, Episode, fills_of, chains, split, validate_buy_fill,
}
use polymarket_quant.Episodes.Split.{IsLinked, IsApart, joined, split_partitions}
use polymarket_quant.Episodes.Build.{build_episodes, group_fills}
use polymarket_quant.Episodes.Counts.{weight_of_buys, is_id, any_id, times_in, every_buy_counted}

abbrev bought : ℕ → ℕ → BuyFill
bought id ts = record {
  fill_id = id;
  size = of_nat 10;
  price = 500000000000;
  timestamp_ms = ts;
  transaction_hash = none;
}

-- A gap of the window joins, a longer one splits.
abbrev ordered : List BuyFill
ordered = bought 1 1000 ∷ bought 2 4000 ∷ bought 3 7001 ∷ []

split_partitions_example :
    (joined (split 3000 ordered) ≡ ordered)
    × All (λ c. IsLinked 3000 (fills_of c)) (split 3000 ordered)
    × IsApart 3000 (split 3000 ordered)
split_partitions_example = split_partitions 3000 ordered

abbrev traded : TradeSide → ℕ → ℕ → ℕ → TradeFill
traded side id outcome ts = record {
  fill_id = id;
  side = side;
  condition_id = some 7;
  size = some (of_nat 10);
  price = some (of_nat 500000000000);
  timestamp_ms = some ts;
  outcome = some outcome;
  transaction_hash = none;
}

-- Listed out of order; one is sold, and one has a size of zero.
abbrev fills : List TradeFill
fills =
    traded TradeSide.buy 3 1 7001
    ∷ traded TradeSide.buy 1 1 1000
    ∷ traded TradeSide.sell 5 1 2000
    ∷ traded TradeSide.buy 4 0 2500
    ∷ record (traded TradeSide.buy 6 1 2600) { size = some (of_nat 0) }
    ∷ traded TradeSide.buy 2 1 4000
    ∷ []

ids_built :
    map (λ (e : Episode). e.constituent_fill_ids) (build_episodes fills 3000).episodes
    ≡ (4 ∷ []) ∷ (1 ∷ 2 ∷ []) ∷ (3 ∷ []) ∷ []
unfolding build_episodes group_fills validate_buy_fill lookup store chains
ids_built = refl

every_buy_counted_example :
    let r = build_episodes fills 3000 in
    (sum_of (times_in 1) r.episodes
        + sum_of (λ (x : InvalidFill). is_id 1 x.fill_id) r.invalid_buy_fills
      ≡ sum_of (weight_of_buys (is_id 1)) fills)
    × (sum_of (λ (e : Episode). e.fill_count) r.episodes + length r.invalid_buy_fills
        ≡ sum_of (weight_of_buys any_id) fills)
every_buy_counted_example = every_buy_counted fills 3000 1
