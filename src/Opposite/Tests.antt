-- ===== src/Opposite/Tests.antt =====
-- Fills of a market in two directions (src/std0_quant/events/first_opposite.py).
use polymarket_quant.Common.{
  ℕ, ◌≤◌, ◌<◌, ◌≡◌, ◌≢◌, refl, false, none, some, List, [], ◌∷◌, ◌==◌, All, lookup, store, arith,
}
use polymarket_quant.Common.Int.{◌+ℤ◌}
use polymarket_quant.Numeric.{of_nat}
use polymarket_quant.Episodes.{
  TradeSide, TradeFill, Episode, make_episode, chains, validate_buy_fill,
}
use polymarket_quant.Episodes.Build.{build_episodes, group_fills}
use polymarket_quant.Opposite.{
  collect_first, analyze_initial_direction, earliest_opposite, find_first_opposite,
  qty_of_direction_before,
}
use polymarket_quant.Opposite.Entries.{Bought}
use polymarket_quant.Opposite.Initial.{Occurs, IsFirst, initial-IsFirst}
use polymarket_quant.Opposite.Later.{first_opposite_is_later}

abbrev bought : ℕ → ℕ → ℕ → TradeFill
bought id outcome ts = record {
  fill_id = id;
  side = TradeSide.buy;
  condition_id = some 7;
  size = some (of_nat 10);
  price = some (of_nat 500000000000);
  timestamp_ms = some ts;
  outcome = some outcome;
  transaction_hash = none;
}

-- Two in the first direction, in one episode, and two in the other, too far apart for one.
abbrev fills : List TradeFill
fills = bought 3 0 9000 ∷ bought 2 1 2000 ∷ bought 1 1 1000 ∷ bought 4 0 4000 ∷ []

abbrev episodes : List Episode
episodes = (build_episodes fills 3000).episodes

abbrev opposite : Episode
opposite =
    make_episode (7, 0)
      (
        [],
        record {
          fill_id = 4;
          size = of_nat 10;
          price = 500000000000;
          timestamp_ms = 4000;
          transaction_hash = none;
        },
      )

before_the_opposite : qty_of_direction_before fills 1 opposite.episode_start_ms ≡ of_nat 20
unfolding qty_of_direction_before ◌+ℤ◌
before_the_opposite = refl

-- Two directions at the same time are not ordered.
ambiguous_direction :
    (analyze_initial_direction (bought 1 0 1000 ∷ bought 2 1 1000 ∷ [])).direction ≡ none
unfolding analyze_initial_direction collect_first lookup store
ambiguous_direction = refl

initial-IsFirst_example : Occurs fills (1, 1000) × All (Bought (IsFirst (1, 1000))) fills
unfolding analyze_initial_direction collect_first lookup store
initial-IsFirst_example = initial-IsFirst fills 1 1000 refl refl

first_opposite_is_later_example :
    (opposite.direction ≢ 1)
    × (1000 < opposite.episode_start_ms)
    × All
        (λ e. (e.direction == 1) ≡ false → opposite.episode_start_ms ≤ e.episode_start_ms)
        episodes
unfolding analyze_initial_direction collect_first lookup store find_first_opposite earliest_opposite
    build_episodes group_fills validate_buy_fill chains
first_opposite_is_later_example =
    first_opposite_is_later fills episodes 1 1000 opposite refl refl
      (omega arith, (omega arith, (omega arith, tt))) refl
