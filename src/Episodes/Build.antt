-- ===== src/Episodes/Build.antt =====
-- `build_episodes` (src/std0_quant/events/episode_builder.py). The rule's name is the one that its check
-- lets through.
use polymarket_quant.Common.{
  ℕ, Bool, ◌&&◌, ◌||◌, List, [], ◌∷◌, ◌++◌, map, sort, ltb, leb, ◌==◌, get_or, store, pair_eq,
}
use polymarket_quant.Episodes.{
  TradeFill, TradeSide, InvalidFill, BuyFill, Validated, Episode, validate_buy_fill, make_episode,
  split,
}

abbrev pub Groups : Type 0
Groups = List ((ℕ × ℕ) × List BuyFill)

pub record EpisodeBuildResult : Type 0 where
  pub episodes : List Episode
  pub invalid_buy_fills : List InvalidFill

pub record Grouping : Type 0 where
  pub groups : Groups
  pub invalid : List InvalidFill

-- The loop's body for a BUY fill.
abbrev pub take_buy : TradeFill → Grouping → Grouping
take_buy f g = elim (validate_buy_fill f) [
  | Validated.excluded reason ↦ record g {
    invalid =
        g.invalid
        ++ record { fill_id = f.fill_id; condition_id = f.condition_id; reason = reason } ∷ [];
  }
  | Validated.accepted key b ↦ record g {
    groups = store key (get_or [] key g.groups ++ b ∷ []) g.groups;
  }
]

-- `for fill in fills`
unfoldable pub group_fills : List TradeFill → Grouping → Grouping
group_fills [] g = g
group_fills (f ∷ fs) g = elim f.side [
  | TradeSide.buy ↦ group_fills fs (take_buy f g)
  | TradeSide.sell ↦ group_fills fs g
  | TradeSide.other ↦ group_fills fs g
]

-- The order of tuples of two numbers.
abbrev pub pair_le : ℕ × ℕ → ℕ × ℕ → Bool
pair_le a b = ltb a.0 b.0 || (a.0 == b.0 && leb a.1 b.1)

-- `(timestamp_ms, fill_id)`
abbrev pub fill_le : BuyFill → BuyFill → Bool
fill_le a b = pair_le (a.timestamp_ms, a.fill_id) (b.timestamp_ms, b.fill_id)

-- `(market_id, direction, episode_start_ms)`
abbrev pub episode_le : Episode → Episode → Bool
episode_le a b =
    ltb a.market_id b.market_id
    || (a.market_id == b.market_id
        && pair_le (a.direction, a.episode_start_ms) (b.direction, b.episode_start_ms))

-- `for (condition_id, direction), group in ...`
abbrev pub group_episodes : ℕ → Groups → List Episode
group_episodes window [] = []
group_episodes window ((key, group) ∷ rest) =
    map (make_episode key) (split window (sort fill_le group)) ++ group_episodes window rest

abbrev pub no_groups : Grouping
no_groups = record { groups = []; invalid = [] }

unfoldable pub build_episodes : List TradeFill → ℕ → EpisodeBuildResult
unfolding group_fills
build_episodes fills window_ms =
    let g = group_fills fills no_groups in
    record {
      episodes =
          sort episode_le (group_episodes window_ms (sort (λ a b. pair_le a.0 b.0) g.groups));
      invalid_buy_fills = g.invalid;
    }
