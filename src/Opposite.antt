-- ===== src/Opposite.antt =====
-- The initial direction of a market and the first opposite episode,
-- src/std0_quant/events/first_opposite.py. Warnings that are only logged are left out; a string is a number.
pub mod Entries
pub mod Initial
pub mod Later
mod Tests
use polymarket_quant.Common.{
  ℕ, ◌+◌, Bool, true, false, not, ◌&&◌, ◌||◌, Option, none, some, List, [], ◌∷◌, map, ltb, leb,
  ◌==◌, sort, lookup, store, nat_eq, length, if◌then◌else◌,
}
use polymarket_quant.Numeric.{Float, finite}
use polymarket_quant.Common.Int.{pos}
use polymarket_quant.Episodes.{TradeSide, TradeFill, Episode, add_float}

pub record InitialDirection : Type 0 where
  pub direction : Option ℕ
  pub first_timestamp_ms : Option ℕ
  pub ambiguous : Bool
  pub distinct_outcomes : List ℕ

abbrev pub too_many_outcomes : InitialDirection → Bool
too_many_outcomes i = ltb 2 (length i.distinct_outcomes)

abbrev pub is_buy : TradeFill → Bool
is_buy f = elim f.side [ TradeSide.buy ↦ true | _ ↦ false ]

-- The outcome and the time of a BUY fill that has both.
abbrev pub bought_at : TradeFill → Option (ℕ × ℕ)
bought_at f =
    if is_buy f
    then elim f.timestamp_ms [
      | none ↦ none
      | some t ↦ elim f.outcome [ none ↦ none | some o ↦ some (o, t) ]
    ]
    else none

-- The body of the loop over the fills.
abbrev pub note_first : ℕ × ℕ → List (ℕ × ℕ) → List (ℕ × ℕ)
note_first (o, t) first_ts = elim (lookup o first_ts) [
  | none ↦ store o t first_ts
  | some current ↦ if ltb t current then store o t first_ts else first_ts
]

-- The loop.
unfoldable pub collect_first : List TradeFill → List (ℕ × ℕ) → List (ℕ × ℕ)
collect_first [] first_ts = first_ts
collect_first (f ∷ fs) first_ts =
    collect_first fs (elim (bought_at f) [ none ↦ first_ts | some b ↦ note_first b first_ts ])

abbrev pub outcome_le : ℕ × ℕ → ℕ × ℕ → Bool
outcome_le a b = leb a.0 b.0

abbrev found : ℕ × ℕ → List ℕ → InitialDirection
found e outcomes = record {
  direction = some e.0;
  first_timestamp_ms = some e.1;
  ambiguous = false;
  distinct_outcomes = outcomes;
}

abbrev not_found : Bool → List ℕ → InitialDirection
not_found ambiguous outcomes = record {
  direction = none;
  first_timestamp_ms = none;
  ambiguous = ambiguous;
  distinct_outcomes = outcomes;
}

-- What the outcomes, sorted and with their first times, say.
abbrev pub decide : List (ℕ × ℕ) → InitialDirection
decide [] = not_found false []
decide (a ∷ []) = found a (a.0 ∷ [])
decide (a ∷ b ∷ []) =
    let outcomes : List ℕ = a.0 ∷ b.0 ∷ [] in
    if a.1 == b.1 then not_found true outcomes else found (if ltb b.1 a.1 then b else a) outcomes
decide (a ∷ b ∷ c ∷ es) = not_found false (map (λ (e : ℕ × ℕ). e.0) (a ∷ b ∷ c ∷ es))

unfoldable pub analyze_initial_direction : List TradeFill → InitialDirection
analyze_initial_direction fs = decide (sort outcome_le (collect_first fs []))

-- `min(...)`, by the start and then the direction; the first of equals.
abbrev pub is_earlier : Episode → Episode → Bool
is_earlier a b =
    ltb a.episode_start_ms b.episode_start_ms
    || (a.episode_start_ms == b.episode_start_ms && ltb a.direction b.direction)

-- The earliest episode that does not go in the direction, against the earliest so far.
unfoldable pub earliest_opposite : ℕ → Option Episode → List Episode → Option Episode
earliest_opposite d best [] = best
earliest_opposite d best (e ∷ es) =
    earliest_opposite d
      (if e.direction == d
        then best
        else elim best [ none ↦ some e | some b ↦ if is_earlier e b then some e else some b ])
      es

unfoldable pub find_first_opposite : List Episode → InitialDirection → Option Episode
find_first_opposite es initial = elim initial.direction [
  | none ↦ none
  | some d ↦ earliest_opposite d none es
]

-- `f.size or 0.0`
abbrev size_or_zero : TradeFill → Float
size_or_zero f = elim f.size [ none ↦ finite (pos 0) | some x ↦ x ]

-- The loop of the sums, over the fills of a direction that a test lets through.
abbrev total_size : (ℕ → Bool) → ℕ → Float → List TradeFill → Float
total_size test d sum [] = sum
total_size test d sum (f ∷ fs) =
    total_size test d
      (elim (bought_at f) [
        | none ↦ sum
        | some b ↦ if b.0 == d && test b.1 then add_float sum (size_or_zero f) else sum
      ])
      fs

unfoldable pub qty_of_direction_before : List TradeFill → ℕ → ℕ → Float
qty_of_direction_before fs d cutoff_ms = total_size (λ t. ltb t cutoff_ms) d (finite (pos 0)) fs

unfoldable pub qty_of_direction_total : List TradeFill → ℕ → Float
qty_of_direction_total fs d = total_size (λ t. true) d (finite (pos 0)) fs
