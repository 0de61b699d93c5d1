-- ===== src/Episodes.antt =====
-- Parent episodes of BUY fills, src/std0_quant/events/episode_builder.py, for the fills of
-- src/std0_quant/events/fills.py. Of a fill, the fields that the episodes read; a string is a number,
-- as they are only compared, and a timestamp is not before the epoch.
-- `Episodes.Build` groups and sorts the fills, `Episodes.Split` is about the chains.
pub mod Build
pub mod Split
pub mod Counts
mod Tests
use polymarket_quant.Common.{
  ℕ, ◌+◌, ◌-◌, ◌*◌, ◌/◌, Bool, true, false, Option, none, some, List, [], ◌∷◌, ◌++◌, map, ltb, leb,
  length, if◌then◌else◌,
}
use polymarket_quant.Common.Int.{ℤ, pos, negsuc, ◌+ℤ◌, ◌*ℤ◌}
use polymarket_quant.Numeric.{Float, nan, pos_inf, neg_inf, finite}
use polymarket_quant.Cost.{one_unit}

pub data TradeSide : Type 0 where
  buy sell other : TradeSide

pub record TradeFill : Type 0 where
  pub fill_id : ℕ
  pub side : TradeSide
  pub condition_id : Option ℕ
  pub size : Option Float
  pub price : Option Float
  pub timestamp_ms : Option ℕ
  pub outcome : Option ℕ
  pub transaction_hash : Option ℕ

pub data ExclusionReason : Type 0 where
  timestamp_invalid field_incomplete : ExclusionReason

pub record InvalidFill : Type 0 where
  pub fill_id : ℕ
  pub condition_id : Option ℕ
  pub reason : ExclusionReason

-- A fill that passed the checks: its price, in grains, is from 0 to 1; its size is not at most 0.
pub record BuyFill : Type 0 where
  pub fill_id : ℕ
  pub size : Float
  pub price : ℕ
  pub timestamp_ms : ℕ
  pub transaction_hash : Option ℕ

-- A reason, or the market, the direction and the fill.
pub data Validated : Type 0 where
  excluded : ExclusionReason → Validated
  accepted : ℕ × ℕ → BuyFill → Validated

-- `size <= 0`, which is false of nan.
abbrev pub is_at_most_zero : Float → Bool
is_at_most_zero nan = false
is_at_most_zero pos_inf = false
is_at_most_zero neg_inf = true
is_at_most_zero (finite (pos n)) = leb n 0
is_at_most_zero (finite (negsuc n)) = true

-- `not (PRICE_MIN <= price <= PRICE_MAX)` leaves a number of grains.
abbrev pub price_in_range : Float → Option ℕ
price_in_range (finite (pos n)) = if leb n one_unit then some n else none
price_in_range _ = none

abbrev pub size_present : Option Float → Option Float
size_present none = none
size_present (some x) = if is_at_most_zero x then none else some x

unfoldable pub validate_buy_fill : TradeFill → Validated
validate_buy_fill f = elim f.timestamp_ms [
  | none ↦ Validated.excluded ExclusionReason.timestamp_invalid
  | some ts ↦ elim (size_present f.size) [
    | none ↦ Validated.excluded ExclusionReason.field_incomplete
    | some size ↦ elim f.price [
      | none ↦ Validated.excluded ExclusionReason.field_incomplete
      | some p ↦ elim (price_in_range p) [
        | none ↦ Validated.excluded ExclusionReason.field_incomplete
        | some price ↦ elim f.condition_id [
          | none ↦ Validated.excluded ExclusionReason.field_incomplete
          | some condition_id ↦ elim f.outcome [
            | none ↦ Validated.excluded ExclusionReason.field_incomplete
            | some outcome ↦
                Validated.accepted (condition_id, outcome)
                  (record {
                    fill_id = f.fill_id;
                    size = size;
                    price = price;
                    timestamp_ms = ts;
                    transaction_hash = f.transaction_hash;
                  })
          ]
        ]
      ]
    ]
  ]
]

-- Addition of floats, rounding apart.
abbrev pub add_float : Float → Float → Float
add_float nan _ = nan
add_float pos_inf nan = nan
add_float pos_inf neg_inf = nan
add_float pos_inf _ = pos_inf
add_float neg_inf nan = nan
add_float neg_inf pos_inf = nan
add_float neg_inf _ = neg_inf
add_float (finite a) (finite b) = finite (a +ℤ b)
add_float (finite a) x = x

-- `price * size`.
abbrev pub dollars_of : BuyFill → Float
dollars_of f = elim f.size [
  | nan ↦ nan
  | pos_inf ↦ if leb f.price 0 then nan else pos_inf
  | neg_inf ↦ if leb f.price 0 then nan else neg_inf
  | finite z ↦ finite (z *ℤ f.price)
]

-- `sum(...)`, from a first value.
abbrev pub total_from : (BuyFill → Float) → Float → List BuyFill → Float
total_from g sum [] = sum
total_from g sum (f ∷ fs) = total_from g (add_float sum (g f)) fs

-- A quotient by a positive number, rounded down to a grain.
abbrev quotient : Float → ℕ → Float
quotient (finite (pos a)) n = finite (pos (a / n))
quotient (finite (negsuc a)) n = finite (negsuc (a / n))
quotient x n = x

-- `total_dollars / total_shares if total_shares > 0 else nan`
abbrev pub vwap_of : Float → Float → Float
vwap_of dollars (finite (pos n)) = if leb n 0 then nan else quotient dollars n
vwap_of (finite z) pos_inf = finite (pos 0)
vwap_of _ _ = nan

pub record Episode : Type 0 where
  pub market_id : ℕ
  pub direction : ℕ
  pub episode_start_ms : ℕ
  pub episode_end_ms : ℕ
  pub total_shares : Float
  pub total_dollars : Float
  pub vwap : Float
  pub fill_count : ℕ
  pub constituent_fill_ids : List ℕ
  pub constituent_tx_hashes : List (Option ℕ)

-- One run of fills, as what precedes its last fill and that fill.
abbrev pub Chain : Type 0
Chain = List BuyFill × BuyFill

abbrev pub fills_of : Chain → List BuyFill
fills_of c = c.0 ++ c.1 ∷ []

-- `fills[0]`
abbrev pub first_of : Chain → BuyFill
first_of ([], l) = l
first_of (f ∷ fs, l) = f

-- `_make_episode`
abbrev pub make_episode : ℕ × ℕ → Chain → Episode
make_episode key c =
    let fills = fills_of c in
    let shares = total_from (λ f. f.size) (finite (pos 0)) fills in
    let dollars = total_from dollars_of (finite (pos 0)) fills in
    record {
      market_id = key.0;
      direction = key.1;
      episode_start_ms = (first_of c).timestamp_ms;
      episode_end_ms = c.1.timestamp_ms;
      total_shares = shares;
      total_dollars = dollars;
      vwap = vwap_of dollars shares;
      fill_count = length fills;
      constituent_fill_ids = map (λ f. f.fill_id) fills;
      constituent_tx_hashes = map (λ f. f.transaction_hash) fills;
    }

-- The loop over the ordered fills, with `current` as a chain: a gap above the window starts a new one.
unfoldable pub chains : ℕ → Chain → List BuyFill → List Chain
chains window c [] = c ∷ []
chains window c (f ∷ fs) = elim (ltb window (f.timestamp_ms - c.1.timestamp_ms)) [
  | true ↦ c ∷ chains window ([], f) fs
  | false ↦ chains window (fills_of c, f) fs
]

abbrev pub split : ℕ → List BuyFill → List Chain
split window [] = []
split window (f ∷ fs) = chains window ([], f) fs
