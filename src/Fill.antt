-- ===== src/Fill.antt =====
-- The fill model, src/std0_quant/execution/fill_model.py. The side is one of the two that the check of
-- its spelling lets through; a level is a pair, so that check of its length falls away.
pub mod Passive
pub mod Sweep
pub mod Price
mod Tests
use polymarket_quant.Common.{
  ℕ, ◌+◌, ◌-◌, ◌*◌, Bool, true, false, ◌||◌, List, [], ◌∷◌, map, ltb, leb, minimum, if◌then◌else◌,
}
use polymarket_quant.Numeric.{
  Float, Field, Result, ok, eps, ◌>>=◌, ◌>>◌, raise_if, positive_finite, nonnegative_finite, of_nat,
  not_best_to_worst,
}
use polymarket_quant.Action.{Action}
use polymarket_quant.Action
use polymarket_quant.Queue.{FifoQueueModel, QueueFill, remaining_qty, on_confirmed_trade}

pub data Side : Type 0 where
  buy sell : Side

pub data Liquidity : Type 0 where
  maker taker : Liquidity

pub record Fill : Type 0 where
  pub price : ℕ
  pub qty : ℕ
  pub liquidity : Liquidity

-- A product of two numbers of grains, so in units of the square of a grain.
abbrev pub notional : Fill → ℕ
notional f = f.price * f.qty

pub record FillResult : Type 0 where
  pub requested_qty : ℕ
  pub filled_qty : ℕ
  pub remaining : ℕ
  pub fills : List Fill

abbrev pub is_fully_filled : FillResult → Bool
is_fully_filled r = leb r.remaining eps

abbrev pub maker_fills : ℕ → ℕ → List Fill
maker_fills price own =
    if ltb eps own
    then record { price = price; qty = own; liquidity = Liquidity.maker } ∷ []
    else []

unfoldable pub passive_fill_from_confirmed_trade : Float → Float → Action FifoQueueModel FillResult
unfolding positive_finite nonnegative_finite
passive_fill_from_confirmed_trade order_price traded_qty =
    Action.◌>>=◌ (Action.lift (positive_finite order_price Field.order_price)) λ price.
      Action.◌>>=◌ (Action.lift (nonnegative_finite traded_qty Field.traded_qty)) λ traded.
        Action.◌>>=◌ Action.get λ before.
          Action.◌>>=◌ (on_confirmed_trade (of_nat traded)) λ queue_fill.
            Action.◌>>=◌ Action.get λ after. Action.pure (record {
              requested_qty = remaining_qty before;
              filled_qty = queue_fill.own_fill_qty;
              remaining = remaining_qty after;
              fills = maker_fills price queue_fill.own_fill_qty;
            })

-- The checks of the levels, one after another.
unfoldable pub checked_levels : List (Float × Float) → Result (List (ℕ × ℕ))
unfolding positive_finite nonnegative_finite
checked_levels [] = ok []
checked_levels ((p, q) ∷ levels) = do
  price ← positive_finite p Field.price
  qty ← nonnegative_finite q Field.level_qty
  rest ← checked_levels levels
  ok ((price, qty) ∷ rest)

-- Whether a later price is better than an earlier one by more than `_EPS`.
abbrev pub is_better : Side → ℕ → ℕ → Bool
is_better Side.buy earlier later = ltb (later + eps) earlier
is_better Side.sell earlier later = ltb (earlier + eps) later

-- The test of `_validate_best_to_worst`.
abbrev pub goes_better : Side → List (ℕ × ℕ) → Bool
goes_better side [] = false
goes_better side (a ∷ []) = false
goes_better side (a ∷ b ∷ rest) = is_better side a.0 b.0 || goes_better side (b ∷ rest)

-- The loop of `aggressive_sweep`: the fills, and what remains.
unfoldable pub sweep : ℕ → List (ℕ × ℕ) → List Fill × ℕ
sweep remaining [] = ([], remaining)
sweep remaining ((price, available) ∷ levels) = elim (leb remaining eps) [
  | true ↦ ([], remaining)
  | false ↦ elim (leb available eps) [
    | true ↦ sweep remaining levels
    | false ↦
        let qty = minimum remaining available in
        let (fills, rest) = sweep (remaining - qty) levels in
        (record { price = price; qty = qty; liquidity = Liquidity.taker } ∷ fills, rest)
  ]
]

unfoldable pub aggressive_sweep : Side → Float → List (Float × Float) → Result FillResult
unfolding positive_finite checked_levels sweep
aggressive_sweep side order_qty levels = do
  order ← positive_finite order_qty Field.order_qty
  checked ← checked_levels levels
  raise_if (goes_better side checked) not_best_to_worst
  let (fills, rest) = sweep order checked
  let remaining = if leb rest eps then 0 else rest
  ok (record {
    requested_qty = order;
    filled_qty = order - remaining;
    remaining = remaining;
    fills = fills;
  })
