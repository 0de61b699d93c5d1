-- ===== src/Fill/Price.antt =====
-- Price priority of a sweep, and that the check of the order of the levels is what it rests on
-- (src/std0_quant/execution/fill_model.py).
use polymarket_quant.Common.{
  ℕ, ◌+◌, ◌-◌, ◌*◌, length, ◌≤◌, ◌<◌, ◌≡◌, refl, Bool, true, false, List, [], ◌∷◌, leb, minimum,
  sum_of, arith, if◌then◌else◌,
}
use polymarket_quant.Numeric.{Float, ok, err, eps, of_nat, not_best_to_worst}
use polymarket_quant.Fill.{
  Side, Fill, FillResult, sweep, aggressive_sweep, checked_levels, goes_better,
}
use polymarket_quant.Fill.Sweep.{visible_qty}

-- The price of a level or a fill is as good as the limit, for the side.
abbrev pub is_within : Side → ℕ → ℕ → Bool
is_within Side.buy limit price = leb price limit
is_within Side.sell limit price = leb limit price

-- What the fills take, and what the levels show, at prices as good as the limit.
abbrev pub taken_within : Side → ℕ → List Fill → ℕ
taken_within side limit = sum_of (λ (f : Fill). if is_within side limit f.price then f.qty else 0)

abbrev pub visible_within : Side → ℕ → List (ℕ × ℕ) → ℕ
visible_within side limit =
    sum_of (λ (l : ℕ × ℕ). if is_within side limit l.0 then visible_qty l else 0)

-- A limit that is worse by that much.
abbrev pub loosen : Side → ℕ → ℕ → ℕ
loosen Side.buy slack limit = limit + slack
loosen Side.sell slack limit = limit - slack

-- `_EPS` for every level.
abbrev pub slack_of : List (ℕ × ℕ) → ℕ
slack_of levels = length levels * eps

-- Below a level that is worse than the loosened limit, none is as good as the limit.
worse_invisible :
    (side : Side) (limit slack p q : ℕ) (levels : List (ℕ × ℕ))
    → slack_of levels ≤ slack
    → goes_better side ((p, q) ∷ levels) ≡ false
    → is_within side (loosen side slack limit) p ≡ false
    → visible_within side limit levels ≡ 0
worse_invisible side limit slack p q [] b g w = refl
worse_invisible Side.buy limit slack p q ((p', q') ∷ levels) b g w =
    ground (arith, worse_invisible Side.buy limit (slack - eps) p' q' levels)
worse_invisible Side.sell limit slack p q ((p', q') ∷ levels) b g w =
    ground (arith, worse_invisible Side.sell limit (slack - eps) p' q' levels)

tail_ordered :
    (side : Side) (l : ℕ × ℕ) (levels : List (ℕ × ℕ))
    → goes_better side (l ∷ levels) ≡ false
    → goes_better side levels ≡ false
tail_ordered side l [] h = refl
tail_ordered side l (m ∷ levels) h = ground arith

takes_visible :
    (side : Side) (limit remaining : ℕ) (levels : List (ℕ × ℕ))
    → taken_within side limit (sweep remaining levels).0 ≤ visible_within side limit levels
unfolding sweep
takes_visible side limit remaining [] = omega arith
takes_visible side limit remaining ((price, available) ∷ levels) = ground (
  arith,
  takes_visible side limit remaining levels,
  takes_visible side limit (remaining - minimum remaining available) levels,
)

takes_best :
    (side : Side) (limit slack remaining : ℕ) (levels : List (ℕ × ℕ))
    → slack_of levels ≤ slack
    → goes_better side levels ≡ false
    → minimum remaining (visible_within side limit levels)
      ≤ taken_within side (loosen side slack limit) (sweep remaining levels).0 + eps
unfolding sweep
takes_best side limit slack remaining [] b g = ground arith
takes_best side limit slack remaining ((price, available) ∷ levels) b g =
    let t = tail_ordered side (price, available) levels g in
    ground (
      arith,
      worse_invisible side limit slack price available levels,
      takes_best side limit slack remaining levels,
      takes_best side limit slack (remaining - minimum remaining available) levels,
    )

-- An accepted sweep: at prices as good as a limit, whatever limit, it takes no more than is visible there;
-- and at prices that are worse than it by at most `_EPS` for every level, it takes what is visible up to
-- the limit, or the whole order, but for `_EPS`.
pub sweep_best_price_first :
    (side : Side) (limit order : ℕ) (levels : List (Float × Float)) (checked : List (ℕ × ℕ))
    {r : FillResult}
    → checked_levels levels ≡ ok checked
    → aggressive_sweep side (of_nat order) levels ≡ ok r
    → (taken_within side limit r.fills ≤ visible_within side limit checked)
      × (minimum order (visible_within side limit checked)
          ≤ taken_within side (loosen side (slack_of checked) limit) r.fills + eps)
unfolding aggressive_sweep
sweep_best_price_first side limit order levels checked c h = ground (
  arith,
  takes_visible side limit order checked,
  takes_best side limit (slack_of checked) order checked,
)

-- Levels of which a later one is better than its predecessor by more than `_EPS` are refused, not sorted.
pub unordered_levels_refused :
    (side : Side) (order : ℕ) (levels : List (Float × Float)) (checked : List (ℕ × ℕ))
    → 0 < order
    → checked_levels levels ≡ ok checked
    → goes_better side checked ≡ true
    → aggressive_sweep side (of_nat order) levels ≡ err not_best_to_worst
unfolding aggressive_sweep
unordered_levels_refused side order levels checked p c h = ground arith
