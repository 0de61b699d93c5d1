-- ===== src/Fill/Sweep.antt =====
-- What a sweep takes from the visible book (src/std0_quant/execution/fill_model.py).
use polymarket_quant.Common.{
  ℕ, ◌+◌, ◌-◌, ◌≤◌, ◌≡◌, refl, ◌⊎◌, ◌↔◌, inr, true, List, [], ◌∷◌, leb, minimum, sum_of, arith,
  if◌then◌else◌,
}
use polymarket_quant.Numeric.{Float, ok, eps, of_nat}
use polymarket_quant.Fill.{
  Side, Fill, FillResult, sweep, aggressive_sweep, checked_levels, is_fully_filled,
}

-- What a fill takes, and what a level shows: a level of at most `_EPS` is passed over.
abbrev pub fill_qty : Fill → ℕ
fill_qty f = f.qty

abbrev pub visible_qty : ℕ × ℕ → ℕ
visible_qty (_, available) = if leb available eps then 0 else available

-- The quantity that the sweep takes and the quantity that it leaves make up the order.
pub sweep_conserves :
    (remaining : ℕ) (levels : List (ℕ × ℕ))
    → let (fills, rest) = sweep remaining levels in sum_of fill_qty fills + rest ≡ remaining
unfolding sweep
sweep_conserves remaining [] = omega arith
sweep_conserves remaining ((price, available) ∷ levels) = ground (
  arith,
  sweep_conserves remaining levels,
  sweep_conserves (remaining - minimum remaining available) levels,
)

-- It takes no more than is visible, and stops short of it only when at most `_EPS` remains.
pub sweep_takes :
    (remaining : ℕ) (levels : List (ℕ × ℕ))
    → let (fills, rest) = sweep remaining levels in
      (sum_of fill_qty fills ≤ sum_of visible_qty levels)
      × ((rest ≤ eps) ⊎ (sum_of fill_qty fills ≡ sum_of visible_qty levels))
unfolding sweep
sweep_takes remaining [] = (omega arith, inr refl)
sweep_takes remaining ((price, available) ∷ levels) = ground (
  arith,
  sweep_takes remaining levels,
  sweep_takes (remaining - minimum remaining available) levels,
  sweep_conserves (remaining - minimum remaining available) levels,
)

-- What an accepted sweep reports is consistent with the visible book: filled and remaining quantity
-- make up the order, the fills add up to the filled quantity up to `_EPS`, no more is filled than is
-- visible up to `_EPS`, and if anything remains then all that is visible was taken.
pub aggressive_sweep_conserves :
    (side : Side) (order : ℕ) (levels : List (Float × Float)) (checked : List (ℕ × ℕ))
    {r : FillResult}
    → checked_levels levels ≡ ok checked
    → aggressive_sweep side (of_nat order) levels ≡ ok r
    → (r.filled_qty + r.remaining ≡ order)
      × (sum_of fill_qty r.fills ≤ r.filled_qty)
      × (r.filled_qty ≤ sum_of fill_qty r.fills + eps)
      × (sum_of fill_qty r.fills ≤ sum_of visible_qty checked)
      × ((r.remaining ≡ 0) ⊎ (sum_of fill_qty r.fills ≡ sum_of visible_qty checked))
unfolding aggressive_sweep
aggressive_sweep_conserves side order levels checked c h =
    ground (arith, sweep_conserves order checked, sweep_takes order checked)

-- The sweep fills the whole order exactly when at least that much is visible, up to `_EPS`.
fully_filled_iff :
    (side : Side) (order : ℕ) (levels : List (Float × Float)) (checked : List (ℕ × ℕ))
    {r : FillResult}
    → checked_levels levels ≡ ok checked
    → aggressive_sweep side (of_nat order) levels ≡ ok r
    → (is_fully_filled r ≡ true) ↔ (order ≤ sum_of visible_qty checked + eps)
unfolding aggressive_sweep
fully_filled_iff side order levels checked c h = (
  λ f. ground (arith, sweep_conserves order checked, sweep_takes order checked),
  λ f. ground (arith, sweep_conserves order checked, sweep_takes order checked),
)
