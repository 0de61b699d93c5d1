-- ===== src/Submit/Hold.antt =====
-- `_reserve`, `_release_hold` and `_validate_reservation_candidate`
-- (src/std0_quant/execution/exclusive_submit_path_v1.py).
use polymarket_quant.Common.{
  ℕ, ◌*◌, Bool, true, ◌&&◌, none, some, List, [], ◌∷◌, leb, map, ◌++◌, abs_diff, sum_of, lookup,
  store, drop_key, same, nat_eq, pair_eq, if◌then◌else◌,
}
use polymarket_quant.Common.Int.{ℤ, leb_ℤ}
use polymarket_quant.Numeric.{Result, ok, err, of_nat, hold_missing, reservation_mismatch}
use polymarket_quant.Action.{Action, ◌>>◌, pure}
use polymarket_quant.Fill.{Side}
use polymarket_quant.Portfolio.{
  Key, PortfolioState, reserve_buy_cash, release_reserved_cash, reserve_sell_qty,
  release_reserved_sell_qty, reserved_position_qty,
}
use polymarket_quant.Contracts.{OrderIntent, order_notional}
use polymarket_quant.Submit.{SubmitHold, SubmitPath}

abbrev maximum : ℕ → ℕ → ℕ
maximum a b = if leb a b then b else a

-- `math.isclose(actual, expected, rel_tol=1e-12, abs_tol=0.0)`
abbrev matches : ℕ → ℕ → Bool
matches actual expected = leb (abs_diff actual expected * 1000000000000) (maximum actual expected)

abbrev pub hold_cash : ℕ × SubmitHold → ℕ
hold_cash h = h.1.cash

abbrev pub sell_qty_at : Key → ℕ × SubmitHold → ℕ
sell_qty_at key h = if same h.1.key key then h.1.sell_qty else 0

-- The reserved quantity of every key that is reserved or held.
abbrev all_match : PortfolioState → List (ℕ × SubmitHold) → List Key → Bool
all_match p holds [] = true
all_match p holds (k ∷ ks) =
    matches (reserved_position_qty k p) (sum_of (sell_qty_at k) holds) && all_match p holds ks

-- `==` of two amounts of cash.
abbrev same_cash : ℤ → ℤ → Bool
same_cash a b = leb_ℤ a b && leb_ℤ b a

-- The realized profit and the positions are not written by reservations, so their comparison is left out.
unfoldable pub validate_candidate :
    PortfolioState → PortfolioState → List (ℕ × SubmitHold) → Result (Unit {0})
validate_candidate before updated holds =
    let keys =
      map (λ (k : Key × ℕ). k.0) updated.reserved_positions
      ++ map (λ (h : ℕ × SubmitHold). h.1.key) holds in
    if same_cash updated.cash before.cash
      && matches updated.reserved_cash (sum_of hold_cash holds)
      && all_match updated holds keys
    then ok tt
    else err reservation_mismatch

-- The calls on the copy of the portfolio, for amounts that are not 0.
abbrev pub when_positive : ℕ → Action PortfolioState (Unit {0}) → Action PortfolioState (Unit {0})
when_positive n m = if leb n 0 then pure tt else m

abbrev pub reserve_on : SubmitHold → Action PortfolioState (Unit {0})
reserve_on h = do
  when_positive h.cash (reserve_buy_cash (of_nat h.cash))
  when_positive h.sell_qty (reserve_sell_qty h.key (of_nat h.sell_qty))

abbrev pub release_on : SubmitHold → Action PortfolioState (Unit {0})
release_on h = do
  when_positive h.cash (release_reserved_cash (of_nat h.cash))
  when_positive h.sell_qty (release_reserved_sell_qty h.key (of_nat h.sell_qty))

abbrev pub hold_of : OrderIntent → ℕ → SubmitHold
hold_of i cash = record {
  key = (i.condition_id, i.outcome);
  cash = cash;
  sell_qty = elim i.side [ Side.sell ↦ i.qty | Side.buy ↦ 0 ];
  buy_notional = elim i.side [ Side.buy ↦ order_notional i | Side.sell ↦ 0 ];
}

module _ {H : Type 0} where
  -- An update of a copy, checked against the new holds and then kept with them.
  abbrev pub replace :
      Action PortfolioState (Unit {0}) → List (ℕ × SubmitHold) → Action (SubmitPath H) (Unit {0})
  replace m holds p =
      let (r, updated) = m p.portfolio in
      elim r [
        | err e ↦ (err e, p)
        | ok _ ↦ elim (validate_candidate p.portfolio updated holds) [
          | err e ↦ (err e, p)
          | ok _ ↦ (ok tt, record p { portfolio = updated; holds = holds })
        ]
      ]

  unfoldable pub reserve : OrderIntent → ℕ → Action (SubmitPath H) (Unit {0})
  reserve i cash p =
      replace (reserve_on (hold_of i cash)) (store i.intent_id (hold_of i cash) p.holds) p

  unfoldable pub release_hold : ℕ → Action (SubmitPath H) (Unit {0})
  release_hold intent_id p = elim (lookup intent_id p.holds) [
    | none ↦ (err hold_missing, p)
    | some h ↦ replace (release_on h) (drop_key intent_id p.holds) p
  ]
