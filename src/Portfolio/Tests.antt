-- ===== src/Portfolio/Tests.antt =====
-- A portfolio of one position (src/std0_quant/execution/portfolio.py).
use polymarket_quant.Common.{
  ◌+◌, ◌*◌, ◌<◌, ◌≡◌, refl, true, false, inr, [], ◌∷◌, arith, if◌then◌else◌, same, pair_eq, lookup,
  store,
}
use polymarket_quant.Common.Int.{pos, ◌+ℤ◌, ◌-ℤ◌, IsWithin}
use polymarket_quant.Numeric.{ok, err, eps, of_nat, insufficient_cash, reserved_exceeds_cash}
use polymarket_quant.Portfolio.{
  Key, PortfolioState, held, gross_cost_exposure, eps_cash, snap_cash, reserve_sell_qty,
  release_reserved_sell_qty,
}
use polymarket_quant.Portfolio.Fills.{apply_buy_fill, apply_sell_fill}
use polymarket_quant.Portfolio.Reserve.{IsCovered, reservations-IsCovered}
use polymarket_quant.Portfolio.Buy.{buy_fill_accounts, refused_fill_releases, late_refusal_books}
use polymarket_quant.Portfolio.Equity.{equity, buy_keeps_equity, sell_keeps_equity}

abbrev yes : Key
yes = (7, 1)

-- Twenty units of cash, of which nine are reserved, and ten of one position, of which four are.
abbrev holding : PortfolioState
holding = record {
  cash = pos 20000000000000;
  reserved_cash = 9000000000000;
  realized_pnl = pos 0;
  positions = (yes, record { qty = 10; cost_basis = 5000000000000 }) ∷ [];
  reserved_positions = (yes, 4) ∷ [];
}

reservations-IsCovered_example :
    (eps < 6 → IsCovered yes (reserve_sell_qty yes (of_nat 6) holding).1)
    × IsCovered yes (release_reserved_sell_qty yes (of_nat 6) holding).1
unfolding lookup
reservations-IsCovered_example = reservations-IsCovered yes yes 6 holding (omega arith)

-- Two million grains at three million: six units of cash.
bought_six :
    (apply_buy_fill yes (of_nat 2000000) (of_nat 3000000) (of_nat 0) (of_nat 0) true holding).0
    ≡ ok tt
unfolding apply_buy_fill lookup store ◌+ℤ◌ ◌-ℤ◌
bought_six = refl

buy_fill_accounts_example :
    let after =
      (apply_buy_fill yes (of_nat 2000000) (of_nat 3000000) (of_nat 0) (of_nat 0) true holding).1 in
    IsWithin eps_cash after.cash (holding.cash -ℤ (pos (2000000 * 3000000 + 0) -ℤ pos 0))
    × (gross_cost_exposure after ≡ gross_cost_exposure holding + 2000000 * 3000000)
    × (held yes after ≡ (
        if same yes yes
        then record {
          qty = (held yes holding).qty + 2000000;
          cost_basis = (held yes holding).cost_basis + 2000000 * 3000000;
        }
        else held yes holding))
buy_fill_accounts_example =
    buy_fill_accounts yes 2000000 3000000 0 0 holding (omega arith) (omega arith) true yes
      bought_six

refused_fill_releases_example :
    apply_buy_fill yes (of_nat 8000000) (of_nat 3000000) (of_nat 0) (of_nat 0) true holding
    ≡ (err insufficient_cash, record holding { reserved_cash = 0 })
refused_fill_releases_example =
    refused_fill_releases yes 8000000 3000000 0 0 holding (omega arith) (omega arith) 20000000000000
      refl (omega arith) (omega arith)

late_refusal_books_example :
    let (r, after) =
      apply_buy_fill yes (of_nat 6000000) (of_nat 3000000) (of_nat 0) (of_nat 0) false holding in
    (r ≡ err reserved_exceeds_cash)
    × (after.cash ≡ snap_cash (holding.cash -ℤ (pos (6000000 * 3000000 + 0) -ℤ pos 0)))
    × (held yes after ≡ record {
      qty = (held yes holding).qty + 6000000;
      cost_basis = (held yes holding).cost_basis + 6000000 * 3000000;
    })
unfolding lookup
late_refusal_books_example =
    late_refusal_books yes 6000000 3000000 0 0 holding (omega arith) (omega arith) 20000000000000
      refl (omega arith) (omega arith) (omega arith)

buy_keeps_equity_example :
    IsWithin eps_cash
      (equity
        (apply_buy_fill yes (of_nat 2000000) (of_nat 3000000) (of_nat 9) (of_nat 5) true holding).1)
      (equity holding)
buy_keeps_equity_example = buy_keeps_equity yes 2000000 3000000 9 5 holding true (omega arith)

sell_keeps_equity_example :
    IsWithin eps_cash
      (equity (apply_sell_fill yes (of_nat 4) (of_nat 3000000) (of_nat 9) (of_nat 5) holding).1)
      (equity holding)
unfolding lookup
sell_keeps_equity_example = sell_keeps_equity yes 4 3000000 9 5 holding (inr (omega arith))
