-- ===== src/Submit/Open.antt =====
-- How a path is opened (src/std0_quant/execution/exclusive_submit_path_v1.py).
use polymarket_quant.Common.{Bool, true, false, not, [], ◌∷◌, ◌==◌, if◌then◌else◌, length}
use polymarket_quant.Numeric.{Error, Result, ok, err, reservation_mismatch}
use polymarket_quant.Portfolio.{PortfolioState}
use polymarket_quant.Ledger.{Ledger, LedgerCheckpoint, checkpoint}
use polymarket_quant.Ledger.Calls.{guard_cases}
use polymarket_quant.Submit.{SubmitPath, Scenario}
use polymarket_quant.Submit.Call.{opened, open_path}

module _ {H : Type 0} (unchanged : Bool) (l : Ledger H) where
  abbrev pub checkpoint_of : LedgerCheckpoint H
  checkpoint_of = record {
    ledger_id = l.ledger_id;
    sequence = length l.index.records;
    record_hash = l.index.tip;
  }

  -- `checkpoint` fails, or it reads the ledger and leaves it as it was.
  checkpoint_cases :
      {A : Type 0} (P : A → Type 0) (f : Result (LedgerCheckpoint H) × Ledger H → A)
      → ((x : Error) (m : Ledger H) → P (f (err x, m)))
      → P (f (ok checkpoint_of, l))
      → P (f (checkpoint unchanged l))
  unfolding checkpoint
  checkpoint_cases P f bad good =
      let go_on : Result (Unit {0}) × Ledger H → Result (LedgerCheckpoint H) × Ledger H = λ r.
        elim r.0 [
          | ok a ↦ (
            ok (record {
              ledger_id = r.1.ledger_id;
              sequence = length r.1.index.records;
              record_hash = r.1.index.tip;
            }),
            r.1,
          )
          | err x ↦ (err x, r.1)
        ] in
      guard_cases (λ r. P (f (go_on r))) unchanged l (bad _ _) (λ p. good) (bad _ _)

  module _ (portfolio : PortfolioState) (scenario : Scenario) where
    pub open_path-cases :
        (P : Result (SubmitPath H) → Type 0)
        → ((x : Error) → P (err x))
        → P (ok (opened l checkpoint_of portfolio scenario))
        → P (open_path unchanged l portfolio scenario)
    unfolding open_path
    open_path-cases P bad good =
        let read : Result (LedgerCheckpoint H) × Ledger H → Result (SubmitPath H) =
          λ r. elim r.0 [ err x ↦ err x | ok tip ↦ ok (opened r.1 tip portfolio scenario) ] in
        let free : Result (SubmitPath H) = elim portfolio.reserved_positions [
          | _ ∷ _ ↦ err reservation_mismatch
          | [] ↦ read (checkpoint unchanged l)
        ] in
        elim (portfolio.reserved_cash == 0)
          as (λ b. P (if not b then err reservation_mismatch else free)) [
            | false ↦ bad reservation_mismatch
            | true ↦
                elim portfolio.reserved_positions
                  as (λ ps. P (elim ps [
                    | _ ∷ _ ↦ err reservation_mismatch
                    | [] ↦ read (checkpoint unchanged l)
                  ])) [
                    | _ ∷ _ ↦ bad reservation_mismatch
                    | [] ↦ checkpoint_cases P read (λ x m. bad x) good
                  ]
          ]
