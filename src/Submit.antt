-- ===== src/Submit.antt =====
-- The exclusive path of submission, src/std0_quant/execution/exclusive_submit_path_v1.py, on the ledger of
-- intents and a portfolio. One call is serialized by its lock, so a call is one step. What the call meets is
-- its input: the readings of the clock, each look at the kill switch, which another thread may set, what
-- the operating system does to the ledger, and the verdict of the eligibility gate on the evidence.
-- `Submit.Stages` has the reasons against a call, `Submit.Path` what it calls, `Submit.Call` the call itself.
pub mod Hold
pub mod Stages
pub mod Path
pub mod Call
pub mod Open
pub mod Rules
pub mod Commits
pub mod Keeps
pub mod Once
pub mod Positions
pub mod Exposure
pub mod Retained
pub mod Halted
mod Tests
use polymarket_quant.Common.{ℕ, Bool, Option, List}
use polymarket_quant.Numeric.{Float}
use polymarket_quant.Risk.{RiskLimits, Reason}
use polymarket_quant.Portfolio.{Key, PortfolioState}
use polymarket_quant.Contracts.{OrderIntent}
use polymarket_quant.Ledger.{Digests, Ledger, LedgerCheckpoint, DurableIntentReceipt, AppendInput}

-- The fields of `ExecutionValidationTarget` that the path reads, and its digest.
pub record Target : Type 0 where
  pub alpha_id : ℕ
  pub alpha_version : ℕ
  pub risk_policy_version : ℕ
  pub definition_hash : ℕ

pub record SubmitPolicy : Type 0 where
  pub target : Target
  pub eligibility_artifact_hash : ℕ
  pub limits : RiskLimits
  pub max_decision_age_ms : ℕ
  pub fee_reserve_bps : ℕ

pub data HaltReason : Type 0 where
  recovered_history ledger_lost precommit_failed ledger_changed_before_dispatch : HaltReason
  dispatch_outcome_unknown unexpected_failure : HaltReason

pub data SubmitReason : Type 0 where
  gate_reason : ℕ → SubmitReason
  not_eligible anchor_mismatch target_mismatch strategy_mismatch risk_policy_mismatch : SubmitReason
  kill_switch_active decision_from_future stale_decision : SubmitReason
  market_data_from_future stale_market_data clock_moved_backwards : SubmitReason
  risk_reason : Reason → SubmitReason
  pending_market_exceeded pending_gross_exceeded : SubmitReason
  insufficient_cash insufficient_position already_consumed : SubmitReason
  halted : HaltReason → SubmitReason

pub data SubmitStatus : Type 0 where
  duplicate reconciliation_required blocked precommit_failed not_dispatched : SubmitStatus
  unknown offline_rejected offline_ack : SubmitStatus

pub record SubmitHold : Type 0 where
  pub key : Key
  pub cash : ℕ
  pub sell_qty : ℕ
  pub buy_notional : ℕ

pub record DispatchRequest (H : Type 0) : Type 0 where
  pub intent : OrderIntent
  pub intent_hash : H
  pub receipt : DurableIntentReceipt H
  pub submit_ts_ms : ℕ

-- What `OfflineSubmitStubV1` is told to do.
pub data Scenario : Type 0 where
  ack reject timeout malformed : Scenario

pub record SubmitResult (H : Type 0) : Type 0 where
  pub intent_id : ℕ
  pub intent_hash : H
  pub status : SubmitStatus
  pub reasons : List SubmitReason
  pub adapter_called : Bool
  pub receipt : Option (DurableIntentReceipt H)
  pub reserved_cash : ℕ
  pub reserved_sell_qty : ℕ
  pub previous_status : Option SubmitStatus

pub record SubmitPath (H : Type 0) : Type 0 where
  pub closed : Bool
  pub halt_reason : Option HaltReason
  pub portfolio : PortfolioState
  pub ledger : Ledger H
  pub tip : LedgerCheckpoint H
  pub holds : List (ℕ × SubmitHold)
  pub results : List (ℕ × SubmitResult H)
  pub consumed_hashes : List (ℕ × H)
  pub scenario : Scenario
  pub requests : List (DispatchRequest H)

-- The evidence, as the gate's verification judges it.
pub record Evidence : Type 0 where
  pub gate_reasons : List ℕ
  pub eligible : Bool
  pub artifact_hash : ℕ
  pub target : Target

pub record SubmitInput : Type 0 where
  pub evidence : Evidence
  pub now : Float
  pub dispatch_now : Float
  pub final_now : Float
  pub kill_at_entry : Bool
  pub kill_at_risk : Bool
  pub kill_after_commit : Bool
  pub kill_before_dispatch : Bool
  pub tip_unchanged : Bool
  pub append_input : AppendInput
  pub new_tip_unchanged : Bool
  pub get_unchanged : Bool
  pub receipts_unchanged : Bool
  pub last_unchanged : Bool
