-- ===== src/Submit/Tests.antt =====
-- Calls of the exclusive path (src/std0_quant/execution/exclusive_submit_path_v1.py).
use mathlib.Core.Option.{some-ne-none}
use polymarket_quant.Common.{
  ◌≡◌, refl, true, false, none, List, [], ◌∷◌, lookup, store, drop_key, length, arith, All,
  Distinct, inr,
}
use polymarket_quant.Common.Int.{pos, ◌+ℤ◌}
use polymarket_quant.Numeric.{err, submit_unavailable, positive_finite, nonnegative_finite, of_nat}
use polymarket_quant.Portfolio.{PortfolioState, reserve_buy_cash, release_reserved_cash}
use polymarket_quant.Risk.{evaluate_order_risk}
use polymarket_quant.Cost.{share_of}
use polymarket_quant.Contracts.{OrderIntent, normalized, create_order_intent}
use polymarket_quant.Ledger.{
  Ledger, append_call, append, checkpoint, guard, receipts, get_intent, perform_all, create_ledger,
}
use polymarket_quant.Ledger.Recover.{
  recover, read_lines, read_entry, check_checkpoint, open_existing,
}
use polymarket_quant.Ledger.Receipts.{IsRemembered}
use polymarket_quant.Ledger.Samples.{Mark, same_mark, mark_eq, marks, sample_intent, smooth}
use polymarket_quant.Submit.{SubmitPolicy, SubmitPath, SubmitInput, HaltReason, Scenario, Target}
use polymarket_quant.Submit.Hold.{reserve, release_hold, validate_candidate}
use polymarket_quant.Submit.Stages.{risk_reasons}
use polymarket_quant.Submit.Path.{commit, bind_receipt}
use polymarket_quant.Submit.Call.{
  opened, open_path, finish, dispatch, dispatch_unless, recheck, after_commit, commit_or_halt,
  consume, send_unless, assess, assess_unless, attempt, submit_locked, submit, submit_all,
  close_path,
}
use polymarket_quant.Submit.Open.{checkpoint_of}
use polymarket_quant.Submit.Halted.{IsIdle, shut_call-IsIdle, recovered_sends_nothing}
use polymarket_quant.Submit.Once.{intent_id_of, each_id_is_sent_once, requests_are_durable}
use polymarket_quant.Submit.Exposure.{IsWithinLimits}
use polymarket_quant.Submit.Retained.{IsRetained, pending-IsWithinLimits}

abbrev target : Target
target = record { alpha_id = 1; alpha_version = 1; risk_policy_version = 1; definition_hash = 4 }

abbrev policy : SubmitPolicy
policy = record {
  target = target;
  eligibility_artifact_hash = 9;
  limits = record {
    max_order_notional = 9000000000000;
    max_market_exposure = 10000000000000;
    max_gross_exposure = 15000000000000;
    max_daily_loss = 5000000000000;
    max_market_data_age_ms = 50;
  };
  max_decision_age_ms = 50;
  fee_reserve_bps = 10;
}

-- Twenty units of cash.
abbrev funds : PortfolioState
funds = record {
  cash = pos 20000000000000;
  reserved_cash = 0;
  realized_pnl = pos 0;
  positions = [];
  reserved_positions = [];
}

-- A call in which nothing goes wrong.
abbrev quiet : SubmitInput
quiet = record {
  evidence = record { gate_reasons = []; eligible = true; artifact_hash = 9; target = target };
  now = of_nat 110;
  dispatch_now = of_nat 111;
  final_now = of_nat 112;
  kill_at_entry = false;
  kill_at_risk = false;
  kill_after_commit = false;
  kill_before_dispatch = false;
  tip_unchanged = true;
  append_input = smooth;
  new_tip_unchanged = true;
  get_unchanged = true;
  receipts_unchanged = true;
  last_unchanged = true;
}

abbrev fresh : Ledger Mark
fresh = create_ledger marks 3

abbrev path : Scenario → SubmitPath Mark
path scenario = opened fresh (checkpoint_of true fresh) funds scenario

abbrev intent : OrderIntent
intent = sample_intent 1 5000000

-- The intent, and the same again.
abbrev twice : List (SubmitInput × OrderIntent)
twice = (quiet, intent) ∷ (quiet, intent) ∷ []

abbrev after : SubmitPath Mark
after = submit_all marks policy twice (path Scenario.timeout)

one_request : length after.requests ≡ 1
unfolding submit submit_locked attempt assess_unless assess send_unless consume commit_or_halt
    after_commit recheck dispatch_unless dispatch finish reserve release_hold validate_candidate
    risk_reasons evaluate_order_risk commit bind_receipt checkpoint receipts get_intent append guard
    normalized create_order_intent positive_finite nonnegative_finite lookup store drop_key
    same_mark reserve_buy_cash release_reserved_cash ◌+ℤ◌ share_of
one_request = refl

closed_path_refuses :
    submit marks policy quiet intent (close_path marks policy after)
    ≡ (err submit_unavailable, close_path marks policy after)
unfolding submit
closed_path_refuses = refl

-- A ledger that has a record already.
abbrev used : Ledger Mark
used = perform_all marks (append_call smooth intent ∷ []) fresh

abbrev halted : SubmitPath Mark
halted = opened used (checkpoint_of true used) funds Scenario.ack

shut_call-IsIdle_example : IsIdle halted (submit marks policy quiet intent halted)
unfolding append guard normalized create_order_intent positive_finite nonnegative_finite lookup
    store
shut_call-IsIdle_example =
    shut_call-IsIdle marks policy quiet intent halted
      (inr (λ h. some-ne-none HaltReason.recovered_history h))

recovered_sends_nothing_example :
    (submit_all marks policy twice halted ≡ halted) × (halted.requests ≡ [])
unfolding append guard normalized create_order_intent positive_finite nonnegative_finite lookup
    store open_path checkpoint
recovered_sends_nothing_example =
    recovered_sends_nothing marks policy true used funds Scenario.ack halted twice (omega arith)
      refl

each_id_is_sent_once_example : Distinct intent_id_of after.requests
unfolding recover read_lines open_existing check_checkpoint open_path checkpoint guard same_mark
each_id_is_sent_once_example =
    each_id_is_sent_once marks policy 3 none true fresh.file fresh true funds Scenario.timeout
      (path Scenario.timeout) twice refl refl

requests_are_durable_example :
    All (λ q. IsRemembered after.ledger.index q.intent q.receipt) after.requests
unfolding submit submit_locked attempt assess_unless assess send_unless consume commit_or_halt
    after_commit recheck dispatch_unless dispatch finish reserve release_hold validate_candidate
    risk_reasons evaluate_order_risk commit bind_receipt checkpoint receipts get_intent append guard
    normalized create_order_intent positive_finite nonnegative_finite lookup store drop_key
    same_mark reserve_buy_cash release_reserved_cash ◌+ℤ◌ share_of recover read_lines read_entry
    open_existing check_checkpoint open_path
requests_are_durable_example =
    requests_are_durable marks policy 3 none true fresh.file fresh true funds Scenario.timeout
      (path Scenario.timeout) twice after.ledger.index refl refl refl

pending-IsWithinLimits_example :
    All (IsRetained marks policy after.scenario after.holds) after.requests
    × IsWithinLimits policy.limits after.portfolio after.holds
unfolding open_path checkpoint guard
pending-IsWithinLimits_example =
    pending-IsWithinLimits marks policy true fresh funds Scenario.timeout (path Scenario.timeout)
      twice refl
