-- ===== src/Numeric.antt =====
-- Python floats as the execution package uses them
-- (src/std0_quant/execution/order_state.py, queue_model.py, fill_model.py, latency_model.py, ...).
-- A finite float is a whole number of grains of 1e-12, the tolerance `_EPS` that every module of
-- the package compares with, so `_EPS` is one grain and sums, differences and comparisons are exact.
use polymarket_quant.Common.{ℕ, suc, Bool, true, false, arith, ◌≡◌, refl, ◌<◌}
use polymarket_quant.Common.Int.{ℤ, pos}

pub data Float : Type 0 where
  nan pos_inf neg_inf : Float
  finite : ℤ → Float

-- `_EPS = 1e-12`, in grains.
abbrev pub eps : ℕ
eps = 1

-- The names that the checks put into their messages.
pub data Field : Type 0 where
  order_qty filled_qty last_event_ts_ms fill_qty event_ts_ms queue_ahead_qty traded_qty : Field
  added_qty decreased_qty displayed_qty order_price price level_qty timestamps : Field
  market_event_ts_ms send_ts_ms arrival_ts_ms latency_stage venue_ts_ms cancel_send_ts_ms : Field
  fill_venue_ts_ms cancel_effective_ts_ms new_price new_qty : Field
  cash reserved_cash realized_pnl qty amount fee_cost rebate_credit : Field
  limit limit_price now_ts_ms estimated_fee_cost fee_bps requested_qty reference_price : Field
  mark_price decision_ts_ms market_data_ts_ms clock_ms : Field
  receive_ts_ms fill_price cumulative_filled_qty remaining_qty : Field

-- Every `raise` of the modelled modules.
pub data Error : Type 0 where
  not_positive not_nonnegative : Field → Error
  filled_exceeds_order filled_status_mismatch partial_status_mismatch : Error
  fill_not_allowed fill_exceeds_remaining transition_not_allowed not_monotonic : Error
  reset_of_filled_order : Error
  not_best_to_worst : Error
  race_needs_cancel_requested fill_precedes_cancel_request cancel_precedes_request : Error
  ambiguous_cancel_fill_race : Error
  replacement_needs_cancelled replacement_precedes_cancel_ack old_order_not_cancelled : Error
  replacement_assertion : Error
  trade_precedes_accept trade_at_accept cancel_precedes_accept : Error
  fok_assertion : Error
  not_finite : Field → Error
  reserved_exceeds_cash insufficient_position release_exceeds_reserved : Error
  insufficient_cash negative_buy_cost sell_exceeds_held empty_position_sold : Error
  negative_cash fills_exceed_request average_missing : Error
  buy_exceeds_reservation sell_exceeds_reservation taker_in_passive : Error
  market_data_after_decision : Error
  fill_qty_missing fill_price_missing unexpected_fill_qty unexpected_fill_price : Error
  filled_with_remaining partial_without_remaining : Error
  empty_text unsupported_event_type unsupported_event_schema : Error
  ledger_unavailable ledger_corrupt intent_conflict record_too_long index_error : Error
  submit_unavailable submit_conflict notional_not_positive : Error
  hold_missing reservation_mismatch dispatch_timeout malformed_response : Error

pub data Result (A : Type 0) : Type 0 where
  ok : A → Result A
  err : Error → Result A

infixl 5 ◌>>=◌ ◌>>◌
abbrev pub ◌>>=◌ : {A B : Type 0} → Result A → (A → Result B) → Result B
ok a >>= f = f a
err e >>= f = err e

abbrev pub ◌>>◌ : {B : Type 0} → Result (Unit {0}) → Result B → Result B
m >> k = m >>= λ _. k

-- What holds of an error and of every value's continuation holds of a chain.
pub bind_cases :
    {A B : Type 0} (P : Result B → Type 0) (m : Result A) (f : A → Result B)
    → ((e : Error) → P (err e))
    → ((a : A) → m ≡ ok a → P (f a))
    → P (m >>= f)
bind_cases P (ok a) f bad good = good a refl
bind_cases P (err e) f bad good = bad e

-- `if c: raise e`
abbrev pub raise_if : Bool → Error → Result (Unit {0})
raise_if true e = err e
raise_if false e = ok tt

-- `_positive_finite`: the value of a float that is finite and above zero.
unfoldable pub positive_finite : Float → Field → Result ℕ
positive_finite (finite (pos (suc n))) name = ok (suc n)
positive_finite _ name = err (not_positive name)

-- `_nonnegative_finite`: the value of a float that is finite and not below zero.
unfoldable pub nonnegative_finite : Float → Field → Result ℕ
nonnegative_finite (finite (pos n)) name = ok n
nonnegative_finite _ name = err (not_nonnegative name)

-- A float that is known to hold a number that is not negative.
abbrev pub of_nat : ℕ → Float
of_nat n = finite (pos n)

abbrev pub IsOk : {A : Type 0} → Result A → Type 0
IsOk (ok _) = Unit
IsOk (err _) = ⊥

pub positive_finite_pos : (v : Float) (name : Field) {n : ℕ} → positive_finite v name ≡ ok n → 0 < n
unfolding positive_finite
positive_finite_pos v name h = ground arith

pub positive_finite_value :
    (v : Float) (name : Field) {n : ℕ} → positive_finite v name ≡ ok n → v ≡ of_nat n
unfolding positive_finite
positive_finite_value v name h = ground arith

pub nonnegative_finite_value :
    (v : Float) (name : Field) {n : ℕ} → nonnegative_finite v name ≡ ok n → v ≡ of_nat n
unfolding nonnegative_finite
nonnegative_finite_value v name h = ground arith

-- The checks accept what is already a good value.
pub positive_finite-of_nat : (n : ℕ) (name : Field) → 0 < n → positive_finite (of_nat n) name ≡ ok n
unfolding positive_finite
positive_finite-of_nat n name h = ground arith

pub nonnegative_finite-of_nat : (n : ℕ) (name : Field) → nonnegative_finite (of_nat n) name ≡ ok n
unfolding nonnegative_finite
nonnegative_finite-of_nat n name = refl
