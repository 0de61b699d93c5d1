-- ===== src/Contracts.antt =====
-- The order intent that crosses into execution, src/std0_quant/execution/contracts.py.
-- `Contracts.Events` has the order event.
-- Strings are numbers, as they are only compared; quantities, prices and times are grains.
pub mod Text
pub mod Events
pub mod Roundtrip
mod Tests
use polymarket_quant.Common.{ℕ, ◌*◌, ◌≡◌, ◌↔◌, Bool, true, false, ◌&&◌, ltb, ◌==◌, arith}
use polymarket_quant.Common.{Eq}
use polymarket_quant.Numeric.{
  Float, Field, Result, ok, ◌>>=◌, ◌>>◌, raise_if, positive_finite, nonnegative_finite, of_nat,
  market_data_after_decision,
}
use polymarket_quant.Fill.{Side}

pub data TimeInForce : Type 0 where
  gtc ioc fok : TimeInForce

pub record OrderIntent : Type 0 where
  pub intent_id : ℕ
  pub condition_id : ℕ
  pub outcome : ℕ
  pub side : Side
  pub qty : ℕ
  pub limit_price : ℕ
  pub time_in_force : TimeInForce
  pub decision_ts_ms : ℕ
  pub market_data_ts_ms : ℕ
  pub strategy_id : ℕ
  pub strategy_version : ℕ
  pub risk_policy_version : ℕ

-- `__post_init__`; its checks of the strings, the side and the time in force are left to the types.
unfoldable pub create_order_intent :
    ℕ → ℕ → ℕ → Side → Float → Float → TimeInForce → Float → Float → ℕ → ℕ → ℕ → Result OrderIntent
unfolding positive_finite nonnegative_finite
create_order_intent intent_id condition_id outcome side qty limit_price tif decision_ts_ms
      market_data_ts_ms strategy_id strategy_version risk_policy_version =
    do
      n ← positive_finite qty Field.qty
      p ← positive_finite limit_price Field.limit_price
      d ← nonnegative_finite decision_ts_ms Field.decision_ts_ms
      m ← nonnegative_finite market_data_ts_ms Field.market_data_ts_ms
      raise_if (ltb d m) market_data_after_decision
      ok (record {
        intent_id = intent_id;
        condition_id = condition_id;
        outcome = outcome;
        side = side;
        qty = n;
        limit_price = p;
        time_in_force = tif;
        decision_ts_ms = d;
        market_data_ts_ms = m;
        strategy_id = strategy_id;
        strategy_version = strategy_version;
        risk_policy_version = risk_policy_version;
      })

-- `OrderIntent.from_dict(intent.to_dict())`
unfoldable pub normalized : OrderIntent → Result OrderIntent
unfolding create_order_intent
normalized i =
    create_order_intent i.intent_id i.condition_id i.outcome i.side (of_nat i.qty)
      (of_nat i.limit_price) i.time_in_force (of_nat i.decision_ts_ms) (of_nat i.market_data_ts_ms)
      i.strategy_id i.strategy_version i.risk_policy_version

-- What the checks let through is the intent itself.
pub normalized_same : (i : OrderIntent) {j : OrderIntent} → normalized i ≡ ok j → j ≡ i
unfolding normalized create_order_intent positive_finite nonnegative_finite
normalized_same i h = ground arith

abbrev pub order_notional : OrderIntent → ℕ
order_notional i = i.qty * i.limit_price

abbrev same_side : Side → Side → Bool
same_side Side.buy Side.buy = true
same_side Side.sell Side.sell = true
same_side _ _ = false

abbrev same_tif : TimeInForce → TimeInForce → Bool
same_tif TimeInForce.gtc TimeInForce.gtc = true
same_tif TimeInForce.ioc TimeInForce.ioc = true
same_tif TimeInForce.fok TimeInForce.fok = true
same_tif _ _ = false

-- Equality of the canonical texts of two intents.
abbrev same_intent : OrderIntent → OrderIntent → Bool
same_intent i j =
    i.intent_id == j.intent_id
    && i.condition_id == j.condition_id
    && i.outcome == j.outcome
    && same_side i.side j.side
    && i.qty == j.qty
    && i.limit_price == j.limit_price
    && same_tif i.time_in_force j.time_in_force
    && i.decision_ts_ms == j.decision_ts_ms
    && i.market_data_ts_ms == j.market_data_ts_ms
    && i.strategy_id == j.strategy_id
    && i.strategy_version == j.strategy_version
    && i.risk_policy_version == j.risk_policy_version

pub same_intent_iff : (i j : OrderIntent) → (same_intent i j ≡ true) ↔ (i ≡ j)
same_intent_iff i j = ground arith

instance abbrev pub intent_eq : Eq OrderIntent
intent_eq = record { beq = same_intent; beq_iff = same_intent_iff }
