-- ===== src/StopLoss.antt =====
-- packages/engine/src/stop-loss-monitor.ts and packages/engine/src/per-trade-level-validator.ts.
-- A percentage of the configuration is the decimal that it denotes.
pub mod Triggers
pub mod Validation
use traderton.Prelude.{String, Bool, true, false, List, [], ◌∷◌, Option, none, some, if◌then◌else◌}
use traderton.Decimal.{DecimalLib, Price, decimal, mul, div, abs, lte, gte, to_string}
use traderton.Position.{PositionState, unrealized_pnl, is_flat}

pub data LevelSide : Type 0 where
  long short : LevelSide

pub data TriggerReason : Type 0 where
  stop_loss take_profit : TriggerReason

module _ ⦃lib : DecimalLib⦄ where
  pub record StopLossConfig : Type 0 where
    pub max_unrealized_loss_pct : Price

  pub record StopLossCheck : Type 0 where
    pub instrument : String
    pub position : PositionState
    pub mark_price : Price
    pub equity : Price

  pub record StopLossResult : Type 0 where
    pub triggered : Bool
    pub instrument : Option String
    pub unrealized_loss : Option Price
    pub threshold : Option Price

  abbrev pub not_triggered : StopLossResult
  not_triggered = record {
    triggered = false;
    instrument = none;
    unrealized_loss = none;
    threshold = none;
  }

  abbrev pub check_threshold : StopLossConfig → StopLossCheck → Price
  check_threshold config c = div (mul c.equity config.max_unrealized_loss_pct) (decimal 100)

  abbrev pub check_pnl : StopLossCheck → Price
  check_pnl c = unrealized_pnl c.position c.mark_price

  -- The loop's body: `some` where it returns, `none` where it goes on.
  unfoldable pub check_one : StopLossConfig → StopLossCheck → Option StopLossResult
  check_one config c =
      if is_flat c.position.side
      then none
      else if gte (check_pnl c) (decimal 0)
      then none
      else if gte (abs (check_pnl c)) (check_threshold config c)
      then some (record {
        triggered = true;
        instrument = some c.instrument;
        unrealized_loss = some (abs (check_pnl c));
        threshold = some (check_threshold config c);
      })
      else none

  unfoldable pub check_all : StopLossConfig → List StopLossCheck → StopLossResult
  check_all config [] = not_triggered
  check_all config (c ∷ cs) =
      let rest = check_all config cs in elim (check_one config c) [ none ↦ rest | some r ↦ r ]

  unfoldable pub check_stop_loss : StopLossConfig → List StopLossCheck → StopLossResult
  check_stop_loss config checks =
      if lte config.max_unrealized_loss_pct (decimal 0)
      then not_triggered
      else check_all config checks

  pub record PerTradeLevelCheck : Type 0 where
    pub instrument : String
    pub side : LevelSide
    pub mark_price : Price
    pub stop_loss : Option Price
    pub take_profit : Option Price

  pub record PerTradeLevelResult : Type 0 where
    pub triggered : Bool
    pub instrument : Option String
    pub reason : Option TriggerReason
    pub mark_price : Option Price
    pub level : Option Price

  abbrev pub no_level : PerTradeLevelResult
  no_level = record {
    triggered = false;
    instrument = none;
    reason = none;
    mark_price = none;
    level = none;
  }

  abbrev pub at_level : PerTradeLevelCheck → TriggerReason → Price → PerTradeLevelResult
  at_level c reason level = record {
    triggered = true;
    instrument = some c.instrument;
    reason = some reason;
    mark_price = some c.mark_price;
    level = some level;
  }

  abbrev pub stop_hit : LevelSide → Price → Price → Bool
  stop_hit long mark level = lte mark level
  stop_hit short mark level = gte mark level

  abbrev pub profit_hit : LevelSide → Price → Price → Bool
  profit_hit long mark level = gte mark level
  profit_hit short mark level = lte mark level

  abbrev pub hit_if : Bool → PerTradeLevelResult → Option PerTradeLevelResult
  hit_if true r = some r
  hit_if false r = none

  abbrev pub check_stop : PerTradeLevelCheck → Option PerTradeLevelResult
  check_stop c = elim c.stop_loss [
    | none ↦ none
    | some level ↦ hit_if (stop_hit c.side c.mark_price level) (at_level c stop_loss level)
  ]

  abbrev pub check_profit : PerTradeLevelCheck → Option PerTradeLevelResult
  check_profit c = elim c.take_profit [
    | none ↦ none
    | some level ↦ hit_if (profit_hit c.side c.mark_price level) (at_level c take_profit level)
  ]

  -- The stop is looked at before the profit, and an earlier check before a later one.
  unfoldable pub check_per_trade_levels : List PerTradeLevelCheck → PerTradeLevelResult
  check_per_trade_levels [] = no_level
  check_per_trade_levels (c ∷ cs) =
      let rest = check_per_trade_levels cs in
      elim (check_stop c) [ some r ↦ r | none ↦ elim (check_profit c) [ some r ↦ r | none ↦ rest ] ]

  pub record LevelValidationInput : Type 0 where
    pub side : LevelSide
    pub mark_price : Price
    pub stop_loss : Option Price
    pub take_profit : Option Price

  pub data LevelReason : Type 0 where
    stop_above_mark_for_long stop_below_mark_for_short : LevelReason
    profit_below_mark_for_long profit_above_mark_for_short : LevelReason

  -- The field and the reason, the mark price and the level.
  pub record LevelValidationError : Type 0 where
    pub reason : LevelReason
    pub mark_price : String
    pub level : String

  abbrev pub level_error : LevelReason → Price → Price → LevelValidationError
  level_error reason mark level = record {
    reason = reason;
    mark_price = to_string mark;
    level = to_string level;
  }

  abbrev pub error_if : Bool → LevelValidationError → Option LevelValidationError
  error_if true e = some e
  error_if false e = none

  abbrev pub stop_error : LevelSide → Price → Price → Option LevelValidationError
  stop_error long mark level =
      error_if (gte level mark) (level_error stop_above_mark_for_long mark level)
  stop_error short mark level =
      error_if (lte level mark) (level_error stop_below_mark_for_short mark level)

  abbrev pub profit_error : LevelSide → Price → Price → Option LevelValidationError
  profit_error long mark level =
      error_if (lte level mark) (level_error profit_below_mark_for_long mark level)
  profit_error short mark level =
      error_if (gte level mark) (level_error profit_above_mark_for_short mark level)

  abbrev pub checked :
      Option Price → (Price → Option LevelValidationError) → Option LevelValidationError
  checked none f = none
  checked (some level) f = f level

  unfoldable pub validate_per_trade_levels : LevelValidationInput → Option LevelValidationError
  validate_per_trade_levels i = elim (checked i.stop_loss (stop_error i.side i.mark_price)) [
    | some e ↦ some e
    | none ↦ checked i.take_profit (profit_error i.side i.mark_price)
  ]
