-- ===== src/StopLoss/Validation.antt =====
-- Levels that packages/engine/src/per-trade-level-validator.ts accepts, in the monitor of
-- packages/engine/src/stop-loss-monitor.ts.
use traderton.Prelude.{◌≡◌, ◌↔◌, true, List, ◌∷◌, Option, none, some, arith, inl, inr, Option-cases}
use traderton.Decimal.{DecimalLib, Price, lt}
use traderton.Decimal.Laws.{Exact}
use traderton.StopLoss.{
  LevelSide, long, short, PerTradeLevelCheck, check_per_trade_levels, LevelValidationInput,
  validate_per_trade_levels,
}

module _ ⦃lib : DecimalLib⦄ where
  abbrev pub IsBelow : Option Price → Price → Type 0
  IsBelow none mark = Unit {0}
  IsBelow (some level) mark = lt level mark ≡ true

  abbrev pub IsAbove : Option Price → Price → Type 0
  IsAbove none mark = Unit {0}
  IsAbove (some level) mark = lt mark level ≡ true

  -- The stop on the losing side of the mark, the target on the winning side.
  abbrev pub Encloses : LevelSide → Option Price → Price → Option Price → Type 0
  Encloses long stop mark profit = IsBelow stop mark × IsAbove profit mark
  Encloses short stop mark profit = IsAbove stop mark × IsBelow profit mark

  abbrev pub input_of : PerTradeLevelCheck → LevelValidationInput
  input_of c = record {
    side = c.side;
    mark_price = c.mark_price;
    stop_loss = c.stop_loss;
    take_profit = c.take_profit;
  }

module _ ⦃lib : DecimalLib⦄ ⦃ex : Exact⦄ where
  -- Levels are accepted exactly when the mark lies strictly between them, on the side of the trade.
  pub validate_per_trade_levels_iff :
      (i : LevelValidationInput)
      → (validate_per_trade_levels i ≡ none)
        ↔ Encloses i.side i.stop_loss i.mark_price i.take_profit
  unfolding validate_per_trade_levels
  validate_per_trade_levels_iff i = elim (Option-cases i.stop_loss) [
    | inl no_stop ↦ elim (Option-cases i.take_profit) [
      | inl no_profit ↦ (λ h. ground arith, λ h. ground arith)
      | inr (profit, e) ↦
          let f = ex.compared_to-flip profit i.mark_price in
          (λ h. ground (arith, f), λ h. ground (arith, f))
    ]
    | inr (stop, s) ↦ elim (Option-cases i.take_profit) [
      | inl no_profit ↦
          let f = ex.compared_to-flip stop i.mark_price in
          (λ h. ground (arith, f), λ h. ground (arith, f))
      | inr (profit, e) ↦
          let f = ex.compared_to-flip stop i.mark_price in
          let g = ex.compared_to-flip profit i.mark_price in
          (λ h. ground (arith, f, g), λ h. ground (arith, f, g))
    ]
  ]

  -- An accepted position does not trigger at the mark at which it was accepted: the monitor goes on
  -- to the other positions.
  pub accepted_levels_hold :
      (c : PerTradeLevelCheck) (cs : List PerTradeLevelCheck)
      → validate_per_trade_levels (input_of c) ≡ none
      → check_per_trade_levels (c ∷ cs) ≡ check_per_trade_levels cs
  unfolding validate_per_trade_levels check_per_trade_levels
  accepted_levels_hold c cs h = elim (Option-cases c.stop_loss) [
    | inl no_stop ↦ elim (Option-cases c.take_profit) [
      | inl no_profit ↦ ground arith
      | inr (profit, e) ↦ ground (arith, ex.compared_to-flip profit c.mark_price)
    ]
    | inr (stop, s) ↦ elim (Option-cases c.take_profit) [
      | inl no_profit ↦ ground (arith, ex.compared_to-flip stop c.mark_price)
      | inr (profit, e) ↦
          ground
            (arith, ex.compared_to-flip stop c.mark_price, ex.compared_to-flip profit c.mark_price)
    ]
  ]
