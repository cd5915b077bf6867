-- ===== src/Planner/Orders.antt =====
-- Where one order of packages/engine/src/planner.ts takes an exposure.
use traderton.Prelude.{◌≡◌, sym, ◌∙◌, Bool, true, false, List, [], ◌∷◌, arith, if◌then◌else◌}
use traderton.Decimal.{DecimalLib, Quantity, decimal, plus, minus, neg, lt, gt}
use traderton.Decimal.Laws.{Exact}
use traderton.Decimal.Sums.{compared_to-minus, plus-minus, zero-plus, neg-plus, neg-neg, neg-minus}
use traderton.Order.{buy, sell}
use traderton.Position.{PositionSide, long, short, flat}
use traderton.Position.Exposure.{signed}
use traderton.Planner.{
  DecisionIntent, go_long, go_short, go_flat, increase, decrease, unrecognised, Decision,
  PlannerDeps, PlannedOrder, order_if_positive,
}

module _ ⦃lib : DecimalLib⦄ where
  abbrev pub signed_order : PlannedOrder → Quantity
  signed_order o = elim o.side [ buy ↦ o.quantity | sell ↦ neg o.quantity ]

  -- The exposure after orders that are filled completely.
  abbrev pub filled_exposure : Quantity → List PlannedOrder → Quantity
  filled_exposure e [] = e
  filled_exposure e (o ∷ os) = filled_exposure (plus e (signed_order o)) os

  -- Where an intent asks to go from a side and size. A position that is already larger than the
  -- target of an opening intent, or smaller than that of `decrease`, stays.
  abbrev pub destination : DecisionIntent → Bool → PositionSide → Quantity → Quantity → Quantity
  destination go_flat on_swap side size target = decimal 0
  destination go_long on_swap short size target =
      if gt target (decimal 0) then target else decimal 0
  destination go_long on_swap side size target = if lt size target then target else size
  destination go_short true long size target = decimal 0
  destination go_short true side size target = signed side size
  destination go_short false long size target =
      if gt target (decimal 0) then neg target else decimal 0
  destination go_short false side size target = neg (if lt size target then target else size)
  destination increase on_swap short size target = neg (if lt size target then target else size)
  destination increase on_swap side size target = if lt size target then target else size
  destination decrease on_swap side size target =
      signed side (if lt target size then target else size)
  destination unrecognised on_swap side size target = signed side size

module _ ⦃lib : DecimalLib⦄ ⦃ex : Exact⦄ where
  -- A position with no size is flat, and the other way round.
  abbrev pub IsHeld : PositionSide → Quantity → Type 0
  IsHeld flat size = size ≡ decimal 0
  IsHeld _ size = lt (decimal 0) size ≡ true

  pub up_to_target : (size target : Quantity) → plus size (minus target size) ≡ target
  up_to_target size target = ex.plus_comm size (minus target size) ∙ plus-minus target size

  pub down_to_target : (size target : Quantity) → plus size (neg (minus size target)) ≡ target
  down_to_target size target = rw (neg-minus size target) (up_to_target size target)

  pub buy_up :
      (d : Decision) (deps : PlannerDeps) (size target : Quantity)
      → filled_exposure size (order_if_positive d deps buy (minus target size))
        ≡ (if lt size target then target else size)
  buy_up d deps size target = ground (
    arith,
    compared_to-minus target size,
    ex.compared_to-flip target size,
    up_to_target size target,
  )

  pub sell_up :
      (d : Decision) (deps : PlannerDeps) (size target : Quantity)
      → filled_exposure (neg size) (order_if_positive d deps sell (minus target size))
        ≡ neg (if lt size target then target else size)
  sell_up d deps size target = ground (
    arith,
    compared_to-minus target size,
    ex.compared_to-flip target size,
    sym (neg-plus size (minus target size)),
    up_to_target size target,
  )

  pub sell_down :
      (d : Decision) (deps : PlannerDeps) (size target : Quantity)
      → filled_exposure size (order_if_positive d deps sell (minus size target))
        ≡ (if lt target size then target else size)
  sell_down d deps size target = ground (
    arith,
    compared_to-minus size target,
    ex.compared_to-flip size target,
    down_to_target size target,
  )

  pub buy_down :
      (d : Decision) (deps : PlannerDeps) (size target : Quantity)
      → filled_exposure (neg size) (order_if_positive d deps buy (minus size target))
        ≡ neg (if lt target size then target else size)
  buy_down d deps size target = ground (
    arith,
    compared_to-minus size target,
    ex.compared_to-flip size target,
    sym (neg-neg (minus size target)),
    sym (neg-plus size (neg (minus size target))),
    down_to_target size target,
  )

  pub buy_in :
      (d : Decision) (deps : PlannerDeps) (e target : Quantity)
      → e ≡ decimal 0
      → filled_exposure e (order_if_positive d deps buy target)
        ≡ (if gt target (decimal 0) then target else decimal 0)
  buy_in d deps e target h = rw h (ground (arith, zero-plus target))

  pub sell_in :
      (d : Decision) (deps : PlannerDeps) (e target : Quantity)
      → e ≡ decimal 0
      → filled_exposure e (order_if_positive d deps sell target)
        ≡ (if gt target (decimal 0) then neg target else decimal 0)
  sell_in d deps e target h = rw h (ground (arith, zero-plus (neg target)))

  pub sell_out :
      (d : Decision) (deps : PlannerDeps) (size : Quantity)
      → lt (decimal 0) size ≡ true
      → filled_exposure size (order_if_positive d deps sell size) ≡ decimal 0
  sell_out d deps size h = ground (arith, ex.compared_to-flip size (decimal 0), ex.plus-neg size)

  pub buy_out :
      (d : Decision) (deps : PlannerDeps) (size : Quantity)
      → lt (decimal 0) size ≡ true
      → filled_exposure (neg size) (order_if_positive d deps buy size) ≡ decimal 0
  buy_out d deps size h =
      ground (
        arith,
        ex.compared_to-flip size (decimal 0),
        ex.plus_comm (neg size) size,
        ex.plus-neg size,
      )
