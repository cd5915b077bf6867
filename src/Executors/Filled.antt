-- ===== src/Executors/Filled.antt =====
-- Where the fills of packages/engine/src/paper-executor.ts take a position.
use mathlib.Core.Path.{ap₂}
use traderton.Prelude.{String, ◌≡◌, refl, ap, ◌∙◌, List, [], ◌∷◌, Option, none, some, true}
use traderton.Decimal.{DecimalLib, Price, decimal, plus, neg, lt}
use traderton.Decimal.Laws.{Exact}
use traderton.Order.{buy, sell, FillEvent}
use traderton.Position.{PositionState, apply_fill}
use traderton.Position.Exposure.{exposure, signed_fill, exposure-apply_fill}
use traderton.Planner.{PlannedOrder, ExecutionPlan}
use traderton.Planner.Orders.{filled_exposure, signed_order}
use traderton.Executors.{IdGenerator, FeeSimulatorConfig}
use traderton.Executors.Costs.{IsNoBetter, IsNoBetter-refl, apply_paper_slippage-IsNoBetter}
use traderton.Executors.Paper.{simulate, base_price, fill_price, paper_fill}

module _ ⦃lib : DecimalLib⦄ where
  -- The position after fills.
  abbrev pub after_fills : PositionState → List FillEvent → PositionState
  after_fills p [] = p
  after_fills p (f ∷ fs) = after_fills (apply_fill p f) fs

  -- Fills that are those of planned orders, filled completely.
  pub data AreComplete : List PlannedOrder → List FillEvent → Type 0 where
    nothing : AreComplete [] []
    also :
        {planned : PlannedOrder} {fill : FillEvent} {more : List PlannedOrder}
        {fills : List FillEvent}
        → fill.side ≡ planned.side
        → fill.quantity ≡ planned.quantity
        → AreComplete more fills
        → AreComplete (planned ∷ more) (fill ∷ fills)

module _ ⦃lib : DecimalLib⦄ where
  -- Every planned order is filled completely, in order.
  pub simulate-AreComplete :
      {S : Type 0} (id_gen : IdGenerator S) (config : Option FeeSimulatorConfig) (s : S)
      (plan : ExecutionPlan) (current_price : Price) (now : String) (orders : List PlannedOrder)
      → AreComplete orders (simulate id_gen config s plan current_price now orders).2
  unfolding simulate paper_fill
  simulate-AreComplete id_gen config s plan current_price now [] = nothing
  simulate-AreComplete id_gen config s plan current_price now (planned ∷ more) =
      also refl refl (simulate-AreComplete id_gen config _ plan current_price now more)

module _ ⦃lib : DecimalLib⦄ ⦃ex : Exact⦄ where
  same_signed :
      (o : PlannedOrder) (f : FillEvent)
      → f.side ≡ o.side
      → f.quantity ≡ o.quantity
      → signed_fill f ≡ signed_order o
  same_signed o f side quantity = ap₂ (λ s q. elim s [ buy ↦ q | sell ↦ neg q ]) side quantity

  pub exposure-after_fills :
      (p : PositionState) (orders : List PlannedOrder) (fills : List FillEvent)
      → AreComplete orders fills
      → exposure (after_fills p fills) ≡ filled_exposure (exposure p) orders
  exposure-after_fills p [] [] nothing = refl
  exposure-after_fills p [] (f ∷ fs) c = elim c [ ]
  exposure-after_fills p (o ∷ os) [] c = elim c [ ]
  exposure-after_fills p (o ∷ os) (f ∷ fs) (also side quantity more) =
      exposure-after_fills (apply_fill p f) os fs more
      ∙ ap (λ e. filled_exposure e os)
          (exposure-apply_fill p f ∙ ap (plus (exposure p)) (same_signed o f side quantity))

  -- No paper fill is better than the price that it starts from.
  pub fill_price-IsNoBetter :
      (config : Option FeeSimulatorConfig) (planned : PlannedOrder) (current_price : Price)
      → lt (decimal 0) (base_price planned current_price) ≡ true
      → IsNoBetter planned.side
          (fill_price config planned current_price)
          (base_price planned current_price)
  unfolding fill_price
  fill_price-IsNoBetter none planned current_price h = IsNoBetter-refl planned.side _
  fill_price-IsNoBetter (some config) planned current_price h =
      apply_paper_slippage-IsNoBetter config _ planned.side h
