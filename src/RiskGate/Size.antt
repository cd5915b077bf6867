-- ===== src/RiskGate/Size.antt =====
-- The size that packages/engine/src/risk-gate.ts expects, and the one that
-- packages/engine/src/position-tracker.ts then keeps.
use traderton.Prelude.{
  String, ◌≡◌, refl, sym, List, [], ◌∷◌, ◌++◌, Option, none, some, All, true, arith,
}
use traderton.Decimal.{DecimalLib, Quantity, decimal, minus, lte}
use traderton.Decimal.Laws.{Exact}
use traderton.Decimal.Order.{lte_of_lt, lte_refl}
use traderton.Decimal.Sums.{minus_self}
use traderton.Decimal.Signs.{minus-pos}
use traderton.Result.{ok}
use traderton.Order.{FillEvent}
use traderton.Position.{
  PositionState, apply_fill, increased, reduced, closed, reversed, flat_position,
}
use traderton.Position.Exposure.{apply_fill_cases}
use traderton.Planner.{PlannedOrder, ExecutionPlan}
use traderton.RiskGate.{RiskLimits, RiskSnapshot, compute_resulting_size, check_risk}
use traderton.RiskGate.Conditions.{AtMost, IsAllowed}
use traderton.RiskGate.Limits.{check_risk_iff}

All-middle {ℓ κ} :
    {A : Type ℓ} (P : A → Type κ) (before after : List A) (x : A)
    → All P (before ++ (x ∷ after))
    → P x
All-middle P [] after x (p, ps) = p
All-middle P (y ∷ before) after x (p, ps) = All-middle P before after x ps

module _ ⦃lib : DecimalLib⦄ ⦃ex : Exact⦄ where
  size-apply_fill :
      (p : PositionState) (f : FillEvent)
      → (apply_fill p f).size ≡ compute_resulting_size (some p) f.side f.quantity
  unfolding compute_resulting_size increased reduced closed reversed
  size-apply_fill p f =
      apply_fill_cases (λ q. q.size ≡ compute_resulting_size (some p) f.side f.quantity) p f
        (λ none. ground arith) (λ held same. ground arith)
        (λ held against less. ground (
          arith,
          ex.abs_of_nonneg (minus p.size f.quantity)
              (lte_of_lt (decimal 0) (minus p.size f.quantity) (minus-pos p.size f.quantity less)),
        ))
        (λ held against exact.
          ground
            (arith, minus_self f.quantity, ex.abs_of_nonneg (decimal 0) (lte_refl (decimal 0))))
        (λ held against over. ground arith)

  -- A position, or the flat one where there is none.
  abbrev pub position_or_flat : String → String → Option PositionState → PositionState
  position_or_flat venue symbol none = flat_position venue symbol none
  position_or_flat venue symbol (some p) = p

  -- The size that the gate computes for an order is the one that the tracker keeps when a fill of
  -- the order's side and quantity arrives.
  pub compute_resulting_size-apply_fill :
      (venue symbol : String) (p : Option PositionState) (f : FillEvent)
      → compute_resulting_size p f.side f.quantity
        ≡ (apply_fill (position_or_flat venue symbol p) f).size
  unfolding compute_resulting_size apply_fill flat_position
  compute_resulting_size-apply_fill venue symbol none f = refl
  compute_resulting_size-apply_fill venue symbol (some p) f = sym (size-apply_fill p f)

  -- When a plan passes the gate under a limit on the size, filling any one of its orders from the
  -- current position leaves a size within the limit.
  pub accepted_order_size :
      (venue symbol : String) (plan : ExecutionPlan) (l : RiskLimits) (s : RiskSnapshot)
      (limit : Quantity) (before after : List PlannedOrder) (o : PlannedOrder) (f : FillEvent)
      → check_risk plan l s ≡ ok tt
      → l.max_position_size ≡ some limit
      → plan.orders ≡ before ++ (o ∷ after)
      → f.side ≡ o.side
      → f.quantity ≡ o.quantity
      → lte (apply_fill (position_or_flat venue symbol s.current_position) f).size limit ≡ true
  accepted_order_size venue symbol plan l s limit before after o f accepted h split side quantity =
      let allowed : IsAllowed l s o =
        All-middle (IsAllowed l s) before after o
          (rw split at ((check_risk_iff plan l s).0 accepted).2) in
      let bounded : AtMost (some limit)
          (compute_resulting_size s.current_position o.side o.quantity) =
        rw h at allowed.0 in
      rw (← compute_resulting_size-apply_fill venue symbol s.current_position f, side, quantity)
        bounded
