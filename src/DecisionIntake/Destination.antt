-- ===== src/DecisionIntake/Destination.antt =====
-- The exposure to which a plan of packages/engine/src/decision-intake.ts is made.
use traderton.Prelude.{String, ◌≡◌, refl, sym, ◌∙◌, inl, inr, true, false, arith, Bool-cases}
use mathlib.Core.Path.{subst, ap₂}
use traderton.Decimal.{DecimalLib, Quantity, decimal, lt, lte}
use traderton.Decimal.Laws.{Exact}
use traderton.Position.{PositionSide, long, short, flat, PositionState, is_flat}
use traderton.Position.Exposure.{exposure, signed, IsValid, flat_of_is_flat}
use traderton.Planner.{is_swap, current_side, current_size}
use traderton.Planner.Orders.{destination, filled_exposure, IsHeld}
use traderton.Planner.Targets.{plan_decision-destination}
use traderton.DecisionIntake.{Submission, IntakeDeps}
use traderton.DecisionIntake.Snapshot.{planner_deps, venue_position}
use traderton.DecisionIntake.Submit.{make_plan}

-- The venue's position, as the planner reads it, is the tracker's.
module _ ⦃lib : DecimalLib⦄ ⦃ex : Exact⦄ where
  current_side-venue_position : (p : PositionState) → current_side (venue_position p) ≡ p.side
  unfolding venue_position
  current_side-venue_position p = ground arith

  current_size-venue_position :
      (p : PositionState) → IsValid p → current_size (venue_position p) ≡ p.size
  unfolding venue_position
  current_size-venue_position p v = elim (Bool-cases (is_flat p.side)) [
    | inl empty ↦ rw empty (sym (v.size_of_flat (flat_of_is_flat p.side empty)).0)
    | inr held ↦ rw held refl
  ]

  position-IsHeld :
      (side : PositionSide) (size : Quantity)
      → (side ≡ flat → size ≡ decimal 0)
      → (is_flat side ≡ false → lt (decimal 0) size ≡ true)
      → IsHeld side size
  position-IsHeld long size empty held = held refl
  position-IsHeld short size empty held = held refl
  position-IsHeld flat size empty held = empty refl

  pub make_plan-destination :
      (deps : IntakeDeps) (submission : Submission) (p : PositionState) (plan_id now : String)
      → IsValid p
      → lte (decimal 0) submission.decision.target_size ≡ true
      → filled_exposure (exposure p) (make_plan deps submission p plan_id now).orders
        ≡ destination submission.decision.intent
            (is_swap deps.venue_type)
            p.side
            p.size
            submission.decision.target_size
  unfolding make_plan planner_deps
  make_plan-destination deps submission p plan_id now v t =
      let side = current_side-venue_position p in
      let size = current_size-venue_position p v in
      let held =
        subst (λ q. IsHeld (current_side (venue_position p)) q) (sym size)
          (subst (λ x. IsHeld x p.size) (sym side)
            (position-IsHeld p.side p.size (λ e. (v.size_of_flat e).0) v.size_pos)) in
      ap₂ (λ x q. filled_exposure (signed x q) (make_plan deps submission p plan_id now).orders)
        (sym side) (sym size)
      ∙ plan_decision-destination submission.decision (planner_deps deps p) now held t
      ∙ ap₂
          (λ x q.
            destination submission.decision.intent (is_swap deps.venue_type) x q
              submission.decision.target_size)
          side size
