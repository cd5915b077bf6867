-- ===== src/DecisionIntake/Booking.antt =====
-- packages/engine/src/decision-intake.ts: what is booked once the executor has returned.
use traderton.Prelude.{ℕ, String, List, [], ◌∷◌, ◌++◌, Option, none, some}
use mathlib.Core.Option
use traderton.Decimal.{DecimalLib, Price, mul}
use traderton.Order.{ManagedOrder, FillEvent, buy, sell}
use traderton.Position.{PositionState}
use traderton.Planner.{SwapAssets, ExecutionPlan, PlanStatus, completed, failed}
use traderton.Executors.{ExecutionResult}
use traderton.SwapPositions.{Projections, SwapFill, record_swap_fill}
use traderton.Trackers.Accounting.{FillAccountingResult, apply_fill_accounting}
use traderton.DecisionIntake.{
  DecisionContext, Submission, IntakeDeps, IntakeTrackers, IntakeCalls, Readings, Effect,
  journal_fill, persist_fill, persist_position, mark_plan_completed, mark_plan_failed, journal_plan,
  plan_completed, plan_failed, journal_order, persist_order,
}

-- `a ?? b`
abbrev pub or_else {ℓ} : {A : Type ℓ} → Option A → Option A → Option A
or_else none b = b
or_else (some a) b = some a

module _ ⦃lib : DecimalLib⦄ where
  -- A buy gives the quote asset for the base asset, a sell the other way round.
  unfoldable pub swap_fill : SwapAssets → FillEvent → (String → ℕ) → SwapFill
  swap_fill assets f get_time = elim f.side [
    | buy ↦ record {
      input_asset = assets.quote_asset;
      input_amount = mul f.price f.quantity;
      output_asset = assets.base_asset;
      output_amount = f.quantity;
      timestamp = get_time f.filled_at;
    }
    | sell ↦ record {
      input_asset = assets.base_asset;
      input_amount = f.quantity;
      output_asset = assets.quote_asset;
      output_amount = mul f.price f.quantity;
      timestamp = get_time f.filled_at;
    }
  ]

  unfoldable pub project_swap :
      Option SwapAssets → FillEvent → (String → ℕ) → Option Projections → Option Projections
  unfolding swap_fill
  project_swap none f get_time tracker = tracker
  project_swap (some assets) f get_time tracker =
      Option.map (λ m. record_swap_fill m (swap_fill assets f get_time)) tracker

  abbrev pub fill_params : IntakeDeps → Submission → FillEvent → Price → Effect
  fill_params deps submission f delta = persist_fill (record {
    fill = f;
    venue_account_id = deps.venue_account_id;
    bot_id = or_else f.bot_id submission.decision.bot_id;
    actor_type = deps.actor_type;
    actor_id = deps.actor_id;
    venue = deps.venue;
    symbol = deps.symbol;
    realized_pnl_delta = delta;
  })

  module _ {S : Type 0} (calls : IntakeCalls S) (deps : IntakeDeps) (clock : Readings) where
    -- One turn of the loop over the fills.
    unfoldable pub book_fill :
        IntakeTrackers → PositionState → FillEvent → IntakeTrackers × FillAccountingResult
    unfolding project_swap
    book_fill trackers position f =
        let (r, t) =
          apply_fill_accounting calls.parse_date position f
            (some (record {
              equity_tracker = trackers.equity_tracker;
              daily_loss_tracker = trackers.daily_loss_tracker;
              now_ms = none;
            }))
            clock.fill_ms in
        (
          record {
            equity_tracker = elim t [ none ↦ trackers.equity_tracker | some a ↦ a.equity_tracker ];
            daily_loss_tracker = elim t [
              | none ↦ trackers.daily_loss_tracker
              | some a ↦ a.daily_loss_tracker
            ];
            swap_position_tracker =
                project_swap deps.swap_assets f calls.get_time trackers.swap_position_tracker;
          },
          r,
        )

    unfoldable pub book_fills :
        Submission
        → IntakeTrackers
        → PositionState
        → List FillEvent
        → IntakeTrackers × PositionState × List Effect
    unfolding book_fill
    book_fills submission trackers position [] = (trackers, position, [])
    book_fills submission trackers position (f ∷ fs) =
        let (trackers', r) = book_fill trackers position f in
        let (trackers'', position', effects) = book_fills submission trackers' r.position fs in
        (
          trackers'',
          position',
          journal_fill f ∷ fill_params deps submission f r.realized_pnl_delta ∷ effects,
        )

  abbrev pub position_params : IntakeDeps → Submission → DecisionContext → PositionState → Effect
  position_params deps submission context p = persist_position (record {
    venue_account_id = deps.venue_account_id;
    bot_id = submission.decision.bot_id;
    actor_type = deps.actor_type;
    actor_id = deps.actor_id;
    venue = deps.venue;
    symbol = deps.symbol;
    instrument_id = deps.instrument_id;
    side = p.side;
    size = p.size;
    entry_price = p.entry_price;
    realized_pnl = p.realized_pnl;
    mark_source = context.mark_source;
    exit_reason = submission.reason;
  })

  -- The stored plan is marked under the identifier that it was stored with.
  unfoldable pub mark_completed : String → ExecutionPlan → PlanStatus → List Effect
  mark_completed plan_id plan completed =
      mark_plan_completed plan_id ∷ journal_plan plan plan_completed ∷ []
  mark_completed plan_id plan _ = []

  unfoldable pub mark_failed : String → ExecutionPlan → PlanStatus → List Effect
  mark_failed plan_id plan failed = mark_plan_failed plan_id ∷ journal_plan plan plan_failed ∷ []
  mark_failed plan_id plan _ = []

  unfoldable pub persist_orders : Submission → List ManagedOrder → List Effect
  persist_orders submission [] = []
  persist_orders submission (o ∷ os) =
      journal_order o
      ∷ persist_order o (or_else o.bot_id submission.decision.bot_id)
      ∷ persist_orders submission os

  -- What follows the fills: the position, the plan's end and the orders, a failure last.
  unfoldable pub settle :
      IntakeDeps
      → Submission
      → DecisionContext
      → String
      → PositionState
      → ExecutionResult
      → List Effect
  unfolding mark_completed mark_failed persist_orders
  settle deps submission context plan_id position r =
      (position_params deps submission context position
        ∷ mark_completed plan_id r.plan r.plan.status)
      ++ (persist_orders submission r.orders ++ mark_failed plan_id r.plan r.plan.status)
