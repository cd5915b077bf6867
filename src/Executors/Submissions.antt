-- ===== src/Executors/Submissions.antt =====
-- What packages/engine/src/live-executor.ts tells before it submits.
use traderton.Prelude.{String, ◌≡◌, Bool, true, false, List, [], ◌∷◌, ◌++◌, some}
use traderton.Decimal.{DecimalLib}
use traderton.Result.{Result, ok, err}
use traderton.Order.{
  OrderStatus, LiveSubmissionState, filled, cancelled, venue_acknowledged, pending, rejected,
  prepared, submit_attempting, terminal, ManagedOrder,
}
use traderton.OrderUpdate.{VenueCapabilities}
use traderton.Planner.{PlannedOrder}
use traderton.Executors.Live.{
  OrderCommand, OrderReceipt, LiveCalls, LiveEffect, tells, submits, is_submittable,
}

module _ ⦃lib : DecimalLib⦄ where
  -- An order that is on record as being sent, and the command that sends it.
  abbrev pub Announces : ManagedOrder → OrderCommand → Type 0
  Announces order command =
      (order.submission_state ≡ some submit_attempting)
      × (order.status ≡ pending)
      × (order.client_order_id ≡ command.client_order_id)
      × (order.symbol ≡ command.symbol)
      × (order.side ≡ command.side)
      × (order.quantity ≡ command.quantity)

  -- The state of an order that the venue has acknowledged in a status.
  abbrev acknowledged_state : OrderStatus → LiveSubmissionState
  acknowledged_state filled = terminal
  acknowledged_state cancelled = terminal
  acknowledged_state rejected = terminal
  acknowledged_state _ = venue_acknowledged

  -- How an order ends: rejected where the venue fails, and otherwise as the receipt says.
  abbrev pub Concludes : Result OrderReceipt String → ManagedOrder → Type 0
  Concludes (err e) last = (last.status ≡ rejected) × (last.submission_state ≡ some terminal)
  Concludes (ok receipt) last =
      (last.status ≡ receipt.status)
      × (last.submission_state ≡ some (acknowledged_state receipt.status))
      × (last.id ≡ receipt.order_id)
      × (last.venue_ref_id ≡ some receipt.venue_ref_id)
      × (last.acknowledged_at ≡ some receipt.timestamp)

  -- It is still the order of the command.
  abbrev pub Keeps : ManagedOrder → OrderCommand → Type 0
  Keeps last command =
      (last.client_order_id ≡ command.client_order_id)
      × (last.symbol ≡ command.symbol)
      × (last.side ≡ command.side)
      × (last.quantity ≡ command.quantity)

  -- What the executor does for one order: it rejects it without sending, or it tells that it is
  -- prepared, then that it is being sent, then sends it, and tells how the venue's answer ended it.
  pub data Handles {S : Type 0} (calls : LiveCalls S) (planned : PlannedOrder)
      : Bool → List LiveEffect → ManagedOrder → Type 0 where
    refuses :
        {order : ManagedOrder}
        → order.status ≡ rejected
        → order.submission_state ≡ some terminal
        → order.side ≡ planned.side
        → order.quantity ≡ planned.quantity
        → Handles calls planned false (tells order ∷ []) order
    sends :
        {first attempting last : ManagedOrder} {command : OrderCommand} (s : S)
        → first.submission_state ≡ some prepared
        → Announces attempting command
        → command.side ≡ planned.side
        → command.quantity ≡ planned.quantity
        → Concludes (calls.submit_order s command).1 last
        → Keeps last command
        → Handles calls planned true
            (tells first ∷ tells attempting ∷ submits command ∷ tells last ∷ [])
            last

  -- The orders of a plan, one after the other.
  pub data HandlesAll {S : Type 0} (calls : LiveCalls S) (c : VenueCapabilities)
      : List PlannedOrder → List LiveEffect → List ManagedOrder → Type 0 where
    done : HandlesAll calls c [] [] []
    next :
        {planned : PlannedOrder} {more : List PlannedOrder} {effects later : List LiveEffect}
        {order : ManagedOrder} {orders : List ManagedOrder}
        → Handles calls planned (is_submittable c planned) effects order
        → HandlesAll calls c more later orders
        → HandlesAll calls c (planned ∷ more) (effects ++ later) (order ∷ orders)
