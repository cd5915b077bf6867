-- ===== src/OrderManager/Calls.antt =====
-- Sequences of calls of packages/engine/src/order-manager.ts.
use traderton.Prelude.{ℕ, String, List, [], ◌∷◌, ◌++◌, Option, none, some}
use traderton.Decimal.{DecimalLib}
use traderton.Result.{Result, ok, err}
use traderton.Order.{FillEvent}
use traderton.OrderManager.State.{
  OrderManager, OrderManagerError, CreateOrderParams, ApplyFillParams, Outcome, create,
}
use traderton.OrderManager.Operations.{acknowledge, cancel, reject, expire, replace}
use traderton.OrderManager.Fill.{apply_fill}
use traderton.OrderManager.Queries.{prune}

module _ ⦃lib : DecimalLib⦄ where
  pub data Call : Type 0 where
    creates : CreateOrderParams → Call
    acknowledges : String → String → Call
    fills : String → ApplyFillParams → Call
    cancels : String → Call
    rejects : String → Option String → Call
    expires : String → Option String → Call
    replaces : String → String → Option String → Call
    prunes : ℕ → ℕ → Call

  -- What a call leaves: the manager, the error if it failed, and the fills that it emitted.
  pub record Report : Type 0 where
    pub manager : OrderManager
    pub failure : Option OrderManagerError
    pub emitted : List FillEvent

  abbrev pub failure_of : {T : Type 0} → Result T OrderManagerError → Option OrderManagerError
  failure_of (ok v) = none
  failure_of (err e) = some e

  abbrev pub events_of :
      {T : Type 0} → (T → List FillEvent) → Result T OrderManagerError → List FillEvent
  events_of events (ok v) = events v
  events_of events (err e) = []

  abbrev pub report : {T : Type 0} → (T → List FillEvent) → Outcome T → Report
  report events r = record {
    manager = r.0;
    failure = failure_of r.1;
    emitted = events_of events r.1;
  }

  module _ (get_time : String → Option ℕ) where
    -- Each call comes with the reading of the clock.
    unfoldable pub perform : OrderManager → String × Call → Report
    perform m (now, creates p) = record {
      manager = (create m p now).0;
      failure = none;
      emitted = [];
    }
    perform m (now, acknowledges id ref) = report (λ _. []) (acknowledge m id ref now)
    perform m (now, fills id p) = report (λ r. r.1 ∷ []) (apply_fill m id p now)
    perform m (now, cancels id) = report (λ _. []) (cancel m id now)
    perform m (now, rejects id reason) = report (λ _. []) (reject m id reason now)
    perform m (now, expires id reason) = report (λ _. []) (expire m id reason now)
    perform m (now, replaces id by reason) = report (λ _. []) (replace m id by reason now)
    perform m (now, prunes time older) = record {
      manager = (prune get_time m time older).0;
      failure = none;
      emitted = [];
    }

    unfoldable pub run : OrderManager → List (String × Call) → OrderManager × List FillEvent
    run m [] = (m, [])
    run m (c ∷ cs) =
        let r = perform m c in let rest = run r.manager cs in (rest.0, r.emitted ++ rest.1)
