-- ===== src/OrderManager/Failures.antt =====
-- A failed call of packages/engine/src/order-manager.ts.
use traderton.Prelude.{ℕ, String, ◌≡◌, refl, Option, some}
use traderton.Decimal.{DecimalLib}
use traderton.Order.{OrderStatus, ManagedOrder}
use traderton.OrderManager.State.{OrderManager, OrderManagerError, transition_to}
use traderton.OrderManager.Operations.{acknowledge, cancel, reject, expire, replace}
use traderton.OrderManager.Cases.{transition_to_cases, apply_fill_cases}
use traderton.OrderManager.Calls.{
  Call, creates, acknowledges, fills, cancels, rejects, expires, replaces, prunes, perform,
  failure_of,
}

module _ ⦃lib : DecimalLib⦄ where
  transition_to_unchanged :
      (m : OrderManager) (id : String) (to : OrderStatus) (change : ManagedOrder → ManagedOrder)
      {e : OrderManagerError}
      → failure_of (transition_to m id to change).1 ≡ some e
      → (transition_to m id to change).0 ≡ m
  transition_to_unchanged m id to change {e} =
      transition_to_cases (λ r. failure_of r.1 ≡ some e → r.0 ≡ m) m id to change (λ _ _. refl)
        (λ o _ _ n. cc)

  -- A call that fails changes nothing.
  pub perform_failure_unchanged :
      (get_time : String → Option ℕ) (m : OrderManager) (now : String) (c : Call)
      {e : OrderManagerError}
      → (perform get_time m (now, c)).failure ≡ some e
      → (perform get_time m (now, c)).manager ≡ m
  unfolding perform acknowledge cancel reject expire replace
  perform_failure_unchanged get_time m now (creates p) h = cc
  perform_failure_unchanged get_time m now (acknowledges id ref) h =
      transition_to_unchanged m id _ _ h
  perform_failure_unchanged get_time m now (fills id p) {e} h =
      apply_fill_cases (λ r. failure_of r.1 ≡ some e → r.0 ≡ m) m id p now (λ _ _. refl)
        (λ o _ _ _ _ n. cc) h
  perform_failure_unchanged get_time m now (cancels id) h = transition_to_unchanged m id _ _ h
  perform_failure_unchanged get_time m now (rejects id reason) h =
      transition_to_unchanged m id _ _ h
  perform_failure_unchanged get_time m now (expires id reason) h =
      transition_to_unchanged m id _ _ h
  perform_failure_unchanged get_time m now (replaces id by reason) h =
      transition_to_unchanged m id _ _ h
  perform_failure_unchanged get_time m now (prunes time older) h = cc
