-- ===== src/OrderManager/Acceptance.antt =====
-- When `applyFill` of packages/engine/src/order-manager.ts takes a fill.
use traderton.Prelude.{String, ◌≡◌, ◌↔◌, true, false, none, some, arith}
use traderton.Prelude.JsMap.{get}
use traderton.Decimal.{DecimalLib, plus, lte, equals}
use traderton.Order.{pending, ManagedOrder, can_transition, is_terminal}
use traderton.OrderManager.State.{OrderManager, ApplyFillParams}
use traderton.OrderManager.Fill.{apply_fill, target_status}
use traderton.OrderManager.Calls.{failure_of}

module _ ⦃lib : DecimalLib⦄ where
  -- A fill of an order that is there succeeds exactly when the order is not terminal, the fill
  -- stays within the ordered quantity, and, before the venue's acknowledgement, completes it.
  pub apply_fill_accepts_iff :
      (m : OrderManager) (id : String) (p : ApplyFillParams) (now : String) (o : ManagedOrder)
      → get id m.orders ≡ some o
      → (failure_of (apply_fill m id p now).1 ≡ none) ↔ (
          (is_terminal o.status ≡ false)
          × (lte (plus o.filled_quantity p.quantity) o.quantity ≡ true)
          × (o.status ≡ pending → equals (plus o.filled_quantity p.quantity) o.quantity ≡ true))
  unfolding apply_fill is_terminal can_transition target_status
  apply_fill_accepts_iff m id p now o found =
      rw (found, apply_fill) (λ h. (ground arith, ground arith, ground arith), λ h. ground arith)
