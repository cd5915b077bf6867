-- ===== src/OrderManager/Cases.antt =====
-- How an operation of packages/engine/src/order-manager.ts can end, as rules for proofs.
use traderton.Prelude.{String, ◌≡◌, true, false, some, inl, inr, Bool-cases, Option-cases}
use traderton.Prelude.JsMap.{get}
use traderton.Decimal.{DecimalLib, plus, gt}
use traderton.Result.{ok, err}
use traderton.Order.{OrderStatus, ManagedOrder, FillEvent, can_transition, is_terminal}
use traderton.OrderManager.State.{
  OrderManager, OrderManagerError, ApplyFillParams, Outcome, commit, transition_to,
}
use traderton.OrderManager.Fill.{apply_fill, target_status, with_totals, filled_order, fill_event}

module _ ⦃lib : DecimalLib⦄ where
  pub transition_to_cases {ℓ} :
      (P : Outcome ManagedOrder → Type ℓ) (m : OrderManager) (id : String) (to : OrderStatus)
      (change : ManagedOrder → ManagedOrder)
      → ((e : OrderManagerError) → P (m, err e))
      → ((o : ManagedOrder)
          → get id m.orders ≡ some o
          → can_transition o.status to ≡ true
          → P (commit m id o (change o), ok (change o)))
      → P (transition_to m id to change)
  unfolding transition_to
  transition_to_cases P m id to change fails done = elim (Option-cases (get id m.orders)) [
    | inl missing ↦ rw (missing, transition_to) (fails _)
    | inr (o, found) ↦ elim (Bool-cases (can_transition o.status to)) [
      | inl allowed ↦ rw (found, transition_to) (rw allowed (done o found allowed))
      | inr refused ↦ rw (found, transition_to) (rw refused (fails _))
    ]
  ]

  pub apply_fill_cases {ℓ} :
      (P : Outcome (ManagedOrder × FillEvent) → Type ℓ) (m : OrderManager) (id : String)
      (p : ApplyFillParams) (now : String)
      → ((e : OrderManagerError) → P (m, err e))
      → ((o : ManagedOrder)
          → get id m.orders ≡ some o
          → is_terminal o.status ≡ false
          → gt (plus o.filled_quantity p.quantity) o.quantity ≡ false
          → can_transition o.status (target_status o p) ≡ true
          → P (
            commit m id (with_totals o p) (filled_order o p now),
            ok (filled_order o p now, fill_event o p),
          ))
      → P (apply_fill m id p now)
  unfolding apply_fill
  apply_fill_cases P m id p now fails done = elim (Option-cases (get id m.orders)) [
    | inl missing ↦ rw (missing, apply_fill) (fails _)
    | inr (o, found) ↦ elim (Bool-cases (is_terminal o.status)) [
      | inl over ↦ rw (found, apply_fill) (rw over (fails _))
      | inr live ↦ elim (Bool-cases (gt (plus o.filled_quantity p.quantity) o.quantity)) [
        | inl above ↦ rw (found, apply_fill) (rw live (rw above (fails _)))
        | inr fits ↦ elim (Bool-cases (can_transition o.status (target_status o p))) [
          | inl allowed ↦
              rw (found, apply_fill)
                (rw live (rw fits (rw allowed (done o found live fits allowed))))
          | inr refused ↦ rw (found, apply_fill) (rw live (rw fits (rw refused (fails _))))
        ]
      ]
    ]
  ]
