-- ===== src/OrderManager/Moves.antt =====
-- Every call of packages/engine/src/order-manager.ts follows the status diagram.
use text.Mathlib.TextEquality.{eq_iff}
use traderton.Prelude.{ℕ, ◌-◌, String, ◌≡◌, ◌≢◌, Option, arith, inl, inr, Bool-cases, str_eq}
use traderton.Prelude.JsMap.{get, get-set, Unique, set-Unique}
use traderton.Decimal.{DecimalLib}
use traderton.Order.{OrderStatus, «open», cancelled, rejected, expired, replaced, ManagedOrder}
use traderton.OrderManager.State.{OrderManager, ApplyFillParams, transition_to, create, new_order}
use traderton.OrderManager.Operations.{
  acknowledge, cancel, reject, expire, replace, acknowledged_order, cancelled_order, rejected_order,
  expired_order, replaced_order,
}
use traderton.OrderManager.Fill.{apply_fill, target_status, filled_order}
use traderton.OrderManager.Queries.{prune}
use traderton.OrderManager.Cases.{transition_to_cases, apply_fill_cases}
use traderton.OrderManager.Pruning.{get-prune_entries, prune_entries-Unique}
use traderton.OrderManager.Effects.{
  Becomes, Becomes-same, Becomes-set, Becomes-unless_stale, Becomes-transition_to, Edge,
}
use traderton.OrderManager.Calls.{
  Call, creates, acknowledges, fills, cancels, rejects, expires, replaces, prunes, perform,
}

module _ ⦃lib : DecimalLib⦄ where
  acknowledged_order-Edge : (ref now : String) → Edge «open» (acknowledged_order ref now)
  unfolding acknowledged_order
  acknowledged_order-Edge ref now o = ground arith

  cancelled_order-Edge : (now : String) → Edge cancelled (cancelled_order now)
  unfolding cancelled_order
  cancelled_order-Edge now o = ground arith

  rejected_order-Edge :
      (reason : Option String) (now : String) → Edge rejected (rejected_order reason now)
  unfolding rejected_order
  rejected_order-Edge reason now o = ground arith

  expired_order-Edge :
      (reason : Option String) (now : String) → Edge expired (expired_order reason now)
  unfolding expired_order
  expired_order-Edge reason now o = ground arith

  replaced_order-Edge :
      (by : String) (reason : Option String) (now : String)
      → Edge replaced (replaced_order by reason now)
  unfolding replaced_order
  replaced_order-Edge by reason now o = ground arith

  Becomes-apply_fill :
      (m : OrderManager) (id j : String) (p : ApplyFillParams) (now : String)
      → Becomes (get j m.orders) (get j (apply_fill m id p now).0.orders)
  Becomes-apply_fill m id j p now =
      apply_fill_cases (λ r. Becomes (get j m.orders) (get j r.0.orders)) m id p now
        (λ _. Becomes-same (get j m.orders))
        λ o found live fits allowed.
          let e = filled_order_Edge o in
          Becomes-set id j o (filled_order o p now) m.orders found
            (inr (rw (e.0) allowed, e.1, e.2, e.3))
    where
      filled_order_Edge :
          (o : ManagedOrder)
          → ((filled_order o p now).status ≡ target_status o p)
            × ((filled_order o p now).quantity ≡ o.quantity)
            × ((filled_order o p now).side ≡ o.side)
            × ((filled_order o p now).id ≡ o.id)
      filled_order_Edge o = unfold filled_order in ground arith

  -- Does not create the order `j`.
  abbrev pub IsOther : String → Call → Type 0
  IsOther j (creates p) = p.id ≢ j
  IsOther j _ = Unit {0}

  -- In a manager with each id once, a call that does not create the order `j` leaves it as it was, moves it along one edge of the
  -- diagram with its id, side and quantity kept, or prunes it; and it makes no order `j` up.
  pub perform-Becomes :
      (get_time : String → Option ℕ) (m : OrderManager) (now : String) (c : Call) (j : String)
      → Unique m.orders
      → IsOther j c
      → Becomes (get j m.orders) (get j (perform get_time m (now, c)).manager.orders)
  unfolding perform create acknowledge cancel reject expire replace prune
  perform-Becomes get_time m now (creates p) j u other =
      rw (get-set p.id j (new_order p now) m.orders) (elim (Bool-cases (str_eq p.id j)) [
        | inl same ↦ absurd (other ((eq_iff p.id j).0 same))
        | inr ne ↦ rw ne (Becomes-same (get j m.orders))
      ])
  perform-Becomes get_time m now (acknowledges id ref) j u other =
      Becomes-transition_to m id j _ _ (acknowledged_order-Edge ref now)
  perform-Becomes get_time m now (fills id p) j u other = Becomes-apply_fill m id j p now
  perform-Becomes get_time m now (cancels id) j u other =
      Becomes-transition_to m id j _ _ (cancelled_order-Edge now)
  perform-Becomes get_time m now (rejects id reason) j u other =
      Becomes-transition_to m id j _ _ (rejected_order-Edge reason now)
  perform-Becomes get_time m now (expires id reason) j u other =
      Becomes-transition_to m id j _ _ (expired_order-Edge reason now)
  perform-Becomes get_time m now (replaces id by reason) j u other =
      Becomes-transition_to m id j _ _ (replaced_order-Edge by reason now)
  perform-Becomes get_time m now (prunes time older) j u other =
      rw (get-prune_entries get_time (time - older) j m.orders u)
        (Becomes-unless_stale get_time (time - older) (get j m.orders))

  transition_to-Unique :
      (m : OrderManager) (id : String) (to : OrderStatus) (change : ManagedOrder → ManagedOrder)
      → Unique m.orders
      → Unique (transition_to m id to change).0.orders
  transition_to-Unique m id to change u =
      transition_to_cases (λ r. Unique r.0.orders) m id to change (λ _. u)
        (λ o _ _. set-Unique id _ m.orders u)

  pub perform-Unique :
      (get_time : String → Option ℕ) (m : OrderManager) (now : String) (c : Call)
      → Unique m.orders
      → Unique (perform get_time m (now, c)).manager.orders
  unfolding perform create acknowledge cancel reject expire replace prune
  perform-Unique get_time m now (creates p) u = set-Unique p.id (new_order p now) m.orders u
  perform-Unique get_time m now (fills id p) u =
      apply_fill_cases (λ r. Unique r.0.orders) m id p now (λ _. u)
        (λ o _ _ _ _. set-Unique id _ m.orders u)
  perform-Unique get_time m now (acknowledges id ref) u = transition_to-Unique m id _ _ u
  perform-Unique get_time m now (cancels id) u = transition_to-Unique m id _ _ u
  perform-Unique get_time m now (rejects id reason) u = transition_to-Unique m id _ _ u
  perform-Unique get_time m now (expires id reason) u = transition_to-Unique m id _ _ u
  perform-Unique get_time m now (replaces id by reason) u = transition_to-Unique m id _ _ u
  perform-Unique get_time m now (prunes time older) u =
      prune_entries-Unique get_time (time - older) m.orders u
