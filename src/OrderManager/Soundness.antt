-- ===== src/OrderManager/Soundness.antt =====
-- What holds of every order that the manager of packages/engine/src/order-manager.ts keeps.
use traderton.Prelude.{String, ◌≡◌, refl, ◌⊎◌, Bool, true, false, Option, none, some, arith}
use traderton.Decimal.{DecimalLib, decimal, plus, lt, lte, gt, equals}
use traderton.Decimal.Laws.{Exact}
use traderton.Decimal.Order.{eq_of_equals}
use traderton.Order.{
  OrderStatus, pending, «open», partial, filled, cancelled, expired, replaced, rejected,
  ManagedOrder, can_transition,
}
use traderton.OrderManager.State.{CreateOrderParams, ApplyFillParams, new_order, record_transition}
use traderton.OrderManager.Operations.{
  acknowledged_order, cancelled_order, rejected_order, expired_order, replaced_order,
}
use traderton.OrderManager.Fill.{
  target_status, with_totals, filled_order, fill_reason, new_avg_price,
}
use traderton.OrderManager.History.{history, IsRecorded, record_transition-IsRecorded}

-- The states that no fill leads to, or leads through.
abbrev pub is_unfilled : OrderStatus → Bool
is_unfilled pending = true
is_unfilled «open» = true
is_unfilled rejected = true
is_unfilled _ = false

module _ ⦃lib : DecimalLib⦄ where
  pub record IsSound (o : ManagedOrder) : Type 0 where
    pub within : lte o.filled_quantity o.quantity ≡ true
    pub full : o.status ≡ filled → o.filled_quantity ≡ o.quantity
    pub part : o.status ≡ partial → lt o.filled_quantity o.quantity ≡ true
    pub unfilled : is_unfilled o.status ≡ true → o.filled_quantity ≡ decimal 0
    pub priced : o.avg_fill_price ≡ none → o.filled_quantity ≡ decimal 0
    pub recorded : IsRecorded (history o) o.transition_history_capped o.status

  -- A change of status that fills nothing.
  abbrev pub is_settling : OrderStatus → Bool
  is_settling filled = false
  is_settling partial = false
  is_settling pending = false
  is_settling _ = true

  record_transition_keeps :
      (o : ManagedOrder) (to : OrderStatus) (reason : String) (replacement fill : Option String)
      (now : String)
      → let r = record_transition o to reason replacement fill now in
        (r.filled_quantity ≡ o.filled_quantity)
        × (r.quantity ≡ o.quantity)
        × (r.avg_fill_price ≡ o.avg_fill_price)
  unfolding record_transition
  record_transition_keeps o to reason replacement fill now = ground arith

  settle-IsSound :
      (o r : ManagedOrder) (to : OrderStatus)
      → IsSound o
      → can_transition o.status to ≡ true
      → is_settling to ≡ true
      → r.status ≡ to
      → (r.filled_quantity ≡ o.filled_quantity)
        × (r.quantity ≡ o.quantity)
        × (r.avg_fill_price ≡ o.avg_fill_price)
      → IsRecorded (history r) r.transition_history_capped r.status
      → IsSound r
  unfolding can_transition
  settle-IsSound o r to v c s e k h = record {
    within = ground (arith, v.within);
    full = λ f. ground arith;
    part = λ f. ground arith;
    unfilled = λ f. ground arith;
    priced = λ f. ground arith;
    recorded = h;
  }

  pub acknowledged_order-IsSound :
      (ref now : String) (o : ManagedOrder)
      → IsSound o
      → can_transition o.status «open» ≡ true
      → IsSound (acknowledged_order ref now o)
  unfolding acknowledged_order
  acknowledged_order-IsSound ref now o v c =
      settle-IsSound o (acknowledged_order ref now o) «open» v c refl refl
        (record_transition_keeps o «open» _ none none now)
        (record_transition-IsRecorded o «open» _ none none now v.recorded c)

  pub cancelled_order-IsSound :
      (now : String) (o : ManagedOrder)
      → IsSound o
      → can_transition o.status cancelled ≡ true
      → IsSound (cancelled_order now o)
  unfolding cancelled_order
  cancelled_order-IsSound now o v c =
      settle-IsSound o (cancelled_order now o) cancelled v c refl refl
        (record_transition_keeps o cancelled _ none none now)
        (record_transition-IsRecorded o cancelled _ none none now v.recorded c)

  pub rejected_order-IsSound :
      (reason : Option String) (now : String) (o : ManagedOrder)
      → IsSound o
      → can_transition o.status rejected ≡ true
      → IsSound (rejected_order reason now o)
  unfolding rejected_order
  rejected_order-IsSound reason now o v c =
      settle-IsSound o (rejected_order reason now o) rejected v c refl refl
        (record_transition_keeps o rejected _ none none now)
        (record_transition-IsRecorded o rejected _ none none now v.recorded c)

  pub expired_order-IsSound :
      (reason : Option String) (now : String) (o : ManagedOrder)
      → IsSound o
      → can_transition o.status expired ≡ true
      → IsSound (expired_order reason now o)
  unfolding expired_order
  expired_order-IsSound reason now o v c =
      settle-IsSound o (expired_order reason now o) expired v c refl refl
        (record_transition_keeps o expired _ none none now)
        (record_transition-IsRecorded o expired _ none none now v.recorded c)

  pub replaced_order-IsSound :
      (replacement : String) (reason : Option String) (now : String) (o : ManagedOrder)
      → IsSound o
      → can_transition o.status replaced ≡ true
      → IsSound (replaced_order replacement reason now o)
  unfolding replaced_order
  replaced_order-IsSound replacement reason now o v c =
      settle-IsSound o (replaced_order replacement reason now o) replaced v c refl refl
        (record_transition_keeps o replaced _ (some replacement) none now)
        (record_transition-IsRecorded o replaced _ (some replacement) none now v.recorded c)

module _ ⦃lib : DecimalLib⦄ ⦃ex : Exact⦄ where
  pub new_order-IsSound :
      (p : CreateOrderParams) (now : String)
      → lte (decimal 0) p.quantity ≡ true
      → IsSound (new_order p now)
  unfolding new_order
  new_order-IsSound p now h = record {
    within = h;
    full = λ f. cc;
    part = λ f. cc;
    unfilled = λ f. refl;
    priced = λ f. refl;
    recorded = record { bounded = omega arith; ends = tt; complete = λ f. refl };
  }

  target_status_cases :
      (o : ManagedOrder) (p : ApplyFillParams)
      → ((target_status o p ≡ filled) × (plus o.filled_quantity p.quantity ≡ o.quantity))
        ⊎ ((target_status o p ≡ partial)
            × (equals (plus o.filled_quantity p.quantity) o.quantity ≡ false))
  unfolding target_status
  target_status_cases o p =
      ground (arith, eq_of_equals (plus o.filled_quantity p.quantity) o.quantity)

  pub filled_order_fields :
      (o : ManagedOrder) (p : ApplyFillParams) (now : String)
      → let r = filled_order o p now in
        (r.filled_quantity ≡ plus o.filled_quantity p.quantity)
        × (r.quantity ≡ o.quantity)
        × (r.avg_fill_price ≡ some (new_avg_price o p))
        × (r.status ≡ target_status o p)
  unfolding filled_order
  filled_order_fields o p now =
      let k =
        record_transition_keeps (with_totals o p) (target_status o p)
          (fill_reason p.fill_id p.quantity p.price) none (some p.fill_id) now in
      (k.0, k.1, k.2, refl)

  filled_order-IsRecorded :
      (o : ManagedOrder) (p : ApplyFillParams) (now : String)
      → IsRecorded (history o) o.transition_history_capped o.status
      → can_transition o.status (target_status o p) ≡ true
      → let r = filled_order o p now in IsRecorded (history r) r.transition_history_capped r.status
  unfolding filled_order
  filled_order-IsRecorded o p now v c =
      record_transition-IsRecorded (with_totals o p) (target_status o p) _ none _ now v c

  -- What the order is after a fill that is not refused.
  pub filled_order-IsSound :
      (o : ManagedOrder) (p : ApplyFillParams) (now : String)
      → IsSound o
      → gt (plus o.filled_quantity p.quantity) o.quantity ≡ false
      → can_transition o.status (target_status o p) ≡ true
      → IsSound (filled_order o p now)
  filled_order-IsSound o p now v fits c =
      let f = filled_order_fields o p now in
      let t = target_status_cases o p in
      record {
        within = ground arith;
        full = λ h. ground arith;
        part = λ h. ground arith;
        unfilled = λ h. ground arith;
        priced = λ h. ground arith;
        recorded = filled_order-IsRecorded o p now v.recorded c;
      }
