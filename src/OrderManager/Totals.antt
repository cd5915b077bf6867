-- ===== src/OrderManager/Totals.antt =====
-- The fills that packages/engine/src/order-manager.ts emits, against the orders' totals.
use text.Mathlib.TextEquality.{eq_iff}
use traderton.Prelude.{
  ℕ, ◌-◌, String, ◌≡◌, refl, sym, ap, ◌∙◌, ◌++◌, ◌≢◌, false, List, [], ◌∷◌, Option, none, some,
  arith, inl, inr, Bool-cases, if◌then◌else◌, str_eq,
}
use traderton.Prelude.JsMap.{get, set, get-set, Unique}
use traderton.Decimal.{DecimalLib, Quantity, plus}
use traderton.Order.{FillEvent, OrderStatus, ManagedOrder}
use traderton.OrderManager.State.{OrderManager, ApplyFillParams, transition_to, create, new_order}
use traderton.OrderManager.Operations.{
  acknowledge, cancel, reject, expire, replace, acknowledged_order, cancelled_order, rejected_order,
  expired_order, replaced_order,
}
use traderton.OrderManager.Fill.{apply_fill, filled_order, fill_event}
use traderton.OrderManager.Queries.{prune}
use traderton.OrderManager.Cases.{transition_to_cases, apply_fill_cases}
use traderton.OrderManager.Pruning.{unless_stale, get-prune_entries}
use traderton.OrderManager.Moves.{IsOther}
use traderton.OrderManager.Calls.{
  Call, creates, acknowledges, fills, cancels, rejects, expires, replaces, prunes, perform,
  events_of,
}

module _ ⦃lib : DecimalLib⦄ where
  -- The running total of the fills of the order `j`.
  abbrev pub fill_total : String → Quantity → List FillEvent → Quantity
  fill_total j total [] = total
  fill_total j total (f ∷ fs) =
      fill_total j (if str_eq f.order_id j then plus total f.quantity else total) fs

  fill_total-append :
      (j : String) (total : Quantity) (fs gs : List FillEvent)
      → fill_total j total (fs ++ gs) ≡ fill_total j (fill_total j total fs) gs
  fill_total-append j total [] gs = refl
  fill_total-append j total (f ∷ fs) gs =
      fill_total-append j (if str_eq f.order_id j then plus total f.quantity else total) fs gs

  -- The order has grown by what was emitted for it.
  abbrev pub Grows : String → List FillEvent → Option ManagedOrder → Option ManagedOrder → Type 0
  Grows j fs none after = after ≡ none
  Grows j fs (some o) none = Unit {0}
  Grows j fs (some o) (some o') = o'.filled_quantity ≡ fill_total j o.filled_quantity fs

  pub Grows-same : (j : String) (o : Option ManagedOrder) → Grows j [] o o
  Grows-same j none = refl
  Grows-same j (some o) = refl

  pub Grows-step :
      (j : String) (fs gs : List FillEvent) (a b c : Option ManagedOrder)
      → Grows j fs a b
      → Grows j gs b c
      → Grows j (fs ++ gs) a c
  Grows-step j fs gs none b c e h = rw e at h
  Grows-step j fs gs (some o) none c e h = rw h tt
  Grows-step j fs gs (some o) (some o') none e h = tt
  Grows-step j fs gs (some o) (some o') (some o2) e h =
      h ∙ ap (λ t. fill_total j t gs) e ∙ sym (fill_total-append j o.filled_quantity fs gs)

  -- Every order stands under its own identifier.
  abbrev pub IsKeyed : OrderManager → Type 0
  IsKeyed m = (j : String) (o : ManagedOrder) → get j m.orders ≡ some o → o.id ≡ j

  Grows-set :
      (id j : String) (o o' : ManagedOrder) (fs : List FillEvent)
      (entries : List (String × ManagedOrder))
      → get id entries ≡ some o
      → (id ≡ j → o'.filled_quantity ≡ fill_total j o.filled_quantity fs)
      → (id ≢ j → (t : Quantity) → fill_total j t fs ≡ t)
      → Grows j fs (get j entries) (get j (set id o' entries))
  Grows-set id j o o' fs entries found same other =
      rw (get-set id j o' entries) (elim (Bool-cases (str_eq id j)) [
        | inl hit ↦ let e = (eq_iff id j).0 hit in rw hit (rw (← e) (rw found (rw e (same e))))
        | inr miss ↦ rw miss (left (get j entries) (other (λ e. ground (arith, eq_iff id j))))
      ])
    where
      left : (o : Option ManagedOrder) → ((t : Quantity) → fill_total j t fs ≡ t) → Grows j fs o o
      left none h = refl
      left (some o) h = sym (h o.filled_quantity)

  abbrev Idle : (ManagedOrder → ManagedOrder) → Type 0
  Idle change = (o : ManagedOrder) → (change o).filled_quantity ≡ o.filled_quantity

  Grows-transition_to :
      (m : OrderManager) (id j : String) (to : OrderStatus) (change : ManagedOrder → ManagedOrder)
      → Idle change
      → let r = transition_to m id to change in
        Grows j (events_of (λ _. []) r.1) (get j m.orders) (get j r.0.orders)
  Grows-transition_to m id j to change idle =
      transition_to_cases
        (λ r. Grows j (events_of (λ _. []) r.1) (get j m.orders) (get j r.0.orders)) m id to change
        (λ _. Grows-same j (get j m.orders))
        λ o found _. Grows-set id j o (change o) [] m.orders found (λ _. idle o) (λ _ t. refl)

  acknowledged_order-Idle : (ref now : String) → Idle (acknowledged_order ref now)
  unfolding acknowledged_order
  acknowledged_order-Idle ref now o = ground arith

  cancelled_order-Idle : (now : String) → Idle (cancelled_order now)
  unfolding cancelled_order
  cancelled_order-Idle now o = ground arith

  rejected_order-Idle : (reason : Option String) (now : String) → Idle (rejected_order reason now)
  unfolding rejected_order
  rejected_order-Idle reason now o = ground arith

  expired_order-Idle : (reason : Option String) (now : String) → Idle (expired_order reason now)
  unfolding expired_order
  expired_order-Idle reason now o = ground arith

  replaced_order-Idle :
      (by : String) (reason : Option String) (now : String) → Idle (replaced_order by reason now)
  unfolding replaced_order
  replaced_order-Idle by reason now o = ground arith

  filled_order-filled_quantity :
      (o : ManagedOrder) (p : ApplyFillParams) (now : String)
      → (filled_order o p now).filled_quantity ≡ plus o.filled_quantity p.quantity
  unfolding filled_order
  filled_order-filled_quantity o p now = ground arith

  fill_total-fill_event :
      (j : String) (t : Quantity) (o : ManagedOrder) (p : ApplyFillParams)
      → fill_total j t (fill_event o p ∷ []) ≡ (if str_eq o.id j then plus t p.quantity else t)
  unfolding fill_event
  fill_total-fill_event j t o p = refl

  Grows-apply_fill :
      (m : OrderManager) (id j : String) (p : ApplyFillParams) (now : String)
      → IsKeyed m
      → let r = apply_fill m id p now in
        Grows j (events_of (λ v. v.1 ∷ []) r.1) (get j m.orders) (get j r.0.orders)
  Grows-apply_fill m id j p now keyed =
      apply_fill_cases
        (λ r. Grows j (events_of (λ v. v.1 ∷ []) r.1) (get j m.orders) (get j r.0.orders)) m id p
        now (λ _. Grows-same j (get j m.orders))
        λ o found _ _ _.
          Grows-set id j o (filled_order o p now) (fill_event o p ∷ []) m.orders found
            (λ e.
              filled_order-filled_quantity o p now
              ∙ sym (
                  fill_total-fill_event j o.filled_quantity o p
                  ∙ rw ((eq_iff o.id j).1 (keyed id o found ∙ e)) refl))
            (λ ne t.
              fill_total-fill_event j t o p
              ∙ rw (miss o.id (λ e. ne (sym (keyed id o found) ∙ e))) refl)
    where
      miss : (k : String) → k ≢ j → str_eq k j ≡ false
      miss k ne = ground (arith, eq_iff k j)

  Grows-unless_stale :
      (get_time : String → Option ℕ) (cutoff : ℕ) (j : String) (o : Option ManagedOrder)
      → Grows j [] o (unless_stale get_time cutoff o)
  Grows-unless_stale get_time cutoff j none = refl
  Grows-unless_stale get_time cutoff j (some o) = ground arith

  pub perform-Grows :
      (get_time : String → Option ℕ) (m : OrderManager) (now : String) (c : Call) (j : String)
      → Unique m.orders
      → IsKeyed m
      → IsOther j c
      → let r = perform get_time m (now, c) in
        Grows j r.emitted (get j m.orders) (get j r.manager.orders)
  unfolding perform create acknowledge cancel reject expire replace prune
  perform-Grows get_time m now (creates p) j u k other =
      rw (get-set p.id j (new_order p now) m.orders) (elim (Bool-cases (str_eq p.id j)) [
        | inl same ↦ absurd (other ((eq_iff p.id j).0 same))
        | inr ne ↦ rw ne (Grows-same j (get j m.orders))
      ])
  perform-Grows get_time m now (acknowledges id ref) j u k other =
      Grows-transition_to m id j _ _ (acknowledged_order-Idle ref now)
  perform-Grows get_time m now (fills id p) j u k other = Grows-apply_fill m id j p now k
  perform-Grows get_time m now (cancels id) j u k other =
      Grows-transition_to m id j _ _ (cancelled_order-Idle now)
  perform-Grows get_time m now (rejects id reason) j u k other =
      Grows-transition_to m id j _ _ (rejected_order-Idle reason now)
  perform-Grows get_time m now (expires id reason) j u k other =
      Grows-transition_to m id j _ _ (expired_order-Idle reason now)
  perform-Grows get_time m now (replaces id by reason) j u k other =
      Grows-transition_to m id j _ _ (replaced_order-Idle by reason now)
  perform-Grows get_time m now (prunes time older) j u k other =
      rw (get-prune_entries get_time (time - older) j m.orders u)
        (Grows-unless_stale get_time (time - older) j (get j m.orders))
