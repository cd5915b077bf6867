-- ===== src/Executors/Swaps.antt =====
-- How the orders of packages/engine/src/swap-live-executor.ts end.
use mathlib.Core.Path.{ap₂}
use traderton.Prelude.{
  ℕ, suc, String, ◌≡◌, refl, ap, ◌∙◌, is_some, Bool, true, false, not, ◌&&◌, ◌||◌, List, [], ◌∷◌,
  Option, none, some, All, all, any, inl, inr, Bool-cases, if◌then◌else◌,
}
use traderton.Decimal.{DecimalLib}
use traderton.Result.{Result, ok, err}
use traderton.Order.{OrderStatus, filled, rejected, same_status, terminal, ManagedOrder, FillEvent}
use traderton.Planner.{SwapParams, PlannedOrder, ExecutionPlan, failed, completed}
use traderton.Executors.{ExecutionResult}
use traderton.Executors.Shadow.{SwapQuote}
use traderton.Executors.SwapLive.{
  SwapReceipt, SwapCalls, prepared_order, attempting_order, acknowledged_order, rejected_order,
  filled_order, swap_fill_event,
}
use traderton.Executors.Swapping.{
  Swapped, after_swap, after_quote, with_params, swap_order, swap_orders, orders_of, fills_of,
  add_fill, swap_plan_status, is_under_way, execute,
}

module _ ⦃lib : DecimalLib⦄ where
  -- A fill says what its order says.
  abbrev pub Fits : Option FillEvent → ManagedOrder → Type 0
  Fits none order = order.status ≡ rejected
  Fits (some f) order =
      (order.status ≡ filled)
      × (f.order_id ≡ order.id)
      × (f.side ≡ order.side)
      × (f.quantity ≡ order.filled_quantity)
      × (order.avg_fill_price ≡ some f.price)

  -- An order is over: it was rejected and has no fill, or it is filled as its one fill says.
  abbrev pub IsSettled : Swapped → Type 0
  IsSettled x = (x.order.submission_state ≡ some terminal) × Fits x.fill x.order

  -- It is the planned order that is over.
  abbrev pub Settles : PlannedOrder → Swapped → Type 0
  Settles planned x =
      (x.order.side ≡ planned.side)
      × (x.order.type ≡ planned.type)
      × (x.order.quantity ≡ planned.quantity)
      × IsSettled x

  -- One for each planned order, in order.
  abbrev pub SettleAll : List PlannedOrder → List Swapped → Type 0
  SettleAll [] [] = Unit
  SettleAll (planned ∷ more) (x ∷ xs) = Settles planned x × SettleAll more xs
  SettleAll _ _ = ⊥

  AreSettled-of-SettleAll :
      (orders : List PlannedOrder) (xs : List Swapped) → SettleAll orders xs → All IsSettled xs
  AreSettled-of-SettleAll [] [] h = tt
  AreSettled-of-SettleAll (planned ∷ more) (x ∷ xs) h = (h.0.3, AreSettled-of-SettleAll more xs h.1)
  AreSettled-of-SettleAll [] (x ∷ xs) h = absurd h
  AreSettled-of-SettleAll (planned ∷ more) [] h = absurd h

  module _ {S : Type 0} (calls : SwapCalls S) (planned : PlannedOrder) where
    -- The order stands for the planned one.
    abbrev StandsFor : ManagedOrder → Type 0
    StandsFor order =
        (order.side ≡ planned.side)
        × (order.type ≡ planned.type)
        × (order.quantity ≡ planned.quantity)

    after_swap-Settles :
        (s : S) (first attempting : ManagedOrder) (answer : Result SwapReceipt String)
        → StandsFor first
        → StandsFor attempting
        → Settles planned (after_swap calls s first attempting answer).1
    unfolding after_swap rejected_order filled_order swap_fill_event acknowledged_order
    after_swap-Settles s first attempting (err e) h k = (h.0, h.1, h.2, (refl, refl))
    after_swap-Settles s first attempting (ok receipt) h k =
        (k.0, k.1, k.2, (refl, (refl, refl, refl, refl, refl)))

    after_quote-Settles :
        (s : S) (first : ManagedOrder) (now : String) (answer : Result SwapQuote String)
        → StandsFor first
        → Settles planned (after_quote calls s first now answer).1
    unfolding after_quote rejected_order attempting_order
    after_quote-Settles s first now (err e) h = (h.0, h.1, h.2, (refl, refl))
    after_quote-Settles s first now (ok quote) h = after_swap-Settles _ first _ _ h h

    with_params-Settles :
        (s : S) (first : ManagedOrder) (now : String) (params : Option SwapParams)
        → StandsFor first
        → Settles planned (with_params calls s first now params).1
    unfolding with_params rejected_order
    with_params-Settles s first now none h = (h.0, h.1, h.2, (refl, refl))
    with_params-Settles s first now (some params) h = after_quote-Settles _ first now _ h

  swap_orders-SettleAll :
      {S : Type 0} (calls : SwapCalls S) (plan : ExecutionPlan) (s : S) (i : ℕ)
      (orders : List PlannedOrder)
      → SettleAll orders (swap_orders calls plan s i orders).1
  unfolding swap_orders swap_order prepared_order
  swap_orders-SettleAll calls plan s i [] = tt
  swap_orders-SettleAll calls plan s i (planned ∷ more) = (
    with_params-Settles calls planned _ _ _ planned.swap_params (refl, refl, refl),
    swap_orders-SettleAll calls plan (swap_order calls plan s i planned).0 (suc i) more,
  )

  abbrev pub has_fill : List FillEvent → Bool
  has_fill [] = false
  has_fill (f ∷ fs) = true

  abbrev expected : Option FillEvent → OrderStatus
  expected none = rejected
  expected (some f) = filled

  status-Fits :
      (fill : Option FillEvent) (o : ManagedOrder) → Fits fill o → o.status ≡ expected fill
  status-Fits none o h = h
  status-Fits (some f) o h = h.0

  all_rejected-add_fill :
      (fill : Option FillEvent) (fs : List FillEvent)
      → same_status (expected fill) rejected && not (has_fill fs)
        ≡ not (has_fill (add_fill fill fs))
  all_rejected-add_fill none fs = refl
  all_rejected-add_fill (some f) fs = refl

  any_filled-add_fill :
      (fill : Option FillEvent) (fs : List FillEvent)
      → same_status (expected fill) filled || has_fill fs ≡ has_fill (add_fill fill fs)
  any_filled-add_fill none fs = refl
  any_filled-add_fill (some f) fs = refl

  all_rejected-settled :
      (xs : List Swapped)
      → All IsSettled xs
      → all (λ o. same_status o.status rejected) (orders_of xs) ≡ not (has_fill (fills_of xs))
  all_rejected-settled [] h = refl
  all_rejected-settled (x ∷ xs) (h, hs) =
      ap₂ (λ status b. same_status status rejected && b) (status-Fits x.fill x.order h.1)
        (all_rejected-settled xs hs)
      ∙ all_rejected-add_fill x.fill (fills_of xs)

  any_filled-settled :
      (xs : List Swapped)
      → All IsSettled xs
      → any (λ o. same_status o.status filled) (orders_of xs) ≡ has_fill (fills_of xs)
  any_filled-settled [] h = refl
  any_filled-settled (x ∷ xs) (h, hs) =
      ap₂ (λ status b. same_status status filled || b) (status-Fits x.fill x.order h.1)
        (any_filled-settled xs hs)
      ∙ any_filled-add_fill x.fill (fills_of xs)

  swap_plan_status-settled :
      (xs : List Swapped)
      → All IsSettled xs
      → swap_plan_status (orders_of xs) ≡ (if has_fill (fills_of xs) then completed else failed)
  unfolding swap_plan_status
  swap_plan_status-settled xs h =
      rw (all_rejected-settled xs h, any_filled-settled xs h)
        (elim (Bool-cases (has_fill (fills_of xs))) [
          | inl some_fill ↦ rw some_fill refl
          | inr no_fill ↦ rw no_fill refl
        ])

  -- The result of a plan: the orders and the fills, and a plan that is over.
  abbrev pub Reports : ExecutionPlan → List Swapped → Result ExecutionResult String → Type 0
  Reports plan swapped (err e) = ⊥
  Reports plan swapped (ok r) =
      (r.orders ≡ orders_of swapped)
      × (r.fills ≡ fills_of swapped)
      × (r.plan.id ≡ plan.id)
      × (r.plan.status ≡ (if has_fill r.fills then completed else failed))
      × (is_some r.plan.completed_at ≡ true)

  is_over :
      (b : Bool) (now : String)
      → is_some (if is_under_way (if b then completed else failed) then none else some now) ≡ true
  is_over true now = refl
  is_over false now = refl

  -- Whatever the swap venue answers, the executor makes one order of each planned one, in order and
  -- of its side, type and quantity, and every order ends: it is rejected and has no fill, or it is
  -- filled in the quantity and at the price of its one fill. It returns these orders and fills, and
  -- the plan is over: completed if there is a fill, and failed if there is none.
  pub execute-IsSettled :
      {S : Type 0} (calls : SwapCalls S) (plan : ExecutionPlan) (s : S)
      → let (s', swapped, result) = execute calls plan s in
        SettleAll plan.orders swapped × Reports plan swapped result
  unfolding execute
  execute-IsSettled calls plan s =
      let (s₁, swapped) = swap_orders calls plan s 0 plan.orders in
      let settled = swap_orders-SettleAll calls plan s 0 plan.orders in
      let status =
        swap_plan_status-settled swapped (AreSettled-of-SettleAll plan.orders swapped settled) in
      (
        settled,
        (
          refl,
          refl,
          refl,
          status,
          ap (λ x. is_some (if is_under_way x then none else some (calls.now s₁).1)) status
              ∙ is_over (has_fill (fills_of swapped)) (calls.now s₁).1,
        ),
      )
