-- ===== src/LiveTimeout/Overdue.antt =====
-- Which orders packages/engine/src/live-timeout-manager.ts acts on.
use text.Mathlib.TextEquality.{eq_iff}
use traderton.Prelude.{
  ℕ, ◌-◌, String, str_eq, Bool, false, ◌&&◌, List, [], ◌∷◌, Option, none, some, if◌then◌else◌, leb,
  map, filter, ◌≡◌, refl, arith, inl, inr, Bool-cases, Option-cases,
}
use traderton.LiveTimeout.{
  LiveTimeoutPolicy, LiveTimeoutOrder, LiveTimeoutAction, cancel_limit, mark_recovery_required,
  is_active_status, resolve_anchor_ms, timeout_action, compute_live_timeout_actions, limit_action,
  push,
}

abbrev pub order_of : LiveTimeoutAction → String
order_of (cancel_limit id ref symbol age) = id
order_of (mark_recovery_required id ref symbol age reason) = id

abbrev pub orders_of : List LiveTimeoutAction → List String
orders_of = map order_of

-- The timeout of an order's type; other types have none.
abbrev pub timeout_of : LiveTimeoutPolicy → LiveTimeoutOrder → Option ℕ
timeout_of policy o =
    if str_eq o.type "limit"
    then some policy.limit_order_timeout_ms
    else if str_eq o.type "market"
    then some policy.market_order_timeout_ms
    else none

-- No type is both.
types_differ : (t : String) → (str_eq t "limit" && str_eq t "market") ≡ false
types_differ t = elim (Bool-cases (str_eq t "limit")) [
  | inl limit ↦ rw ((eq_iff t "limit").0 limit) refl
  | inr other ↦ ground arith
]

limit_action-order_of : (o : LiveTimeoutOrder) (age : ℕ) → order_of (limit_action o age) ≡ o.id
limit_action-order_of o age = ground arith

module _ (get_time : String → Option ℕ) where
  -- An order is overdue when it is active, a time is known from which it is counted, and the
  -- timeout of its type has passed since.
  abbrev pub is_overdue : LiveTimeoutPolicy → ℕ → LiveTimeoutOrder → Bool
  is_overdue policy now o = is_active_status o.status && elim (resolve_anchor_ms get_time o) [
    | none ↦ false
    | some anchor ↦ elim (timeout_of policy o) [
      | none ↦ false
      | some timeout ↦ leb timeout (now - anchor)
    ]
  ]

  one_action :
      (policy : LiveTimeoutPolicy) (now : ℕ) (o : LiveTimeoutOrder)
      (actions : List LiveTimeoutAction)
      → orders_of (push (timeout_action get_time policy now o) actions)
        ≡ (if is_overdue policy now o then o.id ∷ orders_of actions else orders_of actions)
  unfolding timeout_action
  one_action policy now o actions = elim (Option-cases (resolve_anchor_ms get_time o)) [
    | inl unknown ↦ ground arith
    | inr (anchor, known) ↦
        ground (arith, types_differ o.type, limit_action-order_of o (now - anchor))
  ]

  -- The actions are one for each overdue order, in the order of the list, and none for another.
  pub compute_live_timeout_actions_lem :
      (os : List LiveTimeoutOrder) (policy : LiveTimeoutPolicy) (now : ℕ)
      → orders_of (compute_live_timeout_actions get_time os policy now)
        ≡ map (λ o. o.id) (filter (is_overdue policy now) os)
  unfolding compute_live_timeout_actions
  compute_live_timeout_actions_lem [] policy now = refl
  compute_live_timeout_actions_lem (o ∷ os) policy now = ground (
    arith,
    one_action policy now o (compute_live_timeout_actions get_time os policy now),
    compute_live_timeout_actions_lem os policy now,
  )
