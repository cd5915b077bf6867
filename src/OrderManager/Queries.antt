-- ===== src/OrderManager/Queries.antt =====
-- packages/engine/src/order-manager.ts: `getByPlan`, `getActive`, `prune`. The map itself is `getAll`.
use traderton.Prelude.{
  ℕ, ◌+◌, ◌-◌, String, Bool, false, not, ◌&&◌, List, [], ◌∷◌, Option, none, some, if◌then◌else◌,
  ltb, filter, str_eq,
}
use traderton.Prelude.JsMap.{values}
use traderton.Decimal.{DecimalLib}
use traderton.Order.{ManagedOrder, is_terminal}
use traderton.OrderManager.State.{OrderManager}

-- A comparison with NaN fails.
abbrev pub is_before : Option ℕ → ℕ → Bool
is_before none cutoff = false
is_before (some t) cutoff = ltb t cutoff

module _ ⦃lib : DecimalLib⦄ where
  abbrev pub has_plan : String → ManagedOrder → Bool
  has_plan plan_id o = elim o.execution_plan_id [ none ↦ false | some p ↦ str_eq p plan_id ]

  unfoldable pub get_by_plan : OrderManager → String → List ManagedOrder
  get_by_plan m plan_id = filter (has_plan plan_id) (values m.orders)

  unfoldable pub get_active : OrderManager → List ManagedOrder
  get_active m = filter (λ o. not (is_terminal o.status)) (values m.orders)

  -- `get_time` is `new Date(text).getTime()`, and `none` its NaN.
  module _ (get_time : String → Option ℕ) where
    abbrev pub is_stale : ℕ → ManagedOrder → Bool
    is_stale cutoff o = is_terminal o.status && is_before (get_time o.updated_at) cutoff

    unfoldable pub prune_entries :
        ℕ → List (String × ManagedOrder) → List (String × ManagedOrder) × ℕ
    prune_entries cutoff [] = ([], 0)
    prune_entries cutoff ((id, order) ∷ rest) =
        let (kept, pruned) = prune_entries cutoff rest in
        if is_stale cutoff order then (kept, pruned + 1) else ((id, order) ∷ kept, pruned)

    unfoldable pub prune : OrderManager → ℕ → ℕ → OrderManager × ℕ
    unfolding prune_entries
    prune m now older_than_ms =
        let (kept, pruned) = prune_entries (now - older_than_ms) m.orders in
        (record m { orders = kept }, pruned)
