-- ===== src/OrderManager/Pruning.antt =====
-- `prune` of packages/engine/src/order-manager.ts.
use text.Mathlib.TextEquality.{eq_iff}
use traderton.Prelude.{
  ℕ, ◌+◌, ◌-◌, String, ◌≡◌, refl, List, [], ◌∷◌, Option, none, some, arith, inl, inr, Bool-cases,
  if◌then◌else◌, length,
}
use traderton.Prelude.JsMap.{get, Unique}
use traderton.Decimal.{DecimalLib}
use traderton.Order.{ManagedOrder}
use traderton.OrderManager.State.{OrderManager}
use traderton.OrderManager.Queries.{prune, prune_entries, is_stale}

module _ ⦃lib : DecimalLib⦄ (get_time : String → Option ℕ) where
  abbrev pub unless_stale : ℕ → Option ManagedOrder → Option ManagedOrder
  unless_stale cutoff none = none
  unless_stale cutoff (some o) = if is_stale get_time cutoff o then none else some o

  get-prune_entries-none :
      (cutoff : ℕ) (id : String) (entries : List (String × ManagedOrder))
      → get id entries ≡ none
      → get id (prune_entries get_time cutoff entries).0 ≡ none
  unfolding prune_entries get
  get-prune_entries-none cutoff id [] h = refl
  get-prune_entries-none cutoff id ((j, o) ∷ rest) h =
      ground (arith, get-prune_entries-none cutoff id rest)

  pub get-prune_entries :
      (cutoff : ℕ) (id : String) (entries : List (String × ManagedOrder))
      → Unique entries
      → get id (prune_entries get_time cutoff entries).0 ≡ unless_stale cutoff (get id entries)
  unfolding prune_entries get
  get-prune_entries cutoff id [] u = refl
  get-prune_entries cutoff id ((j, o) ∷ rest) u = ground (
    arith,
    eq_iff j id,
    get-prune_entries cutoff id rest u.1,
    get-prune_entries-none cutoff id rest,
  )

  pub prune_entries-Unique :
      (cutoff : ℕ) (entries : List (String × ManagedOrder))
      → Unique entries
      → Unique (prune_entries get_time cutoff entries).0
  unfolding prune_entries
  prune_entries-Unique cutoff [] u = tt
  prune_entries-Unique cutoff ((j, o) ∷ rest) u = elim (Bool-cases (is_stale get_time cutoff o)) [
    | inl stale ↦ rw stale (prune_entries-Unique cutoff rest u.1)
    | inr fresh ↦
        rw fresh (get-prune_entries-none cutoff j rest u.0, prune_entries-Unique cutoff rest u.1)
  ]

  length-prune_entries :
      (cutoff : ℕ) (entries : List (String × ManagedOrder))
      → let r = prune_entries get_time cutoff entries in length r.0 + r.1 ≡ length entries
  unfolding prune_entries
  length-prune_entries cutoff [] = omega arith
  length-prune_entries cutoff ((j, o) ∷ rest) = ground (arith, length-prune_entries cutoff rest)

  -- In a manager with each id once, exactly the terminal orders that were last updated before the
  -- cut-off go, and the result counts them.
  pub prune_lem :
      (m : OrderManager) (now older_than_ms : ℕ)
      → Unique m.orders
      → let r = prune get_time m now older_than_ms in
        ((id : String) → get id r.0.orders ≡ unless_stale (now - older_than_ms) (get id m.orders))
        × (length r.0.orders + r.1 ≡ length m.orders)
  unfolding prune
  prune_lem m now older_than_ms u = (
    λ id. get-prune_entries (now - older_than_ms) id m.orders u,
    length-prune_entries (now - older_than_ms) m.orders,
  )
