-- ===== src/OrderManager/Effects.antt =====
-- What a call of packages/engine/src/order-manager.ts does to the other orders and to the status.
use text.Mathlib.TextEquality.{eq_iff}
use traderton.Prelude.{
  ℕ, String, ◌≡◌, refl, ◌⊎◌, true, List, Option, none, some, arith, inl, inr, Bool-cases, str_eq,
}
use traderton.Prelude.JsMap.{get, set, get-set}
use traderton.Decimal.{DecimalLib}
use traderton.Order.{OrderStatus, ManagedOrder, can_transition}
use traderton.OrderManager.State.{OrderManager, transition_to}
use traderton.OrderManager.Cases.{transition_to_cases}
use traderton.OrderManager.Pruning.{unless_stale}

module _ ⦃lib : DecimalLib⦄ where
  -- What an order becomes in one call: gone, as it was, or moved along an edge of the diagram.
  abbrev pub Becomes : Option ManagedOrder → Option ManagedOrder → Type 0
  Becomes none after = after ≡ none
  Becomes (some o) none = Unit {0}
  Becomes (some o) (some o') =
      (o' ≡ o)
      ⊎ ((can_transition o.status o'.status ≡ true)
          × (o'.quantity ≡ o.quantity)
          × (o'.side ≡ o.side)
          × (o'.id ≡ o.id))

  pub Becomes-same : (o : Option ManagedOrder) → Becomes o o
  Becomes-same none = refl
  Becomes-same (some o) = inl refl

  -- An entry written over another one.
  pub Becomes-set :
      (id j : String) (o o' : ManagedOrder) (entries : List (String × ManagedOrder))
      → get id entries ≡ some o
      → Becomes (some o) (some o')
      → Becomes (get j entries) (get j (set id o' entries))
  Becomes-set id j o o' entries found b =
      rw (get-set id j o' entries) (elim (Bool-cases (str_eq id j)) [
        | inl same ↦ rw same (rw (← (eq_iff id j).0 same) (rw found b))
        | inr other ↦ rw other (Becomes-same (get j entries))
      ])

  pub Becomes-unless_stale :
      (get_time : String → Option ℕ) (cutoff : ℕ) (o : Option ManagedOrder)
      → Becomes o (unless_stale get_time cutoff o)
  Becomes-unless_stale get_time cutoff none = refl
  Becomes-unless_stale get_time cutoff (some o) = ground arith

  abbrev pub Edge : OrderStatus → (ManagedOrder → ManagedOrder) → Type 0
  Edge to change =
      (o : ManagedOrder)
      → ((change o).status ≡ to)
        × ((change o).quantity ≡ o.quantity)
        × ((change o).side ≡ o.side)
        × ((change o).id ≡ o.id)

  pub Becomes-transition_to :
      (m : OrderManager) (id j : String) (to : OrderStatus) (change : ManagedOrder → ManagedOrder)
      → Edge to change
      → Becomes (get j m.orders) (get j (transition_to m id to change).0.orders)
  Becomes-transition_to m id j to change e =
      transition_to_cases (λ r. Becomes (get j m.orders) (get j r.0.orders)) m id to change
        (λ _. Becomes-same (get j m.orders))
        λ o found allowed.
          Becomes-set id j o (change o) m.orders found
            (inr (rw ((e o).0) allowed, (e o).1, (e o).2, (e o).3))
