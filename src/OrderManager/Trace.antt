-- ===== src/OrderManager/Trace.antt =====
-- An order over a history of calls of packages/engine/src/order-manager.ts.
use mathlib.Core.Path.{subst}
use traderton.Prelude.{ℕ, String, ◌≡◌, refl, ◌∙◌, true, List, [], ◌∷◌, Option, none, some, inl, inr}
use traderton.Prelude.JsMap.{get, Unique}
use traderton.Decimal.{DecimalLib}
use traderton.Order.{ManagedOrder, is_terminal}
use traderton.Order.Lifecycle.{Reaches, here, next, terminal_stuck}
use traderton.OrderManager.State.{OrderManager}
use traderton.OrderManager.Effects.{Becomes}
use traderton.OrderManager.Moves.{IsOther, perform-Becomes, perform-Unique}
use traderton.OrderManager.Calls.{Call, perform, run}

module _ ⦃lib : DecimalLib⦄ where
  abbrev pub AreOther : String → List (String × Call) → Type 0
  AreOther j [] = Unit {0}
  AreOther j ((now, c) ∷ cs) = IsOther j c × AreOther j cs

  -- What an order becomes in any number of calls.
  abbrev pub Evolves : Option ManagedOrder → Option ManagedOrder → Type 0
  Evolves none after = after ≡ none
  Evolves (some o) none = Unit {0}
  Evolves (some o) (some o') =
      Reaches o.status o'.status
      × (o'.quantity ≡ o.quantity)
      × (is_terminal o.status ≡ true → o' ≡ o)

  Evolves-same : (o : Option ManagedOrder) → Evolves o o
  Evolves-same none = refl
  Evolves-same (some o) = (here, refl, λ _. refl)

  Evolves-step : (a b c : Option ManagedOrder) → Becomes a b → Evolves b c → Evolves a c
  Evolves-step none b c e h = rw e at h
  Evolves-step (some o) none c e h = rw h tt
  Evolves-step (some o) (some o') none e h = tt
  Evolves-step (some o) (some o') (some o2) (inl same) h =
      subst (λ x. Evolves (some x) (some o2)) same h
  Evolves-step (some o) (some o') (some o2) (inr edge) h =
      (next edge.0 h.0, h.1 ∙ edge.1, λ t. cc (terminal_stuck o.status o'.status t, edge.0))

  -- From a manager with each id once, over any history that does not create it anew, an order only moves along the diagram, keeps its
  -- quantity, and once it is terminal is never changed again; it may be pruned, and then stays away.
  pub run-Evolves :
      (get_time : String → Option ℕ) (m : OrderManager) (cs : List (String × Call)) (j : String)
      → Unique m.orders
      → AreOther j cs
      → Evolves (get j m.orders) (get j (run get_time m cs).0.orders)
  unfolding run
  run-Evolves get_time m [] j u a = Evolves-same (get j m.orders)
  run-Evolves get_time m ((now, c) ∷ cs) j u a =
      let m' = (perform get_time m (now, c)).manager in
      Evolves-step (get j m.orders) (get j m'.orders) _ (perform-Becomes get_time m now c j u a.0)
        (run-Evolves get_time m' cs j (perform-Unique get_time m now c u) a.1)
