-- ===== src/OrderManager/Conservation.antt =====
-- The fills of a whole history of packages/engine/src/order-manager.ts, against the orders' totals.
use text.Mathlib.TextEquality.{eq_iff}
use traderton.Prelude.{ℕ, String, ◌≡◌, List, [], ◌∷◌, Option, none, some, arith}
use traderton.Prelude.JsMap.{get, get-set, Unique}
use traderton.Decimal.{DecimalLib}
use traderton.Order.{ManagedOrder}
use traderton.OrderManager.State.{OrderManager, CreateOrderParams, create, new_order}
use traderton.OrderManager.Effects.{Becomes}
use traderton.OrderManager.Trace.{AreOther}
use traderton.OrderManager.Moves.{perform-Becomes, perform-Unique}
use traderton.OrderManager.Totals.{
  fill_total, Grows, Grows-same, Grows-step, IsKeyed, perform-Grows,
}
use traderton.OrderManager.Calls.{Call, creates, perform, run}

module _ ⦃lib : DecimalLib⦄ where
  Becomes-keyed :
      (j : String) (a b : Option ManagedOrder)
      → Becomes a b
      → ((o : ManagedOrder) → a ≡ some o → o.id ≡ j)
      → (o : ManagedOrder) → b ≡ some o
      → o.id ≡ j
  Becomes-keyed j none b e k o h = cc
  Becomes-keyed j (some a) none e k o h = cc
  Becomes-keyed j (some a) (some b) e k o h = ground (arith, k a)

  create-IsKeyed :
      (m : OrderManager) (p : CreateOrderParams) (now : String)
      → IsKeyed m
      → IsKeyed (create m p now).0
  unfolding create
  create-IsKeyed m p now k j o h =
      ground (arith, get-set p.id j (new_order p now) m.orders, eq_iff p.id j, k j o)

  perform-IsKeyed :
      (get_time : String → Option ℕ) (m : OrderManager) (now : String) (c : Call)
      → Unique m.orders
      → IsKeyed m
      → IsKeyed (perform get_time m (now, c)).manager
  unfolding perform
  perform-IsKeyed get_time m now (creates p) u k = create-IsKeyed m p now k
  perform-IsKeyed get_time m now c u k =
      λ j. Becomes-keyed j _ _ (perform-Becomes get_time m now c j u tt) (k j)

  run-Grows :
      (get_time : String → Option ℕ) (m : OrderManager) (cs : List (String × Call)) (j : String)
      → Unique m.orders
      → IsKeyed m
      → AreOther j cs
      → let r = run get_time m cs in Grows j r.1 (get j m.orders) (get j r.0.orders)
  unfolding run
  run-Grows get_time m [] j u k a = Grows-same j (get j m.orders)
  run-Grows get_time m ((now, c) ∷ cs) j u k a =
      let r = perform get_time m (now, c) in
      Grows-step j r.emitted (run get_time r.manager cs).1 (get j m.orders) (get j r.manager.orders)
        _ (perform-Grows get_time m now c j u k a.0)
        (run-Grows get_time r.manager cs j (perform-Unique get_time m now c u)
          (perform-IsKeyed get_time m now c u k) a.1)

  -- From a manager with each order once, under its own id, over any history that does not create
  -- the order anew, the filled quantity of an order that is
  -- still there is the sum, in order, of what it was and of the fills emitted for it: no fill is
  -- lost, counted twice or booked on another order.
  pub run-fill_total :
      (get_time : String → Option ℕ) (m : OrderManager) (cs : List (String × Call)) (j : String)
      (before after : ManagedOrder)
      → Unique m.orders
      → IsKeyed m
      → AreOther j cs
      → get j m.orders ≡ some before
      → get j (run get_time m cs).0.orders ≡ some after
      → after.filled_quantity ≡ fill_total j before.filled_quantity (run get_time m cs).1
  run-fill_total get_time m cs j before after u k a e f =
      rw (e, f) at (run-Grows get_time m cs j u k a)
