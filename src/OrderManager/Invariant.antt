-- ===== src/OrderManager/Invariant.antt =====
-- Every call of packages/engine/src/order-manager.ts keeps every order sound.
use traderton.Prelude.{ℕ, String, ◌≡◌, true, List, [], ◌∷◌, Option, inl, inr, Bool-cases}
use traderton.Prelude.JsMap.{AllValues, AllValues-get, AllValues-set}
use traderton.Decimal.{DecimalLib, decimal, lte}
use traderton.Decimal.Laws.{Exact}
use traderton.Order.{OrderStatus, ManagedOrder, can_transition}
use traderton.OrderManager.State.{OrderManager, ApplyFillParams, transition_to, create, new_order}
use traderton.OrderManager.Operations.{acknowledge, cancel, reject, expire, replace}
use traderton.OrderManager.Fill.{apply_fill, filled_order}
use traderton.OrderManager.Queries.{prune, prune_entries, is_stale}
use traderton.OrderManager.Soundness.{
  IsSound, acknowledged_order-IsSound, cancelled_order-IsSound, rejected_order-IsSound,
  expired_order-IsSound, replaced_order-IsSound, new_order-IsSound, filled_order-IsSound,
}
use traderton.OrderManager.Cases.{transition_to_cases, apply_fill_cases}
use traderton.OrderManager.Calls.{
  Call, creates, acknowledges, fills, cancels, rejects, expires, replaces, prunes, perform, run,
}

module _ ⦃lib : DecimalLib⦄ where
  abbrev pub AreSound : OrderManager → Type 0
  AreSound m = AllValues IsSound m.orders

  -- An order is created for an amount that is not negative. Nothing is asked of the other calls.
  abbrev pub IsProper : Call → Type 0
  IsProper (creates p) = lte (decimal 0) p.quantity ≡ true
  IsProper _ = Unit {0}

  abbrev pub AreProper : List (String × Call) → Type 0
  AreProper [] = Unit {0}
  AreProper ((now, c) ∷ cs) = IsProper c × AreProper cs

  transition_to-AreSound :
      (m : OrderManager) (id : String) (to : OrderStatus) (change : ManagedOrder → ManagedOrder)
      → ((o : ManagedOrder) → IsSound o → can_transition o.status to ≡ true → IsSound (change o))
      → AreSound m
      → AreSound (transition_to m id to change).0
  transition_to-AreSound m id to change keeps v =
      transition_to_cases (λ r. AreSound r.0) m id to change (λ e. v)
        λ o found allowed.
          AllValues-set IsSound id (change o) m.orders v
            (keeps o (AllValues-get IsSound id m.orders v found) allowed)

  prune_entries-AllValues :
      (get_time : String → Option ℕ) (cutoff : ℕ) (entries : List (String × ManagedOrder))
      → AllValues IsSound entries
      → AllValues IsSound (prune_entries get_time cutoff entries).0
  unfolding prune_entries
  prune_entries-AllValues get_time cutoff [] v = tt
  prune_entries-AllValues get_time cutoff ((id, o) ∷ rest) v =
      elim (Bool-cases (is_stale get_time cutoff o)) [
        | inl stale ↦ rw stale (prune_entries-AllValues get_time cutoff rest v.1)
        | inr fresh ↦ rw fresh (v.0, prune_entries-AllValues get_time cutoff rest v.1)
      ]

module _ ⦃lib : DecimalLib⦄ ⦃ex : Exact⦄ where
  apply_fill-AreSound :
      (m : OrderManager) (id : String) (p : ApplyFillParams) (now : String)
      → AreSound m
      → AreSound (apply_fill m id p now).0
  apply_fill-AreSound m id p now v =
      apply_fill_cases (λ r. AreSound r.0) m id p now (λ e. v)
        λ o found live fits allowed.
          AllValues-set IsSound id (filled_order o p now) m.orders v
            (filled_order-IsSound o p now (AllValues-get IsSound id m.orders v found) fits allowed)

  -- Every call keeps all the orders sound, given that an order is created for no negative amount.
  pub perform-AreSound :
      (get_time : String → Option ℕ) (m : OrderManager) (now : String) (c : Call)
      → IsProper c
      → AreSound m
      → AreSound (perform get_time m (now, c)).manager
  unfolding perform create acknowledge cancel reject expire replace prune
  perform-AreSound get_time m now (creates p) h v =
      AllValues-set IsSound p.id (new_order p now) m.orders v (new_order-IsSound p now h)
  perform-AreSound get_time m now (acknowledges id ref) h v =
      transition_to-AreSound m id _ _ (acknowledged_order-IsSound ref now) v
  perform-AreSound get_time m now (fills id p) h v = apply_fill-AreSound m id p now v
  perform-AreSound get_time m now (cancels id) h v =
      transition_to-AreSound m id _ _ (cancelled_order-IsSound now) v
  perform-AreSound get_time m now (rejects id reason) h v =
      transition_to-AreSound m id _ _ (rejected_order-IsSound reason now) v
  perform-AreSound get_time m now (expires id reason) h v =
      transition_to-AreSound m id _ _ (expired_order-IsSound reason now) v
  perform-AreSound get_time m now (replaces id by reason) h v =
      transition_to-AreSound m id _ _ (replaced_order-IsSound by reason now) v
  perform-AreSound get_time m now (prunes time older) h v =
      prune_entries-AllValues get_time _ m.orders v

  -- Starting from sound orders, any history of calls that creates orders for no negative amount
  -- leaves every order sound: no order is overfilled, its filled quantity fits its status, and its
  -- audit trail has at most 50 transitions, ends at its status and is linked while it was never cut.
  pub run-AreSound :
      (get_time : String → Option ℕ) (m : OrderManager) (cs : List (String × Call))
      → AreProper cs
      → AreSound m
      → AreSound (run get_time m cs).0
  unfolding run
  run-AreSound get_time m [] h v = v
  run-AreSound get_time m ((now, c) ∷ cs) h v =
      run-AreSound get_time (perform get_time m (now, c)).manager cs h.1
        (perform-AreSound get_time m now c h.0 v)
