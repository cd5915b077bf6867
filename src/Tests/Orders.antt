-- ===== src/Tests/Orders.antt =====
-- Runs of packages/engine/src/order-state.ts, order-manager.ts and order-lifecycle-manager.ts.
use text.Mathlib.TextEquality.{eq_iff}
use traderton.Prelude.{arith, ◌≡◌, refl, ◌↔◌, String, true, false, List, [], ◌∷◌, none, some}
use traderton.Prelude.JsMap.{get, set, Unique}
use traderton.Prelude.Int.{pos, ◌+ℤ◌}
use traderton.Decimal.{plus, gt, lte, equals}
use traderton.Decimal.Integers.{whole_numbers, whole_numbers-Exact}
use traderton.Order.{pending, cancelled, can_transition, is_terminal, buy, ManagedOrder}
use traderton.OrderManager.State.{order_terminal, record_transition}
use traderton.OrderManager.Fill.{with_totals, apply_fill, filled_order, target_status}
use traderton.OrderManager.Calls.{Call, creates, fills, perform, run, failure_of}
use traderton.OrderManager.Soundness.{IsSound}
use traderton.OrderManager.Invariant.{AreSound, run-AreSound}
use traderton.OrderManager.Failures.{perform_failure_unchanged}
use traderton.OrderManager.Trace.{Evolves, run-Evolves}
use traderton.OrderManager.Totals.{fill_total, IsKeyed}
use traderton.OrderManager.Conservation.{run-fill_total}
use traderton.OrderManager.Acceptance.{apply_fill_accepts_iff}
use traderton.LifecycleManager.{cancel_requested, apply_event}
use traderton.LifecycleManager
use traderton.LifecycleManager.Audit.{Audits, apply_event_audited}
use traderton.LifecycleManager.Agreement.{params_of, apply_fill-agrees}
use traderton.Tests.Samples.{
  no_time, create_ten, fill_of, no_orders, order_in, one_order, life, fill,
}

run-AreSound_example : AreSound (run no_time no_orders (("t0", creates create_ten) ∷ life)).0
run-AreSound_example =
    run-AreSound no_time no_orders (("t0", creates create_ten) ∷ life)
      (refl, (tt, (tt, (tt, (tt, tt))))) tt

one_order-Unique : Unique one_order.orders
unfolding get
one_order-Unique = (refl, tt)

run-Evolves_example :
    Evolves (get "o1" one_order.orders) (get "o1" (run no_time one_order life).0.orders)
run-Evolves_example =
    run-Evolves no_time one_order life "o1" one_order-Unique (tt, (tt, (tt, (tt, tt))))

abbrev cancelled_order : ManagedOrder
cancelled_order = order_in cancelled

fill_of_cancelled :
    (perform no_time
      (record one_order { orders = ("o1", cancelled_order) ∷ [] })
      ("t", fills "o1" (fill_of 1))).failure
    ≡ some (order_terminal "o1" cancelled)
unfolding perform apply_fill get is_terminal
fill_of_cancelled = refl

perform_failure_unchanged_example :
    (perform no_time
      (record one_order { orders = ("o1", cancelled_order) ∷ [] })
      ("t", fills "o1" (fill_of 1))).manager
    ≡ record one_order { orders = ("o1", cancelled_order) ∷ [] }
perform_failure_unchanged_example =
    perform_failure_unchanged no_time (record one_order { orders = ("o1", cancelled_order) ∷ [] })
      "t" (fills "o1" (fill_of 1)) fill_of_cancelled

found_order : get "o1" one_order.orders ≡ some (order_in pending)
unfolding get
found_order = refl

apply_fill_accepts_iff_example :
    (failure_of (apply_fill one_order "o1" (fill_of 10) "t").1 ≡ none) ↔ (
      (is_terminal pending ≡ false)
      × (lte (plus (pos 0) (pos 10)) (pos 10) ≡ true)
      × (pending ≡ pending → equals (plus (pos 0) (pos 10)) (pos 10) ≡ true))
apply_fill_accepts_iff_example =
    apply_fill_accepts_iff one_order "o1" (fill_of 10) "t" (order_in pending) found_order

one_order-IsKeyed : IsKeyed one_order
unfolding get
one_order-IsKeyed j o h = ground (arith, h, eq_iff "o1" j)

abbrev complete : List (String × Call)
complete = ("t1", fills "o1" (fill_of 10)) ∷ []

filled_up :
    get "o1" (run no_time one_order complete).0.orders
    ≡ some (filled_order (order_in pending) (fill_of 10) "t1")
unfolding run perform apply_fill get set is_terminal target_status can_transition filled_order
    with_totals record_transition ◌+ℤ◌
filled_up = refl

run-fill_total_example :
    (filled_order (order_in pending) (fill_of 10) "t1").filled_quantity
    ≡ fill_total "o1" (pos 0) (run no_time one_order complete).1
run-fill_total_example =
    run-fill_total no_time one_order complete "o1" (order_in pending)
      (filled_order (order_in pending) (fill_of 10) "t1") one_order-Unique one_order-IsKeyed
      (tt, tt) found_order filled_up

apply_event_audited_example :
    Audits
      (order_in pending)
      (cancel_requested "late" "t")
      (apply_event (order_in pending) (cancel_requested "late" "t") "t")
apply_event_audited_example =
    apply_event_audited (order_in pending) (cancel_requested "late" "t") "t"

order_in_pending-IsSound : IsSound (order_in pending)
order_in_pending-IsSound = record {
  within = refl;
  full = λ e. ground (arith, e);
  part = λ e. ground (arith, e);
  unfilled = λ _. refl;
  priced = λ _. refl;
  recorded = record { bounded = omega arith; ends = tt; complete = λ _. refl };
}

fits : gt (plus (pos 0) (pos 10)) (pos 10) ≡ false
unfolding ◌+ℤ◌
fits = refl

allowed :
    can_transition pending (target_status (order_in pending) (params_of (fill buy 10 5))) ≡ true
unfolding can_transition target_status ◌+ℤ◌
allowed = refl

apply_fill-agrees_example :
    (LifecycleManager.apply_fill (order_in pending) (fill buy 10 5) "t").order
    ≡ filled_order (order_in pending) (params_of (fill buy 10 5)) "t"
apply_fill-agrees_example =
    apply_fill-agrees (order_in pending) (fill buy 10 5) "t" order_in_pending-IsSound refl fits
      allowed
