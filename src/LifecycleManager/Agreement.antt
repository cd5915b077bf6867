-- ===== src/LifecycleManager/Agreement.antt =====
-- The two places that apply a fill, packages/engine/src/order-lifecycle-manager.ts and
-- packages/engine/src/order-manager.ts, agree.
use traderton.Prelude.{String, ◌≡◌, refl, true, false, none, arith, inl, inr, Option-cases}
use traderton.Decimal.{DecimalLib, decimal, plus, gt}
use traderton.Decimal.Laws.{Exact}
use traderton.Decimal.Sums.{mul-zero}
use traderton.Order.{ManagedOrder, FillEvent, can_transition}
use traderton.OrderManager.State.{ApplyFillParams, is_full}
use traderton.OrderManager.Fill
use traderton.OrderManager.Fill.{filled_order, target_status}
use traderton.OrderManager.History.{history}
use traderton.OrderManager.Soundness.{IsSound}
use traderton.LifecycleManager.{apply_fill, new_filled_qty, new_status, new_avg_price}

module _ ⦃lib : DecimalLib⦄ where
  abbrev pub params_of : FillEvent → ApplyFillParams
  params_of f = record {
    fill_id = f.id;
    venue_ref_id = f.venue_ref_id;
    quantity = f.quantity;
    price = f.price;
    fee = f.fee;
    fee_currency = f.fee_currency;
    filled_at = f.filled_at;
  }

module _ ⦃lib : DecimalLib⦄ ⦃ex : Exact⦄ where
  new_status-eq :
      (o : ManagedOrder) (f : FillEvent)
      → gt (plus o.filled_quantity f.quantity) o.quantity ≡ false
      → new_status o f ≡ target_status o (params_of f)
  unfolding new_status target_status
  new_status-eq o f fits = ground arith

  new_avg_price-eq :
      (o : ManagedOrder) (f : FillEvent)
      → (o.avg_fill_price ≡ none → o.filled_quantity ≡ decimal 0)
      → new_avg_price o f ≡ Fill.new_avg_price o (params_of f)
  unfolding new_avg_price Fill.new_avg_price
  new_avg_price-eq o f priced = elim (Option-cases o.avg_fill_price) [
    | inl e ↦ ground (
      arith,
      priced e,
      ex.mul_comm f.price f.quantity,
      ex.mul_comm (decimal 0) f.price,
      mul-zero f.price,
    )
    | inr (avg, e) ↦
        ground (arith, ex.mul_comm f.price f.quantity, ex.mul_comm o.filled_quantity avg)
  ]

  -- On a sound order with room in its history, a fill that the order manager accepts
  -- makes the same order in both places: status, filled quantity, average price and history.
  pub apply_fill-agrees :
      (o : ManagedOrder) (f : FillEvent) (now : String)
      → IsSound o
      → is_full (history o) ≡ false
      → gt (plus o.filled_quantity f.quantity) o.quantity ≡ false
      → can_transition o.status (target_status o (params_of f)) ≡ true
      → (apply_fill o f now).order ≡ filled_order o (params_of f) now
  unfolding apply_fill filled_order Fill.fill_reason new_filled_qty
  apply_fill-agrees o f now v room fits c =
      rw (new_status-eq o f fits) (rw (new_avg_price-eq o f v.priced) (rw c (rw room refl)))
