-- ===== src/OrderManager/Fill.antt =====
-- packages/engine/src/order-manager.ts: `applyFill`.
use Prim.Native.String.{◌++◌ as str_append}
use traderton.Prelude.{String, none, some, if◌then◌else◌}
use traderton.Prelude.JsMap.{get}
use traderton.Decimal.{DecimalLib, Price, Quantity, decimal, plus, mul, div, gt, equals, to_string}
use traderton.Result.{ok, err}
use traderton.Order.{
  OrderStatus, partial, filled, ManagedOrder, FillEvent, can_transition, is_terminal,
}
use traderton.OrderManager.State.{
  OrderManager, ApplyFillParams, Outcome, order_not_found, invalid_transition, order_terminal,
  overfill, record_transition, commit,
}

module _ ⦃lib : DecimalLib⦄ where
  unfoldable pub fill_reason : String → Quantity → Price → String
  fill_reason fill_id quantity price = str_append "fill " (
      str_append fill_id
        (str_append ": " (str_append (to_string quantity) (str_append " @ " (to_string price)))))

  -- The weighted average of what was filled before and of this fill.
  unfoldable pub new_avg_price : ManagedOrder → ApplyFillParams → Price
  new_avg_price order p =
      div (plus prev_notional (mul p.price p.quantity)) (plus order.filled_quantity p.quantity)
    where
      prev_notional : Price
      prev_notional = elim order.avg_fill_price [
        | none ↦ decimal 0
        | some avg ↦ mul avg order.filled_quantity
      ]

  unfoldable pub fill_event : ManagedOrder → ApplyFillParams → FillEvent
  fill_event order p = record {
    id = p.fill_id;
    order_id = order.id;
    venue_account_id = order.venue_account_id;
    bot_id = order.bot_id;
    actor_type = order.actor_type;
    actor_id = order.actor_id;
    venue_ref_id = p.venue_ref_id;
    venue = order.venue;
    symbol = order.symbol;
    side = order.side;
    quantity = p.quantity;
    price = p.price;
    fee = p.fee;
    fee_currency = p.fee_currency;
    filled_at = p.filled_at;
  }

  -- The order with the new totals, before its transition is recorded.
  unfoldable pub with_totals : ManagedOrder → ApplyFillParams → ManagedOrder
  with_totals order p = record order {
    filled_quantity = plus order.filled_quantity p.quantity;
    avg_fill_price = some (new_avg_price order p);
  }

  unfoldable pub target_status : ManagedOrder → ApplyFillParams → OrderStatus
  target_status order p =
      if equals (plus order.filled_quantity p.quantity) order.quantity then filled else partial

  unfoldable pub filled_order : ManagedOrder → ApplyFillParams → String → ManagedOrder
  unfolding record_transition with_totals
  filled_order order p now =
      record (record_transition (with_totals order p) (target_status order p)
        (fill_reason p.fill_id p.quantity p.price) none (some p.fill_id) now) {
          status = target_status order p;
          updated_at = now;
        }

  unfoldable pub apply_fill :
      OrderManager → String → ApplyFillParams → String → Outcome (ManagedOrder × FillEvent)
  unfolding with_totals
  apply_fill m id p now = elim (get id m.orders) [
    | none ↦ (m, err (order_not_found id))
    | some order ↦
        if is_terminal order.status
        then (m, err (order_terminal id order.status))
        else if gt (plus order.filled_quantity p.quantity) order.quantity
        then (m, err (overfill id order.quantity order.filled_quantity p.quantity))
        else if can_transition order.status (target_status order p)
        then (
          commit m id (with_totals order p) (filled_order order p now),
          ok (filled_order order p now, fill_event order p),
        )
        else (m, err (invalid_transition id order.status (target_status order p)))
  ]
