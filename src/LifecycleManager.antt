-- ===== src/LifecycleManager.antt =====
-- packages/engine/src/order-lifecycle-manager.ts. The argument `now` is the clock's reading. An
-- event carries its tag in its constructor, and `unrecognised` is a tag that the source's switch has
-- no case for; the payload of a journal entry is a constructor with the payload's fields.
pub mod Audit
pub mod Agreement
use Prim.Native.String.{◌++◌ as str_append}
use traderton.Prelude.{
  String, Bool, true, false, List, [], ◌∷◌, ◌++◌, Option, none, some, if◌then◌else◌, get_or,
}
use traderton.Decimal.{DecimalLib, Price, Quantity, plus, mul, div, gte, to_string}
use traderton.Result.{Result, ok, err}
use traderton.Order.{
  OrderStatus, partial, filled, cancelled, expired, replaced, OrderSide, terminal, ManagedOrder,
  FillEvent, OrderTransition, can_transition, is_terminal,
}

pub data JournalPayload : Type 0 where
  -- order id, fill id, venue reference, symbol, side, fill quantity, fill price, filled quantity,
  -- average price, status, venue
  fill_payload :
      String
      → String
      → Option String
      → String
      → OrderSide
      → String
      → String
      → String
      → String
      → OrderStatus
      → String
      → JournalPayload
  -- order id, venue reference, symbol, reason, previous status, venue
  end_payload : String → Option String → String → String → OrderStatus → String → JournalPayload
  -- order id, replacement, venue reference, symbol, reason, previous status, venue
  replace_payload :
      String → String → Option String → String → String → OrderStatus → String → JournalPayload

pub record LifecycleError : Type 0 where
  pub code : String
  pub message : String

pub record JournalEntry : Type 0 where
  pub actor_type : String
  pub actor_id : String
  pub type : String
  pub payload : JournalPayload

module _ ⦃lib : DecimalLib⦄ where
  pub data LifecycleEvent : Type 0 where
    fill_applied : FillEvent → LifecycleEvent
    cancel_requested : String → String → LifecycleEvent
    expiry : String → String → LifecycleEvent
    replace_requested : String → String → String → LifecycleEvent
    unrecognised : String → LifecycleEvent

  pub record LifecycleResult : Type 0 where
    pub order : ManagedOrder
    pub journal_entries : List JournalEntry

  abbrev pub unchanged : ManagedOrder → LifecycleResult
  unchanged order = record { order = order; journal_entries = [] }

  unfoldable pub new_filled_qty : ManagedOrder → FillEvent → Quantity
  new_filled_qty order fill = plus order.filled_quantity fill.quantity

  unfoldable pub new_avg_price : ManagedOrder → FillEvent → Price
  unfolding new_filled_qty
  new_avg_price order fill =
      let prev_total = mul order.filled_quantity (get_or order.avg_fill_price fill.price) in
      let new_total = mul fill.quantity fill.price in
      div (plus prev_total new_total) (new_filled_qty order fill)

  unfoldable pub new_status : ManagedOrder → FillEvent → OrderStatus
  unfolding new_filled_qty
  new_status order fill = if gte (new_filled_qty order fill) order.quantity then filled else partial

  abbrev pub fill_type : OrderStatus → String
  fill_type filled = "order.filled"
  fill_type _ = "order.partial"

  unfoldable pub apply_fill : ManagedOrder → FillEvent → String → LifecycleResult
  apply_fill order fill now =
      if can_transition order.status status
      then record {
        order = record order {
          status = status;
          filled_quantity = new_filled_qty order fill;
          avg_fill_price = some (new_avg_price order fill);
          transition_history = some (get_or order.transition_history [] ++ transition ∷ []);
          updated_at = now;
        };
        journal_entries = entry ∷ [];
      }
      else unchanged order
    where
      status : OrderStatus
      status = new_status order fill

      transition : OrderTransition
      transition = record {
        from = order.status;
        to = status;
        reason = str_append "fill " (
            str_append fill.id (
              str_append ": "
                (str_append (to_string fill.quantity) (str_append " @ " (to_string fill.price)))));
        timestamp = now;
        fill_id = some fill.id;
        replacement_order_id = none;
      }

      entry : JournalEntry
      entry = record {
        actor_type = order.actor_type;
        actor_id = order.actor_id;
        type = fill_type status;
        payload =
            fill_payload order.id fill.id fill.venue_ref_id order.symbol order.side
              (to_string fill.quantity) (to_string fill.price)
              (to_string (new_filled_qty order fill)) (to_string (new_avg_price order fill)) status
              order.venue;
      }

  -- The order that `applyCancel`, `applyExpiry` and `applyReplace` leave.
  unfoldable pub ended : ManagedOrder → OrderStatus → String → String → Option String → ManagedOrder
  ended order to reason timestamp replacement_order_id = record order {
    status = to;
    submission_state = some terminal;
    transition_history = some (get_or order.transition_history [] ++ transition ∷ []);
    updated_at = timestamp;
  }
    where
      transition : OrderTransition
      transition = record {
        from = order.status;
        to = to;
        reason = reason;
        timestamp = timestamp;
        fill_id = none;
        replacement_order_id = replacement_order_id;
      }

  -- Both checks, first that the order is not terminal, then that the transition is valid.
  abbrev pub guarded : ManagedOrder → OrderStatus → LifecycleResult → LifecycleResult
  guarded order to result =
      if is_terminal order.status
      then unchanged order
      else if can_transition order.status to
      then result
      else unchanged order

  abbrev pub entry_of : ManagedOrder → String → JournalPayload → JournalEntry
  entry_of order type payload = record {
    actor_type = order.actor_type;
    actor_id = order.actor_id;
    type = type;
    payload = payload;
  }

  unfoldable pub apply_cancel : ManagedOrder → String → String → LifecycleResult
  unfolding ended
  apply_cancel order reason timestamp = guarded order cancelled (record {
    order = ended order cancelled reason timestamp none;
    journal_entries =
        entry_of order "order.cancelled"
          (end_payload order.id order.venue_ref_id order.symbol reason order.status order.venue)
        ∷ [];
  })

  unfoldable pub apply_expiry : ManagedOrder → String → String → LifecycleResult
  unfolding ended
  apply_expiry order reason timestamp = guarded order expired (record {
    order = ended order expired reason timestamp none;
    journal_entries =
        entry_of order "order.expired"
          (end_payload order.id order.venue_ref_id order.symbol reason order.status order.venue)
        ∷ [];
  })

  unfoldable pub apply_replace : ManagedOrder → String → String → String → LifecycleResult
  unfolding ended
  apply_replace order replacement_order_id reason timestamp = guarded order replaced (record {
    order = ended order replaced reason timestamp (some replacement_order_id);
    journal_entries =
        entry_of order "order.replaced" (
          replace_payload order.id replacement_order_id order.venue_ref_id order.symbol reason
            order.status order.venue)
        ∷ [];
  })

  unfoldable pub apply_event :
      ManagedOrder → LifecycleEvent → String → Result LifecycleResult LifecycleError
  unfolding apply_fill apply_cancel apply_expiry apply_replace
  apply_event order (fill_applied fill) now = ok (apply_fill order fill now)
  apply_event order (cancel_requested reason timestamp) now =
      ok (apply_cancel order reason timestamp)
  apply_event order (expiry reason timestamp) now = ok (apply_expiry order reason timestamp)
  apply_event order (replace_requested by reason timestamp) now =
      ok (apply_replace order by reason timestamp)
  apply_event order (unrecognised type) now = err (record {
    code = "engine.invalid_lifecycle_event";
    message = str_append "Unknown lifecycle event type: " type;
  })
