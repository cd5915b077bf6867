-- ===== src/OrderManager/Operations.antt =====
-- packages/engine/src/order-manager.ts: `acknowledge`, `cancel`, `reject`, `expire`, `replace`.
use traderton.Prelude.{String, Bool, true, false, Option, none, some, if◌then◌else◌, get_or}
use traderton.Decimal.{DecimalLib}
use traderton.Order.{
  «open», cancelled, expired, replaced, rejected, LiveSubmissionState, venue_acknowledged, terminal,
  ManagedOrder,
}
use traderton.OrderManager.State.{OrderManager, Outcome, record_transition, transition_to}

abbrev pub is_acknowledged : Option LiveSubmissionState → Bool
is_acknowledged (some venue_acknowledged) = true
is_acknowledged _ = false

module _ ⦃lib : DecimalLib⦄ where
  -- Venue acknowledged the order.
  unfoldable pub acknowledged_order : String → String → ManagedOrder → ManagedOrder
  unfolding record_transition
  acknowledged_order venue_ref_id now order =
      record (record_transition order «open» "venue acknowledged" none none now) {
        status = «open»;
        venue_ref_id = some venue_ref_id;
        updated_at = now;
      }

  unfoldable pub acknowledge : OrderManager → String → String → String → Outcome ManagedOrder
  unfolding transition_to
  acknowledge m id venue_ref_id now =
      transition_to m id «open» (acknowledged_order venue_ref_id now)

  unfoldable pub cancelled_order : String → ManagedOrder → ManagedOrder
  unfolding record_transition
  cancelled_order now order =
      record (record_transition order cancelled "order cancelled" none none now) {
        status = cancelled;
        updated_at = now;
      }

  unfoldable pub cancel : OrderManager → String → String → Outcome ManagedOrder
  unfolding transition_to
  cancel m id now = transition_to m id cancelled (cancelled_order now)

  unfoldable pub rejected_order : Option String → String → ManagedOrder → ManagedOrder
  unfolding record_transition
  rejected_order reason now order =
      record (record_transition order rejected (get_or reason "order rejected") none none now) {
        status = rejected;
        updated_at = now;
      }

  unfoldable pub reject : OrderManager → String → Option String → String → Outcome ManagedOrder
  unfolding transition_to
  reject m id reason now = transition_to m id rejected (rejected_order reason now)

  unfoldable pub expired_order : Option String → String → ManagedOrder → ManagedOrder
  unfolding record_transition
  expired_order reason now order =
      record (record_transition order expired (get_or reason "order expired") none none now) {
        status = expired;
        submission_state =
            if is_acknowledged order.submission_state
            then order.submission_state
            else some terminal;
        updated_at = now;
      }

  unfoldable pub expire : OrderManager → String → Option String → String → Outcome ManagedOrder
  unfolding transition_to
  expire m id reason now = transition_to m id expired (expired_order reason now)

  unfoldable pub replaced_order : String → Option String → String → ManagedOrder → ManagedOrder
  unfolding record_transition
  replaced_order replacement_order_id reason now order =
      record (record_transition order replaced (get_or reason "order replaced")
        (some replacement_order_id) none now) {
          status = replaced;
          submission_state = some terminal;
          updated_at = now;
        }

  unfoldable pub replace :
      OrderManager → String → String → Option String → String → Outcome ManagedOrder
  unfolding transition_to
  replace m id replacement_order_id reason now =
      transition_to m id replaced (replaced_order replacement_order_id reason now)
