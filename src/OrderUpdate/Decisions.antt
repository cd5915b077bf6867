-- ===== src/OrderUpdate/Decisions.antt =====
-- How packages/engine/src/order-update-decision.ts agrees with the validator of
-- packages/domain/src/trading/venue-capability.ts.
use traderton.Prelude.{Bool, true, false, ◌||◌, ◌≡◌, ◌↔◌, arith, inl, inr, Option-cases}
use traderton.Decimal.{DecimalLib}
use traderton.Result.{ok}
use traderton.OrderUpdate.{
  VenueCapabilities, OrderAttributeFlags, OrderUpdateRequest, OrderUpdateAction, reject_unsupported,
  decide_order_update_action, validate_order_attributes, validate_time_in_force, validate_post_only,
  validate_reduce_only,
}

module _ ⦃lib : DecimalLib⦄ where
  abbrev pub is_rejected : OrderUpdateAction → Bool
  is_rejected (reject_unsupported id reason) = true
  is_rejected _ = false

  abbrev pub flags_of : OrderUpdateRequest → OrderAttributeFlags
  flags_of r = record {
    time_in_force = r.time_in_force;
    post_only = r.post_only;
    reduce_only = r.reduce_only;
  }

  -- An update is carried out exactly when the venue takes limit orders, the validator accepts the
  -- order's attributes, and the venue can amend an order or replace it.
  pub decide_order_update_action_iff :
      (r : OrderUpdateRequest) (c : VenueCapabilities)
      → (is_rejected (decide_order_update_action r c) ≡ false) ↔ (
          (c.limit_order_submission ≡ true)
          × (validate_order_attributes c (flags_of r) ≡ ok tt)
          × ((c.amend_in_place || c.cancel_and_replace) ≡ true))
  unfolding decide_order_update_action validate_order_attributes validate_time_in_force
      validate_post_only validate_reduce_only
  decide_order_update_action_iff r c = elim (Option-cases r.time_in_force) [
    | inl unset ↦ (λ h. ground arith, λ h. ground arith)
    | inr (t, named) ↦ (λ h. ground arith, λ h. ground arith)
  ]
