-- ===== src/OrderUpdate.antt =====
-- packages/engine/src/order-update-decision.ts and packages/domain/src/trading/venue-capability.ts:
-- how a resting order is changed at a venue, and what a venue can do. An error is its code.
pub mod Decisions
use traderton.Prelude.{
  String, Bool, true, false, ◌&&◌, not, List, Option, none, some, if◌then◌else◌, any,
}
use traderton.Decimal.{DecimalLib, Price, Quantity}
use traderton.Result.{Result, ok, err}
use traderton.Order.{OrderSide, TimeInForce, gtc, ioc, fok, po}

pub record VenueCapabilities : Type 0 where
  pub limit_order_submission : Bool
  pub amend_in_place : Bool
  pub cancel_and_replace : Bool
  pub post_only : Bool
  pub reduce_only : Bool
  pub supported_time_in_force : List TimeInForce
  pub supports_client_order_id : Bool
  pub supports_lookup_by_client_order_id : Bool
  pub supports_lookup_by_venue_ref_id : Bool

pub data VenueCapabilityError : Type 0 where
  limit_order_not_supported amend_not_supported cancel_replace_not_supported : VenueCapabilityError
  post_only_not_supported reduce_only_not_supported : VenueCapabilityError
  time_in_force_not_supported : VenueCapabilityError

abbrev pub same_time_in_force : TimeInForce → TimeInForce → Bool
same_time_in_force gtc gtc = true
same_time_in_force ioc ioc = true
same_time_in_force fok fok = true
same_time_in_force po po = true
same_time_in_force _ _ = false

-- `supportedTimeInForce.includes(t)`
abbrev pub supports : VenueCapabilities → TimeInForce → Bool
supports c t = any (same_time_in_force t) c.supported_time_in_force

abbrev pub require : Bool → VenueCapabilityError → Result (Unit {0}) VenueCapabilityError
require true e = ok tt
require false e = err e

unfoldable pub validate_time_in_force :
    VenueCapabilities → TimeInForce → Result (Unit {0}) VenueCapabilityError
validate_time_in_force c t = require (supports c t) time_in_force_not_supported

unfoldable pub validate_amend_in_place : VenueCapabilities → Result (Unit {0}) VenueCapabilityError
validate_amend_in_place c = require c.amend_in_place amend_not_supported

unfoldable pub validate_cancel_and_replace :
    VenueCapabilities → Result (Unit {0}) VenueCapabilityError
validate_cancel_and_replace c = require c.cancel_and_replace cancel_replace_not_supported

unfoldable pub validate_post_only : VenueCapabilities → Result (Unit {0}) VenueCapabilityError
validate_post_only c = require c.post_only post_only_not_supported

unfoldable pub validate_reduce_only : VenueCapabilities → Result (Unit {0}) VenueCapabilityError
validate_reduce_only c = require c.reduce_only reduce_only_not_supported

pub record OrderAttributeFlags : Type 0 where
  pub time_in_force : Option TimeInForce
  pub post_only : Option Bool
  pub reduce_only : Option Bool

-- An optional flag in a condition.
abbrev pub is_set : Option Bool → Bool
is_set (some true) = true
is_set _ = false

-- `if (wanted) { const result = …; if (!result.ok) return result; }`
abbrev pub when_wanted :
    Bool
    → Result (Unit {0}) VenueCapabilityError
    → Result (Unit {0}) VenueCapabilityError
    → Result (Unit {0}) VenueCapabilityError
when_wanted false result rest = rest
when_wanted true (ok tt) rest = rest
when_wanted true (err e) rest = err e

unfoldable pub validate_order_attributes :
    VenueCapabilities → OrderAttributeFlags → Result (Unit {0}) VenueCapabilityError
validate_order_attributes c f =
    let rest =
      when_wanted (is_set f.post_only) (validate_post_only c)
        (when_wanted (is_set f.reduce_only) (validate_reduce_only c) (ok tt)) in
    elim f.time_in_force [
      | none ↦ rest
      | some t ↦ when_wanted true (validate_time_in_force c t) rest
    ]

pub data RejectReason : Type 0 where
  no_limit_orders no_post_only no_reduce_only : RejectReason
  no_time_in_force : TimeInForce → RejectReason
  no_amend_or_replace : RejectReason

module _ ⦃lib : DecimalLib⦄ where
  pub record OrderUpdateRequest : Type 0 where
    pub order_id : String
    pub venue_ref_id : String
    pub symbol : String
    pub side : OrderSide
    pub new_price : Option Price
    pub new_quantity : Option Quantity
    pub time_in_force : Option TimeInForce
    pub post_only : Option Bool
    pub reduce_only : Option Bool
    pub reason : String

  pub data OrderUpdateAction : Type 0 where
    amend_in_place :
        (order_id venue_ref_id symbol : String) → Option Price → Option Quantity → OrderUpdateAction
    cancel_and_replace :
        (cancel_order_id venue_ref_id symbol : String) → OrderUpdateRequest → OrderUpdateAction
    reject_unsupported : (order_id : String) → RejectReason → OrderUpdateAction

  abbrev pub choose : OrderUpdateRequest → VenueCapabilities → OrderUpdateAction
  choose r c =
      if c.amend_in_place
      then amend_in_place r.order_id r.venue_ref_id r.symbol r.new_price r.new_quantity
      else if c.cancel_and_replace
      then cancel_and_replace r.order_id r.venue_ref_id r.symbol r
      else reject_unsupported r.order_id no_amend_or_replace

  unfoldable pub decide_order_update_action :
      OrderUpdateRequest → VenueCapabilities → OrderUpdateAction
  decide_order_update_action r c =
      if not c.limit_order_submission
      then reject_unsupported r.order_id no_limit_orders
      else if is_set r.post_only && not c.post_only
      then reject_unsupported r.order_id no_post_only
      else if is_set r.reduce_only && not c.reduce_only
      then reject_unsupported r.order_id no_reduce_only
      else elim r.time_in_force [
        | none ↦ choose r c
        | some t ↦
            if not (supports c t)
            then reject_unsupported r.order_id (no_time_in_force t)
            else choose r c
      ]
