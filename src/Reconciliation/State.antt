-- ===== src/Reconciliation/State.antt =====
-- The states and diffs of packages/engine/src/reconciliation/reconcile.ts. A diff keeps the compared
-- values as decimals and not as their text, and leaves its description out. Of a venue's fills,
-- orders and balances, the fields are those that are read.
use traderton.Prelude.{String, Bool, true, false, List, Option, none, some}
use traderton.Decimal.{DecimalLib, Price, Quantity, decimal, minus, div, abs, lte}
use traderton.Order.{OrderSide}
use traderton.Position.{PositionSide, long, short, flat}
use traderton.Planner.{VenuePosition}

pub data ReconciliationStatus : Type 0 where
  matching drift_detected drift_within_threshold observed_variance : ReconciliationStatus

pub data DiffType : Type 0 where
  position_mismatch balance_mismatch unknown_fill orphaned_order : DiffType

pub data DiffSeverity : Type 0 where
  critical acceptable : DiffSeverity

pub data DriftCategory : Type 0 where
  fee_funding_adjustment observed_balance_variance open_order_drift : DriftCategory
  position_size_drift : DriftCategory

pub data VenueAccountingMode : Type 0 where
  authoritative observational : VenueAccountingMode

abbrev pub same_side : PositionSide → PositionSide → Bool
same_side long long = true
same_side short short = true
same_side flat flat = true
same_side _ _ = false

module _ ⦃lib : DecimalLib⦄ where
  pub record LocalPosition : Type 0 where
    pub symbol : String
    pub side : PositionSide
    pub size : Quantity
    pub entry_price : Price

  pub record LocalBalance : Type 0 where
    pub asset : String
    pub total : Quantity

  pub record LocalFill : Type 0 where
    pub venue_ref_id : Option String
    pub symbol : String
    pub side : OrderSide
    pub quantity : Quantity
    pub price : Price
    pub filled_at : String

  pub record LocalOrder : Type 0 where
    pub venue_ref_id : Option String
    pub symbol : String
    pub side : OrderSide
    pub type : String
    pub status : String
    pub quantity : Quantity
    pub price : Option Price

  pub record VenueFill : Type 0 where
    pub venue_ref_id : String
    pub symbol : String
    pub side : OrderSide
    pub quantity : Quantity
    pub price : Price
    pub filled_at : String

  pub record VenueOrder : Type 0 where
    pub venue_ref_id : String
    pub symbol : String
    pub side : OrderSide
    pub type : String
    pub quantity : Quantity
    pub price : Option Price

  pub record LocalState : Type 0 where
    pub positions : List LocalPosition
    pub balances : List LocalBalance
    pub recent_fills : List LocalFill
    pub open_orders : List LocalOrder

  pub record VenueState : Type 0 where
    pub positions : List VenuePosition
    pub balances : List LocalBalance
    pub recent_fills : List VenueFill
    pub open_orders : List VenueOrder

  -- What a diff shows of one side: `null`, a position, a total, a fill or an order.
  pub data Shown : Type 0 where
    absent : Shown
    a_position : PositionSide → Quantity → Shown
    a_total : Quantity → Shown
    a_fill : VenueFill → Shown
    an_order : VenueOrder → Shown

  pub record Diff : Type 0 where
    pub type : DiffType
    pub symbol : Option String
    pub asset : Option String
    pub on_local : Shown
    pub on_venue : Shown
    pub severity : Option DiffSeverity
    pub category : Option DriftCategory

  pub record ReconciliationResult : Type 0 where
    pub status : ReconciliationStatus
    pub diffs : List Diff
    pub reconciled_at : String

  pub record DriftThresholds : Type 0 where
    pub position_size : Option Quantity
    pub balance : Option Quantity
    pub venue_accounting_mode : Option VenueAccountingMode

  -- 0.0000001
  abbrev pub default_tolerance : Quantity
  default_tolerance = div (decimal 1) (decimal 10000000)

  abbrev pub is_close : Quantity → Quantity → Bool
  is_close a b = lte (abs (minus a b)) default_tolerance

  abbrev pub diff : DiffType → Option String → Option String → Shown → Shown → Diff
  diff type symbol asset on_local on_venue = record {
    type = type;
    symbol = symbol;
    asset = asset;
    on_local = on_local;
    on_venue = on_venue;
    severity = none;
    category = none;
  }

  abbrev pub position_diff : String → Shown → Shown → Diff
  position_diff symbol = diff position_mismatch (some symbol) none
