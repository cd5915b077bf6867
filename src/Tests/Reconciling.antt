-- ===== src/Tests/Reconciling.antt =====
-- Runs of packages/engine/src/reconciliation/reconcile.ts.
use traderton.Prelude.{◌≡◌, refl, ℕ, String, [], ◌∷◌, none, some, is_some, All}
use traderton.Prelude.JsMap.{get, set}
use traderton.Prelude.Int.{pos, ◌-ℤ◌}
use traderton.Decimal.Integers.{whole_numbers, whole_numbers-Exact}
use traderton.Position.{long}
use traderton.Planner.{VenuePosition}
use traderton.Reconciliation.State.{
  LocalPosition, LocalState, VenueState, DriftThresholds, drift_within_threshold,
}
use traderton.Reconciliation.Compare.{
  reconcile_positions, held_by_symbol, check_local_positions, compare_position, reconcile,
  all_diffs, reconcile_balances, check_local_balances, totals_by_asset, reconcile_fills,
  reconcile_orders,
}
use traderton.Reconciliation.Thresholds.{
  reconcile_with_thresholds, classify, classify_diff_severity, classify_drift_category,
}
use traderton.Reconciliation.Positions.{IsMet, holds, reconcile_positions_lem}

abbrev local_long : ℕ → LocalPosition
local_long n = record { symbol = "BTC"; side = long; size = pos n; entry_price = pos 10 }

abbrev venue_long : ℕ → VenuePosition
venue_long n = record { symbol = "BTC"; side = long; size = pos n; entry_price = pos 10 }

no_diffs : reconcile_positions (local_long 5 ∷ []) (venue_long 5 ∷ []) ≡ []
unfolding reconcile_positions held_by_symbol check_local_positions compare_position get set ◌-ℤ◌
no_diffs = refl

reconcile_positions_lem_example :
    All (IsMet (held_by_symbol (venue_long 5 ∷ []) [])) (local_long 5 ∷ [])
    × ((s : String)
        → is_some (get s (held_by_symbol (venue_long 5 ∷ []) [])) ≡ holds (local_long 5 ∷ []) s)
reconcile_positions_lem_example =
    reconcile_positions_lem (local_long 5 ∷ []) (venue_long 5 ∷ []) no_diffs

abbrev local : LocalState
local = record { positions = local_long 5 ∷ []; balances = []; recent_fills = []; open_orders = [] }

abbrev venue : VenueState
venue = record { positions = venue_long 6 ∷ []; balances = []; recent_fills = []; open_orders = [] }

abbrev thresholds : DriftThresholds
thresholds = record { position_size = some (pos 2); balance = none; venue_accounting_mode = none }

tolerated : (reconcile_with_thresholds local venue thresholds "t").status ≡ drift_within_threshold
unfolding reconcile_with_thresholds reconcile all_diffs reconcile_positions held_by_symbol
    check_local_positions compare_position reconcile_balances check_local_balances totals_by_asset
    reconcile_fills reconcile_orders classify classify_diff_severity classify_drift_category get set
    ◌-ℤ◌
tolerated = refl
