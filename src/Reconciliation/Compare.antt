-- ===== src/Reconciliation/Compare.antt =====
-- The comparison of packages/engine/src/reconciliation/reconcile.ts: positions, balances, fills, orders.
use traderton.Prelude.{
  String, str_eq, Bool, false, not, ◌&&◌, List, [], ◌∷◌, ◌++◌, Option, none, some, map, any, filter,
  if◌then◌else◌, keep_if,
}
use traderton.Prelude.JsMap.{get, set}
use traderton.Decimal.{DecimalLib, Quantity, decimal, copy, gt}
use traderton.Position.{is_flat}
use traderton.Planner.{VenuePosition}
use traderton.Reconciliation.State.{
  Diff, LocalBalance, LocalFill, LocalOrder, LocalPosition, LocalState, ReconciliationResult,
  ReconciliationStatus, VenueFill, VenueOrder, VenueState, a_fill, a_position, a_total, absent,
  an_order, balance_mismatch, default_tolerance, diff, drift_detected, is_close, matching,
  orphaned_order, position_diff, same_side, unknown_fill,
}

module _ {ℓ} {V : Type ℓ} where
  -- `map.delete(k)`
  abbrev pub delete : String → List (String × V) → List (String × V)
  delete k [] = []
  delete k ((j, v) ∷ m) = if str_eq j k then delete k m else (j, v) ∷ delete k m

module _ ⦃lib : DecimalLib⦄ where
  unfoldable pub held_by_symbol :
      List VenuePosition → List (String × VenuePosition) → List (String × VenuePosition)
  held_by_symbol [] m = m
  held_by_symbol (p ∷ ps) m = held_by_symbol ps (if is_flat p.side then m else set p.symbol p m)

  -- A local position against the venue's of the same symbol.
  unfoldable pub compare_position : LocalPosition → VenuePosition → List Diff → List Diff
  compare_position lp vp rest =
      if same_side lp.side vp.side && is_close lp.size vp.size
      then rest
      else position_diff lp.symbol (a_position lp.side lp.size) (a_position vp.side vp.size) ∷ rest

  -- The loop over the local positions, which takes the met ones out of the map.
  unfoldable pub check_local_positions :
      List LocalPosition → List (String × VenuePosition) → List Diff × List (String × VenuePosition)
  check_local_positions [] m = ([], m)
  check_local_positions (lp ∷ lps) m =
      if is_flat lp.side then check_local_positions lps m else elim (get lp.symbol m) [
        | none ↦
            let rest = check_local_positions lps m in
            (position_diff lp.symbol (a_position lp.side lp.size) absent ∷ rest.0, rest.1)
        | some vp ↦
            let rest = check_local_positions lps (delete lp.symbol m) in
            (compare_position lp vp rest.0, rest.1)
      ]

  abbrev pub left_over : String × VenuePosition → Diff
  left_over (symbol, vp) = position_diff symbol absent (a_position vp.side vp.size)

  unfoldable pub reconcile_positions : List LocalPosition → List VenuePosition → List Diff
  reconcile_positions local venue =
      let (diffs, rest) = check_local_positions local (held_by_symbol venue []) in
      diffs ++ map left_over rest

  unfoldable pub totals_by_asset :
      List LocalBalance → List (String × Quantity) → List (String × Quantity)
  totals_by_asset [] m = m
  totals_by_asset (b ∷ bs) m =
      totals_by_asset bs (if gt (copy b.total) (decimal 0) then set b.asset (copy b.total) m else m)

  abbrev pub balance_diff : String → Quantity → Quantity → Diff
  balance_diff asset on_local on_venue =
      diff balance_mismatch none (some asset) (a_total on_local) (a_total on_venue)

  unfoldable pub check_local_balances :
      List LocalBalance → List (String × Quantity) → List Diff × List (String × Quantity)
  check_local_balances [] m = ([], m)
  check_local_balances (b ∷ bs) m = elim (get b.asset m) [
    | none ↦
        let rest = check_local_balances bs m in
        (
          keep_if (gt (copy b.total) default_tolerance)
              (balance_diff b.asset (copy b.total) (decimal 0)) rest.0,
          rest.1,
        )
    | some total ↦
        let rest = check_local_balances bs (delete b.asset m) in
        (
          keep_if (not (is_close (copy b.total) total)) (balance_diff b.asset (copy b.total) total)
              rest.0,
          rest.1,
        )
  ]

  unfoldable pub reconcile_balances : List LocalBalance → List LocalBalance → List Diff
  reconcile_balances local venue =
      let (diffs, rest) = check_local_balances local (totals_by_asset venue []) in
      diffs
      ++ map (λ e. balance_diff e.0 (decimal 0) e.1) (filter (λ e. gt e.1 default_tolerance) rest)

  -- `localRefIds.has(ref)`; an empty reference is not one.
  abbrev pub is_ref : String → Option String → Bool
  is_ref ref none = false
  is_ref ref (some r) = not (str_eq r "") && str_eq r ref

  unfoldable pub reconcile_fills : List LocalFill → List VenueFill → List Diff
  reconcile_fills local venue =
      map (λ f. diff unknown_fill (some f.symbol) none absent (a_fill f))
        (filter (λ f. not (any (λ l. is_ref f.venue_ref_id l.venue_ref_id) local)) venue)

  unfoldable pub reconcile_orders : List LocalOrder → List VenueOrder → List Diff
  reconcile_orders local venue =
      map (λ o. diff orphaned_order (some o.symbol) none absent (an_order o))
        (filter (λ o. not (any (λ l. is_ref o.venue_ref_id l.venue_ref_id) local)) venue)

  unfoldable pub all_diffs : LocalState → VenueState → List Diff
  all_diffs local venue =
      reconcile_positions local.positions venue.positions
      ++ (reconcile_balances local.balances venue.balances
          ++ (reconcile_fills local.recent_fills venue.recent_fills
              ++ reconcile_orders local.open_orders venue.open_orders))

  abbrev pub status_of : List Diff → ReconciliationStatus
  status_of [] = matching
  status_of (d ∷ ds) = drift_detected

  unfoldable pub reconcile : LocalState → VenueState → String → ReconciliationResult
  reconcile local venue now =
      let diffs = all_diffs local venue in
      record { status = status_of diffs; diffs = diffs; reconciled_at = now }
