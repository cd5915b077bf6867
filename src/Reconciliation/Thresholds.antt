-- ===== src/Reconciliation/Thresholds.antt =====
-- The classification of diffs in packages/engine/src/reconciliation/reconcile.ts.
use traderton.Prelude.{
  String, Bool, true, false, ◌&&◌, Option, none, some, map, any, get_or, if◌then◌else◌,
}
use traderton.Decimal.{DecimalLib, Quantity, decimal, minus, abs, copy, lte, gt}
use traderton.Reconciliation.State.{
  Diff, DiffSeverity, DriftCategory, DriftThresholds, LocalState, ReconciliationResult,
  ReconciliationStatus, Shown, VenueAccountingMode, VenueState, a_position, a_total, acceptable,
  authoritative, balance_mismatch, critical, drift_detected, drift_within_threshold, matching,
  observational, observed_balance_variance, open_order_drift, orphaned_order, position_mismatch,
  position_size_drift, same_side, unknown_fill,
}
use traderton.Reconciliation.Compare.{reconcile}

module _ ⦃lib : DecimalLib⦄ where
  unfoldable pub classify_diff_severity : Diff → Quantity → Quantity → DiffSeverity
  classify_diff_severity d pos_threshold bal_threshold = elim d.type [
    | position_mismatch ↦
        if gt pos_threshold (decimal 0) && is_within d.on_local d.on_venue
        then acceptable
        else critical
    | balance_mismatch ↦
        if gt bal_threshold (decimal 0)
          && lte (abs (minus (total_of d.on_local) (total_of d.on_venue))) bal_threshold
        then acceptable
        else critical
    | unknown_fill ↦ critical
    | orphaned_order ↦ critical
  ]
    where
      is_within : Shown → Shown → Bool
      is_within (a_position side size) (a_position side' size') =
          same_side side side' && lte (abs (minus (copy size) (copy size'))) pos_threshold
      is_within _ _ = false

      total_of : Shown → Quantity
      total_of (a_total total) = copy total
      total_of _ = decimal 0

  unfoldable pub classify_drift_category : Diff → VenueAccountingMode → Option DriftCategory
  classify_drift_category d mode = elim d.type [
    | position_mismatch ↦ if is_same d.on_local d.on_venue then some position_size_drift else none
    | orphaned_order ↦ some open_order_drift
    | balance_mismatch ↦ elim mode [
      | observational ↦ some observed_balance_variance
      | authoritative ↦ none
    ]
    | unknown_fill ↦ none
  ]
    where
      is_same : Shown → Shown → Bool
      is_same (a_position side size) (a_position side' size') = same_side side side'
      is_same _ _ = false

  abbrev pub is_critical : Option DiffSeverity → Bool
  is_critical (some critical) = true
  is_critical _ = false

  unfoldable pub classify : DriftThresholds → Diff → Diff
  classify thresholds d = record d {
    severity = some (
        classify_diff_severity d (get_or thresholds.position_size (decimal 0))
          (get_or thresholds.balance (decimal 0)));
    category = classify_drift_category d (get_or thresholds.venue_accounting_mode observational);
  }

  abbrev pub is_match : ReconciliationStatus → Bool
  is_match matching = true
  is_match _ = false

  unfoldable pub reconcile_with_thresholds :
      LocalState → VenueState → DriftThresholds → String → ReconciliationResult
  reconcile_with_thresholds local venue thresholds now =
      let base = reconcile local venue now in
      let diffs = map (classify thresholds) base.diffs in
      if is_match base.status then base else record {
        status =
            if any (λ x. is_critical x.severity) diffs
            then drift_detected
            else drift_within_threshold;
        diffs = diffs;
        reconciled_at = base.reconciled_at;
      }
