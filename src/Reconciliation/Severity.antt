-- ===== src/Reconciliation/Severity.antt =====
-- The thresholds of packages/engine/src/reconciliation/reconcile.ts.
use traderton.Prelude.{
  String, Bool, true, false, List, [], ◌∷◌, ◌++◌, map, any, get_or, ◌≡◌, refl, arith, All,
  Bool-cases, inl, inr,
}
use traderton.Decimal.{DecimalLib, decimal}
use traderton.Reconciliation.State.{
  Diff, DiffType, unknown_fill, orphaned_order, DiffSeverity, critical, LocalState, VenueState,
  DriftThresholds, drift_within_threshold,
}
use traderton.Reconciliation.Compare.{
  all_diffs, reconcile, reconcile_fills, reconcile_orders, reconcile_positions, reconcile_balances,
  status_of,
}
use traderton.Reconciliation.Thresholds.{
  is_critical, is_match, classify, classify_diff_severity, reconcile_with_thresholds,
}

All-append {ℓ κ} :
    {A : Type ℓ} (P : A → Type κ) (xs ys : List A) → All P (xs ++ ys) → All P xs × All P ys
All-append P [] ys a = (tt, a)
All-append P (x ∷ xs) ys (p, a) = let (front, back) = All-append P xs ys a in ((p, front), back)

module _ ⦃lib : DecimalLib⦄ where
  abbrev pub severity_in : DriftThresholds → Diff → DiffSeverity
  severity_in t d =
      classify_diff_severity d (get_or t.position_size (decimal 0)) (get_or t.balance (decimal 0))

  -- A fill or an order that is not tracked.
  abbrev pub is_untracked : DiffType → Bool
  is_untracked unknown_fill = true
  is_untracked orphaned_order = true
  is_untracked _ = false

  untracked_is_critical :
      (t : DriftThresholds) (d : Diff) → is_untracked d.type ≡ true → severity_in t d ≡ critical
  unfolding classify_diff_severity
  untracked_is_critical t d h = ground (arith, h)

  none_critical :
      (t : DriftThresholds) (ds : List Diff)
      → any (λ x. is_critical x.severity) (map (classify t) ds) ≡ false
      → All (λ d. is_untracked d.type ≡ false) ds
  unfolding classify
  none_critical t [] h = tt
  none_critical t (d ∷ ds) h =
      (ground (arith, h, untracked_is_critical t d), none_critical t ds (ground (arith, h)))

  none_untracked :
      {A : Type 0} (f : A → Diff) (xs : List A)
      → ((x : A) → is_untracked (f x).type ≡ true)
      → All (λ d. is_untracked d.type ≡ false) (map f xs)
      → map f xs ≡ []
  none_untracked f [] h a = refl
  none_untracked f (x ∷ xs) h a = ground (arith, h x, a.0)

  status_of-tolerated : (ds : List Diff) → ¬ (status_of ds ≡ drift_within_threshold)
  status_of-tolerated [] h = ground (arith, h)
  status_of-tolerated (d ∷ ds) h = ground (arith, h)

  tolerated_diffs :
      (local : LocalState) (venue : VenueState) (t : DriftThresholds) (now : String)
      → (reconcile_with_thresholds local venue t now).status ≡ drift_within_threshold
      → All (λ d. is_untracked d.type ≡ false) (all_diffs local venue)
  unfolding reconcile_with_thresholds reconcile
  tolerated_diffs local venue t now h =
      elim (Bool-cases (is_match (status_of (all_diffs local venue)))) [
        | inl same ↦ absurd (status_of-tolerated (all_diffs local venue) (ground (arith, h, same)))
        | inr differs ↦ none_critical t (all_diffs local venue) (ground (arith, h, differs))
      ]

  -- Drift is tolerated only when the venue has no fill and no order that is not tracked locally.
  pub tolerated_drift_is_tracked :
      (local : LocalState) (venue : VenueState) (t : DriftThresholds) (now : String)
      → (reconcile_with_thresholds local venue t now).status ≡ drift_within_threshold
      → (reconcile_fills local.recent_fills venue.recent_fills ≡ [])
        × (reconcile_orders local.open_orders venue.open_orders ≡ [])
  unfolding all_diffs reconcile_fills reconcile_orders
  tolerated_drift_is_tracked local venue t now h =
      let positions = reconcile_positions local.positions venue.positions in
      let balances = reconcile_balances local.balances venue.balances in
      let fills = reconcile_fills local.recent_fills venue.recent_fills in
      let orders = reconcile_orders local.open_orders venue.open_orders in
      let rest =
        (All-append _ balances (fills ++ orders)
          (All-append _ positions (balances ++ (fills ++ orders))
            (tolerated_diffs local venue t now h)).1).1 in
      (
        none_untracked _ _ (λ f. refl) (All-append _ fills orders rest).0,
        none_untracked _ _ (λ o. refl) (All-append _ fills orders rest).1,
      )
