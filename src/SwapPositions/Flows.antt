-- ===== src/SwapPositions/Flows.antt =====
-- The deltas of packages/engine/src/swap-position-tracker.ts are the flows of the swaps.
use text.Mathlib.TextEquality.{eq_iff}
use traderton.Prelude.{
  String, str_eq, ◌≡◌, refl, sym, ap, ◌∙◌, List, [], ◌∷◌, none, some, if◌then◌else◌, arith, inl,
  inr, Bool-cases, Option-cases,
}
use traderton.Prelude.JsMap.{get, set, get-set}
use traderton.Decimal.{DecimalLib, Quantity, decimal, plus, minus, neg}
use traderton.Decimal.Laws.{Exact}
use traderton.Decimal.Sums.{zero-plus, neg-zero}
use traderton.SwapPositions.{
  SwapAssetProjection, SwapFill, Projections, record_input, record_output, record_swap_fill,
  record_swap_fills, get_projected_balance_delta,
}

module _ ⦃lib : DecimalLib⦄ where
  -- What a swap adds to the balance of an asset: its output, less its input.
  abbrev pub flow : String → SwapFill → Quantity
  flow asset f =
      minus (if str_eq f.output_asset asset then f.output_amount else decimal 0)
        (if str_eq f.input_asset asset then f.input_amount else decimal 0)

  abbrev pub net_flow : String → List SwapFill → Quantity
  net_flow asset [] = decimal 0
  net_flow asset (f ∷ fs) = plus (flow asset f) (net_flow asset fs)

module _ ⦃lib : DecimalLib⦄ ⦃ex : Exact⦄ where
  minus-zero : (a : Quantity) → minus a (decimal 0) ≡ a
  minus-zero a = rw (ex.minus_lem a (decimal 0), neg-zero) (ex.plus-zero a)

  delta-set :
      (k asset : String) (p : SwapAssetProjection) (m : Projections)
      → get_projected_balance_delta (set k p m) asset ≡ (
          if str_eq k asset then p.projected_balance_delta else get_projected_balance_delta m asset)
  unfolding get_projected_balance_delta
  delta-set k asset p m = elim (Bool-cases (str_eq k asset)) [
    | inl same ↦ ground (arith, get-set k asset p m)
    | inr other ↦ ground (arith, get-set k asset p m)
  ]

  delta_of_absent :
      (m : Projections) (asset : String)
      → get asset m ≡ none
      → get_projected_balance_delta m asset ≡ decimal 0
  unfolding get_projected_balance_delta
  delta_of_absent m asset absent = rw (get_projected_balance_delta, absent) refl

  delta_of_found :
      (m : Projections) (asset : String) (p : SwapAssetProjection)
      → get asset m ≡ some p
      → get_projected_balance_delta m asset ≡ p.projected_balance_delta
  unfolding get_projected_balance_delta
  delta_of_found m asset p found = rw (get_projected_balance_delta, found) refl

  delta-record_input :
      (m : Projections) (f : SwapFill) (asset : String)
      → get_projected_balance_delta (record_input m f) asset
        ≡ minus
            (get_projected_balance_delta m asset)
            (if str_eq f.input_asset asset then f.input_amount else decimal 0)
  unfolding record_input
  delta-record_input m f asset = elim (Bool-cases (str_eq f.input_asset asset)) [
    | inl same ↦
        delta-set _ asset _ m
        ∙ rw (same, ← (eq_iff f.input_asset asset).0 same)
            (elim (Option-cases (get f.input_asset m)) [
              | inl absent ↦
                  rw (absent, delta_of_absent m f.input_asset absent)
                    (ex.copy_lem _
                      ∙ ap neg (ex.copy_lem f.input_amount)
                      ∙ sym (zero-plus (neg f.input_amount))
                      ∙ sym (ex.minus_lem (decimal 0) f.input_amount))
              | inr (p, found) ↦ rw (found, delta_of_found m f.input_asset p found) (ex.copy_lem _)
            ])
    | inr other ↦
        delta-set _ asset _ m ∙ rw other (sym (minus-zero (get_projected_balance_delta m asset)))
  ]

  delta-record_output :
      (m : Projections) (f : SwapFill) (asset : String)
      → get_projected_balance_delta (record_output m f) asset
        ≡ plus
            (get_projected_balance_delta m asset)
            (if str_eq f.output_asset asset then f.output_amount else decimal 0)
  unfolding record_output
  delta-record_output m f asset = elim (Bool-cases (str_eq f.output_asset asset)) [
    | inl same ↦
        delta-set _ asset _ m
        ∙ rw (same, ← (eq_iff f.output_asset asset).0 same)
            (elim (Option-cases (get f.output_asset m)) [
              | inl absent ↦
                  rw (absent, delta_of_absent m f.output_asset absent)
                    (ex.copy_lem f.output_amount ∙ sym (zero-plus f.output_amount))
              | inr (p, found) ↦ rw (found, delta_of_found m f.output_asset p found) refl
            ])
    | inr other ↦
        delta-set _ asset _ m ∙ rw other (sym (ex.plus-zero (get_projected_balance_delta m asset)))
  ]

  delta-record_swap_fill :
      (m : Projections) (f : SwapFill) (asset : String)
      → get_projected_balance_delta (record_swap_fill m f) asset
        ≡ plus (get_projected_balance_delta m asset) (flow asset f)
  unfolding record_swap_fill
  delta-record_swap_fill m f asset =
      let input = if str_eq f.input_asset asset then f.input_amount else decimal 0 in
      let output = if str_eq f.output_asset asset then f.output_amount else decimal 0 in
      let before = get_projected_balance_delta m asset in
      rw
        (
          delta-record_output (record_input m f) f asset,
          delta-record_input m f asset,
          ex.minus_lem before input,
          ex.minus_lem output input,
          ex.plus_assoc before (neg input) output,
          ex.plus_comm (neg input) output,
        )
        refl

  -- After any swaps, the delta of an asset is what it was before and what the swaps brought of it,
  -- less what they spent of it, a swap of an asset into itself included.
  pub delta-record_swap_fills :
      (fs : List SwapFill) (m : Projections) (asset : String)
      → get_projected_balance_delta (record_swap_fills m fs) asset
        ≡ plus (get_projected_balance_delta m asset) (net_flow asset fs)
  unfolding record_swap_fills
  delta-record_swap_fills [] m asset = sym (ex.plus-zero (get_projected_balance_delta m asset))
  delta-record_swap_fills (f ∷ fs) m asset =
      delta-record_swap_fills fs (record_swap_fill m f) asset
      ∙ ap (λ d. plus d (net_flow asset fs)) (delta-record_swap_fill m f asset)
      ∙ ex.plus_assoc (get_projected_balance_delta m asset) (flow asset f) (net_flow asset fs)
