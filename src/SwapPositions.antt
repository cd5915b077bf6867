-- ===== src/SwapPositions.antt =====
-- packages/engine/src/swap-position-tracker.ts: what the swaps of an account add to and take from
-- its balances. Timestamps are whole numbers; `variance_pct` stays a decimal, where the source
-- turns it into a number.
pub mod Flows
pub mod Variances
use traderton.Prelude.{
  ℕ, String, str_eq, Bool, not, List, [], ◌∷◌, ◌++◌, Option, none, some, if◌then◌else◌, filter, any,
  get_or, map,
}
use traderton.Prelude.JsMap.{get, set, keys, values}
use traderton.Decimal.{
  DecimalLib, Quantity, decimal, plus, minus, mul, div, neg, abs, copy, is_zero,
}

-- `new Set(names)`, in order of first occurrence.
unfoldable pub distinct : List String → List String → List String
distinct seen [] = []
distinct seen (a ∷ more) =
    if any (str_eq a) seen then distinct seen more else a ∷ distinct (a ∷ seen) more

module _ ⦃lib : DecimalLib⦄ where
  pub record SwapAssetProjection : Type 0 where
    pub asset : String
    pub projected_balance_delta : Quantity
    pub last_updated_ms : ℕ

  pub record SwapFill : Type 0 where
    pub input_asset : String
    pub input_amount : Quantity
    pub output_asset : String
    pub output_amount : Quantity
    pub timestamp : ℕ

  pub record SwapBalanceVariance : Type 0 where
    pub asset : String
    pub projected_balance_delta : Quantity
    pub observed_balance : Quantity
    pub variance : Quantity
    pub variance_pct : Quantity

  abbrev pub Projections : Type 0
  Projections = List (String × SwapAssetProjection)

  -- The constructor.
  unfoldable pub restore : List SwapAssetProjection → Projections → Projections
  restore [] m = m
  restore (p ∷ ps) m = restore ps (set p.asset p m)

  abbrev pub projection : String → Quantity → ℕ → SwapAssetProjection
  projection asset delta time = record {
    asset = asset;
    projected_balance_delta = delta;
    last_updated_ms = time;
  }

  unfoldable pub record_input : Projections → SwapFill → Projections
  record_input m f =
      let delta : Quantity = elim (get f.input_asset m) [
        | none ↦ neg (copy f.input_amount)
        | some p ↦ minus p.projected_balance_delta f.input_amount
      ] in
      set f.input_asset (projection f.input_asset (copy delta) f.timestamp) m

  unfoldable pub record_output : Projections → SwapFill → Projections
  record_output m f =
      let delta : Quantity = elim (get f.output_asset m) [
        | none ↦ copy f.output_amount
        | some p ↦ plus p.projected_balance_delta f.output_amount
      ] in
      set f.output_asset (projection f.output_asset delta f.timestamp) m

  -- The output's entry is read after the input's is written.
  unfoldable pub record_swap_fill : Projections → SwapFill → Projections
  record_swap_fill m f = record_output (record_input m f) f

  unfoldable pub get_asset_projections : Projections → List SwapAssetProjection
  get_asset_projections m = filter (λ p. not (is_zero p.projected_balance_delta)) (values m)

  unfoldable pub get_projected_balance_delta : Projections → String → Quantity
  get_projected_balance_delta m asset = elim (get asset m) [
    | none ↦ decimal 0
    | some p ↦ p.projected_balance_delta
  ]

  unfoldable pub variance_of :
      Projections
      → List (String × Quantity)
      → String
      → List SwapBalanceVariance
      → List SwapBalanceVariance
  unfolding get_projected_balance_delta
  variance_of m observed asset rest =
      let projected = get_projected_balance_delta m asset in
      let balance = get_or (get asset observed) (decimal 0) in
      let variance = minus balance projected in
      if is_zero variance
      then rest
      else record {
        asset = asset;
        projected_balance_delta = projected;
        observed_balance = balance;
        variance = copy variance;
        variance_pct =
            if is_zero (abs projected)
            then decimal 100
            else mul (div (abs variance) (abs projected)) (decimal 100);
      }
        ∷ rest

  unfoldable pub compare_assets :
      Projections → List (String × Quantity) → List String → List SwapBalanceVariance
  compare_assets m observed [] = []
  compare_assets m observed (a ∷ more) = variance_of m observed a (compare_assets m observed more)

  unfoldable pub compare_to_observed_balances :
      Projections → List (String × Quantity) → List SwapBalanceVariance
  compare_to_observed_balances m observed =
      compare_assets m observed (distinct [] (keys m ++ keys observed))

  unfoldable pub record_swap_fills : Projections → List SwapFill → Projections
  record_swap_fills m [] = m
  record_swap_fills m (f ∷ fs) = record_swap_fills (record_swap_fill m f) fs
