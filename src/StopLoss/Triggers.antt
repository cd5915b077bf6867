-- ===== src/StopLoss/Triggers.antt =====
-- Which check packages/engine/src/stop-loss-monitor.ts reports.
use traderton.Prelude.{
  ◌≡◌, refl, ap, ◌⊎◌, inl, inr, true, false, List, [], ◌∷◌, ◌++◌, none, some, arith, Bool-cases,
  All,
}
use traderton.Decimal.{DecimalLib, decimal, neg, abs, lt, lte, gte}
use traderton.Decimal.Laws.{Exact}
use traderton.Position.{is_flat}
use traderton.StopLoss.{
  StopLossConfig, StopLossCheck, StopLossResult, not_triggered, check_threshold, check_pnl,
  check_one, check_all, check_stop_loss,
}

module _ ⦃lib : DecimalLib⦄ where
  -- A held position that loses at least the threshold.
  abbrev pub Breaches : StopLossConfig → StopLossCheck → Type 0
  Breaches config c =
      (is_flat c.position.side ≡ false)
      × (lt (check_pnl c) (decimal 0) ≡ true)
      × (lte (check_threshold config c) (neg (check_pnl c)) ≡ true)

  -- The first check that breaches, with its loss and threshold; or that there is none.
  pub data Finds (config : StopLossConfig) (checks : List StopLossCheck)
      : StopLossResult → Type 0 where
    first :
        (before after : List StopLossCheck) (c : StopLossCheck)
        → checks ≡ before ++ c ∷ after
        → All (λ x. ¬ Breaches config x) before
        → Breaches config c
        → Finds config checks (record {
          triggered = true;
          instrument = some c.instrument;
          unrealized_loss = some (neg (check_pnl c));
          threshold = some (check_threshold config c);
        })
    nothing : All (λ x. ¬ Breaches config x) checks → Finds config checks not_triggered

  Finds-later :
      (config : StopLossConfig) (c : StopLossCheck) (cs : List StopLossCheck) {r : StopLossResult}
      → ¬ Breaches config c
      → Finds config cs r
      → Finds config (c ∷ cs) r
  Finds-later config c cs fine (first before after d e a b) =
      first (c ∷ before) after d (ap (◌∷◌ c) e) (fine, a) b
  Finds-later config c cs fine (nothing a) = nothing (fine, a)

module _ ⦃lib : DecimalLib⦄ ⦃ex : Exact⦄ where
  check_one_cases :
      (config : StopLossConfig) (c : StopLossCheck)
      → ((check_one config c ≡ none) × (¬ Breaches config c))
        ⊎ ((check_one config c
              ≡ some (record {
                triggered = true;
                instrument = some c.instrument;
                unrealized_loss = some (neg (check_pnl c));
                threshold = some (check_threshold config c);
              }))
            × Breaches config c)
  unfolding check_one
  check_one_cases config c = elim (Bool-cases (is_flat c.position.side)) [
    | inl nobody ↦ inl (rw nobody refl, λ b. cc)
    | inr held ↦ elim (Bool-cases (gte (check_pnl c) (decimal 0))) [
      | inl gains ↦ inl (rw held (rw gains refl), λ b. ground arith)
      | inr loses ↦
          let loss : abs (check_pnl c) ≡ neg (check_pnl c) =
            ex.abs_of_neg (check_pnl c) (ground arith) in
          elim (Bool-cases (gte (neg (check_pnl c)) (check_threshold config c))) [
            | inl over ↦ inr (
              rw held (rw loses (rw loss (rw over refl))),
              (
                held,
                ground arith,
                ground (arith, ex.compared_to-flip (neg (check_pnl c)) (check_threshold config c)),
              ),
            )
            | inr under ↦ inl (
              rw held (rw loses (rw loss (rw under refl))),
              λ b.
                  ground
                    (arith, ex.compared_to-flip (neg (check_pnl c)) (check_threshold config c)),
            )
          ]
    ]
  ]

  check_all-Finds :
      (config : StopLossConfig) (checks : List StopLossCheck)
      → Finds config checks (check_all config checks)
  unfolding check_all
  check_all-Finds config [] = nothing tt
  check_all-Finds config (c ∷ cs) = elim (check_one_cases config c) [
    | inl (e, fine) ↦ rw (e, check_all) (Finds-later config c cs fine (check_all-Finds config cs))
    | inr (e, breach) ↦ rw (e, check_all) (first [] cs c refl tt breach)
  ]

  -- With a percentage above 0, the stop-loss check reports the first position whose loss reaches
  -- its threshold, with that loss and threshold, and nothing if there is none.
  pub check_stop_loss-Finds :
      (config : StopLossConfig) (checks : List StopLossCheck)
      → lt (decimal 0) config.max_unrealized_loss_pct ≡ true
      → Finds config checks (check_stop_loss config checks)
  unfolding check_stop_loss
  check_stop_loss-Finds config checks on = rw switched_on (check_all-Finds config checks)
    where
      switched_on : lte config.max_unrealized_loss_pct (decimal 0) ≡ false
      switched_on = ground (arith, ex.compared_to-flip (decimal 0) config.max_unrealized_loss_pct)
