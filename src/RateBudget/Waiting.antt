-- ===== src/RateBudget/Waiting.antt =====
-- The loop of `acquire` of packages/market-data/src/rate-limiter.ts ends.
use native.Mathlib.Nat.{mul-le-mul_right, lt-div-mul-add, div-lt_iff_lt-mul}
use traderton.Prelude.{
  ℕ, suc, zero, ◌+◌, ◌-◌, ◌*◌, ◌≤◌, ◌<◌, ◌≡◌, ◌↔◌, refl, Bool, true, false, ◌||◌, Option, some,
  arith, inl, inr, Bool-cases, ltb, if◌then◌else◌,
}
use traderton.RateBudget.{
  Wait, never, millis, until_refilled, is_not_positive, exceeds, ceil_ms, RateBudgetClock, Budgets,
  SharedBudgetConfig, SharedBudgetAcquireRequest, AttemptResult, Acquisition, acquire_from, acquire,
  attempt_in_memory, max_wait,
}

-- A number of whole milliseconds is enough exactly if it refills what is missing.
pub ceil_ms-le_iff :
    (rate d n : ℕ) → 0 < rate → (ceil_ms rate (until_refilled d) ≤ n) ↔ (d ≤ n * rate)
ceil_ms-le_iff rate d n h = (
  λ le. omega (arith, mul-le-mul_right rate le, lt-div-mul-add {a = d + (rate - 1)} h),
  λ le.
      let below : d + (rate - 1) < suc n * rate = omega arith in
      let quotient = (div-lt_iff_lt-mul {x = d + (rate - 1)} {y = suc n} h).1 below in omega arith,
)

early_lem :
    (rate elapsed max d : ℕ)
    → 0 < d
    → elapsed * rate + d ≤ max * rate
    → (elapsed < max) × (0 < rate)
early_lem zero elapsed max d h e = absurd (omega arith)
early_lem (suc r) elapsed max d h e = elim (Bool-cases (ltb elapsed max)) [
  | inl less ↦ (ground arith, omega arith)
  | inr over ↦
      let le : max ≤ elapsed = ground arith in
      let products = mul-le-mul_right (suc r) le in absurd (omega arith)
]

ceil_ms_pos : (rate d : ℕ) → 0 < d → 0 < rate → 1 ≤ ceil_ms rate (until_refilled d)
ceil_ms_pos rate d h r = elim (Bool-cases (ltb 0 (ceil_ms rate (until_refilled d)))) [
  | inl positive ↦ ground arith
  | inr rounded ↦
      let products = (ceil_ms-le_iff rate d 0 r).0 (ground arith) in absurd (omega arith)
]

-- A wait that is slept takes time, and there was time left for it.
sleeps_lem :
    (rate elapsed max : ℕ) (w : Wait)
    → is_not_positive w ≡ false
    → exceeds rate elapsed max w ≡ false
    → (elapsed < max) × (1 ≤ ceil_ms rate w)
sleeps_lem rate elapsed max never p e = ground arith
sleeps_lem rate elapsed max (millis n) p e = ground arith
sleeps_lem rate elapsed max (until_refilled d) p e =
    let d_pos : 0 < d = ground arith in
    let (early, rate_pos) = early_lem rate elapsed max d d_pos (ground arith) in
    (early, ceil_ms_pos rate d d_pos rate_pos)

-- A turn ends the loop, or the next ones do.
turn-ends {ℓ} :
    {A : Type ℓ} (acquired stops : Bool) (a b : A) (rest : Option A)
    → (acquired ≡ false → stops ≡ false → (r : A) × (rest ≡ some r))
    → (r : A) × ((if acquired then some a else if stops then some b else rest) ≡ some r)
turn-ends true stops a b rest later = (a, refl)
turn-ends false true a b rest later = (b, refl)
turn-ends false false a b rest later = later refl refl

neither : {b c : Bool} → (b || c) ≡ false → (b ≡ false) × (c ≡ false)
neither h = ground arith

module _ {W : Type 0} (clock : RateBudgetClock W) where
  -- The time of the world never goes back, a reading is no earlier or later than it, and a sleep
  -- takes as long as it was asked to, at least.
  pub record RunsForward : Type 0 where
    pub time : W → ℕ
    pub now_is_time :
        (w : W) → (time w ≤ (clock.now w).1) × ((clock.now w).1 ≤ time (clock.now w).0)
    pub sleep_takes_time :
        (w : W) (budgets : Budgets) (ms : ℕ) → time w + ms ≤ time (clock.sleep w budgets ms).0

  module _ (forward : RunsForward) (attempt_of : W → Budgets → W × Budgets × AttemptResult)
      (budget : SharedBudgetConfig)
      (attempt_is_later : (w : W) (budgets : Budgets)
        → forward.time w ≤ forward.time (attempt_of w budgets).0) where
    -- A turn that sleeps begins before the time is over, and the next one begins later.
    slept_turn :
        (started : ℕ) (w : W) (budgets : Budgets)
        → let (w₁, budgets₁, attempt) = attempt_of w budgets in
          let (w₂, now) = clock.now w₁ in
          let rate = budget.requests_per_minute in
          is_not_positive attempt.wait
              || exceeds rate (now - started) (max_wait budget) attempt.wait
            ≡ false
          → (suc (forward.time w) ≤ started + max_wait budget)
            × (suc (forward.time w)
                ≤ forward.time (clock.sleep w₂ budgets₁ (ceil_ms rate attempt.wait)).0)
    slept_turn started w budgets h =
        let (w₁, budgets₁, attempt) = attempt_of w budgets in
        let (w₂, now) = clock.now w₁ in
        let rate = budget.requests_per_minute in
        let (early, slept) =
          sleeps_lem rate (now - started) (max_wait budget) attempt.wait (neither h).0
            (neither h).1 in
        let later = attempt_is_later w budgets in
        let reading = forward.now_is_time w₁ in
        (
          omega arith,
          omega (arith, forward.sleep_takes_time w₂ budgets₁ (ceil_ms rate attempt.wait)),
        )

    -- The loop ends on more fuel than the time that is left.
    pub acquire_from-ends :
        (n started : ℕ) (w : W) (budgets : Budgets)
        → started + max_wait budget < forward.time w + suc n
        → (r : W × Budgets × Acquisition) × (acquire_from clock attempt_of budget
              (suc n)
              started
              w
              budgets
            ≡ some r)
    unfolding acquire_from
    acquire_from-ends zero started w budgets h =
        turn-ends _ _ _ _ _ (λ refused goes_on.
          let turn = slept_turn started w budgets goes_on in absurd (omega arith))
    acquire_from-ends (suc n) started w budgets h = turn-ends _ _ _ _ _ (λ refused goes_on.
        let turn = slept_turn started w budgets goes_on in
        acquire_from-ends n started _ _ (omega arith))

  -- An attempt in memory reads the clock, and no more.
  in_memory-is_later :
      (forward : RunsForward) (q : SharedBudgetAcquireRequest) (w : W) (budgets : Budgets)
      → forward.time w ≤ forward.time (attempt_in_memory clock q w budgets).0
  unfolding attempt_in_memory
  in_memory-is_later forward q w budgets = let reading = forward.now_is_time w in omega arith

  -- A request ends, with a lease or with the error that the limit is exceeded, whatever other
  -- callers do while it sleeps, if the clock does not go back and a sleep is not too short: it tries
  -- once more than the milliseconds that it may wait, at most.
  pub acquire-ends :
      (forward : RunsForward) (q : SharedBudgetAcquireRequest) (w : W) (budgets : Budgets)
      → (r : W × Budgets × Acquisition) × (acquire clock q w budgets ≡ some r)
  unfolding acquire
  acquire-ends forward q w budgets =
      let (w', started) = clock.now w in
      let reading = forward.now_is_time w in
      acquire_from-ends forward (attempt_in_memory clock q) q.budget (in_memory-is_later forward q)
        (max_wait q.budget) started w' budgets (omega arith)
