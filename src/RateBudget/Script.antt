-- ===== src/RateBudget/Script.antt =====
-- packages/market-data/src/rate-limiter.ts: the coordinator that keeps its buckets in Redis, with the
-- script that Redis runs at once. A script returns whole numbers, so it rounds the tokens down.
use Prim.Native.Nat.{min}
use native.Mathlib.Nat.{mul-lt-mul_of_pos_right, add-mul}
use traderton.Prelude.{
  ℕ, suc, zero, ◌+◌, ◌-◌, ◌*◌, ◌/◌, ◌≤◌, ◌<◌, ◌≡◌, refl, sym, Bool, true, false, ◌||◌, Option, none,
  some, arith, inl, inr, Bool-cases, ltb, leb, ◌==◌, if◌then◌else◌, ap, ◌∙◌,
}
use traderton.Prelude.JsMap.{get, set}
use traderton.RateBudget.{
  Wait, never, millis, until_refilled, is_not_positive, exceeds, ceil_ms, RateBudgetClock, Budgets,
  SharedBudgetConfig, SharedBudgetAcquireRequest, TokenBucketState, AttemptResult, Acquisition,
  leases, limit_exceeded, one_token, spend, get_capacity, required_tokens, refill, fresh, get_state,
  take_token, attempt_acquire, attempt_in_memory, acquire_from, acquire, max_wait,
}
use traderton.RateBudget.Waiting.{ceil_ms-le_iff}

-- What the script makes of the answer of HMGET.
unfoldable pub stored_bucket : Option TokenBucketState → ℕ → ℕ → TokenBucketState
stored_bucket none now capacity = record { tokens = capacity * one_token; last_refill = now }
stored_bucket (some s) now capacity = s

unfoldable pub refilled_bucket : TokenBucketState → ℕ → ℕ → ℕ → TokenBucketState
refilled_bucket s now capacity refill_rate =
    if ltb s.last_refill now
    then record {
      tokens = min (capacity * one_token) (s.tokens + (now - s.last_refill) * refill_rate);
      last_refill = now;
    }
    else s

-- The hash that is kept, and the answer: the flag, the wait and the whole tokens.
unfoldable pub run_script : Option TokenBucketState → ℕ → ℕ → ℕ → ℕ → TokenBucketState × ℕ × ℕ × ℕ
unfolding stored_bucket refilled_bucket
run_script stored now capacity refill_rate required =
    let s = refilled_bucket (stored_bucket stored now capacity) now capacity refill_rate in
    if leb (required * one_token) s.tokens then (spend s, 1, 0, (spend s).tokens / one_token) else (
      s,
      0,
      ceil_ms refill_rate (until_refilled (required * one_token - s.tokens)),
      s.tokens / one_token,
    )

unfoldable pub attempt_script : SharedBudgetAcquireRequest → Budgets → ℕ → Budgets × AttemptResult
unfolding run_script
attempt_script q budgets now =
    let (bucket, flag, wait_ms, tokens) =
      run_script (get q.provider budgets) now (get_capacity q.budget) q.budget.requests_per_minute
        (required_tokens q) in
    (
      set q.provider bucket budgets,
      record { acquired = flag == 1; wait = millis wait_ms; remaining_tokens = tokens * one_token },
    )

module _ {W : Type 0} (clock : RateBudgetClock W) where
  unfoldable pub attempt_in_redis :
      SharedBudgetAcquireRequest → W → Budgets → W × Budgets × AttemptResult
  unfolding attempt_script
  attempt_in_redis q w budgets =
      let (w', now) = clock.now w in
      let (budgets', attempt) = attempt_script q budgets now in
      if ltb (get_capacity q.budget) (required_tokens q)
      then (w, budgets, record { acquired = false; wait = never; remaining_tokens = 0 })
      else (w', budgets', attempt)

  unfoldable pub acquire_in_redis :
      SharedBudgetAcquireRequest → W → Budgets → Option (W × Budgets × Acquisition)
  unfolding acquire_from attempt_in_redis max_wait
  acquire_in_redis q w budgets =
      let (w', started) = clock.now w in
      acquire_from clock (attempt_in_redis q) q.budget (suc (max_wait q.budget)) started w' budgets

-- A wait in whole milliseconds, and tokens rounded down.
abbrev pub rounded : ℕ → AttemptResult → AttemptResult
rounded rate a = record {
  acquired = a.acquired;
  wait = millis (ceil_ms rate a.wait);
  remaining_tokens = a.remaining_tokens / one_token * one_token;
}

abbrev pub rounded_lease : Acquisition → Acquisition
rounded_lease (leases waited tokens) = leases waited (tokens / one_token * one_token)
rounded_lease limit_exceeded = limit_exceeded

abbrev is_never : Wait → Bool
is_never never = true
is_never _ = false

script_bucket :
    (o : Option TokenBucketState) (budget : SharedBudgetConfig) (now : ℕ)
    → refilled_bucket
        (stored_bucket o now (get_capacity budget))
        now
        (get_capacity budget)
        budget.requests_per_minute
      ≡ refill (get_state o budget now) budget now
unfolding refilled_bucket stored_bucket refill get_state fresh
script_bucket none budget now = refl
script_bucket (some s) budget now = refl

attempt_script-rounded :
    (q : SharedBudgetAcquireRequest) (budgets : Budgets) (now : ℕ)
    → required_tokens q ≤ get_capacity q.budget
    → attempt_script q budgets now ≡ (
      (attempt_acquire q budgets now).0,
      rounded q.budget.requests_per_minute (attempt_acquire q budgets now).1,
    )
unfolding attempt_script run_script attempt_acquire take_token
attempt_script-rounded q budgets now fits =
    let covered : ltb (get_capacity q.budget) (required_tokens q) ≡ false = ground arith in
    let s = refill (get_state (get q.provider budgets) q.budget now) q.budget now in
    rw script_bucket (
      rw covered (elim (Bool-cases (leb (required_tokens q * one_token) s.tokens)) [
        | inl enough ↦ rw enough refl
        | inr few ↦ rw few refl
      ]))

attempt_acquire-is_never :
    (q : SharedBudgetAcquireRequest) (budgets : Budgets) (now : ℕ)
    → required_tokens q ≤ get_capacity q.budget
    → is_never (attempt_acquire q budgets now).1.wait ≡ false
unfolding attempt_acquire take_token
attempt_acquire-is_never q budgets now fits = ground arith

ceil_ms-zero : (rate d : ℕ) → 0 < rate → (ceil_ms rate (until_refilled d) == 0) ≡ (d == 0)
ceil_ms-zero rate d h = ground (arith, ceil_ms-le_iff rate d 0 h)

exceeds-rounded :
    (rate elapsed max d : ℕ)
    → 0 < rate
    → ltb max (elapsed + ceil_ms rate (until_refilled d)) ≡ ltb (max * rate) (elapsed * rate + d)
exceeds-rounded rate elapsed max d h = elim (Bool-cases (ltb max elapsed)) [
  | inl over ↦
      let less : max < elapsed = ground arith in
      let products = mul-lt-mul_of_pos_right less h in ground arith
  | inr in_time ↦
      let whole : max - elapsed + elapsed ≡ max = ground arith in
      let split : (max - elapsed) * rate + elapsed * rate ≡ max * rate =
        sym (add-mul (max - elapsed) elapsed rate) ∙ ap (λ n. n * rate) whole in
      ground (arith, ceil_ms-le_iff rate d (max - elapsed) h)
]

-- A wait is too long exactly if it is in whole milliseconds.
stops-rounded :
    (rate elapsed max : ℕ) (w : Wait)
    → 0 < rate
    → is_never w ≡ false
    → is_not_positive (millis (ceil_ms rate w))
        || exceeds rate elapsed max (millis (ceil_ms rate w))
      ≡ is_not_positive w || exceeds rate elapsed max w
stops-rounded rate elapsed max never h f = ground arith
stops-rounded rate elapsed max (millis n) h f = refl
stops-rounded rate elapsed max (until_refilled d) h f =
    rw (ceil_ms-zero rate d h) (rw (exceeds-rounded rate elapsed max d h) refl)

if-false {ℓ} : {A : Type ℓ} {b : Bool} (x y : A) → b ≡ false → (if b then x else y) ≡ y
if-false x y h = rw h refl

module _ {W : Type 0} (clock : RateBudgetClock W) (q : SharedBudgetAcquireRequest) where
  -- The outcome, with the tokens of a lease rounded down.
  abbrev pub rounded_outcome :
      Option (W × Budgets × Acquisition) → Option (W × Budgets × Acquisition)
  rounded_outcome none = none
  rounded_outcome (some (w, budgets, a)) = some (w, budgets, rounded_lease a)

  turn-rounded :
      (acquired stops stops' : Bool) (w : W) (budgets : Budgets) (waited tokens : ℕ)
      (rest rest' : Option (W × Budgets × Acquisition))
      → stops ≡ stops'
      → rest ≡ rounded_outcome rest'
      → (if acquired
          then some (w, budgets, leases waited (tokens / one_token * one_token))
          else if stops
          then some (w, budgets, limit_exceeded)
          else rest)
        ≡ rounded_outcome (
            if acquired
            then some (w, budgets, leases waited tokens)
            else if stops'
            then some (w, budgets, limit_exceeded)
            else rest')
  turn-rounded true s s' w budgets waited tokens r r' h rest = refl
  turn-rounded false s true w budgets waited tokens r r' h rest = rw h refl
  turn-rounded false s false w budgets waited tokens r r' h rest = rw h rest

  attempt_in_redis-rounded :
      (w : W) (budgets : Budgets)
      → required_tokens q ≤ get_capacity q.budget
      → let (w', budgets', a) = attempt_in_memory clock q w budgets in
        attempt_in_redis clock q w budgets ≡ (w', budgets', rounded q.budget.requests_per_minute a)
  unfolding attempt_in_redis attempt_in_memory
  attempt_in_redis-rounded w budgets fits =
      let covered : ltb (get_capacity q.budget) (required_tokens q) ≡ false = ground arith in
      if-false _ _ covered
      ∙ (ap (λ r. ((clock.now w).0, r.0, r.1))
          (attempt_script-rounded q budgets (clock.now w).1 fits))

  in_memory-is_never :
      (w : W) (budgets : Budgets)
      → required_tokens q ≤ get_capacity q.budget
      → is_never (attempt_in_memory clock q w budgets).2.wait ≡ false
  unfolding attempt_in_memory
  in_memory-is_never w budgets fits = attempt_acquire-is_never q budgets (clock.now w).1 fits

  acquire_from-rounded :
      (n started : ℕ) (w : W) (budgets : Budgets)
      → 0 < q.budget.requests_per_minute
      → required_tokens q ≤ get_capacity q.budget
      → acquire_from clock (attempt_in_redis clock q) q.budget n started w budgets
        ≡ rounded_outcome
            (acquire_from clock (attempt_in_memory clock q) q.budget n started w budgets)
  unfolding acquire_from
  acquire_from-rounded zero started w budgets pos fits = refl
  acquire_from-rounded (suc n) started w budgets pos fits =
      let (w₁, budgets₁, a) = attempt_in_memory clock q w budgets in
      rw (attempt_in_redis-rounded w budgets fits) (
        turn-rounded a.acquired _ _ _ budgets₁ _ a.remaining_tokens _ _
          (stops-rounded q.budget.requests_per_minute _ (max_wait q.budget) a.wait pos
            (in_memory-is_never w budgets fits))
          (acquire_from-rounded n started _ _ pos fits))

  -- On a budget with a rate above 0 whose capacity covers the request, the coordinator in Redis
  -- does what the one in memory does: it sleeps as often and as long, leaves the same buckets and
  -- ends in the same way, with the tokens of a lease rounded down; so long as no bucket expires
  -- that the other keeps.
  pub acquire_in_redis-rounded :
      (w : W) (budgets : Budgets)
      → 0 < q.budget.requests_per_minute
      → required_tokens q ≤ get_capacity q.budget
      → acquire_in_redis clock q w budgets ≡ rounded_outcome (acquire clock q w budgets)
  unfolding acquire_in_redis acquire
  acquire_in_redis-rounded w budgets pos fits =
      let (w', started) = clock.now w in
      acquire_from-rounded (suc (max_wait q.budget)) started w' budgets pos fits
