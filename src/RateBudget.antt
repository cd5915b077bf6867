-- ===== src/RateBudget.antt =====
-- packages/market-data/src/rate-limiter.ts: the budgets of requests that callers of a provider
-- share, in memory and in Redis. Tokens are counted in parts of one sixty-thousandth, so that a
-- whole rate per minute adds whole parts per millisecond. The hash that Redis keeps under the key of
-- a provider is its entry in the map, with no entry where there is none or it has expired. What
-- other callers do with the map happens while a caller sleeps.

pub mod Reserves
pub mod Waiting
pub mod Script
pub mod Process
use Prim.Native.Nat.{min}
use traderton.Prelude.{
  ℕ, suc, zero, ◌+◌, ◌-◌, ◌*◌, ◌/◌, String, Bool, true, false, ◌||◌, List, [], ◌∷◌, Option, none,
  some, if◌then◌else◌, ltb, leb, ◌==◌,
}
use traderton.Prelude.JsMap.{get, set}

pub data ProviderRequestClass : Type 0 where
  execution_critical price_support regime discovery enrichment : ProviderRequestClass

pub record SharedBudgetConfig : Type 0 where
  pub requests_per_minute : ℕ
  pub burst_capacity : Option ℕ
  pub max_wait_ms : Option ℕ
  pub class_reservations : Option (ProviderRequestClass → Option ℕ)

pub record SharedBudgetAcquireRequest : Type 0 where
  pub provider : String
  pub request_class : ProviderRequestClass
  pub budget : SharedBudgetConfig

pub record TokenBucketState : Type 0 where
  pub tokens : ℕ
  pub last_refill : ℕ

abbrev pub Budgets : Type 0
Budgets = List (String × TokenBucketState)

-- `waitMs`: Infinity, whole milliseconds, or the time in which a number of parts is refilled.
pub data Wait : Type 0 where
  never : Wait
  millis : ℕ → Wait
  until_refilled : ℕ → Wait

pub record AttemptResult : Type 0 where
  pub acquired : Bool
  pub wait : Wait
  pub remaining_tokens : ℕ

abbrev pub one_token : ℕ
one_token = 60_000

abbrev pub or_default : Option ℕ → ℕ → ℕ
or_default none n = n
or_default (some m) n = m

abbrev pub request_class_priority : List ProviderRequestClass
request_class_priority = execution_critical ∷ price_support ∷ regime ∷ discovery ∷ enrichment ∷ []

-- The place of a class in the order of priority.
abbrev pub place : ProviderRequestClass → ℕ
place execution_critical = 0
place price_support = 1
place regime = 2
place discovery = 3
place enrichment = 4

unfoldable pub get_capacity : SharedBudgetConfig → ℕ
get_capacity config = or_default config.burst_capacity config.requests_per_minute

unfoldable pub max_wait : SharedBudgetConfig → ℕ
max_wait config = or_default config.max_wait_ms 30_000

-- The loop of `getProtectedTokens`.
unfoldable pub protected_before :
    ProviderRequestClass → (ProviderRequestClass → Option ℕ) → List ProviderRequestClass → ℕ
protected_before c reservations [] = 0
protected_before c reservations (p ∷ ps) =
    let rest = protected_before c reservations ps in
    if place p == place c then 0 else or_default (reservations p) 0 + rest

unfoldable pub get_protected_tokens :
    ProviderRequestClass → Option (ProviderRequestClass → Option ℕ) → ℕ
unfolding protected_before
get_protected_tokens c none = 0
get_protected_tokens c (some reservations) = protected_before c reservations request_class_priority

unfoldable pub required_tokens : SharedBudgetAcquireRequest → ℕ
required_tokens q = 1 + get_protected_tokens q.request_class q.budget.class_reservations

unfoldable pub refill : TokenBucketState → SharedBudgetConfig → ℕ → TokenBucketState
refill s budget now =
    if ltb s.last_refill now
    then record {
      tokens =
          min (get_capacity budget * one_token)
            (s.tokens + (now - s.last_refill) * budget.requests_per_minute);
      last_refill = now;
    }
    else s

unfoldable pub fresh : SharedBudgetConfig → ℕ → TokenBucketState
fresh budget now = record { tokens = get_capacity budget * one_token; last_refill = now }

unfoldable pub get_state : Option TokenBucketState → SharedBudgetConfig → ℕ → TokenBucketState
get_state (some s) budget now = s
get_state none budget now = fresh budget now

abbrev pub spend : TokenBucketState → TokenBucketState
spend s = record s { tokens = s.tokens - one_token }

-- What `attemptAcquire` makes of a refilled bucket.
unfoldable pub take_token :
    SharedBudgetAcquireRequest → TokenBucketState → TokenBucketState × AttemptResult
take_token q s =
    let required = required_tokens q in
    if ltb (get_capacity q.budget) required
    then (s, record { acquired = false; wait = never; remaining_tokens = s.tokens })
    else if leb (required * one_token) s.tokens
    then (spend s, record { acquired = true; wait = millis 0; remaining_tokens = (spend s).tokens })
    else (
      s,
      record {
        acquired = false;
        wait = until_refilled (required * one_token - s.tokens);
        remaining_tokens = s.tokens;
      },
    )

unfoldable pub attempt_acquire : SharedBudgetAcquireRequest → Budgets → ℕ → Budgets × AttemptResult
unfolding take_token refill get_state
attempt_acquire q budgets now =
    let bucket = refill (get_state (get q.provider budgets) q.budget now) q.budget now in
    let (bucket', attempt) = take_token q bucket in (set q.provider bucket' budgets, attempt)

abbrev pub is_not_positive : Wait → Bool
is_not_positive never = false
is_not_positive (millis n) = n == 0
is_not_positive (until_refilled d) = d == 0

-- `elapsed + attempt.waitMs > maxWaitMs`
abbrev pub exceeds : ℕ → ℕ → ℕ → Wait → Bool
exceeds rate elapsed max never = true
exceeds rate elapsed max (millis n) = ltb max (elapsed + n)
exceeds rate elapsed max (until_refilled d) = ltb (max * rate) (elapsed * rate + d)

-- `Math.ceil(attempt.waitMs)`
abbrev pub ceil_ms : ℕ → Wait → ℕ
ceil_ms rate never = 0
ceil_ms rate (millis n) = n
ceil_ms rate (until_refilled d) = (d + (rate - 1)) / rate

pub record RateBudgetClock (W : Type 0) : Type 0 where
  pub now : W → W × ℕ
  pub sleep : W → Budgets → ℕ → W × Budgets

pub data Acquisition : Type 0 where
  leases : ℕ → ℕ → Acquisition
  limit_exceeded : Acquisition

module _ {W : Type 0} (clock : RateBudgetClock W) where
  -- The loop of `acquire`, of either coordinator, on fuel.
  unfoldable pub acquire_from :
      (W → Budgets → W × Budgets × AttemptResult)
      → SharedBudgetConfig
      → ℕ
      → ℕ
      → W
      → Budgets
      → Option (W × Budgets × Acquisition)
  acquire_from attempt_of budget zero started w budgets = none
  acquire_from attempt_of budget (suc n) started w budgets =
      let (w₁, budgets₁, attempt) = attempt_of w budgets in
      let (w₂, now) = clock.now w₁ in
      let elapsed = now - started in
      let rate = budget.requests_per_minute in
      let (w₃, budgets₃) = clock.sleep w₂ budgets₁ (ceil_ms rate attempt.wait) in
      let rest = acquire_from attempt_of budget n started w₃ budgets₃ in
      if attempt.acquired
      then some (w₂, budgets₁, leases elapsed attempt.remaining_tokens)
      else if is_not_positive attempt.wait || exceeds rate elapsed (max_wait budget) attempt.wait
      then some (w₂, budgets₁, limit_exceeded)
      else rest

  unfoldable pub attempt_in_memory :
      SharedBudgetAcquireRequest → W → Budgets → W × Budgets × AttemptResult
  unfolding attempt_acquire
  attempt_in_memory q w budgets =
      let (w', now) = clock.now w in
      let (budgets', attempt) = attempt_acquire q budgets now in (w', budgets', attempt)

  -- The fuel is one turn more than the milliseconds that a caller may wait.
  unfoldable pub acquire :
      SharedBudgetAcquireRequest → W → Budgets → Option (W × Budgets × Acquisition)
  unfolding acquire_from attempt_in_memory max_wait
  acquire q w budgets =
      let (w', started) = clock.now w in
      acquire_from (attempt_in_memory q) q.budget (suc (max_wait q.budget)) started w' budgets
