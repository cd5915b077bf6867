-- ===== src/Tests/Budgets.antt =====
-- Runs of packages/market-data/src/rate-limiter.ts.
use traderton.Prelude.{◌≡◌, refl, ℕ, ◌+◌, ◌≤◌, [], ◌∷◌, Option, none, some, true, arith}
use traderton.RateBudget.{
  ProviderRequestClass, execution_critical, price_support, discovery, SharedBudgetConfig,
  SharedBudgetAcquireRequest, RateBudgetClock, Budgets, Acquisition, leases, attempt_acquire,
  acquire, acquire_from, attempt_in_memory, take_token, refill, get_state, get_capacity, max_wait,
  get_protected_tokens, required_tokens, protected_before,
}
use traderton.RateBudget.Reserves.{Attempts, attempt_all, attempt_acquire-reserved}
use traderton.RateBudget.Waiting.{RunsForward, acquire-ends}
use traderton.Prelude.Int.{pos, negsuc, ◌+ℤ◌, ◌-ℤ◌}
use traderton.RateBudget.Process.{
  TokenBucketRateLimiter, Asked, sleeps, begin_acquire, end_acquire, refill_process, wait_of,
}
use traderton.RateBudget.Script.{acquire_in_redis, rounded_outcome, acquire_in_redis-rounded}
use traderton.Prelude.JsMap.{get, set}

abbrev reservations : ProviderRequestClass → Option ℕ
reservations execution_critical = some 1
reservations price_support = some 1
reservations _ = none

-- Sixty requests a minute, two at once.
abbrev budget : SharedBudgetConfig
budget = record {
  requests_per_minute = 60;
  burst_capacity = some 2;
  max_wait_ms = some 5_000;
  class_reservations = some reservations;
}

abbrev request_of : ProviderRequestClass → SharedBudgetAcquireRequest
request_of c = record { provider = "birdeye"; request_class = c; budget = budget }

-- The world is the time, which moves only in a sleep.
abbrev still_clock : RateBudgetClock ℕ
still_clock = record { now = λ t. (t, t); sleep = λ t budgets ms. (t + ms, budgets) }

abbrev still_clock-RunsForward : RunsForward still_clock
still_clock-RunsForward = record {
  time = λ t. t;
  now_is_time = λ t. (omega arith, omega arith);
  sleep_takes_time = λ t budgets ms. omega arith;
}

-- An empty bucket, for a request that needs two tokens: it waits for two seconds.
abbrev empty_bucket : Budgets
empty_bucket = ("birdeye", record { tokens = 0; last_refill = 0 }) ∷ []

waits_for_two_seconds :
    acquire still_clock (request_of price_support) 0 empty_bucket
    ≡ some (
      2_000,
      ("birdeye", record { tokens = 60_000; last_refill = 2_000 }) ∷ [],
      leases 2_000 60_000,
    )
unfolding acquire acquire_from attempt_in_memory attempt_acquire take_token refill get_state get set
    get_capacity max_wait get_protected_tokens required_tokens protected_before
waits_for_two_seconds = refl

acquire-ends_example :
    (r : ℕ × Budgets × Acquisition) × (acquire still_clock (request_of price_support) 0 empty_bucket
      ≡ some r)
acquire-ends_example =
    acquire-ends still_clock still_clock-RunsForward (request_of price_support) 0 empty_bucket

abbrev less_urgent : Attempts
less_urgent =
    (0, request_of discovery) ∷ (7, request_of price_support) ∷ (7, request_of price_support) ∷ []

urgent_is_covered : required_tokens (request_of execution_critical) ≤ get_capacity budget
unfolding required_tokens get_capacity get_protected_tokens protected_before
urgent_is_covered = omega arith

support_is_covered : required_tokens (request_of price_support) ≤ get_capacity budget
unfolding required_tokens get_capacity get_protected_tokens protected_before
support_is_covered = omega arith

attempt_acquire-reserved_example :
    (attempt_acquire (request_of execution_critical) (attempt_all less_urgent []) 8).1.acquired
    ≡ true
attempt_acquire-reserved_example =
    attempt_acquire-reserved (request_of execution_critical) less_urgent 8 (omega arith)
      urgent_is_covered
      (λ e. (refl, omega arith), (λ e. (refl, omega arith), (λ e. (refl, omega arith), tt)))

acquire_in_redis-rounded_example :
    acquire_in_redis still_clock (request_of price_support) 0 empty_bucket
    ≡ rounded_outcome still_clock
        (request_of price_support)
        (acquire still_clock (request_of price_support) 0 empty_bucket)
acquire_in_redis-rounded_example =
    acquire_in_redis-rounded still_clock (request_of price_support) 0 empty_bucket (omega arith)
      support_is_covered

-- Two callers find the bucket of a process empty at the same time.
abbrev one_asks : TokenBucketRateLimiter × Asked
one_asks = begin_acquire budget (record { tokens = pos 0; last_refill = 0 }) 0

abbrev two_ask : TokenBucketRateLimiter × Asked
two_ask = begin_acquire budget one_asks.0 0

-- They are told the same wait.
same_wait : (one_asks.1 ≡ sleeps 1_000) × (two_ask.1 ≡ sleeps 1_000)
unfolding begin_acquire refill_process wait_of get_capacity max_wait ◌-ℤ◌ ◌+ℤ◌
same_wait = (refl, refl)

-- Both go on after it, and the bucket is one token short.
overdrawn : (end_acquire budget (end_acquire budget two_ask.0 1_000) 1_000).tokens ≡ negsuc 59_999
unfolding begin_acquire end_acquire refill_process wait_of get_capacity max_wait ◌-ℤ◌ ◌+ℤ◌
overdrawn = refl
