-- ===== src/RateBudget/Process.antt =====
-- packages/market-data/src/rate-limiter.ts: the limiter of one process. A call of `acquire` has two
-- parts, before and after its sleep, and the tokens, in parts of one sixty-thousandth, may fall below
-- 0. The clock does not go back.
use native.Mathlib.Nat.{mul-le-mul_right}
use traderton.Prelude.{
  ℕ, ◌+◌, ◌-◌, ◌*◌, Bool, true, false, if◌then◌else◌, ◌≡◌, ◌≤◌, ◌<◌, refl, arith,
}
use traderton.Prelude.Int.{ℤ, pos, ◌+ℤ◌, ◌-ℤ◌, ltb_ℤ, pos_part, ◌≤ℤ◌}
use traderton.RateBudget.{
  SharedBudgetConfig, Wait, until_refilled, exceeds, ceil_ms, one_token, get_capacity, max_wait,
}
use traderton.RateBudget.Waiting.{ceil_ms-le_iff}

pub record TokenBucketRateLimiter : Type 0 where
  pub tokens : ℤ
  pub last_refill : ℕ

pub data Asked : Type 0 where
  goes_on : Asked
  sleeps : ℕ → Asked
  throws : Asked

abbrev pub min_ℤ : ℤ → ℤ → ℤ
min_ℤ a b = if ltb_ℤ b a then b else a

-- The configuration has no reservations.
module _ (config : SharedBudgetConfig) where
  unfoldable pub new : ℕ → TokenBucketRateLimiter
  unfolding get_capacity
  new now = record { tokens = pos (get_capacity config * one_token); last_refill = now }

  unfoldable pub refill_process : TokenBucketRateLimiter → ℕ → TokenBucketRateLimiter
  unfolding get_capacity ◌+ℤ◌
  refill_process l now = record {
    tokens =
        min_ℤ (pos (get_capacity config * one_token))
          (l.tokens +ℤ pos ((now - l.last_refill) * config.requests_per_minute));
    last_refill = now;
  }

  abbrev pub take : TokenBucketRateLimiter → TokenBucketRateLimiter
  take l = record l { tokens = l.tokens -ℤ pos one_token }

  -- `(1 - this.tokens) / this.refillRate`
  unfoldable pub wait_of : TokenBucketRateLimiter → Wait
  unfolding ◌-ℤ◌
  wait_of l = until_refilled (pos_part (pos one_token -ℤ l.tokens))

  unfoldable pub begin_acquire : TokenBucketRateLimiter → ℕ → TokenBucketRateLimiter × Asked
  unfolding refill_process wait_of max_wait ◌-ℤ◌
  begin_acquire l now =
      let filled = refill_process l now in
      if ltb_ℤ filled.tokens (pos one_token)
      then (
        filled,
        if exceeds config.requests_per_minute 0 (max_wait config) (wait_of filled)
            then throws
            else sleeps (ceil_ms config.requests_per_minute (wait_of filled)),
      )
      else (take filled, goes_on)

  unfoldable pub end_acquire : TokenBucketRateLimiter → ℕ → TokenBucketRateLimiter
  unfolding refill_process ◌-ℤ◌
  end_acquire l now = take (refill_process l now)

  -- The time of the wait refills a token.
  refilled-enough :
      (l : TokenBucketRateLimiter) (later : ℕ)
      → 0 < config.requests_per_minute
      → 0 < get_capacity config
      → l.last_refill + ceil_ms config.requests_per_minute (wait_of l) ≤ later
      → pos 0 ≤ℤ (end_acquire l later).tokens
  unfolding end_acquire refill_process wait_of ◌-ℤ◌ ◌+ℤ◌
  refilled-enough l later rate fits t =
      let d = pos_part (pos one_token -ℤ l.tokens) in
      let ms = ceil_ms config.requests_per_minute (until_refilled d) in
      let enough : d ≤ ms * config.requests_per_minute =
        (ceil_ms-le_iff config.requests_per_minute d ms rate).0 (omega arith) in
      let slept : ms ≤ later - l.last_refill = omega arith in
      let products = mul-le-mul_right config.requests_per_minute slept in ground arith

  asked-sleeps :
      (short over : Bool) (l l' : TokenBucketRateLimiter) (n ms : ℕ)
      → let r : TokenBucketRateLimiter × Asked =
          if short then (l, if over then throws else sleeps n) else (l', goes_on) in
        r.1 ≡ sleeps ms → (r.0 ≡ l) × (n ≡ ms)
  asked-sleeps true true l l' n ms h = cc
  asked-sleeps true false l l' n ms h = (refl, cc)
  asked-sleeps false over l l' n ms h = cc

  sleeps-begin_acquire :
      (l : TokenBucketRateLimiter) (now ms : ℕ)
      → (begin_acquire l now).1 ≡ sleeps ms
      → let filled = refill_process l now in
        ((begin_acquire l now).0 ≡ filled)
        × (ceil_ms config.requests_per_minute (wait_of filled) ≡ ms)
  unfolding begin_acquire
  sleeps-begin_acquire l now ms h =
      let filled = refill_process l now in
      asked-sleeps (ltb_ℤ filled.tokens (pos one_token))
        (exceeds config.requests_per_minute 0 (max_wait config) (wait_of filled)) filled
        (take filled) (ceil_ms config.requests_per_minute (wait_of filled)) ms h

  -- A bucket that is refilled for the time that a caller is told to wait has a token, where no other
  -- call comes between.
  pub end_acquire-enough :
      (l : TokenBucketRateLimiter) (now ms later : ℕ)
      → 0 < config.requests_per_minute
      → 0 < get_capacity config
      → (begin_acquire l now).1 ≡ sleeps ms
      → now + ms ≤ later
      → pos 0 ≤ℤ (end_acquire (begin_acquire l now).0 later).tokens
  unfolding refill_process
  end_acquire-enough l now ms later rate fits h t =
      let (same, wait) = sleeps-begin_acquire l now ms h in
      rw same (refilled-enough (refill_process l now) later rate fits (rw wait t))
