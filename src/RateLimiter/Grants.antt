-- ===== src/RateLimiter/Grants.antt =====
-- How many calls the bucket of packages/venues/src/rate-limiter.ts lets go on.
use native.Mathlib.Nat.{mul-le-mul_right}
use traderton.Prelude.{
  ℕ, ◌+◌, ◌-◌, ◌*◌, ◌≤◌, ◌≡◌, true, List, [], ◌∷◌, ◌++◌, Option, none, some, length, leb, arith,
  inl, inr, Bool-cases,
}
use traderton.RateLimiter.{
  RateLimiterConfig, RateLimiter, Waiter, one_token, new, refill, try_consume, available, serve,
  drain, schedule_drain, wait_for_token, fire, fire_at, LimiterEvent, tries, waits, asks, fires,
  after_event, after_events, is_empty,
}

pub serve-tokens :
    (config : RateLimiterConfig) (now tokens : ℕ) (ws : List Waiter)
    → let r = serve config now tokens ws in r.0 + one_token * length r.2 ≡ tokens
unfolding serve
serve-tokens config now tokens [] = omega arith
serve-tokens config now tokens (w ∷ ws) =
    ground (arith, serve-tokens config now (tokens - one_token) ws)

abbrev pub time_of : LimiterEvent → ℕ
time_of (tries now) = now
time_of (waits id now) = now
time_of (asks now) = now
time_of (fires now) = now

-- The clock does not go back.
abbrev pub AreInOrder : ℕ → List LimiterEvent → Type 0
AreInOrder now [] = Unit
AreInOrder now (e ∷ es) = (now ≤ time_of e) × AreInOrder (time_of e) es

abbrev pub last_time : ℕ → List LimiterEvent → ℕ
last_time now [] = now
last_time now (e ∷ es) = last_time (time_of e) es

module _ (config : RateLimiterConfig) where
  -- What a bucket has let go on and still holds, against what it held and was given since.
  abbrev IsPaid : RateLimiter → RateLimiter → ℕ → Type 0
  IsPaid l l' grants =
      one_token * grants + l'.tokens + l.last_refill * config.refill_rate
      ≤ l.tokens + l'.last_refill * config.refill_rate

  -- A step at a time pays for its grants, and the time of the bucket is not ahead.
  abbrev IsStep : RateLimiter → ℕ → RateLimiter → ℕ → Type 0
  IsStep l now l' grants = IsPaid l l' grants × (l'.last_refill ≤ now)

  refill-IsStep :
      (l : RateLimiter) (now : ℕ) → l.last_refill ≤ now → IsStep l now (refill config l now) 0
  unfolding refill
  refill-IsStep l now h = (omega (arith, mul-le-mul_right config.refill_rate h), omega arith)

  drain-IsStep :
      (l : RateLimiter) (now : ℕ)
      → l.last_refill ≤ now
      → IsStep l now (drain config l now).0 (length (drain config l now).1)
  unfolding drain refill
  drain-IsStep l now h =
      let filled = refill config l now in
      (
        omega
            (arith, (refill-IsStep l now h).0, serve-tokens config now filled.tokens filled.queue),
        omega arith,
      )

  try_consume-IsStep :
      (l : RateLimiter) (now : ℕ)
      → l.last_refill ≤ now
      → IsStep l now (after_event config l (tries now)).0 (after_event config l (tries now)).1
  unfolding after_event try_consume refill
  try_consume-IsStep l now h =
      let filled = refill config l now in
      elim (Bool-cases (leb one_token filled.tokens)) [
        | inl enough ↦ rw enough (ground (arith, (refill-IsStep l now h).0))
        | inr few ↦ rw few (refill-IsStep l now h)
      ]

  schedule_drain-IsStep :
      (l : RateLimiter) (now : ℕ)
      → l.last_refill ≤ now
      → IsStep l now (schedule_drain config l now).0 (length (schedule_drain config l now).1)
  unfolding schedule_drain
  schedule_drain-IsStep l now h = elim (Bool-cases l.draining) [
    | inl busy ↦ rw busy (omega arith, h)
    | inr idle ↦ rw idle (drain-IsStep (record l { draining = true }) now h)
  ]

  wait_for_token-IsStep :
      (l : RateLimiter) (id now : ℕ)
      → l.last_refill ≤ now
      → IsStep l now (wait_for_token config l id now).0 (length (wait_for_token config l id now).1)
  unfolding wait_for_token refill
  wait_for_token-IsStep l id now h =
      let filled = refill config l now in
      let queued = record filled {
        queue = filled.queue ++ record { id = id; enqueued_at = now } ∷ [];
      } in
      let paid = (refill-IsStep l now h).0 in
      let later = schedule_drain-IsStep queued now (omega arith) in
      elim (Bool-cases (leb one_token filled.tokens)) [
        | inl enough ↦ elim (Bool-cases (is_empty filled.queue)) [
          | inl empty ↦ rw (enough, empty) (ground (arith, paid))
          | inr full ↦ rw (enough, full) (omega (arith, paid, later.0), later.1)
        ]
        | inr few ↦ rw few (omega (arith, paid, later.0), later.1)
      ]

  fire_at-IsStep :
      (timer : Option ℕ) (l : RateLimiter) (now : ℕ)
      → l.last_refill ≤ now
      → IsStep l now (fire_at config timer l now).0 (length (fire_at config timer l now).1)
  unfolding fire_at
  fire_at-IsStep none l now h = (omega arith, h)
  fire_at-IsStep (some due) l now h = elim (Bool-cases (leb due now)) [
    | inl reached ↦ rw reached (drain-IsStep l now h)
    | inr early ↦ rw early (omega arith, h)
  ]

  after_event-IsStep :
      (l : RateLimiter) (e : LimiterEvent)
      → l.last_refill ≤ time_of e
      → IsStep l (time_of e) (after_event config l e).0 (after_event config l e).1
  unfolding after_event available fire
  after_event-IsStep l (tries now) h = try_consume-IsStep l now h
  after_event-IsStep l (waits id now) h = wait_for_token-IsStep l id now h
  after_event-IsStep l (asks now) h = refill-IsStep l now h
  after_event-IsStep l (fires now) h = fire_at-IsStep l.timer l now h

  after_events-IsStep :
      (l : RateLimiter) (now : ℕ) (es : List LimiterEvent)
      → l.last_refill ≤ now
      → AreInOrder now es
      → IsStep l (last_time now es) (after_events config l es).0 (after_events config l es).1
  unfolding after_events
  after_events-IsStep l now [] h o = (omega arith, h)
  after_events-IsStep l now (e ∷ es) h (o, os) =
      let first = after_event-IsStep l e (omega arith) in
      let rest = after_events-IsStep (after_event config l e).0 (time_of e) es first.1 os in
      (omega (arith, first.0, rest.0), rest.1)

  -- Whatever is called and in whatever order, with a clock that does not go back: a new limiter
  -- lets no more calls go on than its capacity and its rate allow. A thousand times their number
  -- is at most a thousand times the capacity plus the rate for each millisecond since the start.
  pub after_events-grants :
      (start : ℕ) (es : List LimiterEvent)
      → AreInOrder start es
      → one_token * (after_events config (new config start) es).1 + start * config.refill_rate
        ≤ config.capacity * one_token + last_time start es * config.refill_rate
  unfolding new
  after_events-grants start es o =
      let step = after_events-IsStep (new config start) start es (omega arith) o in
      omega (arith, step.0, mul-le-mul_right config.refill_rate step.1)
