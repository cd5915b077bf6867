-- ===== src/RateLimiter.antt =====
-- packages/venues/src/rate-limiter.ts: the token bucket. Tokens are counted in thousandths, so that
-- a whole rate per second adds whole thousandths per millisecond. The clock's reading is `now`; where
-- it goes back, the source's tokens may fall below 0, and they stop at 0 here. A promise that is
-- resolved is a grant, and the pending call of `setTimeout` is the state's timer.
pub mod Invariant
pub mod Grants
pub mod Service
use Prim.Native.Nat.{min}
use traderton.Prelude.{
  ℕ, ◌+◌, ◌-◌, ◌*◌, ◌/◌, String, Bool, true, false, ◌&&◌, List, [], ◌∷◌, ◌++◌, Option, none, some,
  if◌then◌else◌, leb, length,
}

pub record RateLimiterConfig : Type 0 where
  pub capacity : ℕ
  pub refill_rate : ℕ

pub record Waiter : Type 0 where
  pub id : ℕ
  pub enqueued_at : ℕ

pub record RateLimiter : Type 0 where
  pub tokens : ℕ
  pub last_refill : ℕ
  pub queue : List Waiter
  pub draining : Bool
  pub timer : Option ℕ

-- A call that may go on, and how long it waited.
pub record Grant : Type 0 where
  pub id : ℕ
  pub waited : ℕ

abbrev pub one_token : ℕ
one_token = 1_000

-- The calls of a limiter, and its timer.
pub data LimiterEvent : Type 0 where
  tries : ℕ → LimiterEvent
  waits : ℕ → ℕ → LimiterEvent
  asks : ℕ → LimiterEvent
  fires : ℕ → LimiterEvent

abbrev pub is_empty : List Waiter → Bool
is_empty [] = true
is_empty (w ∷ ws) = false

module _ (config : RateLimiterConfig) where
  unfoldable pub new : ℕ → RateLimiter
  new now = record {
    tokens = config.capacity * one_token;
    last_refill = now;
    queue = [];
    draining = false;
    timer = none;
  }

  unfoldable pub refill : RateLimiter → ℕ → RateLimiter
  refill l now = record l {
    tokens =
        min (config.capacity * one_token)
          (l.tokens + now * config.refill_rate - l.last_refill * config.refill_rate);
    last_refill = now;
  }

  abbrev pub take : RateLimiter → RateLimiter
  take l = record l { tokens = l.tokens - one_token }

  unfoldable pub try_consume : RateLimiter → ℕ → RateLimiter × Bool
  unfolding refill
  try_consume l now =
      let filled = refill l now in
      if leb one_token filled.tokens then (take filled, true) else (filled, false)

  unfoldable pub available : RateLimiter → ℕ → RateLimiter × ℕ
  unfolding refill
  available l now = let filled = refill l now in (filled, filled.tokens)

  -- `Math.ceil((deficit / this.refillRate) * 1000) + 1`, for a rate that is not 0.
  abbrev pub wait_ms : ℕ → ℕ
  wait_ms tokens = (one_token - tokens + (config.refill_rate - 1)) / config.refill_rate + 1

  -- The loop of `drain`: the tokens and the waiters that are left, and the grants.
  unfoldable pub serve : ℕ → ℕ → List Waiter → ℕ × List Waiter × List Grant
  serve now tokens [] = (tokens, [], [])
  serve now tokens (w ∷ ws) =
      let (left, waiters, grants) = serve now (tokens - one_token) ws in
      if leb one_token tokens
      then (left, waiters, record { id = w.id; waited = now - w.enqueued_at } ∷ grants)
      else (tokens, w ∷ ws, [])

  unfoldable pub drain : RateLimiter → ℕ → RateLimiter × List Grant
  unfolding refill serve
  drain l now =
      let filled = refill l now in
      let (tokens, queue, grants) = serve now filled.tokens filled.queue in
      (
        record {
          tokens = tokens;
          last_refill = now;
          queue = queue;
          draining = if is_empty queue then false else true;
          timer = if is_empty queue then none else some (now + wait_ms tokens);
        },
        grants,
      )

  unfoldable pub schedule_drain : RateLimiter → ℕ → RateLimiter × List Grant
  unfolding drain
  schedule_drain l now = if l.draining then (l, []) else drain (record l { draining = true }) now

  unfoldable pub wait_for_token : RateLimiter → ℕ → ℕ → RateLimiter × List Grant
  unfolding refill schedule_drain
  wait_for_token l id now =
      let filled = refill l now in
      if leb one_token filled.tokens && is_empty filled.queue
      then (take filled, record { id = id; waited = 0 } ∷ [])
      else schedule_drain
          (record filled { queue = filled.queue ++ record { id = id; enqueued_at = now } ∷ [] }) now

  -- The callback of `setTimeout`, when it is due.
  unfoldable pub fire_at : Option ℕ → RateLimiter → ℕ → RateLimiter × List Grant
  unfolding drain
  fire_at none l now = (l, [])
  fire_at (some due) l now = if leb due now then drain l now else (l, [])

  unfoldable pub fire : RateLimiter → ℕ → RateLimiter × List Grant
  unfolding fire_at
  fire l now = fire_at l.timer l now

  -- The limiter after an event, and how many calls may go on.
  unfoldable pub after_event : RateLimiter → LimiterEvent → RateLimiter × ℕ
  unfolding try_consume wait_for_token available fire
  after_event l (tries now) =
      let (l', permitted) = try_consume l now in (l', if permitted then 1 else 0)
  after_event l (waits id now) = let (l', grants) = wait_for_token l id now in (l', length grants)
  after_event l (asks now) = ((available l now).0, 0)
  after_event l (fires now) = let (l', grants) = fire l now in (l', length grants)

  unfoldable pub after_events : RateLimiter → List LimiterEvent → RateLimiter × ℕ
  unfolding after_event
  after_events l [] = (l, 0)
  after_events l (e ∷ es) =
      let (l₁, n) = after_event l e in let (l₂, more) = after_events l₁ es in (l₂, n + more)
