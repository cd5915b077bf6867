-- ===== src/RateLimiter/Invariant.antt =====
-- What holds of the bucket of packages/venues/src/rate-limiter.ts between its calls.
use traderton.Prelude.{
  ℕ, ◌*◌, ◌≤◌, ◌≡◌, refl, sym, ap, ◌∙◌, true, false, not, ◌&&◌, List, [], ◌∷◌, ◌++◌, Option, none,
  some, is_some, leb, arith, inl, inr, Bool-cases,
}
use traderton.RateLimiter.{
  RateLimiterConfig, RateLimiter, Waiter, one_token, new, refill, take, try_consume, available,
  serve, drain, schedule_drain, wait_for_token, fire, fire_at, LimiterEvent, tries, waits, asks,
  fires, after_event, after_events, is_empty,
}
use traderton.RateLimiter.Grants.{serve-tokens}

is_empty-snoc : (ws : List Waiter) (w : Waiter) → is_empty (ws ++ (w ∷ [])) ≡ false
is_empty-snoc [] w = refl
is_empty-snoc (v ∷ ws) w = refl

module _ (config : RateLimiterConfig) where
  -- The tokens are within the capacity; a drain is under way and its timer set exactly while
  -- someone waits.
  abbrev pub IsSound : RateLimiter → Type 0
  IsSound l =
      (l.tokens ≤ config.capacity * one_token)
      × (l.draining ≡ not (is_empty l.queue))
      × (is_some l.timer ≡ not (is_empty l.queue))

  refill-IsSound : (l : RateLimiter) (now : ℕ) → IsSound l → IsSound (refill config l now)
  unfolding refill
  refill-IsSound l now (tokens, draining, timer) = (omega arith, draining, timer)

  drain-IsSound : (l : RateLimiter) (now : ℕ) → IsSound (drain config l now).0
  unfolding drain refill
  drain-IsSound l now =
      let filled = refill config l now in
      let left = serve config now filled.tokens filled.queue in
      (
        omega (arith, serve-tokens config now filled.tokens filled.queue),
        ground arith,
        ground arith,
      )

  -- A drain that is under way keeps its timer for one more waiter; otherwise one starts.
  schedule_drain-IsSound :
      (l : RateLimiter) (now : ℕ) (w : Waiter)
      → IsSound l
      → IsSound (schedule_drain config (record l { queue = l.queue ++ w ∷ [] }) now).0
  unfolding schedule_drain
  schedule_drain-IsSound l now w (tokens, draining, timer) = elim (Bool-cases l.draining) [
    | inl busy ↦
        let full : not (is_empty (l.queue ++ w ∷ [])) ≡ true = ap not (is_empty-snoc l.queue w) in
        rw busy (tokens, sym full, timer ∙ sym draining ∙ busy ∙ sym full)
    | inr idle ↦
        rw idle (drain-IsSound (record l { queue = l.queue ++ w ∷ []; draining = true }) now)
  ]

  take-IsSound : (l : RateLimiter) → IsSound l → IsSound (take config l)
  take-IsSound l (tokens, draining, timer) = (omega arith, draining, timer)

  wait_for_token-IsSound :
      (l : RateLimiter) (id now : ℕ) → IsSound l → IsSound (wait_for_token config l id now).0
  unfolding wait_for_token
  wait_for_token-IsSound l id now h =
      let filled = refill config l now in
      let sound = refill-IsSound l now h in
      elim (Bool-cases (leb one_token filled.tokens && is_empty filled.queue)) [
        | inl served ↦ rw served (take-IsSound filled sound)
        | inr queued ↦
            rw queued
              (schedule_drain-IsSound filled now (record { id = id; enqueued_at = now }) sound)
      ]

  try_consume-IsSound :
      (l : RateLimiter) (now : ℕ) → IsSound l → IsSound (try_consume config l now).0
  unfolding try_consume
  try_consume-IsSound l now h =
      let filled = refill config l now in
      elim (Bool-cases (leb one_token filled.tokens)) [
        | inl enough ↦ rw enough (take-IsSound filled (refill-IsSound l now h))
        | inr few ↦ rw few (refill-IsSound l now h)
      ]

  fire_at-IsSound :
      (timer : Option ℕ) (l : RateLimiter) (now : ℕ)
      → IsSound l
      → IsSound (fire_at config timer l now).0
  unfolding fire_at
  fire_at-IsSound none l now h = h
  fire_at-IsSound (some due) l now h = elim (Bool-cases (leb due now)) [
    | inl reached ↦ rw reached (drain-IsSound l now)
    | inr early ↦ rw early h
  ]

  after_event-IsSound :
      (l : RateLimiter) (e : LimiterEvent) → IsSound l → IsSound (after_event config l e).0
  unfolding after_event available fire
  after_event-IsSound l (tries now) h = try_consume-IsSound l now h
  after_event-IsSound l (waits id now) h = wait_for_token-IsSound l id now h
  after_event-IsSound l (asks now) h = refill-IsSound l now h
  after_event-IsSound l (fires now) h = fire_at-IsSound l.timer l now h

  from_IsSound :
      (l : RateLimiter) (es : List LimiterEvent) → IsSound l → IsSound (after_events config l es).0
  unfolding after_events
  from_IsSound l [] h = h
  from_IsSound l (e ∷ es) h = from_IsSound (after_event config l e).0 es (after_event-IsSound l e h)

  -- At the start and after every history of calls and timers: the tokens are within the capacity,
  -- and a drain is under way, with its timer set, exactly while someone waits.
  pub after_events-IsSound :
      (start : ℕ) (es : List LimiterEvent) → IsSound (after_events config (new config start) es).0
  unfolding new
  after_events-IsSound start es = from_IsSound (new config start) es (omega arith, refl, refl)
