-- ===== src/RateLimiter/Service.antt =====
-- That the waiters of packages/venues/src/rate-limiter.ts are served, in their order.
use mathlib.Core.List.{map-append, append_assoc, append-nil}
use mathlib.Core.Path.{subst}
use native.Mathlib.Nat.{mul-le-mul_right, lt-div-mul-add}
use traderton.Prelude.{
  ℕ, ◌+◌, ◌-◌, ◌*◌, ◌≤◌, ◌<◌, ◌≡◌, refl, sym, ap, ◌∙◌, if◌then◌else◌, true, false, List, [], ◌∷◌,
  ◌++◌, none, some, map, length, leb, arith, inl, inr, Bool-cases, Option-cases,
}
use traderton.RateLimiter.{
  RateLimiterConfig, RateLimiter, Waiter, Grant, one_token, refill, serve, drain, is_empty, wait_ms,
}

abbrev pub waiting_ids : List Waiter → List ℕ
waiting_ids ws = map (λ w. w.id) ws

abbrev pub granted_ids : List Grant → List ℕ
granted_ids gs = map (λ g. g.id) gs

empty_of_length : (ws : List Waiter) → length ws ≡ 0 → ws ≡ []
empty_of_length [] h = refl
empty_of_length (w ∷ ws) h = absurd (omega arith)

length_of-is_empty : (ws : List Waiter) → is_empty ws ≡ true → length ws ≡ 0
length_of-is_empty [] h = refl
length_of-is_empty (w ∷ ws) h = ground arith

module _ (config : RateLimiterConfig) where
  serve-order :
      (now tokens : ℕ) (ws : List Waiter)
      → let r = serve config now tokens ws in granted_ids r.2 ++ waiting_ids r.1 ≡ waiting_ids ws
  unfolding serve
  serve-order now tokens [] = refl
  serve-order now tokens (w ∷ ws) = elim (Bool-cases (leb one_token tokens)) [
    | inl enough ↦ rw enough (ap (λ ids. w.id ∷ ids) (serve-order now (tokens - one_token) ws))
    | inr few ↦ rw few refl
  ]

  -- Waiters are left only when no token is.
  serve-rest :
      (now tokens : ℕ) (ws : List Waiter)
      → let r = serve config now tokens ws in is_empty r.1 ≡ false → r.0 < one_token
  unfolding serve
  serve-rest now tokens [] h = ground arith
  serve-rest now tokens (w ∷ ws) h = ground (arith, serve-rest now (tokens - one_token) ws)

  serve-length :
      (now tokens : ℕ) (ws : List Waiter)
      → let r = serve config now tokens ws in length r.1 ≤ length ws
  unfolding serve
  serve-length now tokens [] = omega arith
  serve-length now tokens (w ∷ ws) = ground (arith, serve-length now (tokens - one_token) ws)

  serve-progress :
      (now tokens : ℕ) (ws : List Waiter)
      → one_token ≤ tokens
      → let r = serve config now tokens ws in length r.1 ≤ length ws - 1
  unfolding serve
  serve-progress now tokens [] h = omega arith
  serve-progress now tokens (w ∷ ws) h = ground (arith, serve-length now (tokens - one_token) ws)

  -- The time that `drain` waits brings the missing part of a token.
  wait_ms-enough :
      (tokens : ℕ)
      → 0 < config.refill_rate
      → one_token ≤ tokens + wait_ms config tokens * config.refill_rate
  wait_ms-enough tokens h =
      omega (arith, lt-div-mul-add {a = one_token - tokens + (config.refill_rate - 1)} h)

  -- Where waiters are left, the timer is set to a time that brings a token.
  abbrev pub IsArmed : RateLimiter → Type 0
  IsArmed l =
      is_empty l.queue ≡ false
      → (due : ℕ) × (l.timer ≡ some due)
        × (l.last_refill ≤ due)
        × (one_token + l.last_refill * config.refill_rate ≤ l.tokens + due * config.refill_rate)

  drain-IsArmed :
      (l : RateLimiter) (now : ℕ) → 0 < config.refill_rate → IsArmed (drain config l now).0
  unfolding drain
  drain-IsArmed l now h waiting =
      let tokens = (drain config l now).0.tokens in
      (
        now + wait_ms config tokens,
        ap (λ b. if b then none else some (now + wait_ms config tokens)) waiting,
        omega arith,
        omega (arith, wait_ms-enough tokens h),
      )

  refill-due :
      (l : RateLimiter) (now due : ℕ)
      → 0 < config.capacity
      → due ≤ now
      → one_token + l.last_refill * config.refill_rate ≤ l.tokens + due * config.refill_rate
      → one_token ≤ (refill config l now).tokens
  unfolding refill
  refill-due l now due h late enough = omega (arith, mul-le-mul_right config.refill_rate late)

  -- The timer fires, some time late.
  abbrev fire_late : RateLimiter → ℕ → RateLimiter × List Grant
  fire_late l delay = elim l.timer [ none ↦ (l, []) | some due ↦ drain config l (due + delay) ]

  -- The timer fires again and again, each time with a delay.
  unfoldable pub fire_all : RateLimiter → List ℕ → RateLimiter × List Grant
  fire_all l [] = (l, [])
  fire_all l (delay ∷ delays) =
      let (l₁, grants) = fire_late l delay in
      let (l₂, more) = fire_all l₁ delays in (l₂, grants ++ more)

  fire_late-drain :
      (l : RateLimiter) (delay due : ℕ)
      → l.timer ≡ some due
      → fire_late l delay ≡ drain config l (due + delay)
  fire_late-drain l delay due h =
      ap (λ o. elim o [ none ↦ (l, []) | some t ↦ drain config l (t + delay) ]) h

  drain-progress :
      (l : RateLimiter) (now : ℕ)
      → one_token ≤ (refill config l now).tokens
      → length (drain config l now).0.queue ≤ length l.queue - 1
  unfolding drain refill
  drain-progress l now h = serve-progress now (refill config l now).tokens l.queue h

  drain-order :
      (l : RateLimiter) (now : ℕ)
      → granted_ids (drain config l now).1 ++ waiting_ids (drain config l now).0.queue
        ≡ waiting_ids l.queue
  unfolding drain refill
  drain-order l now = serve-order now (refill config l now).tokens l.queue

  drain-length : (l : RateLimiter) (now : ℕ) → length (drain config l now).0.queue ≤ length l.queue
  unfolding drain refill
  drain-length l now = serve-length now (refill config l now).tokens l.queue

  fire_late_cases {ℓ} :
      (P : RateLimiter × List Grant → Type ℓ) (l : RateLimiter) (delay : ℕ)
      → P (l, [])
      → ((now : ℕ) → P (drain config l now))
      → P (fire_late l delay)
  fire_late_cases P l delay idle drained = elim (Option-cases l.timer) [
    | inl unset ↦ subst P (sym (fire_late-idle unset)) idle
    | inr (due, found) ↦ subst P (sym (fire_late-drain l delay due found)) (drained (due + delay))
  ]
    where
      fire_late-idle : l.timer ≡ none → fire_late l delay ≡ (l, [])
      fire_late-idle h = ap (λ o. elim o [ none ↦ (l, []) | some t ↦ drain config l (t + delay) ]) h

  fire_late-progress :
      (l : RateLimiter) (delay : ℕ)
      → 0 < config.capacity
      → IsArmed l
      → length (fire_late l delay).0.queue ≤ length l.queue - 1
  fire_late-progress l delay h armed = elim (Bool-cases (is_empty l.queue)) [
    | inl idle ↦
        let none_wait : length l.queue ≡ 0 = length_of-is_empty l.queue idle in
        let shorter : length (fire_late l delay).0.queue ≤ length l.queue =
          fire_late_cases (λ r. length r.0.queue ≤ length l.queue) l delay (omega arith)
            (drain-length l) in
        omega (arith, none_wait, shorter)
    | inr waiting ↦
        let (due, found, later, enough) = armed waiting in
        subst (λ r. length r.0.queue ≤ length l.queue - 1) (sym (fire_late-drain l delay due found))
          (drain-progress l (due + delay) (refill-due l (due + delay) due h (omega arith) enough))
  ]

  fire_all-queue :
      (l : RateLimiter) (delays : List ℕ)
      → 0 < config.capacity
      → 0 < config.refill_rate
      → IsArmed l
      → (length (fire_all l delays).0.queue ≤ length l.queue - length delays)
        × (granted_ids (fire_all l delays).1 ++ waiting_ids (fire_all l delays).0.queue
            ≡ waiting_ids l.queue)
  unfolding fire_all
  fire_all-queue l [] c r armed = (omega arith, refl)
  fire_all-queue l (delay ∷ delays) c r armed =
      let (next, grants) = fire_late l delay in
      let (shorter, order) =
        fire_all-queue next delays c r
          (fire_late_cases (λ x. IsArmed x.0) l delay armed (λ now. drain-IsArmed l now r)) in
      let more = (fire_all next delays).1 in
      let left = waiting_ids (fire_all next delays).0.queue in
      (
        omega (arith, shorter, fire_late-progress l delay c armed),
        ap (λ ids. ids ++ left) (map-append (λ g. g.id) grants more)
            ∙ append_assoc (granted_ids grants) (granted_ids more) left
            ∙ ap (λ ids. granted_ids grants ++ ids) order
            ∙ fire_late_cases (λ x. granted_ids x.1 ++ waiting_ids x.0.queue ≡ waiting_ids l.queue)
                l delay refl (drain-order l),
      )

  -- No waiter waits forever: when a drain has left waiters, and its timer then fires once for each
  -- of them, however late each time, all are served, in the order in which they came, if the
  -- capacity and the rate are not 0 and no other call takes a token in between.
  pub fire_all-serves :
      (l : RateLimiter) (now : ℕ) (delays : List ℕ)
      → 0 < config.capacity
      → 0 < config.refill_rate
      → length (drain config l now).0.queue ≤ length delays
      → let r = fire_all (drain config l now).0 delays in
        (r.0.queue ≡ []) × (granted_ids r.1 ≡ waiting_ids (drain config l now).0.queue)
  fire_all-serves l now delays c r enough =
      let left = (drain config l now).0 in
      let (shorter, order) = fire_all-queue left delays c r (drain-IsArmed l now r) in
      let empty = empty_of_length (fire_all left delays).0.queue (omega (arith, shorter, enough)) in
      (
        empty,
        sym (append-nil (granted_ids (fire_all left delays).1))
            ∙ ap (λ q. granted_ids (fire_all left delays).1 ++ waiting_ids q) (sym empty)
            ∙ order,
      )
