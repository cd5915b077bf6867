-- ===== src/Trackers/CircuitBreaker.antt =====
-- packages/engine/src/circuit-breaker.ts. The counter is not bounded.
use traderton.Prelude.{
  ℕ, suc, ◌+◌, ◌≤◌, ◌<◌, ◌≡◌, refl, ◌↔◌, Bool, true, false, List, [], ◌∷◌, arith, leb,
  if◌then◌else◌,
}

pub record VenueCircuitBreaker : Type 0 where
  pub max_consecutive_errors : ℕ
  pub consecutive_errors : ℕ
  pub tripped : Bool

unfoldable pub new : ℕ → VenueCircuitBreaker
new max = record { max_consecutive_errors = max; consecutive_errors = 0; tripped = false }

unfoldable pub record_success : VenueCircuitBreaker → VenueCircuitBreaker
record_success b = record b { consecutive_errors = 0; tripped = false }

-- Also returns whether the breaker is tripped.
unfoldable pub record_error : VenueCircuitBreaker → VenueCircuitBreaker × Bool
record_error b =
    let errors = b.consecutive_errors + 1 in
    let tripped = if leb b.max_consecutive_errors errors then true else b.tripped in
    (record b { consecutive_errors = errors; tripped = tripped }, tripped)

unfoldable pub is_open : VenueCircuitBreaker → Bool
is_open b = b.tripped

unfoldable pub reset : VenueCircuitBreaker → VenueCircuitBreaker
reset b = record b { consecutive_errors = 0; tripped = false }

unfoldable pub error_count : VenueCircuitBreaker → ℕ
error_count b = b.consecutive_errors

pub data BreakerCall : Type 0 where
  success failure manual_reset : BreakerCall

unfoldable pub after_call : VenueCircuitBreaker → BreakerCall → VenueCircuitBreaker
unfolding record_success record_error reset
after_call b success = record_success b
after_call b failure = (record_error b).0
after_call b manual_reset = reset b

-- The calls of a breaker's life, the latest first.
unfoldable pub after_calls : ℕ → List BreakerCall → VenueCircuitBreaker
unfolding new
after_calls max [] = new max
after_calls max (c ∷ cs) = after_call (after_calls max cs) c

-- How many of the latest calls are errors, with no other between.
abbrev pub streak : List BreakerCall → ℕ
streak (failure ∷ cs) = suc (streak cs)
streak _ = 0

pub record Tracks (max : ℕ) (cs : List BreakerCall) : Type 0 where
  pub limit : (after_calls max cs).max_consecutive_errors ≡ max
  pub counted : error_count (after_calls max cs) ≡ streak cs
  pub open_iff : (is_open (after_calls max cs) ≡ true) ↔ ((max ≤ streak cs) × (0 < streak cs))

-- The breaker counts the errors since the last success or reset, and is open exactly when there
-- are some and they have reached the limit.
pub after_calls-Tracks : (max : ℕ) (cs : List BreakerCall) → Tracks max cs
unfolding after_calls after_call error_count is_open
after_calls-Tracks max [] = record {
  limit = refl;
  counted = refl;
  open_iff = (λ h. ground arith, λ h. ground arith);
}
after_calls-Tracks max (success ∷ cs) =
    let t = after_calls-Tracks max cs in
    record { limit = t.limit; counted = refl; open_iff = (λ h. ground arith, λ h. ground arith) }
after_calls-Tracks max (manual_reset ∷ cs) =
    let t = after_calls-Tracks max cs in
    record { limit = t.limit; counted = refl; open_iff = (λ h. ground arith, λ h. ground arith) }
after_calls-Tracks max (failure ∷ cs) =
    let t = after_calls-Tracks max cs in
    record {
      limit = t.limit;
      counted = ground arith;
      open_iff = (λ h. ground arith, λ h. ground arith);
    }
