-- ===== src/Tests/Leases.antt =====
-- Runs of packages/worker/src/instance-lease.ts.
use traderton.Prelude.{◌≡◌, refl, List, [], ◌∷◌, none, some, true, false, String, arith}
use traderton.InstanceLease.{InstanceLease, Keys, acquire, start_renewal, holder, set_if_free}
use traderton.InstanceLease.Exclusion.{
  LeaseCall, acquires, releases, renews, AreAnswered, acquire-AreAnswered,
}
use traderton.InstanceLease.Renewal.{
  TimerEvent, starts, ticks, answers, IsTimed, after_timer_events, start_renewal-IsTimed,
}

abbrev lease_of : String → InstanceLease
lease_of worker = record {
  worker_id = worker;
  ttl_seconds = 30;
  renew_timers = λ id. none;
  next_timer = 4;
}

abbrev no_keys : Keys
no_keys id = none

-- Another worker tries twice to acquire, once just before the end, and to release.
abbrev calls : List LeaseCall
calls =
    acquires (lease_of "b") "bot" 1
    ∷ renews (lease_of "a") "bot" 15_000
    ∷ releases (lease_of "b") "bot" 29_000
    ∷ acquires (lease_of "b") "bot" 44_999
    ∷ []

first_acquires : (acquire (lease_of "a") no_keys "bot" 0).2 ≡ true
unfolding acquire holder set_if_free
first_acquires = refl

taken_over :
    (acquire (lease_of "b") (acquire (lease_of "a") no_keys "bot" 0).1 "bot" 30_000).2 ≡ true
unfolding acquire holder set_if_free
taken_over = refl

acquire-AreAnswered_example :
    AreAnswered (lease_of "a") "bot" (acquire (lease_of "a") no_keys "bot" 0).1 calls
acquire-AreAnswered_example =
    acquire-AreAnswered (lease_of "a") "bot" no_keys 0 calls first_acquires
      (omega arith, tt, (omega arith, tt, (omega arith, λ e. refl, (omega arith, tt, tt))))

-- The answer of a timer that was replaced, an error, and an acquisition of another instance.
abbrev events : List TimerEvent
events = ticks "bot" ∷ answers "bot" 3 (some false) ∷ answers "bot" 4 none ∷ starts "other" ∷ []

start_renewal-IsTimed_example :
    IsTimed "bot" 4 (after_timer_events (start_renewal (lease_of "a") "bot") events)
start_renewal-IsTimed_example =
    start_renewal-IsTimed (lease_of "a") "bot" events (tt, (λ e. refl, (tt, (refl, tt))))
