-- ===== src/InstanceLease/Renewal.antt =====
-- packages/worker/src/instance-lease.ts: the timers that renew the leases of one worker.
use text.Mathlib.TextEquality.{eq_iff}
use text.Mathlib.TextPositions.{eq_refl}
use traderton.Prelude.{
  ℕ, ◌≡◌, refl, ◌∙◌, ap, String, Bool, true, false, List, [], ◌∷◌, Option, none, some, arith, inl,
  inr, ◌⊎◌, Bool-cases, if◌then◌else◌, str_eq, ◌==◌,
}
use mathlib.Core.Option.{some-injective}
use traderton.InstanceLease.{
  InstanceLease, Timer, put, start_renewal, stop_renewal, shutdown, tick, tick_of, answer_of,
}

-- What happens to the timers of a worker: an acquisition that succeeded, a release, the turn of a
-- timer, and the answer to the renewal that a timer has sent.
pub data TimerEvent : Type 0 where
  starts : String → TimerEvent
  stops : String → TimerEvent
  ticks : String → TimerEvent
  answers : String → ℕ → Option Bool → TimerEvent
  shuts_down : TimerEvent

unfoldable pub after_timer_event : InstanceLease → TimerEvent → InstanceLease
unfolding start_renewal stop_renewal tick_of answer_of shutdown
after_timer_event l (starts id) = start_renewal l id
after_timer_event l (stops id) = stop_renewal l id
after_timer_event l (ticks id) = (tick_of (l.renew_timers id) l id).0
after_timer_event l (answers id timer answer) = answer_of (l.renew_timers id) l id timer answer
after_timer_event l shuts_down = shutdown l

unfoldable pub after_timer_events : InstanceLease → List TimerEvent → InstanceLease
unfolding after_timer_event
after_timer_events l [] = l
after_timer_events l (e ∷ es) = after_timer_events (after_timer_event l e) es

module _ (instance_id : String) (timer : ℕ) where
  -- The timer of the instance, whether it waits for an answer or not.
  abbrev pub IsTimed : InstanceLease → Type 0
  IsTimed l =
      (waiting : Bool) × (l.renew_timers instance_id
        ≡ some (record { id = timer; in_flight = waiting }))

  -- The event is no release, no other acquisition, no shutdown, and not the timer's own news that the
  -- lease is lost.
  abbrev pub Spares : TimerEvent → Type 0
  Spares (starts id) = str_eq id instance_id ≡ false
  Spares (stops id) = str_eq id instance_id ≡ false
  Spares (ticks id) = Unit
  Spares (answers id t (some false)) = str_eq id instance_id ≡ true → (timer == t) ≡ false
  Spares (answers id t answer) = Unit
  Spares shuts_down = true ≡ false

  abbrev timer_with : Bool → Timer
  timer_with waiting = record { id = timer; in_flight = waiting }

  -- The timer of the instance, or one of another.
  abbrev IsTimerOf : String → Option Timer → Type 0
  IsTimerOf id o =
      ((str_eq id instance_id ≡ true) × (waiting : Bool) × (o ≡ some (timer_with waiting)))
      ⊎ (str_eq id instance_id ≡ false)

  renew_timers-IsTimerOf :
      (l : InstanceLease) (id : String) → IsTimed l → IsTimerOf id (l.renew_timers id)
  renew_timers-IsTimerOf l id (waiting, h) = elim (Bool-cases (str_eq id instance_id)) [
    | inl same ↦
        let id_same : id ≡ instance_id = ground (arith, eq_iff id instance_id) in
        inl (same, waiting, ap l.renew_timers id_same ∙ h)
    | inr apart ↦ inr apart
  ]

  -- Setting a timer with the same identity, or that of another instance.
  put-IsTimed :
      (l : InstanceLease) (id : String) (t : Timer) (waiting : Bool)
      → IsTimed l
      → IsTimerOf id (some t)
      → IsTimed (record l {
        renew_timers = put id (some (record t { in_flight = waiting })) l.renew_timers;
      })
  put-IsTimed l id t waiting set_before (inl (same, before, h)) = (
    waiting,
    rw same (
        ap {B = Option Timer} (λ id. some (record { id = id; in_flight = waiting }))
          (ap (λ t'. t'.id) (some-injective _ _ h))),
  )
  put-IsTimed l id t waiting (now, set_now) (inr apart) = (now, rw apart set_now)

  stop-IsTimed :
      (l : InstanceLease) (id : String)
      → IsTimed l
      → str_eq id instance_id ≡ false
      → IsTimed (stop_renewal l id)
  unfolding stop_renewal
  stop-IsTimed l id (now, set_now) apart = (now, rw apart set_now)

  tick_of-IsTimed :
      (l : InstanceLease) (id : String) (o : Option Timer)
      → IsTimed l
      → IsTimerOf id o
      → IsTimed (tick_of o l id).0
  unfolding tick_of tick
  tick_of-IsTimed l id none set_before which = set_before
  tick_of-IsTimed l id (some t) set_before which = put-IsTimed l id t true set_before which

  if-IsTimed :
      (b : Bool) (l l' : InstanceLease)
      → IsTimed l'
      → (b ≡ true → IsTimed l)
      → IsTimed (if b then l else l')
  if-IsTimed true l l' other h = h refl
  if-IsTimed false l l' other h = other

  lost-IsTimed :
      (l : InstanceLease) (id : String) (t : Timer) (sent : ℕ)
      → IsTimed l
      → IsTimerOf id (some t)
      → Spares (answers id sent (some false))
      → (t.id == sent) ≡ true
      → IsTimed (stop_renewal l id)
  lost-IsTimed l id t sent set_before (inl (same, before, h)) s hit =
      let own : t.id ≡ timer = ap (λ t'. t'.id) (some-injective _ _ h) in
      let missed = s same in absurd (ground arith)
  lost-IsTimed l id t sent set_before (inr apart) s hit = stop-IsTimed l id set_before apart

  answer_of-IsTimed :
      (l : InstanceLease) (id : String) (o : Option Timer) (sent : ℕ) (answer : Option Bool)
      → IsTimed l
      → IsTimerOf id o
      → Spares (answers id sent answer)
      → IsTimed (answer_of o l id sent answer)
  unfolding answer_of
  answer_of-IsTimed l id none sent answer set_before which s = set_before
  answer_of-IsTimed l id (some t) sent (some false) set_before which s =
      if-IsTimed (t.id == sent) _ l set_before (lost-IsTimed l id t sent set_before which s)
  answer_of-IsTimed l id (some t) sent (some true) set_before which s =
      if-IsTimed (t.id == sent) _ l set_before (λ e. put-IsTimed l id t false set_before which)
  answer_of-IsTimed l id (some t) sent none set_before which s =
      if-IsTimed (t.id == sent) _ l set_before (λ e. put-IsTimed l id t false set_before which)

  after_timer_event-IsTimed :
      (l : InstanceLease) (e : TimerEvent) → IsTimed l → Spares e → IsTimed (after_timer_event l e)
  unfolding after_timer_event start_renewal stop_renewal
  after_timer_event-IsTimed l (starts id) (now, set_now) apart = (now, rw apart set_now)
  after_timer_event-IsTimed l (stops id) set_before apart = stop-IsTimed l id set_before apart
  after_timer_event-IsTimed l (ticks id) set_before s =
      tick_of-IsTimed l id (l.renew_timers id) set_before (renew_timers-IsTimerOf l id set_before)
  after_timer_event-IsTimed l (answers id sent answer) set_before s =
      answer_of-IsTimed l id (l.renew_timers id) sent answer set_before
        (renew_timers-IsTimerOf l id set_before) s
  after_timer_event-IsTimed l shuts_down set_before s = ground arith

  abbrev pub AreSpared : List TimerEvent → Type 0
  AreSpared [] = Unit
  AreSpared (e ∷ es) = Spares e × AreSpared es

  after_timer_events-IsTimed :
      (es : List TimerEvent) (l : InstanceLease)
      → IsTimed l
      → AreSpared es
      → IsTimed (after_timer_events l es)
  unfolding after_timer_events
  after_timer_events-IsTimed [] l set_before s = set_before
  after_timer_events-IsTimed (e ∷ es) l set_before s =
      after_timer_events-IsTimed es (after_timer_event l e)
        (after_timer_event-IsTimed l e set_before s.0) s.1

-- The timer that an acquisition has started stays set until a release, another acquisition, a
-- shutdown, or its own news that the lease is lost: no error stops it, and no late answer to a timer
-- that it has replaced.
pub start_renewal-IsTimed :
    (l : InstanceLease) (instance_id : String) (es : List TimerEvent)
    → AreSpared instance_id l.next_timer es
    → IsTimed instance_id l.next_timer (after_timer_events (start_renewal l instance_id) es)
unfolding start_renewal stop_renewal
start_renewal-IsTimed l instance_id es s =
    after_timer_events-IsTimed instance_id l.next_timer es (start_renewal l instance_id)
      (false, rw (eq_refl instance_id) refl) s
