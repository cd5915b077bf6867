-- ===== src/InstanceLease.antt =====
-- packages/worker/src/instance-lease.ts: the lease of a trading instance, a key in Redis with the
-- worker that owns it, and the timers that renew it. The keys are a function of the instance, the
-- clock is that of Redis, and a command or a script runs at once. An answer that is an error is
-- `none`; what was run in Redis before it stands.
pub mod Exclusion
pub mod Renewal
use traderton.Prelude.{
  ℕ, suc, ◌+◌, ◌*◌, ◌/◌, String, Bool, true, false, not, List, [], ◌∷◌, Option, none, some,
  if◌then◌else◌, ltb, ◌==◌, str_eq, ◌&&◌,
}

pub record Lease : Type 0 where
  pub worker_id : String
  pub expires_at : ℕ

abbrev pub Keys : Type 0
Keys = String → Option Lease

abbrev pub put {ℓ} : {A : Type ℓ} → String → A → (String → A) → String → A
put key a keys other = if str_eq key other then a else keys other

-- GET, which does not find a key that has expired.
abbrev pub value_at : Option Lease → ℕ → Option String
value_at none now = none
value_at (some lease) now = if ltb now lease.expires_at then some lease.worker_id else none

abbrev pub is_worker : Option String → String → Bool
is_worker none worker_id = false
is_worker (some owner) worker_id = str_eq owner worker_id

pub record Timer : Type 0 where
  pub id : ℕ
  pub in_flight : Bool

-- `next_timer` stands for the identity of the next timer that is made.
pub record InstanceLease : Type 0 where
  pub worker_id : String
  pub ttl_seconds : ℕ
  pub renew_timers : String → Option Timer
  pub next_timer : ℕ

abbrev pub expiry : InstanceLease → ℕ → ℕ
expiry l now = now + l.ttl_seconds * 1_000

unfoldable pub holder : Keys → String → ℕ → Option String
holder keys instance_id now = value_at (keys instance_id) now

unfoldable pub stop_renewal : InstanceLease → String → InstanceLease
stop_renewal l instance_id = record l { renew_timers = put instance_id none l.renew_timers }

unfoldable pub start_renewal : InstanceLease → String → InstanceLease
unfolding stop_renewal
start_renewal l instance_id =
    let l' = stop_renewal l instance_id in
    record l' {
      renew_timers =
          put instance_id (some (record { id = l.next_timer; in_flight = false })) l'.renew_timers;
      next_timer = suc l.next_timer;
    }

-- SET NX EX.
unfoldable pub set_if_free : Option String → InstanceLease → Keys → String → ℕ → Keys × Bool
set_if_free (some owner) l keys instance_id now = (keys, false)
set_if_free none l keys instance_id now = (
  put instance_id (some (record { worker_id = l.worker_id; expires_at = expiry l now })) keys,
  true,
)

unfoldable pub acquire : InstanceLease → Keys → String → ℕ → InstanceLease × Keys × Bool
unfolding set_if_free holder start_renewal
acquire l keys instance_id now =
    let (keys', acquired) = set_if_free (holder keys instance_id now) l keys instance_id now in
    (if acquired then start_renewal l instance_id else l, keys', acquired)

-- The scripts, which do nothing unless the worker owns the key.
unfoldable pub delete_if_owned : InstanceLease → Keys → String → ℕ → Keys × Bool
unfolding holder
delete_if_owned l keys instance_id now =
    if is_worker (holder keys instance_id now) l.worker_id
    then (put instance_id none keys, true)
    else (keys, false)

unfoldable pub release : InstanceLease → Keys → String → ℕ → InstanceLease × Keys × Bool
unfolding stop_renewal delete_if_owned
release l keys instance_id now =
    let (keys', released) = delete_if_owned l keys instance_id now in
    (stop_renewal l instance_id, keys', released)

unfoldable pub renew : InstanceLease → Keys → String → ℕ → Keys × Bool
unfolding holder
renew l keys instance_id now =
    if is_worker (holder keys instance_id now) l.worker_id
    then (
      put instance_id (some (record { worker_id = l.worker_id; expires_at = expiry l now })) keys,
      true,
    )
    else (keys, false)

unfoldable pub release_all : InstanceLease → Keys → List String → ℕ → InstanceLease × Keys
unfolding release
release_all l keys [] now = (l, keys)
release_all l keys (id ∷ ids) now =
    let (l', keys', released) = release l keys id now in release_all l' keys' ids now

unfoldable pub shutdown : InstanceLease → InstanceLease
shutdown l = record l { renew_timers = λ id. none }

-- The callback of `setInterval`: the timer, and whether it sends a renewal.
unfoldable pub tick : Timer → Timer × Bool
tick t = (record t { in_flight = true }, not t.in_flight)

unfoldable pub tick_of : Option Timer → InstanceLease → String → InstanceLease × Bool
unfolding tick
tick_of none l instance_id = (l, false)
tick_of (some t) l instance_id =
    let (t', sends) = tick t in
    (record l { renew_timers = put instance_id (some t') l.renew_timers }, sends)

-- What the timer that sent a renewal does with the answer: `inFlight` is its own, and it stops only
-- itself.
unfoldable pub answer_of : Option Timer → InstanceLease → String → ℕ → Option Bool → InstanceLease
unfolding stop_renewal
answer_of none l instance_id id answer = l
answer_of (some t) l instance_id id (some false) =
    if t.id == id then stop_renewal l instance_id else l
answer_of (some t) l instance_id id answer =
    if t.id == id
    then record l {
      renew_timers = put instance_id (some (record t { in_flight = false })) l.renew_timers;
    }
    else l
