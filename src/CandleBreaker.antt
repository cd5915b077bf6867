-- ===== src/CandleBreaker.antt =====
-- packages/worker/src/candle-fetch-breaker.ts: the breaker of one agent and symbol. The store is
-- Redis, which is not part of the repository: what it keeps under the key is an optional state, and
-- that it forgets an entry, as after its time to live, is an event.
use Prim.Native.Nat.{◌^◌}
use native.Mathlib.Nat.{mul-suc}
use traderton.Prelude.{
  ℕ, suc, ◌+◌, ◌*◌, ◌<◌, ◌≤◌, Bool, false, List, [], ◌∷◌, Option, none, some, if◌then◌else◌, leb,
  ltb, leb→le, get_or, ◌≡◌, arith, inl, inr, Bool-cases,
}

pub record BreakerConfig : Type 0 where
  pub fail_scans_before_open : ℕ
  pub base_skip_scans : ℕ
  pub max_skip_scans : ℕ

pub record BreakerState : Type 0 where
  pub fail_count : ℕ
  pub skip_until_scan_epoch : Option ℕ
  pub times_opened : ℕ

unfoldable pub should_skip : Option BreakerState → ℕ → Bool
should_skip none epoch = false
should_skip (some s) epoch = elim s.skip_until_scan_epoch [
  | none ↦ false
  | some until ↦ ltb epoch until
]

-- The key is deleted.
unfoldable pub record_success : Option BreakerState → Option BreakerState
record_success stored = none

abbrev pub min : ℕ → ℕ → ℕ
min a b = if leb a b then a else b

abbrev pub closed : BreakerState
closed = record { fail_count = 0; skip_until_scan_epoch = none; times_opened = 0 }

unfoldable pub record_failure : BreakerConfig → Option BreakerState → ℕ → Option BreakerState
record_failure config stored epoch =
    let state = get_or stored closed in
    if leb config.fail_scans_before_open (suc state.fail_count)
    then some (record {
      fail_count = 0;
      skip_until_scan_epoch =
          some
            (epoch + min (config.base_skip_scans * 2 ^ state.times_opened) config.max_skip_scans);
      times_opened = suc state.times_opened;
    })
    else some (record state { fail_count = suc state.fail_count })

pub data BreakerEvent : Type 0 where
  succeeds : BreakerEvent
  fails : ℕ → BreakerEvent
  forgets : BreakerEvent

unfoldable pub after_event :
    BreakerConfig → Option BreakerState → BreakerEvent → Option BreakerState
after_event config stored succeeds = record_success stored
after_event config stored (fails epoch) = record_failure config stored epoch
after_event config stored forgets = none

-- The latest event comes first.
unfoldable pub after_events : BreakerConfig → List BreakerEvent → Option BreakerState
after_events config [] = none
after_events config (e ∷ es) = after_event config (after_events config es) e

-- The failures since the entry last went.
abbrev pub failures : List BreakerEvent → ℕ
failures (fails epoch ∷ es) = suc (failures es)
failures _ = 0

opened : (n t c total : ℕ) → total ≡ n * t + c → c < n → n ≤ suc c → suc total ≡ n * suc t + 0
opened n t c total h few enough = rw (mul-suc n t) (omega arith)

-- With a threshold n above 0, the failures since the last success, or since the store forgot, are n
-- for each time that the breaker has opened, and the failures that it counts, fewer than n: it opens
-- at every n-th failure and at no other.
pub after_events_lem :
    (config : BreakerConfig) (es : List BreakerEvent)
    → 0 < config.fail_scans_before_open
    → let s = get_or (after_events config es) closed in
      (failures es ≡ config.fail_scans_before_open * s.times_opened + s.fail_count)
      × (s.fail_count < config.fail_scans_before_open)
unfolding after_events after_event record_success record_failure
after_events_lem config [] h = (omega arith, h)
after_events_lem config (succeeds ∷ es) h = (omega arith, h)
after_events_lem config (forgets ∷ es) h = (omega arith, h)
after_events_lem config (fails epoch ∷ es) h =
    let (counted, few) = after_events_lem config es h in
    let s = get_or (after_events config es) closed in
    elim (Bool-cases (leb config.fail_scans_before_open (suc s.fail_count))) [
      | inl opens ↦
          rw (record_failure, opens)
            (
              opened config.fail_scans_before_open s.times_opened s.fail_count (failures es) counted
                  few (leb→le _ _ opens),
              h,
            )
      | inr waits ↦
          rw (record_failure, waits) (ground (arith, counted, waits), ground (arith, waits, few))
    ]

-- A scan that is the maximum skip or more later than a failure, and was not to be skipped before
-- it, is not skipped after it.
pub should_skip-record_failure :
    (config : BreakerConfig) (stored : Option BreakerState) (epoch later : ℕ)
    → epoch + config.max_skip_scans ≤ later
    → should_skip stored later ≡ false
    → should_skip (record_failure config stored epoch) later ≡ false
unfolding should_skip record_failure
should_skip-record_failure config none epoch later h k = ground (arith, h, k)
should_skip-record_failure config (some s) epoch later h k = ground (arith, h, k)
