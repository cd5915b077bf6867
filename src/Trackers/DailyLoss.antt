-- ===== src/Trackers/DailyLoss.antt =====
-- packages/engine/src/daily-loss-tracker.ts. Times are milliseconds, as numbers that do not wrap.
use traderton.Prelude.{
  ℕ, ◌+◌, ◌≤◌, ◌<◌, ◌≡◌, refl, Bool, List, [], ◌∷◌, ◌++◌, Option, none, some, arith, inl, inr,
  Bool-cases, ltb, lt→ltb, if◌then◌else◌, filter, All,
}
use traderton.Decimal.{DecimalLib, Price, decimal, plus, abs, lt}
use Prim.Native.Nat.{min}

abbrev pub day_ms : ℕ
day_ms = 86_400_000

module _ ⦃lib : DecimalLib⦄ where
  pub record LossEntry : Type 0 where
    pub loss : Price
    pub timestamp_ms : ℕ

  pub record DailyLossTracker : Type 0 where
    pub entries : List LossEntry

  unfoldable pub record_fill : DailyLossTracker → Price → ℕ → DailyLossTracker
  record_fill t delta timestamp_ms =
      if lt delta (decimal 0)
      then record {
        entries = t.entries ++ record { loss = abs delta; timestamp_ms = timestamp_ms } ∷ [];
      }
      else t

  -- `e.timestampMs > nowMs - DAY_MS`, with the day on the other side.
  abbrev pub is_active : ℕ → LossEntry → Bool
  is_active now_ms e = ltb now_ms (e.timestamp_ms + day_ms)

  abbrev pub sum_from : Price → List LossEntry → Price
  sum_from sum [] = sum
  sum_from sum (e ∷ es) = sum_from (plus sum e.loss) es

  -- The tracker forgets the expired entries, and the result is the sum of the others.
  unfoldable pub rolling_loss : DailyLossTracker → ℕ → DailyLossTracker × Price
  rolling_loss t now_ms =
      let active = filter (is_active now_ms) t.entries in
      (record { entries = active }, sum_from (decimal 0) active)

  abbrev pub min_from : ℕ → List LossEntry → ℕ
  min_from m [] = m
  min_from m (e ∷ es) = min_from (min m e.timestamp_ms) es

  abbrev pub oldest : List LossEntry → Option ℕ
  oldest [] = none
  oldest (e ∷ es) = some (min_from e.timestamp_ms es)

  unfoldable pub oldest_entry_ms : DailyLossTracker → ℕ → Option ℕ
  oldest_entry_ms t now_ms = oldest (filter (is_active now_ms) t.entries)

  filter_later :
      (now later : ℕ) (es : List LossEntry)
      → now ≤ later
      → filter (is_active later) (filter (is_active now) es) ≡ filter (is_active later) es
  filter_later now later [] h = refl
  filter_later now later (e ∷ es) h = ground (arith, filter_later now later es h)

  -- Asking early loses nothing: what is forgotten at one time counts at no later one.
  pub rolling_loss_later :
      (t : DailyLossTracker) (now later : ℕ)
      → now ≤ later
      → rolling_loss (rolling_loss t now).0 later ≡ rolling_loss t later
  unfolding rolling_loss
  rolling_loss_later t now later h = rw (filter_later now later t.entries h) refl

  min_from-le : (m : ℕ) (es : List LossEntry) → min_from m es ≤ m
  min_from-le m [] = omega arith
  min_from-le m (e ∷ es) = omega (arith, min_from-le (min m e.timestamp_ms) es)

  min_from-All :
      (n m : ℕ) (es : List LossEntry) → n ≤ min_from m es → All (λ e. n ≤ e.timestamp_ms) es
  min_from-All n m [] h = tt
  min_from-All n m (e ∷ es) h = (
    omega (arith, min_from-le (min m e.timestamp_ms) es),
    min_from-All n (min m e.timestamp_ms) es h,
  )

  oldest-All :
      (es : List LossEntry) (first : ℕ)
      → oldest es ≡ some first
      → All (λ e. first ≤ e.timestamp_ms) es
  oldest-All [] first h = tt
  oldest-All (e ∷ es) first h =
      let same : min_from e.timestamp_ms es ≡ first = cc in
      (
        omega (arith, min_from-le e.timestamp_ms es),
        min_from-All first e.timestamp_ms es (omega arith),
      )

  filter_same :
      (now later first : ℕ) (es : List LossEntry)
      → now ≤ later
      → later < first + day_ms
      → All (λ e. first ≤ e.timestamp_ms) (filter (is_active now) es)
      → filter (is_active later) es ≡ filter (is_active now) es
  filter_same now later first [] h k a = refl
  filter_same now later first (e ∷ es) h k a = elim (Bool-cases (is_active now e)) [
    | inl active ↦
        let kept : (first ≤ e.timestamp_ms)
            × All (λ e. first ≤ e.timestamp_ms) (filter (is_active now) es) =
          rw active at a in
        ground (arith, filter_same now later first es h k kept.1)
    | inr expired ↦
        let kept : All (λ e. first ≤ e.timestamp_ms) (filter (is_active now) es) =
          rw expired at a in
        ground (arith, filter_same now later first es h k kept)
  ]

  -- The total stands still until a day after the oldest entry that it counts.
  pub oldest_entry_ms-rolling_loss :
      (t : DailyLossTracker) (now later : ℕ) {first : ℕ}
      → oldest_entry_ms t now ≡ some first
      → now ≤ later
      → later < first + day_ms
      → rolling_loss t later ≡ rolling_loss t now
  unfolding oldest_entry_ms rolling_loss
  oldest_entry_ms-rolling_loss t now later {first} e h k =
      rw (filter_same now later first t.entries h k (oldest-All _ first e)) refl

  sum_from-append :
      (sum : Price) (es ds : List LossEntry)
      → sum_from sum (es ++ ds) ≡ sum_from (sum_from sum es) ds
  sum_from-append sum [] ds = refl
  sum_from-append sum (e ∷ es) ds = sum_from-append (plus sum e.loss) es ds

  filter-append :
      (p : LossEntry → Bool) (es ds : List LossEntry)
      → filter p (es ++ ds) ≡ filter p es ++ filter p ds
  filter-append p [] ds = refl
  filter-append p (e ∷ es) ds = ground (arith, filter-append p es ds)

  -- A loss that is booked in the window adds its size to the total; a profit adds nothing.
  pub rolling_loss-record_fill :
      (t : DailyLossTracker) (delta : Price) (timestamp now : ℕ)
      → now < timestamp + day_ms
      → (rolling_loss (record_fill t delta timestamp) now).1 ≡ (
          if lt delta (decimal 0)
          then plus (rolling_loss t now).1 (abs delta)
          else (rolling_loss t now).1)
  unfolding rolling_loss record_fill
  rolling_loss-record_fill t delta timestamp now h = elim (Bool-cases (lt delta (decimal 0))) [
    | inl loss ↦ rw loss (
        rw (filter-append (is_active now) t.entries _) (
          rw (lt→ltb now (timestamp + day_ms) h)
            (sum_from-append (decimal 0) (filter (is_active now) t.entries) _)))
    | inr profit ↦ rw profit refl
  ]
