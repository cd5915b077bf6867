-- ===== src/DecisionIntake/Cycles.antt =====
-- What a cycle of packages/engine/src/trading-cycle.ts does with a position.
use traderton.Prelude.{
  String, str_eq, ◌≡◌, refl, List, [], ◌∷◌, true, false, Option, none, some, arith,
}
use text.Mathlib.TextEquality.{eq_iff}
use traderton.Decimal.{DecimalLib, decimal, lte}
use traderton.Decimal.Laws.{Exact}
use traderton.Result.{Result, ok, err}
use traderton.Position.{PositionState}
use traderton.Position.Exposure.{IsValid}
use traderton.Planner.{is_swap}
use traderton.Planner.Orders.{destination}
use traderton.DecisionIntake.{
  DecisionContext, Submission, IntakeTrackers, IntakeCalls, Readings, IntakeOutcome, Effect,
  journal_strategy_error,
}
use traderton.DecisionIntake.Hash.{normalize_context_hash}
use traderton.DecisionIntake.Landing.{FillsCompletely, matched-Lands}
use traderton.DecisionIntake.Outcomes.{Lands}
use traderton.DecisionIntake.Submit.{submit_decision_for_execution, is_mismatch}
use traderton.DecisionIntake.Cycle.{
  MarketSnapshot, CycleCalls, CycleDeps, CycleOutcome, strategy_failed, undecided, decided, stamp,
  resolve_reference_mark, decision_context, after_evaluation, run_trading_cycle,
}

module _ ⦃lib : DecimalLib⦄ where
  abbrev pub CycleRun : Type 0 → Type 0
  CycleRun S = S × IntakeTrackers × List Effect × CycleOutcome

  -- A hash that a trim leaves as it is, such as hexadecimal digits.
  abbrev pub HashesAreTrimmed : {S : Type 0} → IntakeCalls S → Type 0
  HashesAreTrimmed calls =
      (c : DecisionContext)
      → normalize_context_hash (some (calls.compute_decision_context_hash c))
        ≡ some (calls.compute_decision_context_hash c)

  -- What a cycle from a state does for an answer of the strategy. An error is journalled and fails
  -- the cycle, and nothing else happens, as nothing does for no decision. A decision is submitted
  -- once the mark is known: the hashes never differ, and it is carried out as the intake does.
  abbrev pub Ends :
      {S : Type 0}
      → CycleCalls S
      → CycleDeps
      → MarketSnapshot
      → PositionState
      → IntakeTrackers
      → S
      → Result (Option Submission) String
      → CycleRun S
      → Type 0
  Ends calls deps snapshot p trackers s (err e) run = run ≡ (
    s,
    trackers,
    journal_strategy_error deps.intake.actor_type deps.intake.actor_id e ∷ [],
    strategy_failed e,
  )
  Ends calls deps snapshot p trackers s (ok none) run = run ≡ (s, trackers, [], undecided)
  Ends calls deps snapshot p trackers s (ok (some submission)) (s', trackers', effects, outcome) =
      (o : IntakeOutcome) × (outcome ≡ decided o)
      × Lands calls.intake
          (resolve_reference_mark calls.mark_source s snapshot deps.intake.symbol).0 p
          (destination submission.decision.intent (is_swap deps.intake.venue_type) p.side p.size
            submission.decision.target_size)
          snapshot.price (s', trackers', effects, o)

  abbrev pub AsksWell : Result (Option Submission) String → Type 0
  AsksWell (ok (some submission)) = lte (decimal 0) submission.decision.target_size ≡ true
  AsksWell _ = Unit

str_eq_refl : (s : String) → str_eq s s ≡ true
str_eq_refl s = ground (arith, eq_iff s s)

module _ ⦃lib : DecimalLib⦄ ⦃ex : Exact⦄ {S : Type 0} (calls : CycleCalls S) (deps : CycleDeps)
    (clock : Readings) (complete : FillsCompletely calls.intake)
    (trimmed : HashesAreTrimmed calls.intake) where
  submit_stamped-Lands :
      (submission : Submission) (context : DecisionContext) (position : PositionState)
      (trackers : IntakeTrackers) (s : S)
      → IsValid position
      → lte (decimal 0) submission.decision.target_size ≡ true
      → Lands calls.intake s position
          (destination submission.decision.intent
            (is_swap deps.intake.venue_type)
            position.side
            position.size
            submission.decision.target_size)
          context.snapshot_price
          (submit_decision_for_execution calls.intake deps.intake clock
            (stamp deps submission (calls.intake.compute_decision_context_hash context))
            context
            position
            trackers
            s)
  unfolding stamp
  submit_stamped-Lands submission context position trackers s v t =
      let hash = calls.intake.compute_decision_context_hash context in
      let same : is_mismatch (normalize_context_hash (some hash)) hash ≡ false =
        rw (trimmed context, str_eq_refl hash) refl in
      matched-Lands calls.intake deps.intake clock complete s (stamp deps submission hash) context
        position trackers v t same

  after_evaluation-Ends :
      (answer : Result (Option Submission) String) (snapshot : MarketSnapshot)
      (position : PositionState) (trackers : IntakeTrackers) (s : S)
      → IsValid position
      → AsksWell answer
      → Ends calls deps snapshot position trackers s answer
          (after_evaluation calls deps clock snapshot position trackers s answer)
  unfolding after_evaluation decision_context
  after_evaluation-Ends (err e) snapshot position trackers s v t = refl
  after_evaluation-Ends (ok none) snapshot position trackers s v t = refl
  after_evaluation-Ends (ok (some submission)) snapshot position trackers s v t =
      let (s', price, source) =
        resolve_reference_mark calls.mark_source s snapshot deps.intake.symbol in
      (
        _,
        refl,
        submit_stamped-Lands submission (decision_context snapshot position price source) position
            trackers s' v t,
      )

  -- A cycle from a well-formed position, with a strategy that asks for no negative target, an
  -- executor that fills every order of a plan where it returns a result, and hashes that a trim
  -- leaves alone: an error of the strategy is journalled and fails the cycle, no decision does
  -- nothing, and neither touches a tracker. A decision never meets a mismatch of hashes, and one of
  -- two things happens: the executor is not called and the position stays, or it is called once and
  -- last, with a plan that leads to the destination of the intent, where the position then is if
  -- there is a result; an error or the end of its time leaves the position, and what it throws is
  -- thrown on.
  pub run_trading_cycle-Ends :
      (snapshot : MarketSnapshot) (position : PositionState) (trackers : IntakeTrackers) (s : S)
      → IsValid position
      → AsksWell (calls.evaluate s snapshot).1
      → Ends calls deps snapshot position trackers
          (calls.evaluate s snapshot).0
          (calls.evaluate s snapshot).1
          (run_trading_cycle calls deps clock snapshot position trackers s)
  unfolding run_trading_cycle
  run_trading_cycle-Ends snapshot position trackers s v t =
      after_evaluation-Ends (calls.evaluate s snapshot).1 snapshot position trackers _ v t
