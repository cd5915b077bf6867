-- ===== src/DecisionIntake/Cycle.antt =====
-- packages/engine/src/trading-cycle.ts: one cycle, from the market's snapshot to the booked fills.
-- The strategy and the source of marks are called; of a mark what the cycle reads. The intake's
-- dependencies are those that the cycle passes on, with the actor's defaults filled in.
use traderton.Prelude.{String, str_eq, Bool, List, [], ◌∷◌, Option, none, some, if◌then◌else◌}
use traderton.Decimal.{DecimalLib, Price}
use traderton.Result.{Result, ok, err}
use traderton.Position.{PositionState, is_flat}
use traderton.DecisionIntake.{
  DecisionContext, Submission, IntakeDeps, IntakeTrackers, IntakeCalls, Readings, Effect,
  journal_strategy_error, IntakeOutcome,
}
use traderton.DecisionIntake.Booking.{or_else}
use traderton.DecisionIntake.Submit.{submit_decision_for_execution}

module _ ⦃lib : DecimalLib⦄ where
  pub record MarketSnapshot : Type 0 where
    pub symbol : String
    pub price : Price
    pub timestamp : String

  pub record Mark : Type 0 where
    pub price : Price
    pub stale : Bool
    pub source : String

  pub record CycleCalls (S : Type 0) : Type 0 where
    pub evaluate : S → MarketSnapshot → S × Result (Option Submission) String
    pub mark_source : Option (S → String → S × Result Mark String)
    pub intake : IntakeCalls S

  pub record CycleDeps : Type 0 where
    pub bot_id : Option String
    pub intake : IntakeDeps

  -- `strategy_failed` carries the code that is journalled.
  pub data CycleOutcome : Type 0 where
    strategy_failed : String → CycleOutcome
    undecided : CycleOutcome
    decided : IntakeOutcome → CycleOutcome

  abbrev pub fresh_mark : Result Mark String → MarketSnapshot → Price × String
  fresh_mark (ok mark) snapshot =
      if mark.stale then (snapshot.price, "snapshot") else (mark.price, mark.source)
  fresh_mark (err e) snapshot = (snapshot.price, "snapshot")

  unfoldable pub resolve_reference_mark :
      {S : Type 0}
      → Option (S → String → S × Result Mark String)
      → S
      → MarketSnapshot
      → String
      → S × Price × String
  resolve_reference_mark none s snapshot symbol = (s, snapshot.price, "snapshot")
  resolve_reference_mark (some fetch_mark) s snapshot symbol =
      let (s', answer) = fetch_mark s symbol in
      let (price, source) = fresh_mark answer snapshot in (s', price, source)

  unfoldable pub decision_context :
      MarketSnapshot → PositionState → Price → String → DecisionContext
  decision_context snapshot p mark_price mark_source = record {
    snapshot_symbol = snapshot.symbol;
    snapshot_price = snapshot.price;
    snapshot_timestamp = snapshot.timestamp;
    position =
        if is_flat p.side
        then none
        else some (record {
          side = p.side;
          size = p.size;
          entry_price = p.entry_price;
          realized_pnl = p.realized_pnl;
        });
    mark_price = mark_price;
    mark_source = mark_source;
  }

  -- The strategy's decision with the actor's account and the hash of the context.
  unfoldable pub stamp : CycleDeps → Submission → String → Submission
  stamp deps submission hash = record submission {
    decision = record submission.decision {
      venue_account_id = deps.intake.venue_account_id;
      actor_id =
          if str_eq submission.decision.actor_id ""
          then deps.intake.actor_id
          else submission.decision.actor_id;
      bot_id = or_else deps.bot_id submission.decision.bot_id;
    };
    context_hash = some hash;
  }

  module _ {S : Type 0} (calls : CycleCalls S) (deps : CycleDeps) (clock : Readings) where
    abbrev pub CycleRun : Type 0
    CycleRun = S × IntakeTrackers × List Effect × CycleOutcome

    unfoldable pub after_evaluation :
        MarketSnapshot
        → PositionState
        → IntakeTrackers
        → S
        → Result (Option Submission) String
        → CycleRun
    unfolding resolve_reference_mark decision_context stamp submit_decision_for_execution
    after_evaluation snapshot position trackers s (err e) = (
      s,
      trackers,
      journal_strategy_error deps.intake.actor_type deps.intake.actor_id e ∷ [],
      strategy_failed e,
    )
    after_evaluation snapshot position trackers s (ok none) = (s, trackers, [], undecided)
    after_evaluation snapshot position trackers s (ok (some submission)) =
        let (s', price, source) =
          resolve_reference_mark calls.mark_source s snapshot deps.intake.symbol in
        let context = decision_context snapshot position price source in
        let hash = calls.intake.compute_decision_context_hash context in
        let (s'', trackers', effects, outcome) =
          submit_decision_for_execution calls.intake deps.intake clock (stamp deps submission hash)
            context position trackers s' in
        (s'', trackers', effects, decided outcome)

    unfoldable pub run_trading_cycle :
        MarketSnapshot → PositionState → IntakeTrackers → S → CycleRun
    unfolding after_evaluation
    run_trading_cycle snapshot position trackers s =
        let (s', answer) = calls.evaluate s snapshot in
        after_evaluation snapshot position trackers s' answer
