-- ===== src/Tests/Limits.antt =====
-- Runs of packages/domain/src/agent-risk-contract.ts and packages/worker/src/candle-fetch-breaker.ts.
use traderton.Decimal.Integers.{whole_numbers}
use traderton.AgentRisk.Enforced.{
  AgentRiskLimitSource, AgentRiskDefaultsConfig, build_agent_risk_limits, resolve_profile,
}
use traderton.AgentRisk.Shown.{promised, promised_price, build_agent_risk_limits-promised}
use traderton.Prelude.{◌≡◌, refl, ◌+◌, ◌*◌, ◌<◌, ℕ, false, List, [], ◌∷◌, none, some, get_or, arith}
use traderton.AgentRisk.{
  max_open_positions, AgentRiskCreatorInput, AgentRiskCeilings, AgentRiskOverrides,
  resolve_agent_risk_contract, resolve_risk_field, validate_risk_override, at,
}
use traderton.AgentRisk.Overrides.{with_override, validate_risk_override-resolve}
use traderton.CandleBreaker.{
  BreakerConfig, BreakerEvent, fails, succeeds, closed, after_events, record_failure, should_skip,
  after_events_lem, should_skip-record_failure,
}

abbrev nothing_set : AgentRiskCreatorInput
nothing_set = record {
  max_open_positions = none;
  max_position_size_pct = none;
  stop_loss_pct = some 3;
  stop_loss_cooldown_ms = none;
  max_drawdown_pct = none;
}

abbrev ceilings : AgentRiskCeilings
ceilings = record {
  max_open_positions = 5;
  max_position_size_pct = 20;
  stop_loss_pct = 10;
  stop_loss_cooldown_ms = 60000;
  max_drawdown_pct = 25;
}

abbrev no_overrides : AgentRiskOverrides
no_overrides = record {
  max_open_positions = some 9;
  max_position_size_pct = none;
  stop_loss_pct = none;
  stop_loss_cooldown_ms = none;
  max_drawdown_pct = none;
}

abbrev positions_in_force : ℕ
positions_in_force =
    (at max_open_positions
      (resolve_agent_risk_contract nothing_set ceilings no_overrides none)).effective_value

accepted_override :
    validate_risk_override max_open_positions
      (resolve_agent_risk_contract nothing_set ceilings no_overrides none)
      (some 4)
    ≡ none
unfolding validate_risk_override resolve_agent_risk_contract resolve_risk_field
accepted_override = refl

validate_risk_override-resolve_example :
    (at max_open_positions (
      resolve_agent_risk_contract nothing_set ceilings
        (with_override max_open_positions (some 4) no_overrides)
        none)).effective_value
    ≡ 4
validate_risk_override-resolve_example =
    validate_risk_override-resolve max_open_positions nothing_set ceilings no_overrides none 4
      accepted_override

abbrev config : BreakerConfig
config = record { fail_scans_before_open = 2; base_skip_scans = 3; max_skip_scans = 10 }

abbrev scans : List BreakerEvent
scans = fails 3 ∷ fails 2 ∷ fails 1 ∷ succeeds ∷ []

after_events_lem_example :
    (3
      ≡ 2 * (get_or (after_events config scans) closed).times_opened
        + (get_or (after_events config scans) closed).fail_count)
    × ((get_or (after_events config scans) closed).fail_count < 2)
after_events_lem_example = after_events_lem config scans (omega arith)

not_skipped : should_skip none 20 ≡ false
unfolding should_skip
not_skipped = refl

skips_after_failure : should_skip (record_failure config none 10) 20 ≡ false
skips_after_failure = should_skip-record_failure config none 10 20 (omega arith) not_skipped

abbrev agent_source : AgentRiskLimitSource
agent_source = record { capital = none; risk_posture = none }

abbrev agent_defaults : AgentRiskDefaultsConfig
agent_defaults = record {
  max_open_positions = 3;
  max_position_size_pct = 20;
  stop_loss_pct = 5;
  stop_loss_cooldown_ms = 1_000;
  max_drawdown_pct = 10;
  daily_max_loss_pct = 4;
  max_order_notional_multiplier = 2;
}

build_agent_risk_limits-promised_example :
    let r = build_agent_risk_limits agent_source agent_defaults no_overrides in
    let p = resolve_profile agent_source agent_defaults no_overrides in
    (r.limits.max_open_positions ≡ promised p.five.max_open_positions)
    × (r.limits.max_position_size_pct ≡ promised_price p.five.max_position_size_pct)
    × (r.stop_loss_max_unrealized_loss_pct ≡ promised_price p.five.stop_loss_pct)
    × (r.limits.stop_loss_cooldown_ms ≡ promised p.five.stop_loss_cooldown_ms)
    × (r.limits.max_drawdown_pct ≡ promised_price p.five.max_drawdown_pct)
    × (r.limits.daily_max_loss_pct ≡ promised_price p.daily_max_loss_pct)
    × (r.limits.max_order_notional ≡ promised_price p.max_order_notional)
build_agent_risk_limits-promised_example =
    build_agent_risk_limits-promised agent_source agent_defaults no_overrides
