-- ===== src/AgentRisk/Shown.antt =====
-- The profile that an agent is shown against the limits that the gate is given.
use traderton.Prelude.{
  ℕ, ◌≡◌, refl, ap, Bool, true, false, not, ◌||◌, get_or, Option, none, some, if◌then◌else◌,
  is_some,
}
use mathlib.Core.Option
use traderton.Decimal.{DecimalLib, Price, decimal}
use traderton.AgentRisk.{is_default, AgentRiskOverrides, resolve_risk_field, unless_no_capital}
use traderton.AgentRisk.Profile.{
  AgentRiskProfileField, to_profile_field, daily_max_loss_field, order_notional_field,
  posture_or_none,
}
use traderton.AgentRisk.Enforced.{
  AgentRiskLimitSource, AgentRiskDefaultsConfig, extract_creator_input, resolve_profile,
  order_notional_limit, build_agent_risk_limits,
}

module _ ⦃lib : DecimalLib⦄ where
  -- What a field of the profile promises: its value where it is enforced, and otherwise no limit.
  abbrev pub promised : AgentRiskProfileField → Option ℕ
  promised f = if f.enforced then f.effective_value else none

  abbrev pub promised_price : AgentRiskProfileField → Option Price
  promised_price f = Option.map decimal (promised f)

  promised-resolve_risk_field :
      (creator : Option ℕ) (ceiling : ℕ) (override : Option ℕ)
      → some (resolve_risk_field creator ceiling override).effective_value
        ≡ promised (to_profile_field (resolve_risk_field creator ceiling override))
  unfolding resolve_risk_field to_profile_field
  promised-resolve_risk_field (some value) ceiling override = refl
  promised-resolve_risk_field none ceiling (some override) = refl
  promised-resolve_risk_field none ceiling none = refl

  promised-unless_no_capital :
      (has_capital : Bool) (creator : Option ℕ) (ceiling : ℕ) (override : Option ℕ)
      → let f =
          unless_no_capital (some has_capital) (resolve_risk_field creator ceiling override) in
        (if not (is_default f.source) || has_capital
          then some (decimal f.effective_value)
          else none)
        ≡ promised_price (to_profile_field f)
  unfolding unless_no_capital resolve_risk_field to_profile_field
  promised-unless_no_capital true (some value) ceiling override = refl
  promised-unless_no_capital true none ceiling (some override) = refl
  promised-unless_no_capital true none ceiling none = refl
  promised-unless_no_capital false (some value) ceiling override = refl
  promised-unless_no_capital false none ceiling (some override) = refl
  promised-unless_no_capital false none ceiling none = refl

  promised-daily_max_loss_field :
      (raw : Option ℕ) (pct : ℕ)
      → some (decimal (get_or raw pct)) ≡ promised_price (daily_max_loss_field raw pct)
  unfolding daily_max_loss_field
  promised-daily_max_loss_field (some raw) pct = refl
  promised-daily_max_loss_field none pct = refl

  promised-order_notional_field :
      (raw capital : Option ℕ) (multiplier : ℕ)
      → order_notional_limit raw capital multiplier
        ≡ promised_price (order_notional_field raw capital (some multiplier))
  unfolding order_notional_limit order_notional_field
  promised-order_notional_field (some raw) capital multiplier = refl
  promised-order_notional_field none (some capital) multiplier = refl
  promised-order_notional_field none none multiplier = refl

  -- Each of the seven limits that the gate and the stop-loss monitor are given for an agent is what
  -- the agent's profile shows as enforced, whatever the creator, the operator and the agent have
  -- set, with capital and without. Whether the gate acts on a limit that it is given is another
  -- question.
  pub build_agent_risk_limits-promised :
      (source : AgentRiskLimitSource) (defaults : AgentRiskDefaultsConfig)
      (overrides : AgentRiskOverrides)
      → let r = build_agent_risk_limits source defaults overrides in
        let p = resolve_profile source defaults overrides in
        (r.limits.max_open_positions ≡ promised p.five.max_open_positions)
        × (r.limits.max_position_size_pct ≡ promised_price p.five.max_position_size_pct)
        × (r.stop_loss_max_unrealized_loss_pct ≡ promised_price p.five.stop_loss_pct)
        × (r.limits.stop_loss_cooldown_ms ≡ promised p.five.stop_loss_cooldown_ms)
        × (r.limits.max_drawdown_pct ≡ promised_price p.five.max_drawdown_pct)
        × (r.limits.daily_max_loss_pct ≡ promised_price p.daily_max_loss_pct)
        × (r.limits.max_order_notional ≡ promised_price p.max_order_notional)
  unfolding build_agent_risk_limits resolve_profile extract_creator_input
  build_agent_risk_limits-promised source defaults overrides =
      let p = posture_or_none source.risk_posture in
      (
        promised-resolve_risk_field p.five.max_open_positions defaults.max_open_positions
            overrides.max_open_positions,
        promised-unless_no_capital (is_some source.capital) p.five.max_position_size_pct
            defaults.max_position_size_pct overrides.max_position_size_pct,
        ap (Option.map decimal) (
            promised-resolve_risk_field p.five.stop_loss_pct defaults.stop_loss_pct
              overrides.stop_loss_pct),
        promised-resolve_risk_field p.five.stop_loss_cooldown_ms defaults.stop_loss_cooldown_ms
            overrides.stop_loss_cooldown_ms,
        ap (Option.map decimal) (
            promised-resolve_risk_field p.five.max_drawdown_pct defaults.max_drawdown_pct
              overrides.max_drawdown_pct),
        promised-daily_max_loss_field p.daily_max_loss_pct defaults.daily_max_loss_pct,
        promised-order_notional_field p.max_order_notional source.capital
            defaults.max_order_notional_multiplier,
      )
