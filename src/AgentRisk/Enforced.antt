-- ===== src/AgentRisk/Enforced.antt =====
-- packages/worker/src/agent-risk-limits.ts: the limits of the risk gate for an agent. The capital
-- counts as the whole number that its text denotes.
use traderton.Prelude.{ℕ, ◌*◌, not, ◌||◌, Option, none, some, if◌then◌else◌, get_or, is_some}
use traderton.Decimal.{DecimalLib, Price, decimal}
use traderton.RiskGate.{RiskLimits}
use traderton.AgentRisk.{
  ResolvedAgentRiskContract, AgentRiskCreatorInput, AgentRiskCeilings, AgentRiskOverrides,
  is_default, resolve_agent_risk_contract,
}
use traderton.AgentRisk.Profile.{
  RiskPosture, ResolvedAgentRiskProfile, posture_or_none, resolve_agent_risk_profile,
}

pub record AgentRiskLimitSource : Type 0 where
  pub capital : Option ℕ
  pub risk_posture : Option RiskPosture

pub record AgentRiskDefaultsConfig : Type 0 where
  pub max_open_positions : ℕ
  pub max_position_size_pct : ℕ
  pub stop_loss_pct : ℕ
  pub stop_loss_cooldown_ms : ℕ
  pub max_drawdown_pct : ℕ
  pub daily_max_loss_pct : ℕ
  pub max_order_notional_multiplier : ℕ

unfoldable pub extract_ceilings : AgentRiskDefaultsConfig → AgentRiskCeilings
extract_ceilings defaults = record {
  max_open_positions = defaults.max_open_positions;
  max_position_size_pct = defaults.max_position_size_pct;
  stop_loss_pct = defaults.stop_loss_pct;
  stop_loss_cooldown_ms = defaults.stop_loss_cooldown_ms;
  max_drawdown_pct = defaults.max_drawdown_pct;
}

unfoldable pub extract_creator_input : AgentRiskLimitSource → AgentRiskCreatorInput
extract_creator_input source = (posture_or_none source.risk_posture).five

unfoldable pub resolve_contract :
    AgentRiskLimitSource → AgentRiskDefaultsConfig → AgentRiskOverrides → ResolvedAgentRiskContract
unfolding extract_ceilings extract_creator_input resolve_agent_risk_contract
resolve_contract source defaults overrides =
    resolve_agent_risk_contract (extract_creator_input source) (extract_ceilings defaults) overrides
      (some (is_some source.capital))

unfoldable pub resolve_profile :
    AgentRiskLimitSource → AgentRiskDefaultsConfig → AgentRiskOverrides → ResolvedAgentRiskProfile
unfolding extract_ceilings resolve_agent_risk_profile
resolve_profile source defaults overrides =
    resolve_agent_risk_profile source.risk_posture (extract_ceilings defaults)
      defaults.daily_max_loss_pct overrides
      (record {
        has_capital = some (is_some source.capital);
        capital = source.capital;
        max_order_notional_multiplier = some defaults.max_order_notional_multiplier;
      })

module _ ⦃lib : DecimalLib⦄ where
  -- The limits of the gate, with the one that the stop-loss monitor reads.
  pub record AgentRiskLimits : Type 0 where
    pub limits : RiskLimits
    pub stop_loss_max_unrealized_loss_pct : Option Price

  unfoldable pub order_notional_limit : Option ℕ → Option ℕ → ℕ → Option Price
  order_notional_limit (some raw) capital multiplier = some (decimal raw)
  order_notional_limit none (some capital) multiplier = some (decimal (capital * multiplier))
  order_notional_limit none none multiplier = none

  unfoldable pub build_risk_limits_from_contract :
      ResolvedAgentRiskContract → AgentRiskLimitSource → AgentRiskDefaultsConfig → AgentRiskLimits
  unfolding order_notional_limit
  build_risk_limits_from_contract contract source defaults =
      let posture = posture_or_none source.risk_posture in
      record {
        limits = record {
          max_position_size = none;
          max_open_positions = some contract.max_open_positions.effective_value;
          max_drawdown = none;
          max_order_notional =
              order_notional_limit posture.max_order_notional source.capital
                defaults.max_order_notional_multiplier;
          max_position_size_pct =
              if not (is_default contract.max_position_size_pct.source) || is_some source.capital
              then some (decimal contract.max_position_size_pct.effective_value)
              else none;
          daily_max_loss_pct =
              some (decimal (get_or posture.daily_max_loss_pct defaults.daily_max_loss_pct));
          stop_loss_cooldown_ms = some contract.stop_loss_cooldown_ms.effective_value;
          max_drawdown_pct = some (decimal contract.max_drawdown_pct.effective_value);
        };
        stop_loss_max_unrealized_loss_pct = some (decimal contract.stop_loss_pct.effective_value);
      }

  unfoldable pub build_agent_risk_limits :
      AgentRiskLimitSource → AgentRiskDefaultsConfig → AgentRiskOverrides → AgentRiskLimits
  unfolding resolve_contract build_risk_limits_from_contract
  build_agent_risk_limits source defaults overrides =
      build_risk_limits_from_contract (resolve_contract source defaults overrides) source defaults
