-- ===== src/AgentRisk/Profile.antt =====
-- packages/domain/src/agent-risk-contract.ts: the profile of nine fields that an agent may read.
use traderton.Prelude.{ℕ, ◌*◌, Bool, true, false, Option, none, some, get_or}
use traderton.AgentRisk.{
  AgentRiskFieldSource, user, default, agent_override, derived, disabled, AgentRiskField,
  FiveFields, AgentRiskCeilings, AgentRiskOverrides, resolve_risk_field, unless_no_capital,
}

pub record AgentRiskProfileField : Type 0 where
  pub raw_value : Option ℕ
  pub effective_value : Option ℕ
  pub source : AgentRiskFieldSource
  pub mutable : Bool
  pub operator_ceiling : Option ℕ
  pub enforced : Bool
  pub creator_value : Option ℕ
  pub override_value : Option ℕ

-- The nine fields.
pub record ResolvedAgentRiskProfile : Type 0 where
  pub five : FiveFields AgentRiskProfileField
  pub daily_max_loss_pct : AgentRiskProfileField
  pub max_new_positions_per_day : AgentRiskProfileField
  pub avoid_parabolic_move_pct : AgentRiskProfileField
  pub max_order_notional : AgentRiskProfileField

-- Of the creator's posture the nine fields.
pub record RiskPosture : Type 0 where
  pub five : FiveFields (Option ℕ)
  pub daily_max_loss_pct : Option ℕ
  pub max_new_positions_per_day : Option ℕ
  pub avoid_parabolic_move_pct : Option ℕ
  pub max_order_notional : Option ℕ

-- `riskPosture?.field ?? null`
abbrev pub posture_or_none : Option RiskPosture → RiskPosture
posture_or_none (some p) = p
posture_or_none none = record {
  five = record {
    max_open_positions = none;
    max_position_size_pct = none;
    stop_loss_pct = none;
    stop_loss_cooldown_ms = none;
    max_drawdown_pct = none;
  };
  daily_max_loss_pct = none;
  max_new_positions_per_day = none;
  avoid_parabolic_move_pct = none;
  max_order_notional = none;
}

pub record ProfileOptions : Type 0 where
  pub has_capital : Option Bool
  pub capital : Option ℕ
  pub max_order_notional_multiplier : Option ℕ

abbrev pub raw_value_of : AgentRiskField → Option ℕ
raw_value_of f = elim f.source [
  | agent_override ↦ f.override_value
  | user ↦ f.creator_value
  | _ ↦ none
]

unfoldable pub to_profile_field : AgentRiskField → AgentRiskProfileField
to_profile_field f = record {
  raw_value = raw_value_of f;
  effective_value = some f.effective_value;
  source = f.source;
  mutable = f.mutable;
  operator_ceiling = some f.operator_ceiling;
  enforced = get_or f.enforced true;
  creator_value = f.creator_value;
  override_value = f.override_value;
}

-- A field that the creator alone may set.
abbrev pub creator_field : ℕ → Option ℕ → AgentRiskProfileField
creator_field value ceiling = record {
  raw_value = some value;
  effective_value = some value;
  source = user;
  mutable = false;
  operator_ceiling = ceiling;
  enforced = true;
  creator_value = some value;
  override_value = none;
}

abbrev pub unset_field : Option ℕ → AgentRiskFieldSource → Option ℕ → Bool → AgentRiskProfileField
unset_field value source ceiling enforced = record {
  raw_value = none;
  effective_value = value;
  source = source;
  mutable = false;
  operator_ceiling = ceiling;
  enforced = enforced;
  creator_value = none;
  override_value = none;
}

unfoldable pub daily_max_loss_field : Option ℕ → ℕ → AgentRiskProfileField
daily_max_loss_field (some raw) default_pct = creator_field raw (some default_pct)
daily_max_loss_field none default_pct =
    unset_field (some default_pct) default (some default_pct) true

unfoldable pub creator_only_field : Option ℕ → AgentRiskProfileField
creator_only_field (some raw) = creator_field raw none
creator_only_field none = unset_field none disabled none false

unfoldable pub order_notional_field : Option ℕ → Option ℕ → Option ℕ → AgentRiskProfileField
order_notional_field (some raw) capital multiplier = creator_field raw none
order_notional_field none (some capital) multiplier =
    unset_field (some (capital * get_or multiplier 1)) derived none true
order_notional_field none none multiplier = unset_field none disabled none false

unfoldable pub resolve_agent_risk_profile :
    Option RiskPosture
    → AgentRiskCeilings
    → ℕ
    → AgentRiskOverrides
    → ProfileOptions
    → ResolvedAgentRiskProfile
unfolding resolve_risk_field unless_no_capital to_profile_field daily_max_loss_field
    creator_only_field order_notional_field
resolve_agent_risk_profile posture ceilings default_pct overrides options =
    let p = posture_or_none posture in
    let creator = p.five in
    record {
      five = record {
        max_open_positions = to_profile_field (
            resolve_risk_field creator.max_open_positions ceilings.max_open_positions
              overrides.max_open_positions);
        max_position_size_pct = to_profile_field (
            unless_no_capital options.has_capital (
              resolve_risk_field creator.max_position_size_pct ceilings.max_position_size_pct
                overrides.max_position_size_pct));
        stop_loss_pct = to_profile_field (
            resolve_risk_field creator.stop_loss_pct ceilings.stop_loss_pct
              overrides.stop_loss_pct);
        stop_loss_cooldown_ms = to_profile_field (
            resolve_risk_field creator.stop_loss_cooldown_ms ceilings.stop_loss_cooldown_ms
              overrides.stop_loss_cooldown_ms);
        max_drawdown_pct = to_profile_field (
            resolve_risk_field creator.max_drawdown_pct ceilings.max_drawdown_pct
              overrides.max_drawdown_pct);
      };
      daily_max_loss_pct = daily_max_loss_field p.daily_max_loss_pct default_pct;
      max_new_positions_per_day = creator_only_field p.max_new_positions_per_day;
      avoid_parabolic_move_pct = creator_only_field p.avoid_parabolic_move_pct;
      max_order_notional =
          order_notional_field p.max_order_notional options.capital
            options.max_order_notional_multiplier;
    }
