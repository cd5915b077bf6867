-- ===== src/AgentRisk.antt =====
-- packages/domain/src/agent-risk-contract.ts: the limits of an agent from its creator's input, the
-- operator's ceilings and the agent's own overrides. Values are whole numbers; an error message is
-- a constructor with what it prints.
pub mod Overrides
pub mod Profile
pub mod Enforced
pub mod Shown
use traderton.Prelude.{
  ℕ, Bool, true, false, not, ◌&&◌, Option, none, some, if◌then◌else◌, leb, ltb, get_or,
}

pub data AgentRiskFieldSource : Type 0 where
  user default agent_override derived disabled : AgentRiskFieldSource

pub record AgentRiskField : Type 0 where
  pub effective_value : ℕ
  pub source : AgentRiskFieldSource
  pub mutable : Bool
  pub operator_ceiling : ℕ
  pub enforced : Option Bool
  pub creator_value : Option ℕ
  pub override_value : Option ℕ

-- `keyof ResolvedAgentRiskContract`
pub data RiskFieldName : Type 0 where
  max_open_positions max_position_size_pct stop_loss_pct : RiskFieldName
  stop_loss_cooldown_ms max_drawdown_pct : RiskFieldName

-- The five fields, for each kind of value that the source keeps of them.
pub record FiveFields (T : Type 0) : Type 0 where
  pub max_open_positions : T
  pub max_position_size_pct : T
  pub stop_loss_pct : T
  pub stop_loss_cooldown_ms : T
  pub max_drawdown_pct : T

abbrev pub ResolvedAgentRiskContract : Type 0
ResolvedAgentRiskContract = FiveFields AgentRiskField

abbrev pub AgentRiskCreatorInput : Type 0
AgentRiskCreatorInput = FiveFields (Option ℕ)

abbrev pub AgentRiskCeilings : Type 0
AgentRiskCeilings = FiveFields ℕ

abbrev pub AgentRiskOverrides : Type 0
AgentRiskOverrides = FiveFields (Option ℕ)

-- `record[field]`
abbrev pub at : {T : Type 0} → RiskFieldName → FiveFields T → T
at max_open_positions r = r.max_open_positions
at max_position_size_pct r = r.max_position_size_pct
at stop_loss_pct r = r.stop_loss_pct
at stop_loss_cooldown_ms r = r.stop_loss_cooldown_ms
at max_drawdown_pct r = r.max_drawdown_pct

abbrev pub is_default : AgentRiskFieldSource → Bool
is_default default = true
is_default _ = false

unfoldable pub resolve_risk_field : Option ℕ → ℕ → Option ℕ → AgentRiskField
resolve_risk_field (some value) ceiling override = record {
  effective_value = value;
  source = user;
  mutable = false;
  operator_ceiling = ceiling;
  enforced = none;
  creator_value = some value;
  override_value = none;
}
resolve_risk_field none ceiling (some override) =
    let capped = if leb override ceiling then override else ceiling in
    record {
      effective_value = capped;
      source = agent_override;
      mutable = true;
      operator_ceiling = ceiling;
      enforced = none;
      creator_value = none;
      override_value = some capped;
    }
resolve_risk_field none ceiling none = record {
  effective_value = ceiling;
  source = default;
  mutable = true;
  operator_ceiling = ceiling;
  enforced = none;
  creator_value = none;
  override_value = none;
}

-- A percentage of the capital is not enforced where there is no capital and nobody asked for it.
unfoldable pub unless_no_capital : Option Bool → AgentRiskField → AgentRiskField
unless_no_capital has_capital f =
    if not (get_or has_capital true) && is_default f.source
    then record f { enforced = some false }
    else f

unfoldable pub resolve_agent_risk_contract :
    AgentRiskCreatorInput
    → AgentRiskCeilings
    → AgentRiskOverrides
    → Option Bool
    → ResolvedAgentRiskContract
unfolding resolve_risk_field unless_no_capital
resolve_agent_risk_contract creator ceilings overrides has_capital = record {
  max_open_positions =
      resolve_risk_field creator.max_open_positions ceilings.max_open_positions
        overrides.max_open_positions;
  max_position_size_pct = unless_no_capital has_capital (
      resolve_risk_field creator.max_position_size_pct ceilings.max_position_size_pct
        overrides.max_position_size_pct);
  stop_loss_pct =
      resolve_risk_field creator.stop_loss_pct ceilings.stop_loss_pct overrides.stop_loss_pct;
  stop_loss_cooldown_ms =
      resolve_risk_field creator.stop_loss_cooldown_ms ceilings.stop_loss_cooldown_ms
        overrides.stop_loss_cooldown_ms;
  max_drawdown_pct =
      resolve_risk_field creator.max_drawdown_pct ceilings.max_drawdown_pct
        overrides.max_drawdown_pct;
}

pub data OverrideError : Type 0 where
  not_mutable : RiskFieldName → OverrideError
  below_minimum : RiskFieldName → ℕ → OverrideError
  above_ceiling : RiskFieldName → ℕ → OverrideError

-- `minByField`
abbrev pub min_by_field : RiskFieldName → ℕ
min_by_field max_open_positions = 1
min_by_field _ = 0

unfoldable pub validate_risk_override :
    RiskFieldName → ResolvedAgentRiskContract → Option ℕ → Option OverrideError
validate_risk_override field contract none =
    if not (at field contract).mutable then some (not_mutable field) else none
validate_risk_override field contract (some value) =
    if not (at field contract).mutable
    then some (not_mutable field)
    else if ltb value (min_by_field field)
    then some (below_minimum field (min_by_field field))
    else if ltb (at field contract).operator_ceiling value
    then some (above_ceiling field (at field contract).operator_ceiling)
    else none
