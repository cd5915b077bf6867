-- ===== src/AgentRisk/Overrides.antt =====
-- What an agent's overrides do to the limits of packages/domain/src/agent-risk-contract.ts.
use traderton.Prelude.{
  ℕ, ◌≤◌, Bool, not, Option, none, some, is_some, if◌then◌else◌, leb, ◌≡◌, refl, ◌∙◌, ◌⊎◌, arith,
  inl, inr,
}
use traderton.AgentRisk.{
  RiskFieldName, max_open_positions, max_position_size_pct, stop_loss_pct, stop_loss_cooldown_ms,
  max_drawdown_pct, AgentRiskCreatorInput, AgentRiskCeilings, AgentRiskOverrides, at,
  resolve_risk_field, unless_no_capital, resolve_agent_risk_contract, validate_risk_override,
}

-- The overrides with one field changed.
abbrev pub with_override : RiskFieldName → Option ℕ → AgentRiskOverrides → AgentRiskOverrides
with_override max_open_positions v o = record o { max_open_positions = v }
with_override max_position_size_pct v o = record o { max_position_size_pct = v }
with_override stop_loss_pct v o = record o { stop_loss_pct = v }
with_override stop_loss_cooldown_ms v o = record o { stop_loss_cooldown_ms = v }
with_override max_drawdown_pct v o = record o { max_drawdown_pct = v }

-- The value in force is the creator's, or the override cut to the ceiling, or the ceiling.
abbrev pub in_force : Option ℕ → ℕ → Option ℕ → ℕ
in_force (some creator) ceiling override = creator
in_force none ceiling (some override) = if leb override ceiling then override else ceiling
in_force none ceiling none = ceiling

resolve_risk_field-in_force :
    (creator override : Option ℕ) (ceiling : ℕ)
    → ((resolve_risk_field creator ceiling override).effective_value
        ≡ in_force creator ceiling override)
      × ((resolve_risk_field creator ceiling override).operator_ceiling ≡ ceiling)
      × ((resolve_risk_field creator ceiling override).mutable ≡ not (is_some creator))
unfolding resolve_risk_field
resolve_risk_field-in_force creator override ceiling = ground arith

-- The resolved field is that of the parts, up to the mark that it is not enforced.
contract_field :
    (f : RiskFieldName) (creator : AgentRiskCreatorInput) (ceilings : AgentRiskCeilings)
    (overrides : AgentRiskOverrides) (has_capital : Option Bool)
    → let r = at f (resolve_agent_risk_contract creator ceilings overrides has_capital) in
      (r.effective_value ≡ in_force (at f creator) (at f ceilings) (at f overrides))
      × (r.operator_ceiling ≡ at f ceilings)
      × (r.mutable ≡ not (is_some (at f creator)))
unfolding resolve_agent_risk_contract unless_no_capital
contract_field max_open_positions creator ceilings overrides has_capital =
    resolve_risk_field-in_force creator.max_open_positions overrides.max_open_positions
      ceilings.max_open_positions
contract_field max_position_size_pct creator ceilings overrides has_capital = ground (
  arith,
  resolve_risk_field-in_force creator.max_position_size_pct overrides.max_position_size_pct
      ceilings.max_position_size_pct,
)
contract_field stop_loss_pct creator ceilings overrides has_capital =
    resolve_risk_field-in_force creator.stop_loss_pct overrides.stop_loss_pct ceilings.stop_loss_pct
contract_field stop_loss_cooldown_ms creator ceilings overrides has_capital =
    resolve_risk_field-in_force creator.stop_loss_cooldown_ms overrides.stop_loss_cooldown_ms
      ceilings.stop_loss_cooldown_ms
contract_field max_drawdown_pct creator ceilings overrides has_capital =
    resolve_risk_field-in_force creator.max_drawdown_pct overrides.max_drawdown_pct
      ceilings.max_drawdown_pct

at-with_override :
    (f : RiskFieldName) (v : Option ℕ) (o : AgentRiskOverrides) → at f (with_override f v o) ≡ v
at-with_override f v o = ground arith

in_force_bounded :
    (creator override : Option ℕ) (ceiling : ℕ)
    → (creator ≡ some (in_force creator ceiling override))
      ⊎ (in_force creator ceiling override ≤ ceiling)
in_force_bounded (some v) override ceiling = inl refl
in_force_bounded none none ceiling = inr (omega arith)
in_force_bounded none (some v) ceiling = inr (ground arith)

-- Whatever the agent overrides, each limit in force is the one that the creator set, or is at most
-- the operator's ceiling.
pub resolve_agent_risk_contract-bounded :
    (f : RiskFieldName) (creator : AgentRiskCreatorInput) (ceilings : AgentRiskCeilings)
    (overrides : AgentRiskOverrides) (has_capital : Option Bool)
    → let value =
        (at f
          (resolve_agent_risk_contract creator ceilings overrides has_capital)).effective_value in
      (at f creator ≡ some value) ⊎ (value ≤ at f ceilings)
resolve_agent_risk_contract-bounded f creator ceilings overrides has_capital =
    let e = (contract_field f creator ceilings overrides has_capital).0 in
    rw e (in_force_bounded (at f creator) (at f overrides) (at f ceilings))

-- An override that the validator accepts on the contract is the limit in force once it is stored.
pub validate_risk_override-resolve :
    (f : RiskFieldName) (creator : AgentRiskCreatorInput) (ceilings : AgentRiskCeilings)
    (overrides : AgentRiskOverrides) (has_capital : Option Bool) (value : ℕ)
    → validate_risk_override f
        (resolve_agent_risk_contract creator ceilings overrides has_capital)
        (some value)
      ≡ none
    → (at f (
        resolve_agent_risk_contract creator ceilings
          (with_override f (some value) overrides)
          has_capital)).effective_value
      ≡ value
unfolding validate_risk_override
validate_risk_override-resolve f creator ceilings overrides has_capital value h =
    let (_, ceiling, mutable) = contract_field f creator ceilings overrides has_capital in
    let (after, _, _) =
      contract_field f creator ceilings (with_override f (some value) overrides) has_capital in
    after ∙ ground (arith, h, ceiling, mutable, at-with_override f (some value) overrides)
