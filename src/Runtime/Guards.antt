-- ===== src/Runtime/Guards.antt =====
-- server/src/agentic/policy/guard.py, tool_permission.py and schemas.py: what an agent may do.
use juris_ai.Base.{
  String, Bool, true, false, not, ◌&&◌, Option, none, some, List, ◌∷◌, [], elem, if◌then◌else◌,
  ◌==◌,
}
use juris_ai.Base.Text.{concat}

-- A set is a list.
pub record AgentPolicy : Type 0 where
  pub agent_id : String
  pub allowed_tools : List String
  pub allowed_agents : List String
  pub allow_delegation : Bool
  pub require_citations : Bool

pub record PolicyCheckResult : Type 0 where
  pub allowed : Bool
  pub reason : Option String

abbrev permit : PolicyCheckResult
permit = record { allowed = true; reason = none }

abbrev refuse : List String → PolicyCheckResult
refuse parts = record { allowed = false; reason = some (concat parts) }

-- ToolPermissionGuard.check
unfoldable pub check_tool : AgentPolicy → String → PolicyCheckResult
check_tool policy tool_name =
    if tool_name == ""
    then refuse ("Tool name is required." ∷ [])
    else if not (elem tool_name policy.allowed_tools)
    then refuse
        ("Tool '" ∷ tool_name ∷ "' is not permitted for agent '" ∷ policy.agent_id ∷ "'." ∷ [])
    else permit

unfoldable pub check_delegation : AgentPolicy → String → PolicyCheckResult
check_delegation policy target_agent_id =
    if not policy.allow_delegation
    then refuse ("Agent '" ∷ policy.agent_id ∷ "' is not permitted to delegate." ∷ [])
    else if target_agent_id == ""
    then refuse ("Target agent ID is required." ∷ [])
    else if not (elem target_agent_id policy.allowed_agents)
    then refuse (
        "Delegation to agent '" ∷ target_agent_id ∷ "' is not permitted for agent '"
        ∷ policy.agent_id ∷ "'." ∷ [])
    else permit

unfoldable pub check_citations : AgentPolicy → Bool → PolicyCheckResult
check_citations policy has_citations =
    if policy.require_citations && not has_citations
    then refuse ("Agent '" ∷ policy.agent_id ∷ "' requires citations." ∷ [])
    else permit

-- tools/constants.py
abbrev pub gated_tools : List String
gated_tools = "email_send" ∷ "slack_post" ∷ []

abbrev pub is_gated : String → Bool
is_gated name = elem name gated_tools
