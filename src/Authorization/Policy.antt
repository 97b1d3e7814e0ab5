-- ===== src/Authorization/Policy.antt =====
-- rbac/policy.py: which action types an agent may perform through which tool.
use juris_ai.Base.{String, Bool, false, Option, none, some, List, [], ◌∷◌, ◌==◌, if◌then◌else◌}
use juris_ai.Base.Dict.{Dict, get}
use juris_ai.Authorization.Roles.{ActionType, read, analyze, send, has_action}

abbrev pub RbacPolicy : Type 0
RbacPolicy = Dict (Dict (List ActionType))

abbrev pub agent_tools : Dict (List ActionType)
agent_tools =
    ("retriever", read ∷ analyze ∷ []) ∷ ("email_send", send ∷ []) ∷ ("slack_post", send ∷ []) ∷ []

unfoldable pub default_policy : RbacPolicy
default_policy = ("legal", agent_tools) ∷ ("contract", agent_tools) ∷ []

-- d.get(k, default)
abbrev pub get_or {ℓ} : {V : Type ℓ} → String → Dict V → V → V
get_or k d v = elim (get k d) [ none ↦ v | some w ↦ w ]

-- `None` and the empty name are no tool.
unfoldable pub agent_action_allowed :
    RbacPolicy → (agent_id : String) → (tool_name : Option String) → ActionType → Bool
unfolding has_action
agent_action_allowed policy agent_id none action = false
agent_action_allowed policy agent_id (some tool_name) action =
    if tool_name == ""
    then false
    else has_action action (get_or tool_name (get_or agent_id policy []) [])
