-- ===== src/Authorization/Gate.antt =====
-- rbac/resolver.py, rbac/execute_gate.py and the two authorization methods of service.py. The
-- capabilities of a message are what the classifier, a library's model, found in it.
use juris_ai.Base.{String, Bool, true, false, Option, List, [], ◌∷◌, if◌then◌else◌}
use juris_ai.Base.Result.{Result, ok, err}
use juris_ai.Authorization.Roles.{ActionType, Directory, has_action, permissions_for}
use juris_ai.Authorization.Policy.{RbacPolicy, agent_action_allowed}

pub record AuthorizationRequest : Type 0 where
  pub user_id : String
  pub agent_id : String
  pub action_type : ActionType
  pub tool_name : Option String
  pub resource_id : Option String

pub data AuthorizationDecision : Type 0 where
  allow deny : AuthorizationDecision

pub record AuthorizationResult : Type 0 where
  pub decision : AuthorizationDecision
  pub reason : String

abbrev pub is_allow : AuthorizationDecision → Bool
is_allow allow = true
is_allow deny = false

-- all(capability in granted for capability in capabilities)
unfoldable pub all_granted : List ActionType → List ActionType → Bool
unfolding has_action
all_granted [] granted = true
all_granted (c ∷ capabilities) granted =
    if has_action c granted then all_granted capabilities granted else false

unfoldable pub check_intent : Directory → String → List ActionType → Bool
unfolding all_granted permissions_for
check_intent db user_id [] = true
check_intent db user_id (c ∷ capabilities) =
    all_granted (c ∷ capabilities) (permissions_for db user_id)

-- The user's permission first, then the agent's.
unfoldable pub check_action : Directory → RbacPolicy → AuthorizationRequest → Bool
unfolding has_action permissions_for agent_action_allowed
check_action db policy request =
    if has_action request.action_type (permissions_for db request.user_id)
    then agent_action_allowed policy request.agent_id request.tool_name request.action_type
    else false

unfoldable pub authorize : Directory → RbacPolicy → AuthorizationRequest → AuthorizationResult
unfolding check_action
authorize db policy request =
    if check_action db policy request
    then record { decision = allow; reason = "Action is authorized." }
    else record { decision = deny; reason = "Action is not authorized." }

-- AuthorizationService.authorize_request, from the capabilities of the message; the error is
-- `AuthorizationError`.
unfoldable pub authorize_request :
    Directory → String → List ActionType → Result String (List ActionType)
unfolding check_intent
authorize_request db user_id [] = ok []
authorize_request db user_id (c ∷ capabilities) =
    if check_intent db user_id (c ∷ capabilities)
    then ok (c ∷ capabilities)
    else err "User is not authorized for the requested capabilities."
