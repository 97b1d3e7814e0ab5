-- ===== src/Authorization/Decisions.antt =====
-- What the gate and the check of a request decide.
use juris_ai.Base.{
  String, Bool, true, ◌≡◌, ◌≢◌, refl, sym, subst, ◌↔◌, inl, inr, Option, none, some, List, [], ◌∷◌,
  In, ◌==◌, Bool-cases, ≡→==, ≢→==, arith,
}
use juris_ai.Base.Result.{ok}
use juris_ai.Authorization.Roles.{ActionType, has_action, Directory, permissions_for}
use juris_ai.Authorization.Policy.{RbacPolicy, get_or, agent_action_allowed}
use juris_ai.Authorization.Gate.{
  AuthorizationRequest, allow, all_granted, check_intent, check_action, authorize,
  authorize_request,
}
use juris_ai.Authorization.Grants.{Grants, permitted_iff, has_action→In, In→has_action}

-- The request names a tool, and the policy lists the action for the agent and that tool.
pub record AgentMay (policy : RbacPolicy) (request : AuthorizationRequest) : Type 0 where
  pub tool : String
  pub named : request.tool_name ≡ some tool
  pub filled : tool ≢ ""
  pub listed : In request.action_type (get_or tool (get_or request.agent_id policy []) [])

agent_action_allowed→AgentMay :
    (policy : RbacPolicy) (request : AuthorizationRequest) (o : Option String)
    → request.tool_name ≡ o
    → agent_action_allowed policy request.agent_id o request.action_type ≡ true
    → AgentMay policy request
unfolding agent_action_allowed
agent_action_allowed→AgentMay policy request none e h = cc
agent_action_allowed→AgentMay policy request (some tool) e h = elim (Bool-cases (tool == "")) [
  | inl empty ↦ cc (rw empty at h)
  | inr named ↦ record {
    tool = tool;
    named = e;
    filled = λ p. cc (≡→== tool "" p, named);
    listed = has_action→In request.action_type _ (rw named at h);
  }
]

AgentMay→agent_action_allowed :
    (policy : RbacPolicy) (request : AuthorizationRequest)
    → AgentMay policy request
    → agent_action_allowed policy request.agent_id request.tool_name request.action_type ≡ true
unfolding agent_action_allowed
AgentMay→agent_action_allowed policy request may =
    rw (may.named, agent_action_allowed)
      (rw (≢→== may.tool "" may.filled) (In→has_action request.action_type _ may.listed))

-- The gate allows a concrete action exactly when the role of the user grants it and the agent may
-- perform it through the named tool; in all other cases it denies it.
pub authorize_iff :
    (db : Directory) (policy : RbacPolicy) (request : AuthorizationRequest)
    → ((authorize db policy request).decision ≡ allow)
      ↔ (Grants db request.user_id request.action_type × AgentMay policy request)
unfolding authorize check_action
authorize_iff db policy request = (to, from)
  where
    granted : Bool
    granted = has_action request.action_type (permissions_for db request.user_id)

    to :
        (authorize db policy request).decision ≡ allow
        → Grants db request.user_id request.action_type × AgentMay policy request
    to e = elim (Bool-cases granted) [
      | inl g ↦ (
        (permitted_iff db request.user_id request.action_type).0 g,
        agent_action_allowed→AgentMay policy request request.tool_name refl (ground arith),
      )
      | inr g ↦ absurd (ground arith)
    ]

    from :
        Grants db request.user_id request.action_type × AgentMay policy request
        → (authorize db policy request).decision ≡ allow
    from (g, may) = rw (
      (permitted_iff db request.user_id request.action_type).1 g,
      AgentMay→agent_action_allowed policy request may,
    )

all_granted→Grants :
    (db : Directory) (user_id : String) (cs : List ActionType)
    → all_granted cs (permissions_for db user_id) ≡ true
    → (c : ActionType) → In c cs
    → Grants db user_id c
unfolding all_granted
all_granted→Grants db user_id [] e c m = elim m [ ]
all_granted→Grants db user_id (x ∷ cs) e c m =
    elim (Bool-cases (has_action x (permissions_for db user_id))) [
      | inl g ↦ elim m [
        | inl p ↦ subst (Grants db user_id) (sym p) ((permitted_iff db user_id x).0 g)
        | inr n ↦ all_granted→Grants db user_id cs (rw g at e) c n
      ]
      | inr g ↦ cc (rw g at e)
    ]

Grants→all_granted :
    (db : Directory) (user_id : String) (cs : List ActionType)
    → ((c : ActionType) → In c cs → Grants db user_id c)
    → all_granted cs (permissions_for db user_id) ≡ true
unfolding all_granted
Grants→all_granted db user_id [] h = refl
Grants→all_granted db user_id (x ∷ cs) h =
    rw ((permitted_iff db user_id x).1 (h x (inl refl)))
      (Grants→all_granted db user_id cs (λ c m. h c (inr m)))

-- A request passes, with its capabilities as they are, exactly when the role of the user grants
-- every one of them.
authorize_request_iff :
    (db : Directory) (user_id : String) (cs result : List ActionType)
    → (authorize_request db user_id cs ≡ ok result)
      ↔ ((result ≡ cs) × ((c : ActionType) → In c cs → Grants db user_id c))
unfolding authorize_request check_intent
authorize_request_iff db user_id [] result = (λ e. (cc, λ c m. elim m [ ]), λ h. cc (h.0))
authorize_request_iff db user_id (x ∷ cs) result = (to, from)
  where
    to :
        authorize_request db user_id (x ∷ cs) ≡ ok result
        → (result ≡ x ∷ cs) × ((c : ActionType) → In c (x ∷ cs) → Grants db user_id c)
    to e = elim (Bool-cases (all_granted (x ∷ cs) (permissions_for db user_id))) [
      | inl g ↦ (ground arith, all_granted→Grants db user_id (x ∷ cs) g)
      | inr g ↦ absurd (ground arith)
    ]

    from :
        (result ≡ x ∷ cs) × ((c : ActionType) → In c (x ∷ cs) → Grants db user_id c)
        → authorize_request db user_id (x ∷ cs) ≡ ok result
    from (p, h) = rw (Grants→all_granted db user_id (x ∷ cs) h, authorize_request) (cc p)
