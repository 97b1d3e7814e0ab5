-- ===== src/Examples/Requests.antt =====
-- Users, roles and requests for the gate of server/src/application/authorization/rbac.
use juris_ai.Base.{◌≡◌, refl, ◌↔◌, inl, true, none, some, [], ◌∷◌}
use juris_ai.Authorization.Roles.{send, Directory}
use juris_ai.Authorization.Policy.{default_policy}
use juris_ai.Authorization.Gate.{AuthorizationRequest, allow, deny, authorize}
use juris_ai.Authorization.Grants.{Grants}
use juris_ai.Authorization.Decisions.{AgentMay, authorize_iff}

abbrev office : Directory
office = record {
  users = ("ada", "lawyer") ∷ ("bob", "guest") ∷ [];
  roles =
      record { name = "lawyer"; enabled = true; permission_names = "read" ∷ "send" ∷ "fly" ∷ [] }
      ∷ record { name = "guest"; enabled = true; permission_names = "read" ∷ [] }
      ∷ [];
}

abbrev mail : AuthorizationRequest
mail = record {
  user_id = "ada";
  agent_id = "legal";
  action_type = send;
  tool_name = some "email_send";
  resource_id = none;
}

mail_allowed : (authorize office default_policy mail).decision ≡ allow
unfolding authorize default_policy
mail_allowed = refl

guest_denied : (authorize office default_policy (record mail { user_id = "bob" })).decision ≡ deny
unfolding authorize default_policy
guest_denied = refl

mail-AgentMay : AgentMay default_policy mail
unfolding default_policy
mail-AgentMay = record { tool = "email_send"; named = refl; filled = λ p. cc; listed = inl refl }

authorize_iff_example :
    ((authorize office default_policy mail).decision ≡ allow)
    ↔ (Grants office "ada" send × AgentMay default_policy mail)
authorize_iff_example = authorize_iff office default_policy mail
