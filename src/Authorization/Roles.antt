-- ===== src/Authorization/Roles.antt =====
-- core/enums.py ActionTypeEnum, RoleRepository.get_for_user and rbac/roles.py: the action types
-- that the role of a user grants.
use juris_ai.Base.{
  String, Bool, true, false, Option, none, some, List, [], ◌∷◌, ◌==◌, if◌then◌else◌,
}
use juris_ai.Base.Dict.{Dict, get}

pub data ActionType : Type 0 where
  general read analyze generate update delete send submit external agent_call tool_call : ActionType

-- The value of the `StrEnum` member, by which members are compared.
unfoldable pub action_value : ActionType → String
action_value general = "general"
action_value read = "read"
action_value analyze = "analyze"
action_value generate = "generate"
action_value update = "update"
action_value delete = "delete"
action_value send = "send"
action_value submit = "submit"
action_value external = "external"
action_value agent_call = "agent_call"
action_value tool_call = "tool"

abbrev pub all_actions : List ActionType
all_actions =
    general ∷ read ∷ analyze ∷ generate ∷ update ∷ delete ∷ send ∷ submit ∷ external ∷ agent_call
    ∷ tool_call ∷ []

unfoldable pub find_action : String → List ActionType → Option ActionType
unfolding action_value
find_action name [] = none
find_action name (a ∷ actions) = if action_value a == name then some a else find_action name actions

-- ActionTypeEnum(name); `none` is the `ValueError`.
unfoldable pub parse_action : String → Option ActionType
unfolding find_action
parse_action name = find_action name all_actions

-- `action in permissions`
unfoldable pub has_action : ActionType → List ActionType → Bool
unfolding action_value
has_action a [] = false
has_action a (b ∷ actions) = if action_value a == action_value b then true else has_action a actions

pub record Role : Type 0 where
  pub name : String
  pub enabled : Bool
  pub permission_names : List String

-- The rows of `users` (the role of each user) and of `roles`.
pub record Directory : Type 0 where
  pub users : Dict String
  pub roles : List Role

pub find_role : String → List Role → Option Role
find_role name [] = none
find_role name (r ∷ roles) = if r.name == name then some r else find_role name roles

pub role_of : Option String → List Role → Option Role
unfolding find_role
role_of none roles = none
role_of (some name) roles = find_role name roles

-- RoleRepository.get_for_user: the join of the user's role name with the roles.
unfoldable pub get_for_user : Directory → String → Option Role
unfolding role_of
get_for_user db user_id = role_of (get user_id db.users) db.roles

-- permissions.add(ActionTypeEnum(name)), where an unknown name is ignored
abbrev pub add_parsed : Option ActionType → List ActionType → List ActionType
add_parsed none permissions = permissions
add_parsed (some a) permissions = a ∷ permissions

-- The loop over the names.
unfoldable pub granted_by : List String → List ActionType
unfolding parse_action
granted_by [] = []
granted_by (name ∷ names) = add_parsed (parse_action name) (granted_by names)

unfoldable pub permissions_of : Option Role → List ActionType
unfolding granted_by
permissions_of none = []
permissions_of (some role) = if role.enabled then granted_by role.permission_names else []

unfoldable pub permissions_for : Directory → String → List ActionType
unfolding permissions_of get_for_user
permissions_for db user_id = permissions_of (get_for_user db user_id)
