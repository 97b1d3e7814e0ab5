-- ===== src/Authorization/Grants.antt =====
-- What the role of a user grants, in terms of the rows of the database.
use juris_ai.Base.{
  String, true, ◌≡◌, refl, sym, ap, ◌∙◌, subst, ◌↔◌, inl, inr, Option, none, some, List, [], ◌∷◌,
  In, ◌==◌, Bool-cases, Option-cases, String-cases, ≡→==,
}
use juris_ai.Authorization.Roles.{
  ActionType, general, action_value, all_actions, find_action, parse_action, has_action, add_parsed,
  Role, Directory, get_for_user, granted_by, permissions_of, permissions_for,
}

-- The values tell the members apart.
parse-action_value : (a : ActionType) → parse_action (action_value a) ≡ some a
unfolding parse_action action_value
parse-action_value general = refl
parse-action_value _ = refl

action_value-injective : (a b : ActionType) → action_value a ≡ action_value b → a ≡ b
action_value-injective a b e = cc (parse-action_value a, parse-action_value b, ap parse_action e)

pub has_action→In :
    (a : ActionType) (actions : List ActionType) → has_action a actions ≡ true → In a actions
unfolding has_action
has_action→In a [] e = cc
has_action→In a (b ∷ actions) e = elim (String-cases (action_value a) (action_value b)) [
  | inl p ↦ inl (action_value-injective a b p)
  | inr q ↦ inr (has_action→In a actions (rw (q.1) at e))
]

pub In→has_action :
    (a : ActionType) (actions : List ActionType) → In a actions → has_action a actions ≡ true
unfolding has_action
In→has_action a [] m = elim m [ ]
In→has_action a (b ∷ actions) (inl p) =
    rw (≡→== (action_value a) (action_value b) (ap action_value p))
In→has_action a (b ∷ actions) (inr m) = elim (Bool-cases (action_value a == action_value b)) [
  | inl e ↦ rw e
  | inr e ↦ rw e (In→has_action a actions m)
]

find_action-value :
    (name : String) (actions : List ActionType) (a : ActionType)
    → find_action name actions ≡ some a
    → action_value a ≡ name
unfolding find_action
find_action-value name [] a e = cc
find_action-value name (b ∷ actions) a e = elim (String-cases (action_value b) name) [
  | inl p ↦
      let same : b ≡ a = cc (rw (≡→== (action_value b) name p) at e) in
      subst (λ x. action_value x ≡ name) same p
  | inr q ↦ find_action-value name actions a (rw (q.1) at e)
]

parse_action-value :
    (name : String) (a : ActionType) → parse_action name ≡ some a → action_value a ≡ name
unfolding parse_action
parse_action-value name a e = find_action-value name all_actions a e

granted_by-cons :
    (name : String) (names : List String)
    → granted_by (name ∷ names) ≡ add_parsed (parse_action name) (granted_by names)
unfolding granted_by
granted_by-cons name names = refl

granted_by-nil : granted_by [] ≡ []
unfolding granted_by
granted_by-nil = refl

In-granted_by→ :
    (a : ActionType) (names : List String) → In a (granted_by names) → In (action_value a) names
In-granted_by→ a [] m = rw granted_by-nil at m
In-granted_by→ a (name ∷ names) m = elim (Option-cases (parse_action name)) [
  | inl p ↦ inr (In-granted_by→ a names (rw (granted_by-cons name names, p) at m))
  | inr (b, p) ↦
      let m' : In a (b ∷ granted_by names) = rw (granted_by-cons name names, p) at m in
      elim m' [
        | inl e ↦ inl (ap action_value e ∙ parse_action-value name b p)
        | inr n ↦ inr (In-granted_by→ a names n)
      ]
]

→In-granted_by :
    (a : ActionType) (names : List String) → In (action_value a) names → In a (granted_by names)
→In-granted_by a [] m = elim m [ ]
→In-granted_by a (name ∷ names) (inl e) =
    let known : parse_action name ≡ some a = ap parse_action (sym e) ∙ parse-action_value a in
    rw (granted_by-cons name names, known) (inl refl)
→In-granted_by a (name ∷ names) (inr n) = elim (Option-cases (parse_action name)) [
  | inl p ↦ rw (granted_by-cons name names, p) (→In-granted_by a names n)
  | inr (b, p) ↦ rw (granted_by-cons name names, p) (inr (→In-granted_by a names n))
]

-- The user has a role, it is enabled, and one of its permissions names the action.
pub record Grants (db : Directory) (user_id : String) (a : ActionType) : Type 0 where
  pub role : Role
  pub assigned : get_for_user db user_id ≡ some role
  pub enabled : role.enabled ≡ true
  pub named : In (action_value a) role.permission_names

permissions_of-Grants :
    (db : Directory) (user_id : String) (a : ActionType) (o : Option Role)
    → get_for_user db user_id ≡ o
    → In a (permissions_of o)
    → Grants db user_id a
unfolding permissions_of
permissions_of-Grants db user_id a none e m = elim m [ ]
permissions_of-Grants db user_id a (some role) e m = elim (Bool-cases role.enabled) [
  | inl on ↦ record {
    role = role;
    assigned = e;
    enabled = on;
    named = In-granted_by→ a role.permission_names (rw on at m);
  }
  | inr off ↦ let m' : In a [] = rw off at m in elim m' [ ]
]

Grants→permissions_of :
    (db : Directory) (user_id : String) (a : ActionType)
    → Grants db user_id a
    → In a (permissions_of (get_for_user db user_id))
unfolding permissions_of
Grants→permissions_of db user_id a g =
    rw (g.assigned, permissions_of)
      (rw (g.enabled) (→In-granted_by a g.role.permission_names g.named))

pub permitted_iff :
    (db : Directory) (user_id : String) (a : ActionType)
    → (has_action a (permissions_for db user_id) ≡ true) ↔ Grants db user_id a
unfolding permissions_for
permitted_iff db user_id a = (
  λ e. permissions_of-Grants db user_id a (get_for_user db user_id) refl (has_action→In a _ e),
  λ g. In→has_action a _ (Grants→permissions_of db user_id a g),
)
