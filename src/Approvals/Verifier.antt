-- ===== src/Approvals/Verifier.antt =====
-- The token of a gated tool: server/src/application/authorization/approval_lifecycle/verifier.py.
-- JSON values come from the database; Python's `==` on two of them is the parameter `eq`.
use juris_ai.Base.{
  ℕ, String, Bool, true, false, ◌&&◌, ◌||◌, Option, none, some, List, [], ◌∷◌, ◌==◌, if◌then◌else◌,
}
use juris_ai.Base.Dict.{Dict, get, put, keys}
use juris_ai.Approvals.Records.{ApprovalStatus, approved, edited, Approval, Store, find}

pub data AgentActionStatus : Type 0 where
  draft pending action_approved action_rejected executing completed failed action_expired :
      AgentActionStatus

-- The columns of an agent action that the verifier and the resume read. Times are readings of the
-- clock.
pub record AgentAction (Json : Type 0) : Type 0 where
  pub status : AgentActionStatus
  pub tool_name : Option String
  pub parameters : Dict Json
  pub plan_snapshot : Option Json
  pub result : Option (Dict Json)
  pub updated_at : ℕ

-- _APPROVED_STATUSES
abbrev pub is_decided_for : ApprovalStatus → Bool
is_decided_for approved = true
is_decided_for edited = true
is_decided_for _ = false

-- _SPENT_ACTION_STATUSES
abbrev pub is_spent : AgentActionStatus → Bool
is_spent completed = true
is_spent action_rejected = true
is_spent action_expired = true
is_spent _ = false

abbrev pub tool_result_key : String
tool_result_key = "tool_result"

module _ {Json : Type 0} where
  -- A dict literal that spreads one dict after another.
  unfoldable pub merge : Dict Json → Dict Json → Dict Json
  merge proposed [] = proposed
  merge proposed ((k, v) ∷ edits) = merge (put k v proposed) edits

  unfoldable pub or_empty : Option (Dict Json) → Dict Json
  or_empty none = []
  or_empty (some d) = d

  unfoldable pub approved_parameters : Dict Json → Option (Dict Json) → Dict Json
  unfolding merge or_empty
  approved_parameters proposed edited_payload = merge proposed (or_empty edited_payload)

  -- k in d
  unfoldable pub has_key : String → Dict Json → Bool
  has_key k d = elim (get k d) [ none ↦ false | some v ↦ true ]

module _ {Json : Type 0} (eq : Json → Json → Bool) where
  abbrev pub option_eq : Option Json → Option Json → Bool
  option_eq none none = true
  option_eq (some x) (some y) = eq x y
  option_eq _ _ = false

  unfoldable pub agree : List String → Dict Json → Dict Json → Bool
  agree [] a b = true
  agree (k ∷ ks) a b = option_eq (get k a) (get k b) && agree ks a b

  -- a == b on two dicts: the same keys, with equal values
  unfoldable pub dict_eq : Dict Json → Dict Json → Bool
  unfolding agree
  dict_eq a b = agree (keys a) a b && agree (keys b) a b

  -- The last tests, on the approval and its action.
  unfoldable pub covers : Approval Json → AgentAction Json → String → Dict Json → Bool
  unfolding approved_parameters has_key dict_eq or_empty
  covers approval agent_action action payload =
      if (elim agent_action.tool_name [ none ↦ false | some tool ↦ tool == action ])
      then (if is_spent agent_action.status
            || has_key tool_result_key (or_empty agent_action.result)
          then false
          else dict_eq (approved_parameters agent_action.parameters approval.edited_payload)
              payload)
      else false

  unfoldable pub is_approved :
      Store Json → Dict (AgentAction Json) → String → String → Dict Json → Bool
  unfolding covers
  is_approved s actions token action payload = if token == "" then false else elim (find token s) [
    | none ↦ false
    | some approval ↦
        if is_decided_for approval.status
        then elim (get approval.agent_action_id actions) [
          | none ↦ false
          | some agent_action ↦ covers approval agent_action action payload
        ]
        else false
  ]
