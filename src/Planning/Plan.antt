-- ===== src/Planning/Plan.antt =====
-- server/src/core/dto/planning.py: the plan as the planner hands it to the executor, and the graph
-- that `depends_on` spans. The opaque `arguments` and `metadata` are the parameter of the records:
-- nothing in the modelled code looks into them.
pub mod Graph
use juris_ai.Base.{String, List, [], ◌∷◌}
use juris_ai.Base.Int.{ℤ}
use juris_ai.Base.Dict.{Dict, put}

pub data AgentType : Type 0 where
  legal contract : AgentType

-- The value of the `StrEnum` member.
unfoldable pub agent_value : AgentType → String
agent_value legal = "legal"
agent_value contract = "contract"

pub data ExecutionMode : Type 0 where
  sequential parallel hybrid : ExecutionMode

pub data Intent : Type 0 where
  general legal_research contract_review contract_analysis clause_extraction risk_analysis : Intent

pub record ExecutionStep (Json : Type 0) : Type 0 where
  pub id : String
  pub agent : AgentType
  pub instruction : String
  pub depends_on : List String
  pub stage : ℤ
  pub arguments : Json

pub record ExecutionPlan (Json : Type 0) : Type 0 where
  pub intent : Intent
  pub mode : ExecutionMode
  pub steps : List (ExecutionStep Json)
  pub metadata : Json

module _ {Json : Type 0} where
  abbrev pub step_ids : List (ExecutionStep Json) → List String
  step_ids [] = []
  step_ids (s ∷ ss) = s.id ∷ step_ids ss

  -- {step.id: step.depends_on for step in plan.steps}, from the dict that the earlier steps made
  abbrev pub dependencies_from : Dict (List String) → List (ExecutionStep Json) → Dict (List String)
  dependencies_from d [] = d
  dependencies_from d (s ∷ ss) = dependencies_from (put s.id s.depends_on d) ss

  abbrev pub dependencies : List (ExecutionStep Json) → Dict (List String)
  dependencies ss = dependencies_from [] ss
