-- ===== src/Execution/Graph.antt =====
-- server/src/agentic/execution/graph/builder.py: the wrapper of a step and the edges of the graph.
-- The graph itself is LangGraph's: it is the list of the edges that the builder adds.
use juris_ai.Base.{
  ℕ, String, Bool, true, false, ◌&&◌, Option, none, some, List, [], ◌∷◌, ◌++◌, elem, if◌then◌else◌,
}
use mathlib.Core.List.{reverse}
use juris_ai.Base.Dict.{Dict, get, put}
use juris_ai.Planning.Plan.{ExecutionStep}

pub data ExecutionStatus : Type 0 where
  not_started running completed partial failed skipped waiting_for_approval : ExecutionStatus

-- Times are readings of the clock.
pub record ExecutionStepUpdate : Type 0 where
  pub step_id : String
  pub status : ExecutionStatus
  pub retry_count : ℕ
  pub started_at : Option ℕ
  pub completed_at : Option ℕ
  pub error : Option String
  pub termination_reason : Option String

-- statuses.get(dependency) is ExecutionStatusEnum.COMPLETED
abbrev pub is_completed : Option ExecutionStatus → Bool
is_completed (some completed) = true
is_completed _ = false

-- The loop over the reversed history: the first status that is met for a step stays.
unfoldable pub first_statuses :
    Dict ExecutionStatus → List ExecutionStepUpdate → Dict ExecutionStatus
first_statuses statuses [] = statuses
first_statuses statuses (u ∷ us) = elim (get u.step_id statuses) [
  | some _ ↦ first_statuses statuses us
  | none ↦ first_statuses (put u.step_id u.status statuses) us
]

unfoldable pub latest_step_statuses : List ExecutionStepUpdate → Dict ExecutionStatus
unfolding first_statuses
latest_step_statuses updates = first_statuses [] (reverse updates)

-- all(statuses.get(dependency) is COMPLETED for dependency in dependencies)
unfoldable pub all_completed : Dict ExecutionStatus → List String → Bool
all_completed statuses [] = true
all_completed statuses (d ∷ ds) = is_completed (get d statuses) && all_completed statuses ds

abbrev pub skipped_update : String → ExecutionStepUpdate
skipped_update id = record {
  step_id = id;
  status = skipped;
  retry_count = 0;
  started_at = none;
  completed_at = none;
  error = none;
  termination_reason = none;
}

-- A source or a target of an edge.
pub data Node : Type 0 where
  start finish : Node
  step : String → Node

pub record Edge : Type 0 where
  pub sources : List Node
  pub target : Node

abbrev pub steps_of : List String → List Node
steps_of [] = []
steps_of (x ∷ xs) = step x ∷ steps_of xs

-- START, if there is no dependency.
abbrev pub sources_of : List String → List Node
sources_of [] = start ∷ []
sources_of (d ∷ ds) = steps_of (d ∷ ds)

module _ {Json : Type 0} where
  unfoldable pub dependencies_completed : List ExecutionStepUpdate → ExecutionStep Json → Bool
  unfolding latest_step_statuses all_completed
  dependencies_completed updates s = elim s.depends_on [
    | [] ↦ true
    | d ∷ ds ↦ all_completed (latest_step_statuses updates) (d ∷ ds)
  ]

  -- execute_step, with the callback that runs an agent on the step; the updates that it returns are
  -- appended to the history.
  unfoldable pub execute_step :
      (List ExecutionStepUpdate → ExecutionStep Json → List ExecutionStepUpdate)
      → List ExecutionStepUpdate
      → ExecutionStep Json
      → List ExecutionStepUpdate
  unfolding dependencies_completed
  execute_step step_node updates s =
      if dependencies_completed updates s then step_node updates s else skipped_update s.id ∷ []

  -- {dependency for step in plan.steps for dependency in step.depends_on}, asked for membership
  unfoldable pub dependent_step_ids : List (ExecutionStep Json) → List String
  dependent_step_ids [] = []
  dependent_step_ids (s ∷ ss) = s.depends_on ++ dependent_step_ids ss

  unfoldable pub edges_in : List (ExecutionStep Json) → List Edge
  edges_in [] = []
  edges_in (s ∷ ss) = record { sources = sources_of s.depends_on; target = step s.id } ∷ edges_in ss

  unfoldable pub edges_out : List String → List (ExecutionStep Json) → List Edge
  edges_out dependents [] = []
  edges_out dependents (s ∷ ss) =
      let rest = edges_out dependents ss in
      if elem s.id dependents
      then rest
      else record { sources = step s.id ∷ []; target = finish } ∷ rest

  -- _add_edges
  unfoldable pub add_edges : List (ExecutionStep Json) → List Edge
  unfolding edges_in edges_out dependent_step_ids
  add_edges steps = edges_in steps ++ edges_out (dependent_step_ids steps) steps
