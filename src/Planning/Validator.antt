-- ===== src/Planning/Validator.antt =====
-- server/src/agentic/planning/validator.py: ExecutionPlanValidator. A check returns or raises; each
-- `PlanValidationError` is told apart by the check that raises it.
pub mod Checks
pub mod Ancestry
pub mod Groups
pub mod Pairs
pub mod Concurrency
pub mod Accepts
pub mod Total
use juris_ai.Base.{
  ℕ, String, Bool, true, false, Option, none, some, List, [], ◌∷◌, length, elem, to_set, not, ltb,
  if◌then◌else◌, ◌==◌, ◌++◌, ◌||◌,
}
use juris_ai.Base.Dict.{Dict, get, put}
use juris_ai.Base.Int.{ltz, pos}
use juris_ai.Base.Result.{Result, ok, err, ◌>>=◌, ◌>>◌, raise_if}
use juris_ai.Base.Text.{is_blank}
use juris_ai.Planning.Plan.{
  AgentType, legal, contract, agent_value, ExecutionMode, sequential, parallel, hybrid,
  ExecutionStep, ExecutionPlan, step_ids, dependencies,
}
use juris_ai.Planning.Cycles.{
  Visit, done, cycle, key_error as visit_key_error, out_of_fuel as visit_out_of_fuel,
  validate_dependency_graph as graph_search,
}
use juris_ai.Planning.Ancestors.{transitive_dependencies}

-- The exceptions. `key_error` is a lookup that Python refuses; `out_of_fuel` is the model's own.
pub data PlanError : Type 0 where
  no_steps duplicate_step_ids unsupported_mode : PlanError
  empty_step_id missing_agent empty_instruction bad_stage : PlanError
  duplicate_dependencies empty_dependency self_dependency : String → PlanError
  unknown_dependency : String → String → PlanError
  dependency_cycle : PlanError
  concurrent_agent : AgentType → String → String → PlanError
  plan_too_large : ℕ → ℕ → PlanError
  key_error out_of_fuel : PlanError

abbrev pub Check : Type 0
Check = Result PlanError (Unit {0})

-- for x in xs: check(x)
abbrev pub for_each {ℓ} : {A : Type ℓ} → (A → Check) → List A → Check
for_each check [] = ok tt
for_each check (x ∷ xs) = check x >> for_each check xs

pub not_same_length : List String → List String → Bool
not_same_length xs ys = ltb (length xs) (length ys) || ltb (length ys) (length xs)

pub validate_mode : ExecutionMode → Check
validate_mode sequential = ok tt
validate_mode parallel = ok tt
validate_mode hybrid = ok tt

-- The outcome of the search, as an exception of `validate`.
pub search_result : Visit → Check
search_result (done c) = ok tt
search_result cycle = err dependency_cycle
search_result visit_key_error = err key_error
search_result visit_out_of_fuel = err out_of_fuel

abbrev pub Groups : Type 0 → Type 0
Groups Json = List (AgentType × List (ExecutionStep Json))

pub same_agent : AgentType → AgentType → Bool
unfolding agent_value
same_agent a b = agent_value a == agent_value b

module _ {Json : Type 0} where
  pub validate_step_ids : List (ExecutionStep Json) → Check
  unfolding not_same_length
  validate_step_ids steps =
      raise_if (not_same_length (step_ids steps) (to_set (step_ids steps))) duplicate_step_ids

  pub validate_step : ExecutionStep Json → Check
  unfolding is_blank agent_value
  validate_step step = do
    raise_if (is_blank step.id) empty_step_id
    raise_if (agent_value step.agent == "") missing_agent
    raise_if (is_blank step.instruction) empty_instruction
    raise_if (ltz step.stage (pos 1)) bad_stage

  pub validate_dependency : ExecutionStep Json → List String → String → Check
  unfolding is_blank
  validate_dependency step ids dependency_id = do
    raise_if (is_blank dependency_id) (empty_dependency step.id)
    raise_if (dependency_id == step.id) (self_dependency step.id)
    raise_if (not (elem dependency_id ids)) (unknown_dependency step.id dependency_id)

  pub validate_step_dependencies : List String → ExecutionStep Json → Check
  unfolding not_same_length validate_dependency
  validate_step_dependencies ids step = do
    raise_if (not_same_length step.depends_on (to_set step.depends_on))
        (duplicate_dependencies step.id)
    for_each (validate_dependency step ids) step.depends_on

  pub validate_dependencies : List (ExecutionStep Json) → Check
  unfolding search_result validate_step_dependencies graph_search
  validate_dependencies steps = do
    for_each (validate_step_dependencies (step_ids steps)) steps
    search_result (graph_search (dependencies steps))

  -- ancestors = {step.id: ... for step in plan.steps}
  pub ancestors_from :
      Dict (List String)
      → Dict (List String)
      → List (ExecutionStep Json)
      → Option (Dict (List String))
  unfolding transitive_dependencies
  ancestors_from d found [] = some found
  ancestors_from d found (step ∷ steps) = elim (transitive_dependencies step.id d) [
    | none ↦ none
    | some ids ↦ ancestors_from d (put step.id ids found) steps
  ]

  -- steps_by_agent.setdefault(step.agent, []).append(step)
  pub add_to_group : ExecutionStep Json → Groups Json → Groups Json
  unfolding same_agent
  add_to_group step [] = (step.agent, step ∷ []) ∷ []
  add_to_group step ((agent, members) ∷ groups) =
      if same_agent agent step.agent
      then (agent, members ++ step ∷ []) ∷ groups
      else (agent, members) ∷ add_to_group step groups

  pub steps_by_agent : Groups Json → List (ExecutionStep Json) → Groups Json
  unfolding add_to_group
  steps_by_agent groups [] = groups
  steps_by_agent groups (step ∷ steps) = steps_by_agent (add_to_group step groups) steps

  -- The body of the inner loop: one of the two must be an ancestor of the other. The second lookup
  -- is made only if the first test fails, as `or` does.
  pub check_pair : Dict (List String) → AgentType → ExecutionStep Json → ExecutionStep Json → Check
  check_pair ancestors agent earlier later = elim (get later.id ancestors) [
    | none ↦ err key_error
    | some before_later ↦
        if elem earlier.id before_later then ok tt else elim (get earlier.id ancestors) [
          | none ↦ err key_error
          | some before_earlier ↦
              raise_if (not (elem later.id before_earlier))
                (concurrent_agent agent earlier.id later.id)
        ]
  ]

  -- for earlier, later in combinations(steps, 2)
  pub check_pairs : Dict (List String) → AgentType → List (ExecutionStep Json) → Check
  unfolding check_pair
  check_pairs ancestors agent [] = ok tt
  check_pairs ancestors agent (step ∷ steps) =
      for_each (check_pair ancestors agent step) steps >> check_pairs ancestors agent steps

  pub check_groups : Option (Dict (List String)) → Groups Json → Check
  unfolding check_pairs
  check_groups none groups = err out_of_fuel
  check_groups (some ancestors) groups =
      for_each (λ group. check_pairs ancestors group.0 group.1) groups

  pub validate_agent_concurrency : List (ExecutionStep Json) → Check
  unfolding check_groups ancestors_from steps_by_agent
  validate_agent_concurrency steps =
      check_groups (ancestors_from (dependencies steps) [] steps) (steps_by_agent [] steps)

  pub no_steps? : List (ExecutionStep Json) → Bool
  no_steps? [] = true
  no_steps? (step ∷ steps) = false

  pub validate_plan : ExecutionPlan Json → Check
  unfolding no_steps? validate_step_ids validate_mode validate_step validate_dependencies
      validate_agent_concurrency
  validate_plan plan = do
    raise_if (no_steps? plan.steps) no_steps
    validate_step_ids plan.steps
    validate_mode plan.mode
    for_each validate_step plan.steps
    validate_dependencies plan.steps
    validate_agent_concurrency plan.steps

  unfoldable pub validate : ℕ → ExecutionPlan Json → Result PlanError (ExecutionPlan Json)
  unfolding validate_plan
  validate max_steps plan = do
    validate_plan plan
    raise_if (ltb max_steps (length plan.steps)) (plan_too_large (length plan.steps) max_steps)
    ok plan
