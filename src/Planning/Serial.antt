-- ===== src/Planning/Serial.antt =====
-- serialize_plan and deserialize_plan of server/src/core/dto/planning.py: the snapshot of a plan
-- beside a paused execution.
use juris_ai.Base.{String, ◌≡◌, refl, map}
use juris_ai.Base.Result.{ok, err, ◌>>=◌}
use juris_ai.Base.Json.{
  Json, str, num, arr, obj, end, field, items, item, as_str, as_int, each, Parsed, bad_value,
  each_item-items,
}
use juris_ai.Base.{◌==◌, if◌then◌else◌}
use juris_ai.Planning.Plan.{
  AgentType, legal, contract, agent_value, ExecutionMode, sequential, parallel, hybrid, Intent,
  general, legal_research, contract_review, contract_analysis, clause_extraction, risk_analysis,
  ExecutionStep, ExecutionPlan,
}

-- The values of the members.
unfoldable pub mode_value : ExecutionMode → String
mode_value sequential = "sequential"
mode_value parallel = "parallel"
mode_value hybrid = "hybrid"

unfoldable pub intent_value : Intent → String
intent_value general = "general"
intent_value legal_research = "legal_research"
intent_value contract_review = "contract_review"
intent_value contract_analysis = "contract_analysis"
intent_value clause_extraction = "clause_extraction"
intent_value risk_analysis = "risk_analysis"

-- AgentTypeEnum(value), ExecutionModeEnum(value), IntentEnum(value)
unfoldable pub parse_agent : String → Parsed AgentType
parse_agent s =
    if s == "legal" then ok legal else if s == "contract" then ok contract else err (bad_value s)

unfoldable pub parse_mode : String → Parsed ExecutionMode
parse_mode s =
    if s == "sequential"
    then ok sequential
    else if s == "parallel"
    then ok parallel
    else if s == "hybrid"
    then ok hybrid
    else err (bad_value s)

unfoldable pub parse_intent : String → Parsed Intent
parse_intent s =
    if s == "general"
    then ok general
    else if s == "legal_research"
    then ok legal_research
    else if s == "contract_review"
    then ok contract_review
    else if s == "contract_analysis"
    then ok contract_analysis
    else if s == "clause_extraction"
    then ok clause_extraction
    else if s == "risk_analysis"
    then ok risk_analysis
    else err (bad_value s)

pub serialize_step : ExecutionStep Json → Json
unfolding agent_value
serialize_step step = obj (
    field "id" (str step.id) (
      field "agent" (str (agent_value step.agent)) (
        field "instruction" (str step.instruction) (
          field "depends_on" (arr (items (map str step.depends_on)))
            (field "stage" (num step.stage) (field "arguments" step.arguments end))))))

unfoldable pub serialize_plan : ExecutionPlan Json → Json
unfolding serialize_step mode_value intent_value
serialize_plan plan = obj (
    field "intent" (str (intent_value plan.intent)) (
      field "mode" (str (mode_value plan.mode)) (
        field "steps" (arr (items (map serialize_step plan.steps)))
          (field "metadata" plan.metadata end))))

pub deserialize_step : Json → Parsed (ExecutionStep Json)
unfolding parse_agent
deserialize_step j = item "id" j >>= as_str >>= λ id.
    item "agent" j >>= as_str >>= parse_agent >>= λ agent.
    item "instruction" j >>= as_str >>= λ instruction.
    item "depends_on" j >>= each as_str >>= λ depends_on. item "stage" j >>= as_int >>= λ stage.
    item "arguments" j >>= λ arguments. ok (record {
      id = id;
      agent = agent;
      instruction = instruction;
      depends_on = depends_on;
      stage = stage;
      arguments = arguments;
    })

unfoldable pub deserialize_plan : Json → Parsed (ExecutionPlan Json)
unfolding deserialize_step parse_mode parse_intent
deserialize_plan j = item "intent" j >>= as_str >>= parse_intent >>= λ intent.
    item "mode" j >>= as_str >>= parse_mode >>= λ mode.
    item "steps" j >>= each deserialize_step >>= λ steps. item "metadata" j >>= λ metadata.
    ok (record { intent = intent; mode = mode; steps = steps; metadata = metadata })

parse-agent_value : (a : AgentType) → parse_agent (agent_value a) ≡ ok a
unfolding parse_agent agent_value
parse-agent_value legal = refl
parse-agent_value _ = refl

parse-mode_value : (m : ExecutionMode) → parse_mode (mode_value m) ≡ ok m
unfolding parse_mode mode_value
parse-mode_value sequential = refl
parse-mode_value _ = refl

parse-intent_value : (i : Intent) → parse_intent (intent_value i) ≡ ok i
unfolding parse_intent intent_value
parse-intent_value general = refl
parse-intent_value _ = refl

deserialize-serialize_step :
    (step : ExecutionStep Json) → deserialize_step (serialize_step step) ≡ ok step
unfolding deserialize_step serialize_step
deserialize-serialize_step step =
    rw (parse-agent_value step.agent, each_item-items as_str str (λ s. refl) step.depends_on) refl

-- A plan that was serialized is deserialized to the same plan.
pub deserialize-serialize_plan :
    (plan : ExecutionPlan Json) → deserialize_plan (serialize_plan plan) ≡ ok plan
unfolding deserialize_plan serialize_plan
deserialize-serialize_plan plan =
    rw
      (
        parse-intent_value plan.intent,
        parse-mode_value plan.mode,
        each_item-items deserialize_step serialize_step deserialize-serialize_step plan.steps,
      )
      refl
