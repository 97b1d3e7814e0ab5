-- ===== src/Runtime/Delegations.antt =====
-- _verified_delegated_answer and _delegation_to_reasoning_context of
-- server/src/agentic/agents/runtime/continuation.py: what of a delegated turn reaches the agent that
-- asked for it.
use juris_ai.Base.{
  String, Bool, true, false, not, Option, none, some, List, [], ◌∷◌, if◌then◌else◌, ◌==◌,
}
use juris_ai.Base.Json.{str}
use juris_ai.Base.Text.{concat}
use juris_ai.Execution.Graph.{ExecutionStatus}
use juris_ai.Lifecycle.Budget.{TerminationReason}
use juris_ai.Runtime.Decisions.{AgentDecision, AgentDecisionType, final}
use juris_ai.Runtime.Content.{RetrievedContent, memory, runtime_feedback}
use juris_ai.Runtime.Quality.{AnswerEvaluationSummary}
use juris_ai.Runtime.Session.{AgentExecutionResult, AgentContinuationResult, Delegated, turn, other}
use juris_ai.Runtime.Reason.{reason}
use juris_ai.Runtime.Records.{termination_value}

abbrev status_value : ExecutionStatus → String
status_value ExecutionStatus.completed = "completed"
status_value ExecutionStatus.partial = "partial"
status_value ExecutionStatus.failed = "failed"
status_value ExecutionStatus.not_started = "not_started"
status_value ExecutionStatus.running = "running"
status_value ExecutionStatus.skipped = "skipped"
status_value ExecutionStatus.waiting_for_approval = "waiting_for_approval"

abbrev is_completed_status : ExecutionStatus → Bool
is_completed_status ExecutionStatus.completed = true
is_completed_status _ = false

abbrev is_unverified : Option AnswerEvaluationSummary → Bool
is_unverified none = false
is_unverified (some summary) = not summary.verified

-- A text that is there and not empty
abbrev filled : Option String → Option String
filled none = none
filled (some text) = if text == "" then none else some text

abbrev final_text : Option AgentDecision → Option String
final_text none = none
final_text (some d) = text d.decision_type
  where
    text : AgentDecisionType → Option String
    text final = filled d.final_response
    text _ = none

-- _verified_delegated_answer
unfoldable pub verified_delegated_answer : AgentContinuationResult → Option String
verified_delegated_answer t =
    if not (is_completed_status t.result.status)
    then none
    else if is_unverified t.evaluation_summary
    then none
    else final_text t.result.decision

abbrev failure_reason : AgentExecutionResult → String
failure_reason result = why result.termination_reason
  where
    why : Option TerminationReason → String
    why none = status_value result.status
    why (some reason) = termination_value reason

abbrev delegated_content : String → String → List RetrievedContent
delegated_content target content =
    if content == ""
    then []
    else record {
      source = memory;
      source_name = target;
      content = content;
      score = none;
      metadata = ("source_type", str "agent_delegation") ∷ ("target_agent_id", str target) ∷ [];
    }
      ∷ []

-- _delegation_to_reasoning_context
unfoldable pub delegation_to_reasoning_context : String → Delegated → List RetrievedContent
unfolding verified_delegated_answer runtime_feedback
delegation_to_reasoning_context target Delegated.no_result = []
delegation_to_reasoning_context target (other shown) = delegated_content target shown
delegation_to_reasoning_context target (turn t) = answered (verified_delegated_answer t)
  where
    answered : Option String → List RetrievedContent
    answered (some content) = delegated_content target content
    answered none =
        runtime_feedback (
          concat (
            "Agent '"
            ∷ target
            ∷ "' could not produce a verified answer ("
            ∷ failure_reason t.result
            ∷ "). Answer from the evidence you have."
            ∷ []))
        ∷ []
