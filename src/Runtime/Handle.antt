-- ===== src/Runtime/Handle.antt =====
-- AgentExecutionHandle of server/src/agentic/agents/runtime/execution.py: its results, its context,
-- and what it makes of one validated decision.
use juris_ai.Base.{
  ℕ, ◌-◌, String, Bool, true, false, not, Option, none, some, List, [], ◌∷◌, ◌++◌, if◌then◌else◌,
}
use juris_ai.Base.Text.{chars, join}
use juris_ai.Authorization.Roles.{ActionType, send, action_value}
use juris_ai.Execution.Graph.{ExecutionStatus}
use juris_ai.Lifecycle.Budget.{
  TerminationReason, is_allowed, failed_llm, failed_policy, user_input_required,
}
use juris_ai.Lifecycle.State.{AgentExecutionStatus, running}
use juris_ai.Lifecycle.Operations.{action, partial_text, asks_user, fails}
use juris_ai.Runtime.Decisions.{
  AgentDecision, AgentDecisionType, final, need_input, delegate, AgentToolCall, AgentDelegation,
  AgentUserInputRequest, AgentFailure,
}
use juris_ai.Runtime.Guards.{check_tool, check_delegation, is_gated}
use juris_ai.Runtime.Content.{RetrievedContent}
use juris_ai.Runtime.Session.{
  exception, AgentActionRequest, done, raises, AgentExecutionResult, Runtime, Session, M, ◌>>=◌,
  ◌>>◌, checked, performed,
}

abbrev pub is_running : AgentExecutionStatus → Bool
is_running running = true
is_running _ = false

abbrev pub is_send : ActionType → Bool
is_send send = true
is_send _ = false

abbrev pub set_closed : M (Unit {0})
set_closed s = (done tt, record s { closed = true })

abbrev pub has_items : List RetrievedContent → Bool
has_items [] = false
has_items (_ ∷ _) = true

-- extend_reasoning_context
unfoldable pub extend_reasoning_context : List RetrievedContent → M (Unit {0})
extend_reasoning_context context s =
    if s.closed
    then (raises (exception "RuntimeError" "Agent execution handle is already closed."), s)
    else if not (is_running s.lifecycle.status)
    then (raises (exception "RuntimeError" "Agent execution handle is not running."), s)
    else if has_items context
    then (done tt, record s { reasoning_context = s.reasoning_context ++ context })
    else (done tt, s)

abbrev pub or_else : Option AgentDecision → Option AgentDecision → Option AgentDecision
or_else none d = d
or_else (some d) _ = some d

-- The result that every branch builds from the session: max(attempt_count - 1, 0) is `-` on ℕ.
unfoldable pub result_of :
    ExecutionStatus
    → Option TerminationReason
    → Option String
    → Option AgentDecision
    → Option AgentActionRequest
    → Session
    → AgentExecutionResult
result_of status reason error decision proposed s = record {
  status = status;
  retry_count = s.attempt_count - 1;
  termination_reason = reason;
  error = error;
  partial_response = s.lifecycle.partial_response;
  decision = decision;
  action = proposed;
}

abbrev pub give : (Session → AgentExecutionResult) → M AgentExecutionResult
give build s = (done (build s), s)

-- _build_partial_result
unfoldable pub partial_result : Option AgentDecision → M AgentExecutionResult
unfolding result_of
partial_result decision = give λ s.
    result_of ExecutionStatus.partial s.lifecycle.termination_reason none
      (or_else decision s.last_decision) none s

abbrev pub execution_status : AgentExecutionStatus → ExecutionStatus
execution_status AgentExecutionStatus.completed = ExecutionStatus.completed
execution_status AgentExecutionStatus.failed = ExecutionStatus.failed
execution_status _ = ExecutionStatus.partial

-- _build_terminal_result
unfoldable pub terminal_result : M AgentExecutionResult
unfolding result_of
terminal_result = give λ s.
    result_of (execution_status s.lifecycle.status) s.lifecycle.termination_reason none
      s.last_decision none s

-- A result with the status FAILED, without an action
unfoldable pub failed_result :
    TerminationReason → Option String → Option AgentDecision → M AgentExecutionResult
unfolding result_of
failed_result reason error decision =
    give (result_of ExecutionStatus.failed (some reason) error decision none)

-- A result with the status COMPLETED
unfoldable pub completed_result :
    Option TerminationReason → AgentDecision → Option AgentActionRequest → M AgentExecutionResult
unfolding result_of
completed_result reason decision proposed =
    give (result_of ExecutionStatus.completed reason none (some decision) proposed)

abbrev pub text_or : String → Option String → String
text_or default none = default
text_or default (some text) = text

module _ (r : Runtime) where
  unfoldable pub build_action_key : AgentActionRequest → String
  build_action_key a = join "|" (
      action_value a.action_type
      ∷ text_or "" a.tool_name
      ∷ text_or "" a.target_agent_id
      ∷ r.world.dumps a.parameters
      ∷ [])

  unfoldable pub tool_action : AgentDecision → AgentToolCall → AgentActionRequest
  tool_action decision call = record {
    context = r.request.context;
    agent_id = r.agent_id;
    action_type = if is_gated call.tool_name then send else ActionType.tool_call;
    tool_name = some call.tool_name;
    target_agent_id = none;
    parameters = call.parameters;
    reason = text_or "" decision.reason;
  }

  unfoldable pub delegation_action : AgentDecision → AgentDelegation → AgentActionRequest
  delegation_action decision d = record {
    context = r.request.context;
    agent_id = r.agent_id;
    action_type = ActionType.agent_call;
    tool_name = none;
    target_agent_id = some d.target_agent_id;
    parameters = d.parameters;
    reason = text_or "" decision.reason;
  }

  -- record_action and the result that follows it
  unfoldable pub propose : AgentDecision → AgentActionRequest → M AgentExecutionResult
  unfolding build_action_key checked partial_result completed_result
  propose decision a = do
    budget ← checked (action (build_action_key a))
    if is_allowed budget
        then completed_result none decision (some a)
        else (set_closed >> partial_result (some decision))

  unfoldable pub fail_with :
      TerminationReason → Option String → AgentDecision → M AgentExecutionResult
  unfolding performed failed_result
  fail_with reason error decision = do
    performed (fails reason)
    failed_result reason error (some decision)

  abbrev pub response : Option String → Option (List ℕ)
  response none = none
  response (some text) = some (chars text)

  unfoldable pub handle_final : AgentDecision → M AgentExecutionResult
  unfolding performed completed_result
  handle_final decision = do
    performed (partial_text (response decision.final_response))
    completed_result none decision none

  abbrev pub question : Option AgentUserInputRequest → String
  question none = ""
  question (some request) = request.question

  unfoldable pub handle_need_input : AgentDecision → M AgentExecutionResult
  unfolding performed completed_result
  handle_need_input decision = do
    performed (partial_text (some (chars (question decision.user_input))))
    performed asks_user
    completed_result (some user_input_required) decision none

  abbrev pub failure_message : Option AgentFailure → String
  failure_message none = "Agent execution failed."
  failure_message (some failure) = failure.message

  unfoldable pub handle_failure : AgentDecision → M AgentExecutionResult
  unfolding performed fail_with
  handle_failure decision = do
    performed (partial_text (some (chars (failure_message decision.failure))))
    fail_with failed_llm (some (failure_message decision.failure)) decision

  unfoldable pub handle_tool_call : AgentDecision → Option AgentToolCall → M AgentExecutionResult
  unfolding fail_with propose tool_action check_tool
  handle_tool_call decision none =
      fail_with TerminationReason.failed_validation
        (some "TOOL_CALL decision is missing tool_call.") decision
  handle_tool_call decision (some call) =
      let permission = check_tool r.policy call.tool_name in
      if permission.allowed
      then propose decision (tool_action decision call)
      else fail_with failed_policy permission.reason decision

  unfoldable pub handle_delegation : AgentDecision → Option AgentDelegation → M AgentExecutionResult
  unfolding fail_with propose delegation_action check_delegation
  handle_delegation decision none =
      fail_with TerminationReason.failed_validation
        (some "DELEGATE decision is missing delegation.") decision
  handle_delegation decision (some d) =
      let permission = check_delegation r.policy d.target_agent_id in
      if permission.allowed
      then propose decision (delegation_action decision d)
      else fail_with failed_policy permission.reason decision

  -- Every type is handled, so the branch of an unsupported one is not there.
  unfoldable pub handle_decision : AgentDecisionType → AgentDecision → M AgentExecutionResult
  unfolding handle_final handle_need_input handle_failure handle_tool_call handle_delegation
  handle_decision final decision = handle_final decision
  handle_decision need_input decision = handle_need_input decision
  handle_decision AgentDecisionType.fail decision = handle_failure decision
  handle_decision AgentDecisionType.tool_call decision =
      handle_tool_call decision decision.tool_call
  handle_decision delegate decision = handle_delegation decision decision.delegation
