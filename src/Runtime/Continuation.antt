-- ===== src/Runtime/Continuation.antt =====
-- `execute` and `seed_evidence` of AgentContinuationService in
-- server/src/agentic/agents/runtime/continuation.py, and the turn that AgentExecutionNode of
-- agentic/execution/graph/nodes.py and DelegatedAgentRunner of agents/runtime/delegation.py make of
-- them.
use juris_ai.Base.{
  ℕ, zero, suc, String, Bool, true, false, not, Option, none, some, List, [], ◌∷◌, ◌++◌,
  if◌then◌else◌,
}
use juris_ai.Base.Int.{pos}
use juris_ai.Authorization.Roles.{ActionType, agent_call}
use juris_ai.Lifecycle.Budget.{AgentExecutionBudget, TerminationReason}
use juris_ai.Lifecycle.State.{new_state}
use juris_ai.Lifecycle.Operations.{step, tool_result, fails}
use juris_ai.Runtime.Decisions.{AgentDecision, AgentDecisionType, final, delegate}
use juris_ai.Runtime.Content.{RetrievedContent, ToolResult, to_reasoning_context}
use juris_ai.Runtime.Quality.{AnswerEvaluationSummary}
use juris_ai.Runtime.Session.{
  AgentActionRequest, AgentExecutionResult, AgentContinuationResult, Delegated, Runtime, Session, M,
  return, halt, ◌>>=◌, ◌>>◌, checked, performed, timed_check,
}
use juris_ai.Runtime.Handle.{is_send, terminal_result, text_or}
use juris_ai.Runtime.Reason.{if_allowed, reason}
use juris_ai.Runtime.Records.{
  is_over_budget, record_context_progress, record_reasoning_context, retry_after_tool_failure,
}
use juris_ai.Runtime.Evidence.{execute_gated_tool, execute_tool, delegate_action, retrieve_evidence}
use juris_ai.Runtime.Gate.{seed_retrieval_top_k, Gated, gate_final}
use juris_ai.Runtime.Delegations.{delegation_to_reasoning_context}

abbrev pub is_agent_call : ActionType → Bool
is_agent_call agent_call = true
is_agent_call _ = false

-- The loop's two variables
abbrev pub Loop : Type 0
Loop = AgentExecutionResult × List ToolResult

-- The loop returns, or goes on with a new result.
pub data Next : Type 0 where
  returns : AgentContinuationResult → Next
  goes_on : Loop → Next

unfoldable pub continuation_of :
    AgentExecutionResult
    → Option AgentActionRequest
    → List ToolResult
    → Option AnswerEvaluationSummary
    → AgentContinuationResult
continuation_of result proposed results summary = record {
  result = result;
  action = proposed;
  tool_results = results;
  evaluation_summary = summary;
}

module _ (r : Runtime) where
  -- return AgentContinuationResult(result=…, tool_results=…)
  abbrev pub leave_with : AgentExecutionResult → List ToolResult → M Next
  unfolding continuation_of
  leave_with result results = return (returns (continuation_of result none results none))

  -- The same, with the terminal result of the handle
  unfoldable pub leave_terminal : List ToolResult → M Next
  unfolding terminal_result leave_with
  leave_terminal results = terminal_result >>= λ result. leave_with result results

  unfoldable pub reason_on : List ToolResult → M Next
  unfolding reason
  reason_on results = reason r >>= λ result. return (goes_on (result, results))

  -- New information becomes context, and the agent reasons again.
  unfoldable pub absorb : List RetrievedContent → List ToolResult → M Next
  unfolding record_reasoning_context record_context_progress leave_terminal reason_on
  absorb context results = record_reasoning_context r context >>= λ kept.
      if not kept
      then leave_terminal results
      else (record_context_progress r context >>= λ progressed.
          if not progressed then leave_terminal results else reason_on results)

  unfoldable pub after_failed_tool : ToolResult → List ToolResult → M Next
  unfolding retry_after_tool_failure leave_terminal reason_on performed
  after_failed_tool t results =
      if is_over_budget t
      then leave_terminal results
      else (retry_after_tool_failure r t >>= λ retried.
          if retried
          then reason_on results
          else (performed (fails TerminationReason.failed_tool) >> leave_terminal results))

  unfoldable pub after_tool : ToolResult → List ToolResult → M Next
  unfolding checked leave_terminal after_failed_tool absorb to_reasoning_context
  after_tool t results = checked (tool_result (pos 1)) >>= λ budget.
      if_allowed budget
        (let kept = results ++ t ∷ [] in
          if t.success then absorb (to_reasoning_context t) kept else after_failed_tool t kept)
        (leave_terminal results)

  unfoldable pub run_action : AgentActionRequest → String → M ToolResult
  unfolding execute_gated_tool execute_tool
  run_action a tool_name =
      if is_send a.action_type then execute_gated_tool r a tool_name else execute_tool r a tool_name

  unfoldable pub call_named :
      AgentExecutionResult → List ToolResult → AgentActionRequest → Option String → M Next
  unfolding leave_terminal run_action after_tool timed_check
  call_named result results a none = leave_with result results
  call_named result results a (some tool_name) = timed_check r.world step >>= λ budget.
      if_allowed budget (run_action a tool_name >>= λ t. after_tool t results)
        (leave_terminal results)

  unfoldable pub continue_tool_call :
      AgentExecutionResult → List ToolResult → Option AgentActionRequest → M Next
  unfolding call_named
  continue_tool_call result results none = leave_with result results
  continue_tool_call result results (some a) = call_named result results a a.tool_name

  unfoldable pub after_delegation : String → Option Delegated → List ToolResult → M Next
  unfolding leave_terminal absorb delegation_to_reasoning_context
  after_delegation target none results = leave_terminal results
  after_delegation target (some d) results =
      absorb (delegation_to_reasoning_context target d) results

  unfoldable pub continue_delegation :
      AgentExecutionResult → List ToolResult → Option AgentActionRequest → M Next
  unfolding leave_terminal delegate_action after_delegation timed_check
  continue_delegation result results none = leave_with result results
  continue_delegation result results (some a) =
      if not (is_agent_call a.action_type)
      then leave_with result results
      else (timed_check r.world step >>= λ budget.
          if_allowed budget
            (delegate_action r a (text_or "" a.target_agent_id) >>= λ d.
              after_delegation (text_or "" a.target_agent_id) d results)
            (leave_terminal results))

  unfoldable pub after_gate : AgentExecutionResult → List ToolResult → Gated → M Next
  unfolding continuation_of
  after_gate result results (none, summary) =
      return (returns (continuation_of result result.action results summary))
  after_gate result results (some gated, some summary) =
      return (returns (continuation_of gated none results (some summary)))
  after_gate result results (some gated, none) = return (goes_on (gated, results))

  -- One round of the loop
  unfoldable pub continue_decision :
      AgentDecisionType → AgentDecision → AgentExecutionResult → List ToolResult → M Next
  unfolding continue_tool_call continue_delegation gate_final after_gate continuation_of
  continue_decision AgentDecisionType.tool_call d result results =
      continue_tool_call result results result.action
  continue_decision delegate d result results = continue_delegation result results result.action
  continue_decision final d result results =
      gate_final r d.final_response >>= λ gated. after_gate result results gated
  continue_decision _ d result results =
      return (returns (continuation_of result result.action results none))

  unfoldable pub continue_round : Option AgentDecision → Loop → M Next
  unfolding continue_decision
  continue_round none (result, results) = leave_with result results
  continue_round (some d) (result, results) = continue_decision d.decision_type d result results

  abbrev pub go_on : (Loop → M AgentContinuationResult) → Next → M AgentContinuationResult
  go_on again (returns t) = return t
  go_on again (goes_on loop) = again loop

  unfoldable pub continue_loop : (fuel : ℕ) → Loop → M AgentContinuationResult
  unfolding continue_round
  continue_loop zero loop = halt
  continue_loop (suc n) loop =
      let again = continue_loop n in
      continue_round loop.0.decision loop >>= λ next. go_on again next

  -- AgentContinuationService.execute. Every round that goes on takes a step of the budget.
  unfoldable pub execute : AgentExecutionResult → M AgentContinuationResult
  unfolding continue_loop
  execute initial_result s =
      continue_loop (suc s.lifecycle.budget.max_total_steps) (initial_result, []) s

  unfoldable pub seed_context : Option (List RetrievedContent) → M (Unit {0})
  unfolding record_reasoning_context
  seed_context none = return tt
  seed_context (some context) = record_reasoning_context r context >>= λ _. return tt

  unfoldable pub seed_evidence : M (Unit {0})
  unfolding retrieve_evidence seed_context
  seed_evidence = retrieve_evidence r seed_retrieval_top_k >>= seed_context

  -- AgentExecutionNode.__call__, from the handle on
  unfoldable pub run_turn : M AgentContinuationResult
  unfolding seed_evidence reason execute
  run_turn = do seed_evidence; initial_result ← reason r; execute initial_result

-- AgentExecution.start: the handle of a new execution
unfoldable pub start : AgentExecutionBudget → (started_at : ℕ) → List RetrievedContent → Session
unfolding new_state
start budget started_at context = record {
  lifecycle = new_state budget started_at;
  attempt_count = 0;
  last_decision = none;
  closed = false;
  reasoning_context = context;
  journal = [];
}
