-- ===== src/Runtime/Unhandled.antt =====
-- A RuntimeError of server/src/agentic/agents/runtime/execution.py that `_retry_insufficient` of
-- continuation.py lets escape.
use juris_ai.Base.{ℕ, ◌≤◌, true, false, ◌≡◌, refl, arith, if◌then◌else◌}
use juris_ai.Lifecycle.Budget.{
  TerminationReason, partial_max_tool_calls, partial_timeout, deny, is_allowed, check_time,
}
use juris_ai.Lifecycle.State.{AgentState, terminate_partially}
use juris_ai.Lifecycle.Operations.{returned, tool_call, run_call}
use juris_ai.Runtime.Guards.{check_tool}
use juris_ai.Runtime.Quality.{AnswerEvaluationResult}
use juris_ai.Runtime.Session.{Runtime, Session, raises, exception, checked, timed_check, now}
use juris_ai.Runtime.Handle.{extend_reasoning_context}
use juris_ai.Runtime.Evidence.{retrieve_evidence}
use juris_ai.Runtime.Gate.{
  wants_evidence, retry_insufficient, force_corrective_retrieval, use_evidence, weak_retry,
  ask_again,
}

denied_call :
    (time : ℕ) (s : AgentState)
    → s.budget.max_tool_calls ≤ s.tool_call_count
    → (reason : TerminationReason) × (run_call (tool_call time) s
        ≡ (returned (deny reason), terminate_partially reason s))
unfolding run_call check_time
denied_call time s full = (
  if is_allowed (check_time s.budget s.started_at time)
      then partial_max_tool_calls
      else partial_timeout,
  ground arith,
)

-- If an answer failed on groundedness or relevance, the policy allows the retriever, the tool calls
-- of the budget are used up and the handle is not closed, then the retry of the answer raises the
-- RuntimeError of a handle that is not running.
pub retry_insufficient-raises :
    (r : Runtime) (e : AnswerEvaluationResult) (s : Session)
    → wants_evidence r e ≡ true
    → (check_tool r.policy "retriever").allowed ≡ true
    → s.lifecycle.budget.max_tool_calls ≤ s.lifecycle.tool_call_count
    → s.closed ≡ false
    → (retry_insufficient r e s).0
      ≡ raises (exception "RuntimeError" "Agent execution handle is not running.")
unfolding retry_insufficient force_corrective_retrieval retrieve_evidence timed_check now checked
    use_evidence weak_retry ask_again extend_reasoning_context terminate_partially
retry_insufficient-raises r e s wants allowed full unclosed =
    let (reason, denied) = denied_call (r.world.clock s.journal) s.lifecycle full in
    rw (wants, allowed, denied, unclosed) refl
