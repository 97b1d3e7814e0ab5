-- ===== src/Runtime/Reason.antt =====
-- `reason` of AgentExecutionHandle in server/src/agentic/agents/runtime/execution.py: one reasoning
-- slice, with its corrections of the model and its retries of a failed call.
use juris_ai.Base.{
  ℕ, zero, suc, ◌+◌, ◌-◌, ◌<◌, String, Bool, true, false, not, ◌&&◌, ◌||◌, Option, none, some, List,
  [], ◌∷◌, ltb, leb, if◌then◌else◌,
}
use juris_ai.Base.Int.{pos, ltz}
use juris_ai.Base.Text.{concat, join}
use juris_ai.Base.Result.{Result, ok, err}
use juris_ai.Lifecycle.Budget.{BudgetCheckResult, is_allowed, failed_llm, failed_validation}
use juris_ai.Lifecycle.State.{AgentState}
use juris_ai.Lifecycle.Operations.{step, iteration, decision, rejected_decision, fails}
use juris_ai.Runtime.Decisions.{AgentDecision, AgentDecisionType, AgentToolCall, validate}
use juris_ai.Runtime.Guards.{check_tool}
use juris_ai.Runtime.Retry.{delay_seconds, is_retryable}
use juris_ai.Runtime.Content.{runtime_feedback}
use juris_ai.Runtime.Session.{
  Exn, exception, reasoning_failure, AgentExecutionResult, reasoned, slept, read_deadline, Runtime,
  Session, done, M, return, halt, ◌>>=◌, ◌>>◌, catch, get_session, throw, ask, record_effect,
  performed, now, timed_check,
}
use juris_ai.Runtime.Handle.{
  is_running, set_closed, extend_reasoning_context, partial_result, terminal_result, failed_result,
  handle_decision,
}

-- if not budget.allowed: …
abbrev pub if_allowed : {A : Type 0} → BudgetCheckResult → M A → M A → M A
if_allowed budget go denied = if is_allowed budget then go else denied

abbrev pub as_failure : Exn → Exn
as_failure (exception class message) = reasoning_failure class message
as_failure (reasoning_failure class message) = reasoning_failure class message

abbrev pub decided : AgentDecision → M AgentDecision
decided d s = (done d, record s { last_decision = some d })

abbrev pub count_attempt : M (Unit {0})
count_attempt s = (done tt, record s { attempt_count = s.attempt_count + 1 })

-- The handle is closed as soon as its lifecycle has ended.
abbrev pub close_if_ended : M (Unit {0})
close_if_ended s =
    if is_running s.lifecycle.status then (done tt, s) else (done tt, record s { closed = true })

-- max(turn_remaining, 0): the time of the turn that is left
abbrev pub turn_remaining : AgentState → ℕ → ℕ
turn_remaining state time = (state.budget.max_execution_time + state.started_at) - time

-- _retry_time_left() < delay + min_attempt_seconds
abbrev pub is_too_late : AgentState → ℕ → Option juris_ai.Base.Int.ℤ → ℕ → Bool
is_too_late state time none needed =
    ltb (state.budget.max_execution_time + state.started_at) (needed + time)
is_too_late state time (some left) needed =
    ltb (state.budget.max_execution_time + state.started_at) (needed + time)
    || ltz left (pos needed)

module _ (r : Runtime) where
  -- _may_correct
  unfoldable pub may_correct : String → M Bool
  unfolding timed_check extend_reasoning_context runtime_feedback
  may_correct feedback = do
    _ ← timed_check r.world rejected_decision
    s ← get_session
    if leb s.lifecycle.budget.max_rejected_decisions s.lifecycle.rejected_decision_count
        then return false
        else (extend_reasoning_context (runtime_feedback feedback ∷ []) >> return true)

  abbrev tool_named : String → String
  tool_named name =
      if r.world.is_identifier name then concat ("'" ∷ name ∷ "'" ∷ []) else "that tool"

  abbrev available : List String → String
  available [] = "none"
  available (name ∷ names) = join ", " (name ∷ names)

  unfoldable pub tool_not_available_feedback : String → String
  tool_not_available_feedback name = concat (
      "Tool "
      ∷ tool_named name
      ∷ " is not available to you. Available tools: "
      ∷ available r.request.tool_catalog
      ∷ ". Use one of those, or answer from the evidence you have."
      ∷ [])

  -- Whether the model is asked again because it may not use the tool
  unfoldable pub correct_tool : AgentDecisionType → Option AgentToolCall → M Bool
  unfolding may_correct tool_not_available_feedback check_tool
  correct_tool AgentDecisionType.tool_call (some call) =
      let permission = check_tool r.policy call.tool_name in
      if permission.allowed
      then return false
      else may_correct (tool_not_available_feedback call.tool_name)
  correct_tool _ _ = return false

  abbrev pub raise_failure : Result Exn AgentDecision → M AgentDecision
  raise_failure (ok d) = return d
  raise_failure (err e) = throw (as_failure e)

  -- The call of the agent's `_reason`, within the rest of the turn's time
  unfoldable pub reason_once : M AgentDecision
  unfolding now
  reason_once = do
    time ← now r.world
    s ← get_session
    let within = turn_remaining s.lifecycle time
    answer ← ask (reasoned within s.reasoning_context) (r.world.reason within s.reasoning_context)
    d ← raise_failure answer
    decided d

  unfoldable pub stop_closed : Option AgentDecision → M AgentExecutionResult
  unfolding partial_result
  stop_closed d = set_closed >> partial_result d

  unfoldable pub finish_decision : AgentDecision → M AgentExecutionResult
  unfolding handle_decision
  finish_decision d = do result ← handle_decision r d.decision_type d; close_if_ended; return result

  unfoldable pub reject_decision : AgentDecision → String → M AgentExecutionResult
  unfolding performed failed_result
  reject_decision d message = do
    performed (fails failed_validation)
    set_closed
    failed_result failed_validation (some message) (some d)

  abbrev pub rejection_feedback : String → String
  rejection_feedback message =
      concat
        ("Your previous decision was rejected: " ∷ message ∷ " Return one valid decision." ∷ [])

  -- What follows the validation; `again` is the next attempt.
  unfoldable pub settle_decision :
      M AgentExecutionResult → AgentDecision → Result String AgentDecision → M AgentExecutionResult
  unfolding may_correct reject_decision timed_check stop_closed correct_tool finish_decision
  settle_decision again d (err message) = do
    corrected ← may_correct (rejection_feedback message)
    if corrected then again else reject_decision d message
  settle_decision again d (ok valid) = do
    d ← decided valid
    budget ← timed_check r.world decision
    if_allowed budget
        (correct_tool d.decision_type d.tool_call >>= λ corrected.
          if corrected then again else finish_decision d)
        (stop_closed (some d))

  -- _execute_reasoning_attempt
  unfoldable pub execute_reasoning_attempt : (fuel : ℕ) → M AgentExecutionResult
  unfolding timed_check stop_closed reason_once settle_decision validate
  execute_reasoning_attempt zero = halt
  execute_reasoning_attempt (suc n) =
      let again = execute_reasoning_attempt n in
      timed_check r.world step >>= λ steps.
      if_allowed steps
        (timed_check r.world iteration >>= λ iterations.
          if_allowed iterations (reason_once >>= λ d. settle_decision again d (validate d))
            (stop_closed none))
        (stop_closed none)

  -- The lifecycle fails, and so does the result.
  unfoldable pub give_up : String → M AgentExecutionResult
  unfolding performed failed_result
  give_up message = do
    performed (fails failed_llm)
    set_closed
    s ← get_session
    failed_result failed_llm (some message) s.last_decision

  abbrev pub delay_raised : Result String ℕ → M ℕ
  delay_raised (ok delay) = return delay
  delay_raised (err message) = throw (exception "ValueError" message)

  unfoldable pub delay_of : Bool → ℕ → M ℕ
  unfolding delay_seconds
  delay_of can_retry retry_count =
      if can_retry then delay_raised (delay_seconds r.retry_policy retry_count) else return 0

  -- retryable and attempt_count < max_attempts
  unfoldable pub can_retry : String → Session → Bool
  unfolding is_retryable
  can_retry class s =
      is_retryable r.world.is_subclass r.retryable_exceptions class
      && ltb s.attempt_count r.retry_policy.max_attempts

  -- A retry needs the time for its delay and for a whole attempt.
  unfoldable pub retry_or_give_up :
      M AgentExecutionResult → (class message : String) → Session → M AgentExecutionResult
  unfolding can_retry delay_of now give_up
  retry_or_give_up again class message s = do
    delay ← delay_of (can_retry class s) s.attempt_count
    time ← now r.world
    left ← ask read_deadline r.world.remaining
    if can_retry class s
          && not (is_too_late s.lifecycle time left (delay + r.retry_policy.min_attempt))
        then (record_effect (slept delay) >> again)
        else give_up message

  -- The two `except` clauses of `reason`
  unfoldable pub after_failure : M AgentExecutionResult → Exn → M AgentExecutionResult
  unfolding give_up retry_or_give_up
  after_failure again (exception class message) = give_up message
  after_failure again (reasoning_failure class message) = do
    s ← get_session
    retry_or_give_up again class message s

  -- More fuel than there can be attempts: each correction is counted, up to max_rejected_decisions.
  abbrev pub attempt_fuel : Session → ℕ
  attempt_fuel s = suc s.lifecycle.budget.max_rejected_decisions

  unfoldable pub reason_slice : (fuel : ℕ) → M AgentExecutionResult
  unfolding terminal_result execute_reasoning_attempt after_failure
  reason_slice zero s = halt s
  reason_slice (suc n) s =
      let again = reason_slice n in
      if s.closed
      then throw (exception "RuntimeError" "Agent execution handle is already closed.") s
      else if not (is_running s.lifecycle.status)
      then terminal_result s
      else (count_attempt
            >> catch (execute_reasoning_attempt (attempt_fuel s)) (after_failure again))
          s

  -- AgentExecutionHandle.reason: a retry needs an attempt that is left.
  unfoldable pub reason : M AgentExecutionResult
  unfolding reason_slice
  reason = reason_slice (suc r.retry_policy.max_attempts)
