-- ===== src/Lifecycle/Operations.antt =====
-- lifecycle/loop_breaker.py and lifecycle/lifecycle.py: the operations that the agent runtime calls
-- on the state of its execution. Each returns what the method returns or raises, beside the state
-- that it leaves; `now` is the reading of the clock.
use juris_ai.Base.{
  ℕ, suc, ◌+◌, String, Bool, true, false, Option, none, some, List, ltb, take, if◌then◌else◌, ◌==◌,
}
use juris_ai.Base.Int.{ℤ, pos}
use juris_ai.Lifecycle.Budget.{
  TerminationReason, partial_max_evidence_items, partial_max_context_items,
  partial_max_tool_results, failed_tool, failed_llm, failed_validation, failed_policy,
  BudgetCheckResult, allow, deny, is_allowed, check_iteration, check_tool_call, check_agent_hop,
  check_total_step, check_decisions, check_repeated_action, check_no_progress,
  check_rejected_decisions, check_time,
}
use juris_ai.Lifecycle.State.{
  AgentState, terminate_complete, terminate_partially, terminate_fail, terminate_user_input,
}

-- What a method returns, `None` of a method with no result, or its `ValueError`.
pub data Outcome : Type 0 where
  returned : BudgetCheckResult → Outcome
  nothing raised : Outcome

abbrev pub Step : Type 0
Step = Outcome × AgentState

terminate_partial : Option TerminationReason → AgentState → Step
unfolding terminate_partially
terminate_partial none s = (raised, s)
terminate_partial (some reason) s = (returned (deny reason), terminate_partially reason s)

-- A check that was denied ends the execution; an allowed one goes on with the update.
settle : BudgetCheckResult → AgentState → AgentState → Step
unfolding terminate_partial
settle result s allowed_state =
    if is_allowed result
    then (returned result, allowed_state)
    else terminate_partial result.reason s

-- The clock first, then the counter, then the increment.
timed : ℕ → BudgetCheckResult → AgentState → AgentState → Step
unfolding settle check_time
timed now result s counted =
    let time = check_time s.budget s.started_at now in
    if is_allowed time then settle result s counted else terminate_partial time.reason s

unfoldable pub begin_iteration : ℕ → AgentState → Step
unfolding timed check_iteration
begin_iteration now s =
    timed now (check_iteration s.budget s.iteration_count) s
      (record s { iteration_count = s.iteration_count + 1 })

unfoldable pub begin_tool_call : ℕ → AgentState → Step
unfolding timed check_tool_call
begin_tool_call now s =
    timed now (check_tool_call s.budget s.tool_call_count) s
      (record s { tool_call_count = s.tool_call_count + 1 })

unfoldable pub begin_agent_hop : ℕ → AgentState → Step
unfolding timed check_agent_hop
begin_agent_hop now s =
    timed now (check_agent_hop s.budget s.agent_hop_count) s
      (record s { agent_hop_count = s.agent_hop_count + 1 })

unfoldable pub begin_step : ℕ → AgentState → Step
unfolding timed check_total_step
begin_step now s =
    timed now (check_total_step s.budget s.total_step_count) s
      (record s { total_step_count = s.total_step_count + 1 })

unfoldable pub begin_decision : ℕ → AgentState → Step
unfolding timed check_decisions
begin_decision now s =
    timed now (check_decisions s.budget s.decision_count) s
      (record s { decision_count = s.decision_count + 1 })

unfoldable pub record_rejected_decision : ℕ → AgentState → Step
unfolding timed check_rejected_decisions
record_rejected_decision now s =
    timed now (check_rejected_decisions s.budget s.rejected_decision_count) s
      (record s { rejected_decision_count = s.rejected_decision_count + 1 })

-- new_count > maximum ends the execution.
retain : ℕ → ℕ → TerminationReason → AgentState → AgentState → Step
unfolding terminate_partial
retain new_count maximum reason s kept =
    if ltb maximum new_count then terminate_partial (some reason) s else (returned allow, kept)

unfoldable pub record_evidence : ℤ → AgentState → Step
unfolding retain
record_evidence (pos (suc n)) s =
    retain (s.evidence_count + suc n) s.budget.max_evidence_items partial_max_evidence_items s
      (record s { evidence_count = s.evidence_count + suc n })
record_evidence _ s = (raised, s)

unfoldable pub record_context : ℤ → AgentState → Step
unfolding retain
record_context (pos (suc n)) s =
    retain (s.context_count + suc n) s.budget.max_context_items partial_max_context_items s
      (record s { context_count = s.context_count + suc n })
record_context _ s = (raised, s)

unfoldable pub record_tool_result : ℤ → AgentState → Step
unfolding retain
record_tool_result (pos (suc n)) s =
    retain (s.tool_result_count + suc n) s.budget.max_tool_result_records partial_max_tool_results s
      (record s { tool_result_count = s.tool_result_count + suc n })
record_tool_result _ s = (raised, s)

-- key == last_key, where `None` is no key
abbrev pub is_last : String → Option String → Bool
is_last key none = false
is_last key (some last) = key == last

-- LoopBreaker.record_action, and the terminal transition of AgentLifecycle on a denial. A new key
-- is stored even if the check that follows denies it.
unfoldable pub record_action : String → AgentState → Step
unfolding settle check_repeated_action
record_action key s =
    if key == ""
    then (raised, s)
    else if is_last key s.last_action_key
    then settle (check_repeated_action s.budget s.repeated_action_count) s
        (record s { repeated_action_count = s.repeated_action_count + 1 })
    else (let t = record s { last_action_key = some key; repeated_action_count = 0 } in
        settle (check_repeated_action s.budget 0) t t)

unfoldable pub record_progress : String → AgentState → Step
unfolding settle check_no_progress
record_progress key s =
    if key == ""
    then (raised, s)
    else if is_last key s.last_progress_key
    then settle (check_no_progress s.budget s.no_progress_count) s
        (record s { no_progress_count = s.no_progress_count + 1 })
    else (let t = record s { last_progress_key = some key; no_progress_count = 0 } in
        settle (check_no_progress s.budget 0) t t)

unfoldable pub set_partial_response : Option (List ℕ) → AgentState → Step
set_partial_response none s = (nothing, s)
set_partial_response (some response) s =
    (nothing, record s { partial_response = take s.budget.max_partial_response_chars response })

unfoldable pub complete : AgentState → Step
unfolding terminate_complete
complete s = (nothing, terminate_complete s)

-- reason not in {FAILED_TOOL, FAILED_LLM, FAILED_VALIDATION, FAILED_POLICY}
abbrev pub is_failure : TerminationReason → Bool
is_failure failed_tool = true
is_failure failed_llm = true
is_failure failed_validation = true
is_failure failed_policy = true
is_failure _ = false

unfoldable pub fail : TerminationReason → AgentState → Step
unfolding terminate_fail
fail reason s = if is_failure reason then (nothing, terminate_fail reason s) else (raised, s)

unfoldable pub require_user_input : AgentState → Step
unfolding terminate_user_input
require_user_input s = (nothing, terminate_user_input s)

-- `partial` drops the result of `_terminate_partial`.
unfoldable pub stop_partially : TerminationReason → AgentState → Step
unfolding terminate_partial
stop_partially reason s = (nothing, (terminate_partial (some reason) s).1)

-- A call of one of the methods.
pub data Call : Type 0 where
  iteration tool_call agent_hop step decision rejected_decision : (now : ℕ) → Call
  evidence context tool_result : (count : ℤ) → Call
  action progress : (key : String) → Call
  partial_text : Option (List ℕ) → Call
  completes asks_user : Call
  fails stops : TerminationReason → Call

unfoldable pub run_call : Call → AgentState → Step
unfolding begin_iteration begin_tool_call begin_agent_hop begin_step begin_decision
    record_rejected_decision record_evidence record_context record_tool_result record_action
    record_progress set_partial_response complete fail require_user_input stop_partially
run_call (iteration now) s = begin_iteration now s
run_call (tool_call now) s = begin_tool_call now s
run_call (agent_hop now) s = begin_agent_hop now s
run_call (step now) s = begin_step now s
run_call (decision now) s = begin_decision now s
run_call (rejected_decision now) s = record_rejected_decision now s
run_call (evidence count) s = record_evidence count s
run_call (context count) s = record_context count s
run_call (tool_result count) s = record_tool_result count s
run_call (action key) s = record_action key s
run_call (progress key) s = record_progress key s
run_call (partial_text response) s = set_partial_response response s
run_call completes s = complete s
run_call asks_user s = require_user_input s
run_call (fails reason) s = fail reason s
run_call (stops reason) s = stop_partially reason s
