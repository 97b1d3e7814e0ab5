-- ===== src/Lifecycle/Invariant.antt =====
-- What every operation of the lifecycle keeps, and what a denial does.
use juris_ai.Base.{
  ℕ, zero, suc, ◌≤◌, ◌≡◌, ◌≢◌, refl, none, some, true, false, arith, length, length-take_le,
}
use juris_ai.Base.Int.{pos, negsuc}
use juris_ai.Lifecycle.Budget.{
  AgentExecutionBudget, TerminationReason, BudgetCheckResult, is_allowed,
}
use juris_ai.Lifecycle.State.{AgentState, running, completed, partial, failed, new_state}
use juris_ai.Lifecycle.Operations.{
  Call, iteration, tool_call, agent_hop, step, decision, rejected_decision, evidence, context,
  tool_result, action, progress, partial_text, completes, asks_user, fails, stops, run_call,
  returned, is_failure,
}

-- No counter and no stored text is above its limit.
pub record IsWithin (s : AgentState) : Type 0 where
  pub iterations : s.iteration_count ≤ s.budget.max_iterations
  pub tool_calls : s.tool_call_count ≤ s.budget.max_tool_calls
  pub agent_hops : s.agent_hop_count ≤ s.budget.max_agent_hops
  pub steps : s.total_step_count ≤ s.budget.max_total_steps
  pub decisions : s.decision_count ≤ s.budget.max_decisions
  pub rejections : s.rejected_decision_count ≤ s.budget.max_rejected_decisions
  pub evidence_items : s.evidence_count ≤ s.budget.max_evidence_items
  pub context_items : s.context_count ≤ s.budget.max_context_items
  pub tool_results : s.tool_result_count ≤ s.budget.max_tool_result_records
  pub repeats : s.repeated_action_count ≤ s.budget.max_repeated_action
  pub stalls : s.no_progress_count ≤ s.budget.max_no_progress
  pub text : length s.partial_response ≤ s.budget.max_partial_response_chars

-- An execution runs exactly as long as it has no reason to have ended; it failed only for one of
-- the `FAILED_*` reasons, and completed only for `COMPLETED`.
pub record IsCoherent (s : AgentState) : Type 0 where
  pub running_open : s.status ≡ running → s.termination_reason ≡ none
  pub open_running : s.termination_reason ≡ none → s.status ≡ running
  pub failed_reason :
      s.status ≡ failed
      → (r : TerminationReason) × (s.termination_reason ≡ some r) × (is_failure r ≡ true)
  pub completed_reason :
      s.status ≡ completed → s.termination_reason ≡ some TerminationReason.completed

pub new_state-IsWithin : (b : AgentExecutionBudget) (t : ℕ) → IsWithin (new_state b t)
unfolding new_state
new_state-IsWithin b t = omega arith

new_state-IsCoherent : (b : AgentExecutionBudget) (t : ℕ) → IsCoherent (new_state b t)
unfolding new_state
new_state-IsCoherent b t = record {
  running_open = λ _. refl;
  open_running = λ _. refl;
  failed_reason = λ e. cc;
  completed_reason = λ e. cc;
}

-- Every operation of the lifecycle keeps each counter and the stored response within its limit of
-- the budget.
pub run_call-IsWithin : (c : Call) (s : AgentState) → IsWithin s → IsWithin (run_call c s).1
unfolding run_call
run_call-IsWithin (iteration now) s h = ground arith
run_call-IsWithin (tool_call now) s h = ground arith
run_call-IsWithin (agent_hop now) s h = ground arith
run_call-IsWithin (step now) s h = ground arith
run_call-IsWithin (decision now) s h = ground arith
run_call-IsWithin (rejected_decision now) s h = ground arith
run_call-IsWithin (evidence (pos zero)) s h = h
run_call-IsWithin (evidence (pos (suc n))) s h = ground arith
run_call-IsWithin (evidence (negsuc n)) s h = h
run_call-IsWithin (context (pos zero)) s h = h
run_call-IsWithin (context (pos (suc n))) s h = ground arith
run_call-IsWithin (context (negsuc n)) s h = h
run_call-IsWithin (tool_result (pos zero)) s h = h
run_call-IsWithin (tool_result (pos (suc n))) s h = ground arith
run_call-IsWithin (tool_result (negsuc n)) s h = h
run_call-IsWithin (action key) s h = ground arith
run_call-IsWithin (progress key) s h = ground arith
run_call-IsWithin (partial_text none) s h = h
run_call-IsWithin (partial_text (some r)) s h =
    ground (arith, length-take_le s.budget.max_partial_response_chars r)
run_call-IsWithin completes s h = ground arith
run_call-IsWithin asks_user s h = ground arith
run_call-IsWithin (fails r) s h = ground arith
run_call-IsWithin (stops r) s h = ground arith

-- A denied check leaves the execution partial, for the reason that the check gave.
pub record IsStopped (r : BudgetCheckResult) (s : AgentState) : Type 0 where
  pub stopped : s.status ≡ partial
  pub for_reason : s.termination_reason ≡ r.reason
  pub has_reason : r.reason ≢ none

-- If an operation returns a check that is not allowed, the execution is left partial, for the
-- reason that the check gives, and there is such a reason.
pub run_call-IsStopped :
    (c : Call) (s : AgentState) (r : BudgetCheckResult)
    → (run_call c s).0 ≡ returned r
    → is_allowed r ≡ false
    → IsStopped r (run_call c s).1
unfolding run_call
run_call-IsStopped (iteration now) s r e h = ground arith
run_call-IsStopped (evidence (pos zero)) s r e h = cc
run_call-IsStopped (evidence (pos (suc n))) s r e h = ground arith
run_call-IsStopped (evidence (negsuc n)) s r e h = cc
run_call-IsStopped (context (pos zero)) s r e h = cc
run_call-IsStopped (context (pos (suc n))) s r e h = ground arith
run_call-IsStopped (context (negsuc n)) s r e h = cc
run_call-IsStopped (tool_result (pos zero)) s r e h = cc
run_call-IsStopped (tool_result (pos (suc n))) s r e h = ground arith
run_call-IsStopped (tool_result (negsuc n)) s r e h = cc
run_call-IsStopped (partial_text none) s r e h = cc
run_call-IsStopped (partial_text (some x)) s r e h = cc
run_call-IsStopped _ s r e h = ground arith
