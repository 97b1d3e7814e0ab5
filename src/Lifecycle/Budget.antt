-- ===== src/Lifecycle/Budget.antt =====
-- lifecycle/budget.py, lifecycle/guard.py and the enumerations of lifecycle/termination.py. Limits
-- are natural numbers: a negative one is refused by `__post_init__` like zero. Times are whole
-- microseconds, the resolution of `datetime`, and the limit in seconds is given in them too.
use juris_ai.Base.{
  ℕ, ◌-◌, String, Bool, true, false, Option, none, some, List, [], ◌∷◌, ltb, leb, if◌then◌else◌,
}
use juris_ai.Base.Result.{Result, ok, ◌>>◌, raise_if}

pub data TerminationReason : Type 0 where
  completed : TerminationReason
  partial_max_iterations partial_max_tool_calls partial_max_agent_hops : TerminationReason
  partial_max_total_steps partial_max_decisions : TerminationReason
  partial_max_evidence_items partial_max_context_items partial_max_tool_results : TerminationReason
  partial_timeout partial_repeated_action : TerminationReason
  partial_rejected_decision_limit partial_no_progress : TerminationReason
  quality_gate_exhausted no_evidence : TerminationReason
  failed_tool failed_llm failed_validation failed_policy : TerminationReason
  user_input_required : TerminationReason

pub record AgentExecutionBudget : Type 0 where
  pub max_iterations : ℕ
  pub max_tool_calls : ℕ
  pub max_agent_hops : ℕ
  pub max_total_steps : ℕ
  pub max_execution_time : ℕ
  pub max_repeated_action : ℕ
  pub max_no_progress : ℕ
  pub max_rejected_decisions : ℕ
  pub max_decisions : ℕ
  pub max_tool_call_records : ℕ
  pub max_tool_result_records : ℕ
  pub max_evidence_items : ℕ
  pub max_context_items : ℕ
  pub max_partial_response_chars : ℕ
  pub max_context_item_chars : ℕ
  pub max_evidence_item_chars : ℕ
  pub max_tool_call_record_chars : ℕ
  pub max_tool_result_record_chars : ℕ

-- `integer_limits` of `__post_init__`, in its order.
integer_limits : AgentExecutionBudget → List (String × ℕ)
integer_limits b =
    ("max_iterations", b.max_iterations)
    ∷ ("max_tool_calls", b.max_tool_calls)
    ∷ ("max_agent_hops", b.max_agent_hops)
    ∷ ("max_total_steps", b.max_total_steps)
    ∷ ("max_repeated_action", b.max_repeated_action)
    ∷ ("max_no_progress", b.max_no_progress)
    ∷ ("max_rejected_decisions", b.max_rejected_decisions)
    ∷ ("max_decisions", b.max_decisions)
    ∷ ("max_tool_call_records", b.max_tool_call_records)
    ∷ ("max_tool_result_records", b.max_tool_result_records)
    ∷ ("max_evidence_items", b.max_evidence_items)
    ∷ ("max_context_items", b.max_context_items)
    ∷ ("max_partial_response_chars", b.max_partial_response_chars)
    ∷ ("max_context_item_chars", b.max_context_item_chars)
    ∷ ("max_evidence_item_chars", b.max_evidence_item_chars)
    ∷ ("max_tool_call_record_chars", b.max_tool_call_record_chars)
    ∷ ("max_tool_result_record_chars", b.max_tool_result_record_chars)
    ∷ []

-- The `ValueError` names the limit.
all_positive : List (String × ℕ) → Result String (Unit {0})
all_positive [] = ok tt
all_positive ((name, value) ∷ limits) = raise_if (leb value 0) name >> all_positive limits

unfoldable pub post_init : AgentExecutionBudget → Result String (Unit {0})
unfolding integer_limits all_positive
post_init b = do
  all_positive (integer_limits b)
  raise_if (leb b.max_execution_time 0) "max_execution_time_seconds"

pub data BudgetCheckStatus : Type 0 where
  allowed exceeded : BudgetCheckStatus

pub record BudgetCheckResult : Type 0 where
  pub status : BudgetCheckStatus
  pub reason : Option TerminationReason

abbrev pub allow : BudgetCheckResult
allow = record { status = allowed; reason = none }

abbrev pub deny : TerminationReason → BudgetCheckResult
deny r = record { status = exceeded; reason = some r }

abbrev status_allowed : BudgetCheckStatus → Bool
status_allowed allowed = true
status_allowed exceeded = false

abbrev pub is_allowed : BudgetCheckResult → Bool
is_allowed r = status_allowed r.status

-- The counters are never negative in the model, so the `ValueError` of `_count_check` is not there.
unfoldable pub count_check : (current_count maximum : ℕ) → TerminationReason → BudgetCheckResult
count_check current_count maximum reason = if leb maximum current_count then deny reason else allow

module _ (budget : AgentExecutionBudget) where
  unfoldable pub check_iteration : ℕ → BudgetCheckResult
  unfolding count_check
  check_iteration n = count_check n budget.max_iterations partial_max_iterations

  unfoldable pub check_tool_call : ℕ → BudgetCheckResult
  unfolding count_check
  check_tool_call n = count_check n budget.max_tool_calls partial_max_tool_calls

  unfoldable pub check_agent_hop : ℕ → BudgetCheckResult
  unfolding count_check
  check_agent_hop n = count_check n budget.max_agent_hops partial_max_agent_hops

  unfoldable pub check_total_step : ℕ → BudgetCheckResult
  unfolding count_check
  check_total_step n = count_check n budget.max_total_steps partial_max_total_steps

  unfoldable pub check_decisions : ℕ → BudgetCheckResult
  unfolding count_check
  check_decisions n = count_check n budget.max_decisions partial_max_decisions

  unfoldable pub check_repeated_action : ℕ → BudgetCheckResult
  unfolding count_check
  check_repeated_action n = count_check n budget.max_repeated_action partial_repeated_action

  unfoldable pub check_no_progress : ℕ → BudgetCheckResult
  unfolding count_check
  check_no_progress n = count_check n budget.max_no_progress partial_no_progress

  unfoldable pub check_rejected_decisions : ℕ → BudgetCheckResult
  unfolding count_check
  check_rejected_decisions n =
      count_check n budget.max_rejected_decisions partial_rejected_decision_limit

  -- A clock that went backwards is a timeout too.
  unfoldable pub check_time : (started_at now : ℕ) → BudgetCheckResult
  check_time started_at now =
      if ltb now started_at
      then deny partial_timeout
      else if leb budget.max_execution_time (now - started_at)
      then deny partial_timeout
      else allow
