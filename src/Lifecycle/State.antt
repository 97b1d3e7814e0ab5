-- ===== src/Lifecycle/State.antt =====
-- lifecycle/state.py and AgentTerminator of lifecycle/termination.py. A method of the terminator
-- that mutates the state returns the new one.
use juris_ai.Base.{ℕ, String, Option, none, some, List, []}
use juris_ai.Lifecycle.Budget.{AgentExecutionBudget, TerminationReason, user_input_required}

pub data AgentExecutionStatus : Type 0 where
  running completed partial failed : AgentExecutionStatus

-- The partial response is a list of characters.
pub record AgentState : Type 0 where
  pub budget : AgentExecutionBudget
  pub started_at : ℕ
  pub status : AgentExecutionStatus
  pub termination_reason : Option TerminationReason
  pub iteration_count : ℕ
  pub tool_call_count : ℕ
  pub agent_hop_count : ℕ
  pub total_step_count : ℕ
  pub decision_count : ℕ
  pub rejected_decision_count : ℕ
  pub evidence_count : ℕ
  pub context_count : ℕ
  pub tool_result_count : ℕ
  pub repeated_action_count : ℕ
  pub last_action_key : Option String
  pub no_progress_count : ℕ
  pub last_progress_key : Option String
  pub partial_response : List ℕ

-- The state of a new execution: the defaults of the dataclass.
unfoldable pub new_state : AgentExecutionBudget → ℕ → AgentState
new_state budget started_at = record {
  budget = budget;
  started_at = started_at;
  status = running;
  termination_reason = none;
  iteration_count = 0;
  tool_call_count = 0;
  agent_hop_count = 0;
  total_step_count = 0;
  decision_count = 0;
  rejected_decision_count = 0;
  evidence_count = 0;
  context_count = 0;
  tool_result_count = 0;
  repeated_action_count = 0;
  last_action_key = none;
  no_progress_count = 0;
  last_progress_key = none;
  partial_response = [];
}

unfoldable pub terminate_complete : AgentState → AgentState
terminate_complete s = record s {
  status = AgentExecutionStatus.completed;
  termination_reason = some TerminationReason.completed;
}

unfoldable pub terminate_partially : TerminationReason → AgentState → AgentState
terminate_partially reason s = record s { status = partial; termination_reason = some reason }

unfoldable pub terminate_fail : TerminationReason → AgentState → AgentState
terminate_fail reason s = record s { status = failed; termination_reason = some reason }

unfoldable pub terminate_user_input : AgentState → AgentState
terminate_user_input s = record s {
  status = partial;
  termination_reason = some user_input_required;
}
