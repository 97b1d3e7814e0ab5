-- ===== src/Examples/Executions.antt =====
-- Executions under a small budget, with the operations of the agent lifecycle.
use juris_ai.Base.{◌≤◌, ◌+◌, ◌≡◌, refl, true, false, List, [], ◌∷◌, replicate}
use juris_ai.Base.Result.{ok, err}
use juris_ai.Lifecycle.Budget.{AgentExecutionBudget, post_init, deny, partial_timeout}
use juris_ai.Lifecycle.State.{AgentState, new_state}
use juris_ai.Lifecycle.Operations.{Call, iteration, action, run_call, returned}
use juris_ai.Lifecycle.Invariant.{IsWithin, new_state-IsWithin, run_call-IsWithin}
use juris_ai.Lifecycle.Traces.{
  iterations, count_granted, granted-le-limit, all_granted, repeated_action-le,
}

abbrev small : AgentExecutionBudget
small = record {
  max_iterations = 2;
  max_tool_calls = 2;
  max_agent_hops = 1;
  max_total_steps = 4;
  max_execution_time = 1000;
  max_repeated_action = 2;
  max_no_progress = 2;
  max_rejected_decisions = 2;
  max_decisions = 5;
  max_tool_call_records = 5;
  max_tool_result_records = 5;
  max_evidence_items = 5;
  max_context_items = 5;
  max_partial_response_chars = 10;
  max_context_item_chars = 10;
  max_evidence_item_chars = 10;
  max_tool_call_record_chars = 10;
  max_tool_result_record_chars = 10;
}

abbrev fresh : AgentState
unfolding new_state
fresh = new_state small 100

abbrev eager : List Call
eager = iteration 101 ∷ iteration 102 ∷ iteration 103 ∷ []

post_init-small : post_init small ≡ ok tt
unfolding post_init
post_init-small = refl

post_init_refuses : post_init (record small { max_agent_hops = 0 }) ≡ err "max_agent_hops"
unfolding post_init
post_init_refuses = refl

granted-le-limit_example : count_granted iterations eager (new_state small 100) ≤ 2
granted-le-limit_example = granted-le-limit iterations eager small 100

count_granted-eager : count_granted iterations eager (new_state small 100) ≡ 2
unfolding count_granted new_state run_call
count_granted-eager = refl

search_thrice : all_granted (replicate 3 (action "search")) (new_state small 100) ≡ true
unfolding all_granted new_state run_call
search_thrice = refl

search_again : all_granted (replicate 4 (action "search")) (new_state small 100) ≡ false
unfolding all_granted new_state run_call
search_again = refl

repeated_action-le_example : 3 ≤ (new_state small 100).budget.max_repeated_action + 1
repeated_action-le_example = repeated_action-le "search" 3 (new_state small 100) search_thrice

run_call-IsWithin_example : IsWithin (run_call (iteration 101) (new_state small 100)).1
run_call-IsWithin_example =
    run_call-IsWithin (iteration 101) (new_state small 100) (new_state-IsWithin small 100)

denied_late : (run_call (iteration 1100) (new_state small 100)).0 ≡ returned (deny partial_timeout)
unfolding run_call new_state
denied_late = refl
