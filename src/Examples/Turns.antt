-- ===== src/Examples/Turns.antt =====
-- Turns of an agent that calls the retriever and then answers.
use juris_ai.Base.{
  ℕ, Bool, true, false, ◌≡◌, ◌≢◌, ◌≤◌, refl, arith, none, some, [], ◌∷◌, ◌==◌, ◌↔◌, if◌then◌else◌,
}
use juris_ai.Base.Text.{chars, is_blank}
use juris_ai.Authorization.Roles.{action_value}
use juris_ai.Base.Json.{obj, end}
use juris_ai.Base.Result.{ok, err}
use juris_ai.Execution.Graph.{ExecutionStatus}
use juris_ai.Lifecycle.Budget.{AgentExecutionBudget}
use juris_ai.Lifecycle.Traces.{tool_calls}
use juris_ai.Runtime.Decisions.{AgentDecision, AgentDecisionType, final, validate}
use juris_ai.Lifecycle.State.{running}
use juris_ai.Runtime.Guards.{check_tool}
use juris_ai.Runtime.Content.{ToolEvidence}
use juris_ai.Runtime.Quality.{AnswerEvaluationResult}
use juris_ai.Runtime.Session.{
  reasoned, exception, Journal, World, Runtime, Session, AgentContinuationResult, Outcome, done,
  exhausted, raises,
}
use juris_ai.Runtime.Gate.{retry_insufficient}
use juris_ai.Runtime.Continuation.{run_turn, start}
use juris_ai.Runtime.Ledger.{spent, AllPermitted}
use juris_ai.Runtime.Rounds.{IsAnswerSettled}
use juris_ai.Runtime.Shapes.{HasShape, validate-HasShape_iff}
use juris_ai.Runtime.Turns.{
  run_turn-returns, spent-run_turn_le, run_turn-AllPermitted, run_turn-IsAnswerSettled,
}
use juris_ai.Runtime.Unhandled.{retry_insufficient-raises}

abbrev budget : AgentExecutionBudget
budget = record {
  max_iterations = 4;
  max_tool_calls = 4;
  max_agent_hops = 2;
  max_total_steps = 9;
  max_execution_time = 60;
  max_repeated_action = 2;
  max_no_progress = 2;
  max_rejected_decisions = 2;
  max_decisions = 5;
  max_tool_call_records = 4;
  max_tool_result_records = 4;
  max_evidence_items = 9;
  max_context_items = 9;
  max_partial_response_chars = 200;
  max_context_item_chars = 200;
  max_evidence_item_chars = 200;
  max_tool_call_record_chars = 200;
  max_tool_result_record_chars = 200;
}

abbrev answer : AgentDecision
answer = record {
  decision_type = final;
  reason = none;
  final_response = some "Section 43 applies.";
  tool_call = none;
  delegation = none;
  user_input = none;
  failure = none;
}

abbrev search : AgentDecision
search = record {
  decision_type = AgentDecisionType.tool_call;
  reason = none;
  final_response = none;
  tool_call = some (record { tool_name = "retriever"; parameters = obj end });
  delegation = none;
  user_input = none;
  failure = none;
}

abbrev has_reasoned : Journal → Bool
has_reasoned [] = false
has_reasoned (reasoned _ _ ∷ j) = true
has_reasoned (_ ∷ j) = has_reasoned j

abbrev scores : ℕ → AnswerEvaluationResult
scores n = record {
  groundedness = n;
  relevance = n;
  completeness = n;
  correctness = none;
  citation_precision = n;
  citation_coverage = n;
  groundedness_detail = record { score = n; applicable = true; judge_unavailable = false };
  relevance_unavailable = false;
}

abbrev world : World
world = record {
  clock = λ j. 0;
  remaining = λ j. none;
  reason = λ within context j. ok (if has_reasoned j then answer else search);
  validated = λ name parameters j. ok parameters;
  run_tool = λ name parameters token j. ok "Section 43: penalty for damage to a computer.";
  log = λ j. none;
  interrupt = λ a j. none;
  delegate = λ target parameters j. err (exception "ValueError" "no agent");
  evaluate = λ question text evidence j. ok (scores 80);
  dumps = λ v. "{}";
  digest = λ items. "d1";
  is_uuid = λ text. true;
  two_decimals = λ n. "0.80";
  is_identifier = λ name. true;
  is_subclass = λ c d. c == d;
  resolve_tool = λ name. some (record { callable = true });
}

abbrev runtime : Runtime
runtime = record {
  agent_id = "legal";
  request = record {
    messages = record { is_user = true; content = "Which section applies?" } ∷ [];
    instruction = "Answer.";
    context = record {
      user_id = "u";
      execution_id = "e";
      thread_id = "t";
      conversation_event_id = "c";
      request_id = "r";
    };
    tool_catalog = "retriever" ∷ [];
  };
  policy = record {
    agent_id = "legal";
    allowed_tools = "retriever" ∷ [];
    allowed_agents = [];
    allow_delegation = false;
    require_citations = false;
  };
  retry_policy = record { max_attempts = 3; base_delay = 1; max_delay = 8; min_attempt = 15 };
  retryable_exceptions = "Timeout" ∷ [];
  quality = record {
    min_groundedness = 50;
    min_relevance = 60;
    min_correctness = 75;
    min_citation_precision = 80;
    min_citation_coverage = 80;
    enforce_citations = false;
    require_evidence = true;
  };
  world = world;
}

abbrev turn_end : Outcome AgentContinuationResult × Session
turn_end = run_turn runtime (start budget 0 [])

abbrev evidence : ToolEvidence
evidence = record {
  content = "Section 43: penalty for damage to a computer.";
  score = none;
  source = some "document";
  metadata = [];
}

abbrev returned_turn : AgentContinuationResult
returned_turn = record {
  result = record {
    status = ExecutionStatus.completed;
    retry_count = 1;
    termination_reason = none;
    error = none;
    partial_response = chars "Section 43 applies.";
    decision = some answer;
    action = none;
  };
  action = none;
  tool_results =
      record {
        tool_name = "retriever";
        success = true;
        content = "Section 43: penalty for damage to a computer.";
        evidence = evidence ∷ [];
        execution_metadata = [];
        error = none;
      }
      ∷ [];
  evaluation_summary =
      some (record { groundedness = some 80; relevance = some 80; verified = true });
}

-- No call failed, and yet the result counts a retry: each reasoning slice is counted as an attempt.
turn_returns : turn_end.0 ≡ done returned_turn
unfolding run_turn start action_value is_blank
turn_returns = refl

run_turn-IsAnswerSettled_example :
    IsAnswerSettled budget runtime returned_turn "Section 43 applies."
run_turn-IsAnswerSettled_example =
    run_turn-IsAnswerSettled budget runtime 0 [] returned_turn answer "Section 43 applies."
      turn_returns refl refl refl refl

run_turn-AllPermitted_example : AllPermitted runtime.policy turn_end.1.journal
run_turn-AllPermitted_example = run_turn-AllPermitted budget runtime 0 []

run_turn-returns_example : turn_end.0 ≢ exhausted
run_turn-returns_example = run_turn-returns budget runtime 0 []

spent-run_turn_le_example : spent tool_calls turn_end.1.journal ≤ 4
spent-run_turn_le_example = spent-run_turn_le budget runtime tool_calls 0 []

validate-HasShape_iff_example : (validate search ≡ ok search) ↔ HasShape search
validate-HasShape_iff_example = validate-HasShape_iff search

-- All tool calls of the budget are used.
abbrev spent_session : Session
spent_session = record {
  lifecycle = record {
    budget = budget;
    started_at = 0;
    status = running;
    termination_reason = none;
    iteration_count = 1;
    tool_call_count = 4;
    agent_hop_count = 0;
    total_step_count = 2;
    decision_count = 1;
    rejected_decision_count = 0;
    evidence_count = 0;
    context_count = 0;
    tool_result_count = 0;
    repeated_action_count = 0;
    last_action_key = none;
    no_progress_count = 0;
    last_progress_key = none;
    partial_response = chars "Section 43 applies.";
  };
  attempt_count = 1;
  last_decision = some answer;
  closed = false;
  reasoning_context = [];
  journal = [];
}

retry_insufficient-raises_example :
    (retry_insufficient runtime (scores 10) spent_session).0
    ≡ raises (exception "RuntimeError" "Agent execution handle is not running.")
unfolding check_tool
retry_insufficient-raises_example =
    retry_insufficient-raises runtime (scores 10) spent_session refl allowed (omega arith) refl
  where
    allowed : (check_tool runtime.policy "retriever").allowed ≡ true
    allowed = refl
