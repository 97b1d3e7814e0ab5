-- ===== src/Runtime/Answers.antt =====
-- What a settled FINAL answer is for the answer-quality gate of
-- server/src/agentic/agents/runtime/continuation.py.
use juris_ai.Base.{
  String, true, false, ◌≡◌, refl, ap, Bool-cases, ◌⊎◌, inl, inr, Option, some, List, take,
}
use juris_ai.Base.Text.{chars}
use juris_ai.Base.Result.{ok}
use juris_ai.Execution.Graph.{ExecutionStatus}
use juris_ai.Lifecycle.Budget.{AgentExecutionBudget}
use juris_ai.Lifecycle.Operations.{run_call}
use juris_ai.Runtime.Content.{RetrievedContent, evidence_items}
use juris_ai.Runtime.Quality.{AnswerEvaluationResult, AnswerEvaluationSummary, is_sufficient}
use juris_ai.Runtime.Session.{AgentExecutionResult, Journal, Runtime, Session, performed}
use juris_ai.Runtime.Handle.{has_items, terminal_result, result_of}
use juris_ai.Runtime.Records.{request_question}
use juris_ai.Runtime.Gate.{
  unverified_answer_message, no_sources_answer_message, rejection, summary_of, Gated,
  reject_unverified,
}
use juris_ai.Runtime.Triple.{Triple}

-- The evaluator scored this answer, it could score it, and the scores satisfy the policy.
pub record IsVerified (r : Runtime) (answer : String) (summary : AnswerEvaluationSummary)
    : Type 0 where
  pub scores : AnswerEvaluationResult
  pub evidence : List String
  pub history : Journal
  pub scored : r.world.evaluate (request_question r) answer evidence history ≡ ok scores
  pub sufficient : is_sufficient r.quality scores ≡ true
  pub available : scores.relevance_unavailable ≡ false
  pub reported : summary ≡ summary_of (some scores) true

-- One of the two fixed messages stands in place of the answer.
pub record IsRefused (b : AgentExecutionBudget) (result : AgentExecutionResult)
    (summary : AnswerEvaluationSummary) : Type 0 where
  pub ended : result.status ≡ ExecutionStatus.partial
  pub unverified : summary.verified ≡ false
  pub message : String
  pub fixed : (message ≡ unverified_answer_message) ⊎ (message ≡ no_sources_answer_message)
  pub said : result.partial_response ≡ take b.max_partial_response_chars (chars message)

abbrev pub Refused : AgentExecutionBudget → Gated → Type 0
Refused b (some result, some summary) = IsRefused b result summary
Refused b _ = ⊥

module _ (b : AgentExecutionBudget) (r : Runtime) where
  message_fixed :
      (context : List RetrievedContent)
      → ((rejection r context).1 ≡ unverified_answer_message)
        ⊎ ((rejection r context).1 ≡ no_sources_answer_message)
  unfolding rejection
  message_fixed context = elim (Bool-cases (has_items (evidence_items context))) [
    | inl e ↦ inl (rw e refl)
    | inr e ↦ inr (rw e refl)
  ]

  pub reject-Refused :
      {X : Session → Type 0} (e : Option AnswerEvaluationResult)
      → Triple X (λ s. s.lifecycle.budget ≡ b) (reject_unverified r e) (λ gated _. Refused b gated)
  unfolding reject_unverified performed run_call terminal_result result_of summary_of
  reject-Refused e = record {
    holds = λ s same. record {
      ended = refl;
      unverified = refl;
      message = (rejection r s.reasoning_context).1;
      fixed = message_fixed s.reasoning_context;
      said =
          ap (λ x. take x.max_partial_response_chars (chars (rejection r s.reasoning_context).1))
            same;
    };
  }
