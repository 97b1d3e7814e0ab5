-- ===== src/Runtime/Gate.antt =====
-- The answer-quality gate of server/src/agentic/agents/runtime/continuation.py: `_gate_final` and
-- what it falls back on.
use juris_ai.Base.{
  ℕ, String, Bool, true, false, not, ◌&&◌, ◌||◌, Option, none, some, List, [], ◌∷◌, ltb, leb,
  if◌then◌else◌, ◌==◌,
}
use juris_ai.Base.Text.{chars, concat}
use juris_ai.Lifecycle.Budget.{TerminationReason, quality_gate_exhausted, no_evidence}
use juris_ai.Lifecycle.Operations.{step, partial_text, stops}
use juris_ai.Runtime.Content.{RetrievedContent, note, evidence_items, contents}
use juris_ai.Runtime.Quality.{AnswerEvaluationResult, AnswerEvaluationSummary, is_sufficient}
use juris_ai.Runtime.Session.{
  AgentExecutionResult, evaluated, Runtime, Session, M, return, ◌>>=◌, ◌>>◌, get_session,
  raise_result, ask, performed, timed_check,
}
use juris_ai.Runtime.Handle.{is_running, extend_reasoning_context, terminal_result, has_items}
use juris_ai.Runtime.Reason.{if_allowed, reason}
use juris_ai.Runtime.Records.{request_question, record_context_progress, record_reasoning_context}
use juris_ai.Runtime.Evidence.{retrieve_evidence}

abbrev pub unverified_answer_message : String
unverified_answer_message =
    "I couldn't verify an answer to this question against the available sources, so I'm not giving one. Try rephrasing the question or naming the specific act or section you're asking about."

abbrev pub no_sources_answer_message : String
no_sources_answer_message =
    "I couldn't find any sources in the available legal documents that address this question, so I can't give a grounded answer. Try rephrasing the question or naming the specific act or section."

abbrev pub corrective_retrieval_top_k : ℕ
corrective_retrieval_top_k = 8

abbrev pub seed_retrieval_top_k : ℕ
seed_retrieval_top_k = 5

-- What the gate returns: a result to go on with or to end with, and a summary
abbrev pub Gated : Type 0
Gated = Option AgentExecutionResult × Option AnswerEvaluationSummary

abbrev score_of : (AnswerEvaluationResult → ℕ) → Option AnswerEvaluationResult → Option ℕ
score_of score none = none
score_of score (some e) = some (score e)

unfoldable pub summary_of : Option AnswerEvaluationResult → Bool → AnswerEvaluationSummary
summary_of e verified = record {
  groundedness = score_of (λ x. x.groundedness) e;
  relevance = score_of (λ x. x.relevance) e;
  verified = verified;
}

abbrev pub same_text : List ℕ → List ℕ → Bool
same_text [] [] = true
same_text (a ∷ rest) (b ∷ others) = (leb a b && leb b a) && same_text rest others
same_text _ _ = false

module _ (r : Runtime) where
  unfoldable pub rejection : List RetrievedContent → TerminationReason × String
  unfolding evidence_items
  rejection context =
      if has_items (evidence_items context)
      then (quality_gate_exhausted, unverified_answer_message)
      else (no_evidence, no_sources_answer_message)

  -- _reject_unverified
  unfoldable pub reject_unverified : Option AnswerEvaluationResult → M Gated
  unfolding performed terminal_result summary_of rejection
  reject_unverified e = do
    s ← get_session
    let (reason_code, message) = rejection s.reasoning_context
    performed (stops reason_code)
    performed (partial_text (some (chars message)))
    result ← terminal_result
    return (some result, some (summary_of e false))

  unfoldable pub corrective_note : AnswerEvaluationResult → RetrievedContent
  unfolding note
  corrective_note e = note "answer_evaluator" "corrective_retrieval_feedback" (
      concat (
        "Previous answer failed quality checks (groundedness="
        ∷ r.world.two_decimals e.groundedness
        ∷ ", relevance="
        ∷ r.world.two_decimals e.relevance
        ∷ "). Additional evidence was retrieved above for the same question -- use it to provide a better-grounded, more relevant answer, or state that the question cannot be answered from the available evidence."
        ∷ []))

  unfoldable pub evaluation_note : AnswerEvaluationResult → RetrievedContent
  unfolding note
  evaluation_note e = note "answer_evaluator" "evaluation_feedback" (
      concat (
        "Previous answer was insufficient (groundedness="
        ∷ r.world.two_decimals e.groundedness
        ∷ ", relevance="
        ∷ r.world.two_decimals e.relevance
        ∷ ", completeness="
        ∷ r.world.two_decimals e.completeness
        ∷ "). Provide additional evidence or a more complete answer."
        ∷ []))

  unfoldable pub end_here : M (Option AgentExecutionResult)
  unfolding terminal_result
  end_here = terminal_result >>= λ result. return (some result)

  unfoldable pub ask_again : RetrievedContent → M AgentExecutionResult
  unfolding extend_reasoning_context reason
  ask_again feedback = extend_reasoning_context (feedback ∷ []) >> reason r

  -- After the corrective retrieval: nothing to ground an answer in, or the next reasoning
  unfoldable pub use_evidence :
      AnswerEvaluationResult → Option (List RetrievedContent) → M (Option AgentExecutionResult)
  unfolding record_reasoning_context record_context_progress end_here ask_again corrective_note
  use_evidence e none = return none
  use_evidence e (some items) =
      if not (has_items items)
      then return none
      else (record_reasoning_context r items >>= λ kept.
          if not kept
          then end_here
          else (record_context_progress r items >>= λ progressed.
              if not progressed
              then end_here
              else (ask_again (corrective_note e) >>= λ result. return (some result))))

  -- _force_corrective_retrieval
  unfoldable pub force_corrective_retrieval :
      AnswerEvaluationResult → M (Option AgentExecutionResult)
  unfolding retrieve_evidence use_evidence
  force_corrective_retrieval e =
      retrieve_evidence r corrective_retrieval_top_k >>= λ found. use_evidence e found

  -- groundedness_failed or relevance_failed
  abbrev pub wants_evidence : AnswerEvaluationResult → Bool
  wants_evidence e =
      (e.groundedness_detail.applicable && ltb e.groundedness r.quality.min_groundedness)
      || ltb e.relevance r.quality.min_relevance

  unfoldable pub weak_retry :
      AnswerEvaluationResult → Option AgentExecutionResult → M AgentExecutionResult
  unfolding ask_again evaluation_note
  weak_retry e (some result) = return result
  weak_retry e none = ask_again (evaluation_note e)

  -- _retry_insufficient
  unfoldable pub retry_insufficient : AnswerEvaluationResult → M AgentExecutionResult
  unfolding force_corrective_retrieval weak_retry
  retry_insufficient e =
      if wants_evidence e
      then (force_corrective_retrieval e >>= λ retried. weak_retry e retried)
      else weak_retry e none

  -- The retry ended the execution, and the response is still the rejected one.
  abbrev pub ended_on : List ℕ → Session → Bool
  ended_on rejected s =
      not (is_running s.lifecycle.status) && same_text s.lifecycle.partial_response rejected

  unfoldable pub after_retry : AnswerEvaluationResult → List ℕ → AgentExecutionResult → M Gated
  unfolding reject_unverified
  after_retry e rejected next_result = do
    s ← get_session
    if ended_on rejected s then reject_unverified (some e) else return (some next_result, none)

  -- Without any evidence, one corrective retrieval
  unfoldable pub retry_with_sources :
      AnswerEvaluationResult → List ℕ → Option AgentExecutionResult → M Gated
  unfolding reject_unverified after_retry
  retry_with_sources e rejected none = reject_unverified (some e)
  retry_with_sources e rejected (some result) = after_retry e rejected result

  unfoldable pub retry_answer : AnswerEvaluationResult → M Gated
  unfolding force_corrective_retrieval retry_insufficient retry_with_sources after_retry
  retry_answer e = do
    s ← get_session
    let rejected = s.lifecycle.partial_response
    if r.quality.require_evidence && not e.groundedness_detail.applicable
        then (force_corrective_retrieval e >>= λ retried. retry_with_sources e rejected retried)
        else (retry_insufficient e >>= λ result. after_retry e rejected result)

  -- What the gate does with the scores of an answer
  unfoldable pub judge_answer : AnswerEvaluationResult → M Gated
  unfolding reject_unverified is_sufficient summary_of timed_check retry_answer
  judge_answer e =
      if e.relevance_unavailable
      then reject_unverified (some e)
      else if is_sufficient r.quality e
      then return (none, some (summary_of (some e) true))
      else if e.groundedness_detail.judge_unavailable
      then reject_unverified (some e)
      else (timed_check r.world step >>= λ budget.
          if_allowed budget (retry_answer e) (reject_unverified (some e)))

  -- _gate_final of the decision's answer
  unfoldable pub gate_answer : String → M Gated
  unfolding reject_unverified evidence_items request_question judge_answer
  gate_answer answer = do
    s ← get_session
    if not (is_running s.lifecycle.status)
        then reject_unverified none
        else (let evidence = contents (evidence_items s.reasoning_context) in
            (ask (evaluated answer evidence) (r.world.evaluate (request_question r) answer evidence)
              >>= λ reply. raise_result reply >>= λ e. judge_answer e))

  unfoldable pub gate_final : Option String → M Gated
  unfolding gate_answer
  gate_final none = return (none, none)
  gate_final (some answer) = if answer == "" then return (none, none) else gate_answer answer
