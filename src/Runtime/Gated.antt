-- ===== src/Runtime/Gated.antt =====
-- The retries of the answer-quality gate of server/src/agentic/agents/runtime/continuation.py, and
-- the ledger.
use juris_ai.Base.{ℕ, String, true, false, not, ◌&&◌, Option, none, some, List, [], ◌∷◌}
use juris_ai.Base.Text.{chars}
use juris_ai.Lifecycle.Budget.{AgentExecutionBudget}
use juris_ai.Lifecycle.Operations.{step, partial_text, stops}
use juris_ai.Runtime.Content.{RetrievedContent}
use juris_ai.Runtime.Quality.{AnswerEvaluationResult}
use juris_ai.Runtime.Session.{AgentExecutionResult, Runtime, Session}
use juris_ai.Runtime.Handle.{has_items}
use juris_ai.Runtime.Gate.{
  Gated, rejection, reject_unverified, end_here, ask_again, use_evidence,
  force_corrective_retrieval, weak_retry, wants_evidence, retry_insufficient, ended_on, after_retry,
  retry_with_sources, retry_answer, summary_of, corrective_note, evaluation_note,
  corrective_retrieval_top_k,
}
use juris_ai.Runtime.Triple.{Triple, bind, pure, branch, conseq, read_session, both}
use juris_ai.Runtime.Ledger.{Credit, gain, to_Balanced}
use juris_ai.Runtime.Rules.{extend_reasoning_context-Ledger, performed_then}
use juris_ai.Runtime.Proposals.{Fits}
use juris_ai.Runtime.Corrected.{Raised}
use juris_ai.Runtime.Slices.{anyhow, terminal-Fits, reason-Fits}
use juris_ai.Runtime.Gathered.{record_context_progress-Keeps, record_reasoning_context-Keeps}
use juris_ai.Runtime.Ran.{Balances, balances, retrieve_evidence-Balances}
use juris_ai.Runtime.Answers.{IsVerified, Refused, reject-Refused}

module _ (b : AgentExecutionBudget) (r : Runtime) where
  -- A retry that ran gives a result of the agent.
  abbrev pub Retried : Credit → ℕ → Option AgentExecutionResult → Session → Type 0
  Retried g a none s = Raised b r g a s
  Retried g a (some result) s = Fits b r g a result s

  -- After a retry: a result to go on with, or the replaced answer.
  abbrev pub Settled : Credit → ℕ → Gated → Session → Type 0
  Settled g a (some result, none) s = Fits b r g a result s
  Settled g a gated s = Raised b r g a s × Refused b gated

  -- A result to go on with costs a step of the budget.
  abbrev pub Judged : String → Credit → ℕ → Gated → Session → Type 0
  Judged answer g a (none, some summary) s = Raised b r g a s × IsVerified r answer summary
  Judged answer g a (some result, none) s = (t : ℕ) × Fits b r (gain (step t) true g) a result s
  Judged answer g a gated s = Raised b r g a s × Refused b gated

  module _ {g : Credit} {a : ℕ} where
    reject-Balances : (e : Option AnswerEvaluationResult) → Balances b r g a (reject_unverified r e)
    unfolding reject_unverified
    reject-Balances e = bind read_session λ t.
        conseq (λ s h. h.1) (λ s x. x) (λ v s q. q)
          (anyhow b r λ d. performed_then b r.policy (stops (rejection r t.reasoning_context).0) (
            performed_then b r.policy
              (partial_text (some (chars (rejection r t.reasoning_context).1)))
              (bind (conseq (to_Balanced b r.policy) (λ s x. x) (λ v s q. q) (terminal-Fits b r))
                λ result.
                  pure {a = (some result, some (summary_of e false))}
                    λ s h. to_Balanced b r.policy s h.0)))

    pub reject-Settled :
        (e : Option AnswerEvaluationResult)
        → Triple
            (Raised b r g a)
            (Raised b r g a)
            (reject_unverified r e)
            (λ gated s. Raised b r g a s × Refused b gated)
    reject-Settled e =
        both (reject-Balances e)
          (conseq (λ s h. h.same_budget) (λ s x. x) (λ v s q. q) (reject-Refused b r e))

    ask_again-Fits :
        (feedback : RetrievedContent)
        → Triple (Raised b r g a) (Raised b r g a) (ask_again r feedback) (Fits b r g a)
    unfolding ask_again
    ask_again-Fits feedback = anyhow b r λ d.
        bind (extend_reasoning_context-Ledger b r.policy {d = d} (feedback ∷ []))
          λ _. reason-Fits b r

    end_here-Retried : Triple (Raised b r g a) (Raised b r g a) (end_here r) (Retried g a)
    unfolding end_here
    end_here-Retried = bind (terminal-Fits b r) λ result. pure {a = some result} λ s h. h

    use_evidence-Retried :
        (e : AnswerEvaluationResult) (found : Option (List RetrievedContent))
        → Triple (Raised b r g a) (Raised b r g a) (use_evidence r e found) (Retried g a)
    unfolding use_evidence
    use_evidence-Retried e none = pure λ s h. h
    use_evidence-Retried e (some items) =
        branch (not (has_items items)) (λ _. pure λ s h. h)
          (λ _. bind (balances b r λ d. record_reasoning_context-Keeps b r items) λ kept.
            branch (not kept) (λ _. end_here-Retried)
              (λ _. bind (balances b r λ d. record_context_progress-Keeps b r items) λ progressed.
                branch (not progressed) (λ _. end_here-Retried)
                  (λ _.
                    bind (ask_again-Fits (corrective_note r e))
                      λ result. pure {a = some result} λ s h. h)))

    force-Retried :
        (e : AnswerEvaluationResult)
        → Triple (Raised b r g a) (Raised b r g a) (force_corrective_retrieval r e) (Retried g a)
    unfolding force_corrective_retrieval
    force-Retried e =
        bind (retrieve_evidence-Balances b r corrective_retrieval_top_k)
          λ found. use_evidence-Retried e found

    weak_retry-Fits :
        (e : AnswerEvaluationResult) (retried : Option AgentExecutionResult)
        → Triple (Raised b r g a) (Retried g a retried) (weak_retry r e retried) (Fits b r g a)
    unfolding weak_retry
    weak_retry-Fits e none = ask_again-Fits (evaluation_note r e)
    weak_retry-Fits e (some result) = pure λ s h. h

    retry_insufficient-Fits :
        (e : AnswerEvaluationResult)
        → Triple (Raised b r g a) (Raised b r g a) (retry_insufficient r e) (Fits b r g a)
    unfolding retry_insufficient
    retry_insufficient-Fits e =
        branch (wants_evidence r e)
          (λ _. bind (force-Retried e) λ retried. weak_retry-Fits e retried)
          (λ _. weak_retry-Fits e none)

    rejected_settles :
        (gated : Gated) (s : Session) → Raised b r g a s × Refused b gated → Settled g a gated s
    rejected_settles (none, summary) s h = h
    rejected_settles (some result, some summary) s h = h
    rejected_settles (some result, none) s h = absurd h.1

    after_retry-Settled :
        (e : AnswerEvaluationResult) (rejected : List ℕ) (result : AgentExecutionResult)
        → Triple
            (Raised b r g a)
            (Fits b r g a result)
            (after_retry r e rejected result)
            (Settled g a)
    unfolding after_retry
    after_retry-Settled e rejected result = bind read_session λ t.
        branch (ended_on r rejected t)
          (λ _.
            conseq (λ s h. to_Balanced b r.policy s h.1.0) (λ s x. x) rejected_settles
              (reject-Settled (some e)))
          (λ _. pure λ s h. h.1)

    retry_with_sources-Settled :
        (e : AnswerEvaluationResult) (rejected : List ℕ) (retried : Option AgentExecutionResult)
        → Triple
            (Raised b r g a)
            (Retried g a retried)
            (retry_with_sources r e rejected retried)
            (Settled g a)
    unfolding retry_with_sources
    retry_with_sources-Settled e rejected none =
        conseq (λ s h. h) (λ s x. x) rejected_settles (reject-Settled (some e))
    retry_with_sources-Settled e rejected (some result) = after_retry-Settled e rejected result

    pub retry_answer-Settled :
        (e : AnswerEvaluationResult)
        → Triple (Raised b r g a) (Raised b r g a) (retry_answer r e) (Settled g a)
    unfolding retry_answer
    retry_answer-Settled e = bind read_session λ t.
        conseq (λ s h. h.1) (λ s x. x) (λ v s q. q)
          (branch (r.quality.require_evidence && not e.groundedness_detail.applicable)
            (λ _.
              bind (force-Retried e)
                λ retried. retry_with_sources-Settled e t.lifecycle.partial_response retried)
            (λ _.
              bind (retry_insufficient-Fits e)
                λ result. after_retry-Settled e t.lifecycle.partial_response result))
