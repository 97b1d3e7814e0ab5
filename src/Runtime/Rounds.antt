-- ===== src/Runtime/Rounds.antt =====
-- The branches of one round of the loop of server/src/agentic/agents/runtime/continuation.py.
use juris_ai.Base.{
  ℕ, String, false, not, ◌≡◌, sym, ◌∙◌, ◌⊎◌, Option, none, some, List, [], ◌∷◌, ◌++◌, ◌==◌,
}
use juris_ai.Base.Int.{pos}
use juris_ai.Lifecycle.Budget.{AgentExecutionBudget, TerminationReason, is_allowed}
use juris_ai.Lifecycle.Operations.{tool_result, fails}
use juris_ai.Runtime.Decisions.{AgentDecision, final}
use juris_ai.Runtime.Content.{RetrievedContent, ToolResult, to_reasoning_context}
use juris_ai.Runtime.Quality.{AnswerEvaluationSummary}
use juris_ai.Runtime.Session.{
  AgentActionRequest, AgentContinuationResult, Delegated, Runtime, Session,
}
use juris_ai.Runtime.Handle.{is_send, terminal_result, result_of}
use juris_ai.Runtime.Records.{is_over_budget}
use juris_ai.Runtime.Delegations.{delegation_to_reasoning_context}
use juris_ai.Runtime.Continuation.{
  Next, returns, goes_on, continuation_of, leave_terminal, reason_on, absorb, after_failed_tool,
  after_tool, run_action, after_delegation,
}
use juris_ai.Runtime.Triple.{Triple, bind, pure, branch}
use juris_ai.Runtime.Ledger.{MayRun, Credit, to_Balanced}
use juris_ai.Runtime.Rules.{checked_then, performed_then}
use juris_ai.Runtime.Proposals.{Fits}
use juris_ai.Runtime.Corrected.{Kept, Raised}
use juris_ai.Runtime.Slices.{reason-Fits}
use juris_ai.Runtime.Gathered.{
  Keeps, record_context_progress-Keeps, record_reasoning_context-Keeps,
  retry_after_tool_failure-Keeps, execute_gated_tool-Keeps,
}
use juris_ai.Runtime.Ran.{execute_tool-Keeps}
use juris_ai.Runtime.Answers.{IsVerified, IsRefused}

-- A text is returned with a summary: it is verified, or it was replaced.
abbrev pub IsAnswerSettled :
    AgentExecutionBudget → Runtime → AgentContinuationResult → String → Type 0
IsAnswerSettled b r t text =
    (summary : AnswerEvaluationSummary) × (t.evaluation_summary ≡ some summary)
    × (IsVerified r text summary ⊎ IsRefused b t.result summary)

-- So is the text of every FINAL decision.
abbrev pub IsSettled : AgentExecutionBudget → Runtime → AgentContinuationResult → Type 0
IsSettled b r t =
    (d : AgentDecision) (text : String)
    → t.result.decision ≡ some d
    → d.decision_type ≡ final
    → d.final_response ≡ some text
    → (text == "") ≡ false
    → IsAnswerSettled b r t text

abbrev pub NotFinal : Option AgentDecision → Type 0
NotFinal o = (d : AgentDecision) → o ≡ some d → d.decision_type ≡ final → ⊥

module _ (b : AgentExecutionBudget) (r : Runtime) where
  abbrev pub NextFits : Credit → ℕ → Next → Session → Type 0
  NextFits g a (returns t) s = Raised b r g a s × IsSettled b r t
  NextFits g a (goes_on loop) s = Fits b r g a loop.0 s

  module _ {g : Credit} {a : ℕ} where
    module _ {d : Option AgentDecision} (other : NotFinal d) where
      leave_terminal-NextFits :
          (results : List ToolResult)
          → Triple (Raised b r g a) (Kept b r g a d) (leave_terminal r results) (NextFits g a)
      unfolding leave_terminal terminal_result result_of continuation_of
      leave_terminal-NextFits results = record {
        holds = λ s h.
            (to_Balanced b r.policy s h, λ d text e f t n. absurd (other d (sym h.last ∙ e) f));
      }

      reason_on-NextFits :
          (results : List ToolResult)
          → Triple (Raised b r g a) (Kept b r g a d) (reason_on r results) (NextFits g a)
      unfolding reason_on
      reason_on-NextFits results =
          bind (reason-Fits b r) λ result. pure {a = goes_on (result, results)} λ s h. h

      absorb-NextFits :
          (context : List RetrievedContent) (results : List ToolResult)
          → Triple (Raised b r g a) (Kept b r g a d) (absorb r context results) (NextFits g a)
      unfolding absorb
      absorb-NextFits context results = bind (record_reasoning_context-Keeps b r context) λ kept.
          branch (not kept) (λ _. leave_terminal-NextFits results)
            (λ _. bind (record_context_progress-Keeps b r context) λ progressed.
              branch (not progressed) (λ _. leave_terminal-NextFits results)
                (λ _. reason_on-NextFits results))

      after_failed_tool-NextFits :
          (t : ToolResult) (results : List ToolResult)
          → Triple (Raised b r g a) (Kept b r g a d) (after_failed_tool r t results) (NextFits g a)
      unfolding after_failed_tool
      after_failed_tool-NextFits t results =
          branch (is_over_budget t) (λ _. leave_terminal-NextFits results)
            (λ _. bind (retry_after_tool_failure-Keeps b r t) λ retried.
              branch retried (λ _. reason_on-NextFits results)
                (λ _.
                  performed_then b r.policy (fails TerminationReason.failed_tool)
                    (leave_terminal-NextFits results)))

      pub after_tool-NextFits :
          (t : ToolResult) (results : List ToolResult)
          → Triple (Raised b r g a) (Kept b r g a d) (after_tool r t results) (NextFits g a)
      unfolding after_tool
      after_tool-NextFits t results = checked_then b r.policy (tool_result (pos 1)) λ budget.
          branch (is_allowed budget)
            (λ _.
              branch t.success (λ _. absorb-NextFits (to_reasoning_context t) (results ++ t ∷ []))
                (λ _. after_failed_tool-NextFits t (results ++ t ∷ [])))
            (λ _. leave_terminal-NextFits results)

      pub after_delegation-NextFits :
          (target : String) (answer : Option Delegated) (results : List ToolResult)
          → Triple
              (Raised b r g a)
              (Kept b r g a d)
              (after_delegation r target answer results)
              (NextFits g a)
      unfolding after_delegation
      after_delegation-NextFits target none results = leave_terminal-NextFits results
      after_delegation-NextFits target (some v) results =
          absorb-NextFits (delegation_to_reasoning_context target v) results

    pub run_action-Keeps :
        {d : Option AgentDecision} (x : AgentActionRequest) (name : String)
        → (is_send x.action_type ≡ false → MayRun r.policy name)
        → Keeps b r g a d (run_action r x name)
    unfolding run_action
    run_action-Keeps x name may =
        branch (is_send x.action_type) (λ _. execute_gated_tool-Keeps b r x name)
          (λ e. execute_tool-Keeps b r x name (may e))
