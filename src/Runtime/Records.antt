-- ===== src/Runtime/Records.antt =====
-- AgentContinuationService of server/src/agentic/agents/runtime/continuation.py: what it records of
-- evidence, context and progress, and how it goes on after a failed tool.
use juris_ai.Base.{
  ℕ, zero, ◌+◌, String, Bool, true, false, not, Option, none, some, List, [], ◌∷◌, ltb,
  if◌then◌else◌, ◌==◌, ◌||◌,
}
use juris_ai.Base.Int.{pos}
use juris_ai.Base.Json.{Json, null, bool, num, float, str, arr, obj, nil, end}
use juris_ai.Base.Dict.{get}
use juris_ai.Base.Text.{concat}
use juris_ai.Lifecycle.Budget.{
  TerminationReason, partial_max_evidence_items, partial_max_context_items, is_allowed,
}
use juris_ai.Lifecycle.Operations.{evidence, context, progress, stops}
use juris_ai.Runtime.Content.{RetrievedContent, ToolResult, runtime_feedback}
use juris_ai.Runtime.Session.{
  Message, Runtime, M, return, ◌>>=◌, ◌>>◌, get_session, checked, performed,
}
use juris_ai.Runtime.Handle.{extend_reasoning_context, has_items, text_or}
use juris_ai.Runtime.Reason.{if_allowed}

abbrev pub length_of : List RetrievedContent → ℕ
length_of [] = 0
length_of (x ∷ xs) = length_of xs + 1

-- bool(value)
abbrev truthy : Option Json → Bool
truthy none = false
truthy (some null) = false
truthy (some (bool b)) = b
truthy (some (num (pos zero))) = false
truthy (some (float text)) = not (text == "0.0" || text == "-0.0")
truthy (some (str text)) = not (text == "")
truthy (some (arr nil)) = false
truthy (some (obj end)) = false
truthy (some _) = true

-- The values of TerminationReason
abbrev pub termination_value : TerminationReason → String
termination_value TerminationReason.completed = "completed"
termination_value TerminationReason.partial_max_iterations = "partial_max_iterations"
termination_value TerminationReason.partial_max_tool_calls = "partial_max_tool_calls"
termination_value TerminationReason.partial_max_agent_hops = "partial_max_agent_hops"
termination_value TerminationReason.partial_max_total_steps = "partial_max_total_steps"
termination_value TerminationReason.partial_max_decisions = "partial_max_decisions"
termination_value TerminationReason.partial_max_evidence_items = "partial_max_evidence_items"
termination_value TerminationReason.partial_max_context_items = "partial_max_context_items"
termination_value TerminationReason.partial_max_tool_results = "partial_max_tool_results"
termination_value TerminationReason.partial_timeout = "partial_timeout"
termination_value TerminationReason.partial_repeated_action = "partial_repeated_action"
termination_value TerminationReason.partial_rejected_decision_limit =
    "partial_rejected_decision_limit"
termination_value TerminationReason.partial_no_progress = "partial_no_progress"
termination_value TerminationReason.quality_gate_exhausted = "quality_gate_exhausted"
termination_value TerminationReason.no_evidence = "no_evidence"
termination_value TerminationReason.failed_tool = "failed_tool"
termination_value TerminationReason.failed_llm = "failed_llm"
termination_value TerminationReason.failed_validation = "failed_validation"
termination_value TerminationReason.failed_policy = "failed_policy"
termination_value TerminationReason.user_input_required = "user_input_required"

abbrev is_present : Option Json → Bool
is_present none = false
is_present (some v) = true

abbrev pub is_over_budget : ToolResult → Bool
is_over_budget t = truthy (get "budget_exceeded" t.execution_metadata)

abbrev pub is_reviewed : ToolResult → Bool
is_reviewed t = is_present (get "approval_decision" t.execution_metadata)

-- The last message of the user, or the instruction. The conversation is read from its end.
unfoldable pub last_question : List Message → Option String
last_question [] = none
last_question (m ∷ ms) = latest (last_question ms)
  where
    latest : Option String → Option String
    latest (some q) = some q
    latest none = if m.is_user then some m.content else none

unfoldable pub request_question : Runtime → String
unfolding last_question
request_question r = text_or r.request.instruction (last_question r.request.messages)

module _ (r : Runtime) where
  -- _record_progress
  unfoldable pub record_context_progress : List RetrievedContent → M Bool
  unfolding checked
  record_context_progress items =
      checked (progress (r.world.digest items)) >>= λ budget. return (is_allowed budget)

  unfoldable pub stop_for : TerminationReason → M Bool
  unfolding performed
  stop_for reason = performed (stops reason) >> return false

  -- The records of evidence and of context, then the extension
  unfoldable pub record_both : List RetrievedContent → M Bool
  unfolding checked extend_reasoning_context
  record_both items = checked (evidence (pos (length_of items))) >>= λ e.
      if_allowed e
        (checked (context (pos (length_of items))) >>= λ c.
          if_allowed c (extend_reasoning_context items >> return true) (return false))
        (return false)

  -- _record_reasoning_context
  unfoldable pub record_reasoning_context : List RetrievedContent → M Bool
  unfolding stop_for record_both
  record_reasoning_context items = if not (has_items items) then return true else (do
    s ← get_session
    let state = s.lifecycle
    if ltb state.budget.max_evidence_items (state.evidence_count + length_of items)
        then stop_for partial_max_evidence_items
        else if ltb state.budget.max_context_items (state.context_count + length_of items)
        then stop_for partial_max_context_items
        else record_both items)

  unfoldable pub failure_feedback : ToolResult → String
  failure_feedback t = concat (
      "Your call to tool '"
      ∷ t.tool_name
      ∷ "' failed: "
      ∷ said t.error
      ∷ " Correct the call, use a different tool, or answer from the evidence you have."
      ∷ [])
    where
      said : Option String → String
      said none = "the tool returned an error."
      said (some e) = if e == "" then "the tool returned an error." else e

  -- _retry_after_tool_failure
  unfoldable pub retry_after_tool_failure : ToolResult → M Bool
  unfolding failure_feedback runtime_feedback record_context_progress extend_reasoning_context
  retry_after_tool_failure t = if is_reviewed t then return false else (do
    let feedback = runtime_feedback (failure_feedback t) ∷ []
    recorded ← record_context_progress feedback
    if recorded then (extend_reasoning_context feedback >> return true) else return false)
