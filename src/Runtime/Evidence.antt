-- ===== src/Runtime/Evidence.antt =====
-- AgentContinuationService of server/src/agentic/agents/runtime/continuation.py: the tools that it
-- runs, the agents that it delegates to, and the evidence that it retrieves.
use juris_ai.Base.{
  ℕ, String, Bool, true, false, not, Option, none, some, List, [], ◌∷◌, if◌then◌else◌, ◌==◌,
}
use juris_ai.Base.Int.{pos}
use juris_ai.Base.Json.{Json, null, bool, num, str, obj, end, field}
use juris_ai.Lifecycle.Budget.{TerminationReason}
use juris_ai.Lifecycle.Operations.{tool_call, agent_hop}
use juris_ai.Runtime.Guards.{check_tool}
use juris_ai.Runtime.Content.{
  RetrievedContent, ToolResult, to_reasoning_context, runtime_feedback, is_evidence_text, keep_if,
}
use juris_ai.Runtime.Session.{
  Exn, exception, AgentActionRequest, Delegated, Effect, logged_tool_call, logged_retrieval,
  interrupted, delegated, done, paused, ResumePayload, Runtime, M, return, ◌>>=◌, ◌>>◌, catch,
  throw, raise_result, ask, timed_check,
}
use juris_ai.Runtime.Tools.{execute_tool_call, check_parameters}
use juris_ai.Runtime.Reason.{if_allowed}
use juris_ai.Runtime.Records.{request_question, termination_value}

module _ (r : Runtime) where
  -- interrupt(…): without a payload the run pauses here
  abbrev pub resumed : Option ResumePayload → M ResumePayload
  resumed none s = (paused, s)
  resumed (some payload) s = (done payload, s)

  unfoldable pub pause_for : AgentActionRequest → M ResumePayload
  pause_for a = ask (interrupted a) (r.world.interrupt a) >>= resumed

  abbrev is_approved_decision : Option String → Bool
  is_approved_decision none = false
  is_approved_decision (some text) = text == "approved"

  abbrev as_json : Option String → Json
  as_json none = null
  as_json (some text) = str text

  unfoldable pub reviewed_result : String → ResumePayload → ToolResult
  reviewed_result tool_name payload =
      if is_approved_decision payload.decision then payload.tool_result else record {
        tool_name = tool_name;
        success = false;
        content = "";
        evidence = [];
        execution_metadata = ("approval_decision", as_json payload.decision) ∷ [];
        error = some "Action was not approved by a human reviewer.";
      }

  unfoldable pub decide_gated : AgentActionRequest → String → Option ToolResult → M ToolResult
  unfolding pause_for reviewed_result
  decide_gated a tool_name (some invalid) = return invalid
  decide_gated a tool_name none =
      pause_for a >>= λ payload. return (reviewed_result tool_name payload)

  -- _execute_gated_tool
  unfoldable pub execute_gated_tool : AgentActionRequest → String → M ToolResult
  unfolding check_parameters decide_gated
  execute_gated_tool a tool_name =
      check_parameters r.world tool_name a.parameters >>= decide_gated a tool_name

  abbrev pub written : Option Exn → M (Unit {0})
  written none = return tt
  written (some x) = throw x

  -- A write of the compliance log, which may fail
  unfoldable pub write_log : Effect → M (Unit {0})
  write_log e = ask e r.world.log >>= written

  abbrev pub has_evidence : ToolResult → Bool
  has_evidence t = found t.evidence
    where
      found : List juris_ai.Runtime.Content.ToolEvidence → Bool
      found [] = false
      found (_ ∷ _) = true

  -- _record_tool_call_compliance. A request id that is empty is no UUID.
  unfoldable pub record_tool_call_compliance : String → ToolResult → M (Unit {0})
  unfolding write_log to_reasoning_context
  record_tool_call_compliance tool_name t =
      if r.request.context.request_id == ""
      then return tt
      else if not (r.world.is_uuid r.request.context.request_id)
      then return tt
      else (write_log (logged_tool_call tool_name t.success)
          >> (if t.success
              then (if has_evidence t
                  then write_log (logged_retrieval (to_reasoning_context t))
                  else return tt)
              else return tt))

  abbrev reason_json : Option TerminationReason → Json
  reason_json none = null
  reason_json (some reason) = str (termination_value reason)

  unfoldable pub over_budget : String → Option TerminationReason → ToolResult
  over_budget tool_name reason = record {
    tool_name = tool_name;
    success = false;
    content = "";
    evidence = [];
    execution_metadata =
        ("budget_exceeded", bool true) ∷ ("termination_reason", reason_json reason) ∷ [];
    error = some "Tool-call execution budget exceeded.";
  }

  -- _execute_tool
  unfoldable pub execute_tool : AgentActionRequest → String → M ToolResult
  unfolding timed_check over_budget execute_tool_call record_tool_call_compliance
  execute_tool a tool_name = timed_check r.world tool_call >>= λ budget.
      if_allowed budget
        (execute_tool_call r.world tool_name a.parameters none >>= λ t.
          (record_tool_call_compliance tool_name t >> return t))
        (return (over_budget tool_name budget.reason))

  abbrev pub returned_by : Delegated → Option Delegated
  returned_by Delegated.no_result = none
  returned_by d = some d

  -- _delegate: `none` when the hop is denied or the handler returns nothing
  unfoldable pub delegate_action : AgentActionRequest → String → M (Option Delegated)
  unfolding timed_check
  delegate_action a target =
      if target == ""
      then throw (exception "ValueError" "Agent delegation requires a target_agent_id.")
      else (timed_check r.world agent_hop >>= λ budget.
          if_allowed budget
            (ask (delegated target a.parameters) (r.world.delegate target a.parameters)
              >>= λ answer. raise_result answer >>= λ result. return (returned_by result))
            (return none))

  unfoldable pub retriever_parameters : ℕ → Json
  unfolding request_question
  retriever_parameters top_k =
      obj (field "query" (str (request_question r)) (field "top_k" (num (pos top_k)) end))

  -- except ToolNotFoundError
  abbrev pub not_found : Exn → M (Option ToolResult)
  not_found (exception class message) =
      if class == "ToolNotFoundError" then return none else throw (exception class message)
  not_found e = throw e

  unfoldable pub found_evidence : Option ToolResult → Option (List RetrievedContent)
  unfolding to_reasoning_context
  found_evidence none = none
  found_evidence (some t) =
      if t.success
      then some (keep_if (λ item. is_evidence_text item.content) (to_reasoning_context t))
      else none

  -- _retrieve_evidence
  unfoldable pub retrieve_evidence : ℕ → M (Option (List RetrievedContent))
  unfolding check_tool timed_check execute_tool_call retriever_parameters found_evidence
  retrieve_evidence top_k =
      let permission = check_tool r.policy "retriever" in
      if permission.allowed
      then (timed_check r.world tool_call >>= λ budget.
          if_allowed budget
            (catch
                (execute_tool_call r.world "retriever" (retriever_parameters top_k) none >>= λ t.
                  return (some t))
                not_found
              >>= λ t. return (found_evidence t))
            (return none))
      else return none
