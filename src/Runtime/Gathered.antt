-- ===== src/Runtime/Gathered.antt =====
-- What server/src/agentic/agents/runtime/continuation.py records and reviews, and the ledger.
use juris_ai.Base.{ℕ, ◌+◌, String, true, not, Option, none, some, List, [], ◌∷◌, arith, ltb, ◌==◌}
use juris_ai.Base.Int.{pos}
use juris_ai.Base.Json.{Json}
use juris_ai.Base.Result.{Result, ok, err}
use juris_ai.Lifecycle.Budget.{
  AgentExecutionBudget, TerminationReason, partial_max_evidence_items, partial_max_context_items,
  is_allowed,
}
use juris_ai.Lifecycle.Operations.{tool_call, evidence, context, progress, stops}
use juris_ai.Runtime.Decisions.{AgentDecision}
use juris_ai.Runtime.Content.{RetrievedContent, ToolResult, to_reasoning_context, runtime_feedback}
use juris_ai.Runtime.Session.{
  Exn, AgentActionRequest, validated_parameters, ran_tool, logged_tool_call, logged_retrieval,
  interrupted, ResumePayload, Tool, Runtime, M,
}
use juris_ai.Runtime.Tools.{
  found_tool, valid_call, resolve, validate_call, run_valid, check_parameters, ended_call,
}
use juris_ai.Runtime.Handle.{has_items}
use juris_ai.Runtime.Records.{
  length_of, is_reviewed, record_context_progress, stop_for, record_both, record_reasoning_context,
  failure_feedback, retry_after_tool_failure,
}
use juris_ai.Runtime.Evidence.{
  resumed, pause_for, decide_gated, execute_gated_tool, written, write_log, has_evidence,
  record_tool_call_compliance,
}
use juris_ai.Runtime.Triple.{Triple, bind, pure, branch, conseq, read_session}
use juris_ai.Runtime.Ledger.{
  cost, MayRun, IsPermitted, Credit, gain, to_Balanced, ask-Ledger, drop_gain,
}
use juris_ai.Runtime.Rules.{extend_reasoning_context-Ledger, checked_then, performed_then}
use juris_ai.Runtime.Payments.{pays_tool}
use juris_ai.Runtime.Corrected.{Kept, Raised}

-- A computation that keeps the ledger, whatever it returns
abbrev pub Keeps :
    AgentExecutionBudget → Runtime → Credit → ℕ → Option AgentDecision → {A : Type 0} → M A → Type 0
Keeps b r g a d m = Triple (Raised b r g a) (Kept b r g a d) m (λ _. Kept b r g a d)

module _ (b : AgentExecutionBudget) (r : Runtime) {g : Credit} {a : ℕ}
    {d : Option AgentDecision} where
  pub record_context_progress-Keeps :
      (items : List RetrievedContent) → Keeps b r g a d (record_context_progress r items)
  unfolding record_context_progress
  record_context_progress-Keeps items =
      checked_then b r.policy (progress (r.world.digest items)) λ budget. pure λ s h. h

  stop_for-Keeps : (reason : TerminationReason) → Keeps b r g a d (stop_for r reason)
  unfolding stop_for
  stop_for-Keeps reason = performed_then b r.policy (stops reason) (pure λ s h. h)

  record_both-Keeps : (items : List RetrievedContent) → Keeps b r g a d (record_both r items)
  unfolding record_both
  record_both-Keeps items = checked_then b r.policy (evidence (pos (length_of items))) λ e.
      branch (is_allowed e)
        (λ _. checked_then b r.policy (context (pos (length_of items))) λ c.
          branch (is_allowed c)
            (λ _. bind (extend_reasoning_context-Ledger b r.policy items) λ _. pure λ s h. h)
            (λ _. pure λ s h. h))
        (λ _. pure λ s h. h)

  pub record_reasoning_context-Keeps :
      (items : List RetrievedContent) → Keeps b r g a d (record_reasoning_context r items)
  unfolding record_reasoning_context
  record_reasoning_context-Keeps items =
      branch (not (has_items items)) (λ _. pure λ s h. h)
        (λ _. bind read_session λ t.
          conseq (λ s h. h.1) (λ s x. x) (λ v s q. q)
            (branch
              (ltb t.lifecycle.budget.max_evidence_items
                (t.lifecycle.evidence_count + length_of items))
              (λ _. stop_for-Keeps partial_max_evidence_items)
              (λ _.
                branch
                  (ltb t.lifecycle.budget.max_context_items
                    (t.lifecycle.context_count + length_of items))
                  (λ _. stop_for-Keeps partial_max_context_items) (λ _. record_both-Keeps items))))

  pub retry_after_tool_failure-Keeps :
      (t : ToolResult) → Keeps b r g a d (retry_after_tool_failure r t)
  unfolding retry_after_tool_failure
  retry_after_tool_failure-Keeps t =
      branch (is_reviewed t) (λ _. pure λ s h. h)
        (λ _.
          bind (record_context_progress-Keeps (runtime_feedback (failure_feedback r t) ∷ []))
            λ recorded.
              branch recorded
                (λ _.
                  bind
                    (extend_reasoning_context-Ledger b r.policy
                      (runtime_feedback (failure_feedback r t) ∷ []))
                    λ _. pure λ s h. h)
                (λ _. pure λ s h. h))

  pub resolve-Keeps : (name : String) → Keeps b r g a d (resolve r.world name)
  unfolding resolve
  resolve-Keeps name = found (r.world.resolve_tool name)
    where
      found : (t : Option Tool) → Keeps b r g a d (found_tool r.world name t)
      found none = record { holds = λ s h. to_Balanced b r.policy s h }
      found (some t) = pure λ s h. h

  pub validate_call-Keeps :
      (name : String) (t : Tool) (parameters : Json)
      → Keeps b r g a d (validate_call r.world name t parameters)
  unfolding validate_call cost IsPermitted
  validate_call-Keeps name t parameters =
      branch t.callable
        (λ _.
          bind
            (ask-Ledger b r.policy (validated_parameters name parameters)
              (r.world.validated name parameters) tt (λ w. omega arith))
            λ answer. pure {a = valid_call r.world name answer} λ s h. h)
        (λ _. pure λ s h. h)

  written-Keeps : (x : Option Exn) → Keeps b r g a d (written r x)
  written-Keeps none = pure λ s h. h
  written-Keeps (some x) = record { holds = λ s h. to_Balanced b r.policy s h }

  pub compliance-Keeps :
      (name : String) (t : ToolResult) → Keeps b r g a d (record_tool_call_compliance r name t)
  unfolding record_tool_call_compliance write_log cost IsPermitted
  compliance-Keeps name t =
      branch (r.request.context.request_id == "") (λ _. pure λ s h. h)
        (λ _.
          branch (not (r.world.is_uuid r.request.context.request_id)) (λ _. pure λ s h. h)
            (λ _.
              bind
                (bind
                  (ask-Ledger b r.policy (logged_tool_call name t.success) r.world.log tt
                    (λ w. omega arith))
                  written-Keeps)
                λ _.
                  branch t.success
                    (λ _.
                      branch (has_evidence r t)
                        (λ _.
                          bind
                            (ask-Ledger b r.policy (logged_retrieval (to_reasoning_context t))
                              r.world.log tt (λ w. omega arith))
                            written-Keeps)
                        (λ _. pure λ s h. h))
                    (λ _. pure λ s h. h)))

  check_parameters-Keeps :
      (name : String) (parameters : Json)
      → Keeps b r g a d (check_parameters r.world name parameters)
  unfolding check_parameters
  check_parameters-Keeps name parameters =
      bind (resolve-Keeps name) λ t. bind (validate_call-Keeps name t parameters) λ v. pure λ s h. h

  -- A gated tool is not run here.
  pub execute_gated_tool-Keeps :
      (x : AgentActionRequest) (name : String) → Keeps b r g a d (execute_gated_tool r x name)
  unfolding execute_gated_tool decide_gated pause_for cost IsPermitted
  execute_gated_tool-Keeps x name = bind (check_parameters-Keeps name x.parameters) decided_gated
    where
      resumed-Keeps : (payload : Option ResumePayload) → Keeps b r g a d (resumed r payload)
      resumed-Keeps none = record { holds = λ s h. to_Balanced b r.policy s h }
      resumed-Keeps (some payload) = pure λ s h. h

      decided_gated : (t : Option ToolResult) → Keeps b r g a d (decide_gated r x name t)
      decided_gated (some invalid) = pure λ s h. h
      decided_gated none =
          bind
            (bind
              (ask-Ledger b r.policy (interrupted x) (r.world.interrupt x) tt (λ w. omega arith))
              resumed-Keeps)
            λ payload. pure λ s h. h

  pub run_valid-Keeps :
      (t : ℕ) (name : String) (v : Result ToolResult Json)
      → MayRun r.policy name
      → Triple
          (Raised b r g a)
          (Kept b r (gain (tool_call t) true g) a d)
          (run_valid r.world name none v)
          (λ _. Kept b r g a d)
  unfolding run_valid IsPermitted
  run_valid-Keeps t name (err refused) may = pure (drop_gain b r.policy (tool_call t) true)
  run_valid-Keeps t name (ok arguments) may =
      bind
        (ask-Ledger b r.policy (ran_tool name arguments) (r.world.run_tool name arguments none) may
          (pays_tool g t name arguments))
        λ ended. pure {a = ended_call r.world name ended} λ s h. h
