-- ===== src/Runtime/Proposals.antt =====
-- What a result of `reason` in server/src/agentic/agents/runtime/execution.py may propose: the
-- handling of one decision.
use juris_ai.Base.{
  ℕ, String, true, false, ◌≡◌, subst, Option, none, some, elem, ◌==◌, Bool-cases, inl, inr,
  if◌then◌else◌,
}
use juris_ai.Authorization.Roles.{ActionType, send}
use juris_ai.Lifecycle.Budget.{
  AgentExecutionBudget, TerminationReason, is_allowed, user_input_required, failed_llm,
}
use juris_ai.Base.Text.{chars}
use juris_ai.Lifecycle.Operations.{action, partial_text, asks_user, fails}
use juris_ai.Runtime.Decisions.{
  AgentDecision, AgentDecisionType, final, need_input, delegate, AgentToolCall, AgentDelegation,
}
use juris_ai.Runtime.Guards.{AgentPolicy, check_tool, check_delegation, is_gated}
use juris_ai.Runtime.Session.{AgentActionRequest, AgentExecutionResult, Session, Runtime, ◌>>◌}
use juris_ai.Runtime.Handle.{
  is_send, build_action_key, partial_result, failed_result, completed_result, set_closed, result_of,
  tool_action, delegation_action, propose, fail_with, handle_final, handle_need_input,
  handle_failure, handle_tool_call, handle_delegation, handle_decision, question, failure_message,
  response,
}
use juris_ai.Runtime.Triple.{Triple, branch}
use juris_ai.Runtime.Ledger.{MayRun, MayDelegate, Credit, Ledger, Balanced}
use juris_ai.Runtime.Rules.{set_parts, checked_then, performed_then}

-- An action names a tool only if the agent may run it or it is sent for approval, and an agent only
-- if the agent may delegate to it.
pub record IsProposable (p : AgentPolicy) (x : AgentActionRequest) : Type 0 where
  pub runs :
      (name : String) → x.tool_name ≡ some name → is_send x.action_type ≡ false → MayRun p name
  pub delegates : (target : String) → x.target_agent_id ≡ some target → MayDelegate p target

abbrev pub Proposed : AgentPolicy → Option AgentActionRequest → Type 0
Proposed p none = Unit
Proposed p (some x) = IsProposable p x

pub check_tool-allowed :
    (p : AgentPolicy) (name : String)
    → (check_tool p name).allowed ≡ true
    → elem name p.allowed_tools ≡ true
unfolding check_tool
check_tool-allowed p name e = elim (Bool-cases (name == "")) [
  | inl q ↦ cc (rw q at e)
  | inr q ↦ elim (Bool-cases (elem name p.allowed_tools)) [
    | inl t ↦ t
    | inr f ↦ cc (rw (q, f) at e)
  ]
]

check_delegation-allowed :
    (p : AgentPolicy) (target : String)
    → (check_delegation p target).allowed ≡ true
    → MayDelegate p target
unfolding check_delegation
check_delegation-allowed p target e = elim (Bool-cases p.allow_delegation) [
  | inr f ↦ cc (rw f at e)
  | inl t ↦ elim (Bool-cases (target == "")) [
    | inl q ↦ cc (rw (t, q) at e)
    | inr q ↦ elim (Bool-cases (elem target p.allowed_agents)) [
      | inl m ↦ (t, m)
      | inr f ↦ cc (rw (t, q, f) at e)
    ]
  ]
]

send_or_call-MayRun :
    (p : AgentPolicy) (name : String)
    → (check_tool p name).allowed ≡ true
    → is_send (if is_gated name then send else ActionType.tool_call) ≡ false
    → MayRun p name
send_or_call-MayRun p name e ungated = elim (Bool-cases (is_gated name)) [
  | inl t ↦ cc (rw t at ungated)
  | inr f ↦ (check_tool-allowed p name e, f)
]

module _ (b : AgentExecutionBudget) (r : Runtime) where
  -- A result carries the last decision, and proposes only what the policy allows.
  abbrev pub Fits : Credit → ℕ → AgentExecutionResult → Session → Type 0
  Fits g a result s = Ledger b r.policy g a result.decision s × Proposed r.policy result.action

  module _ {g : Credit} {a : ℕ} {d : AgentDecision} where
    completed-Fits :
        (reason : Option TerminationReason) (x : Option AgentActionRequest)
        → Proposed r.policy x
        → Triple
            (Balanced b r.policy g a)
            (Ledger b r.policy g a (some d))
            (completed_result reason d x)
            (Fits g a)
    unfolding completed_result result_of
    completed-Fits reason x ok = record { holds = λ s h. (h, ok) }

    pub failed-Fits :
        (reason : TerminationReason) (error : Option String)
        → Triple
            (Balanced b r.policy g a)
            (Ledger b r.policy g a (some d))
            (failed_result reason error (some d))
            (Fits g a)
    unfolding failed_result result_of
    failed-Fits reason error = record { holds = λ s h. (h, tt) }

    pub close_partial-Fits :
        Triple
          (Balanced b r.policy g a)
          (Ledger b r.policy g a (some d))
          (set_closed >> partial_result (some d))
          (Fits g a)
    unfolding partial_result result_of
    close_partial-Fits = record {
      holds = λ s h. (set_parts b r.policy s true s.reasoning_context h, tt);
    }

    fail_with-Fits :
        (reason : TerminationReason) (error : Option String)
        → Triple
            (Balanced b r.policy g a)
            (Ledger b r.policy g a (some d))
            (fail_with r reason error d)
            (Fits g a)
    unfolding fail_with
    fail_with-Fits reason error =
        performed_then b r.policy (fails reason) (failed-Fits reason error)

    propose-Fits :
        (x : AgentActionRequest)
        → IsProposable r.policy x
        → Triple
            (Balanced b r.policy g a)
            (Ledger b r.policy g a (some d))
            (propose r d x)
            (Fits g a)
    unfolding propose
    propose-Fits x ok = checked_then b r.policy (action (build_action_key r x)) λ budget.
        branch (is_allowed budget) (λ _. completed-Fits none (some x) ok) (λ _. close_partial-Fits)

    tool-Fits :
        (call : Option AgentToolCall)
        → Triple
            (Balanced b r.policy g a)
            (Ledger b r.policy g a (some d))
            (handle_tool_call r d call)
            (Fits g a)
    unfolding handle_tool_call tool_action
    tool-Fits none =
        fail_with-Fits TerminationReason.failed_validation
          (some "TOOL_CALL decision is missing tool_call.")
    tool-Fits (some call) =
        branch (check_tool r.policy call.tool_name).allowed
          (λ e. propose-Fits (tool_action r d call) (record {
            runs = λ name q ungated.
                let named : call.tool_name ≡ name = cc in
                subst (MayRun r.policy) named
                  (send_or_call-MayRun r.policy call.tool_name e ungated);
            delegates = λ target q. cc;
          }))
          (λ _.
            fail_with-Fits TerminationReason.failed_policy
              (check_tool r.policy call.tool_name).reason)

    delegation-Fits :
        (x : Option AgentDelegation)
        → Triple
            (Balanced b r.policy g a)
            (Ledger b r.policy g a (some d))
            (handle_delegation r d x)
            (Fits g a)
    unfolding handle_delegation delegation_action
    delegation-Fits none =
        fail_with-Fits TerminationReason.failed_validation
          (some "DELEGATE decision is missing delegation.")
    delegation-Fits (some x) =
        branch (check_delegation r.policy x.target_agent_id).allowed
          (λ e. propose-Fits (delegation_action r d x) (record {
            runs = λ name q ungated. cc;
            delegates = λ target q.
                let named : x.target_agent_id ≡ target = cc in
                subst (MayDelegate r.policy) named
                  (check_delegation-allowed r.policy x.target_agent_id e);
          }))
          (λ _.
            fail_with-Fits TerminationReason.failed_policy
              (check_delegation r.policy x.target_agent_id).reason)

    pub handle_decision-Fits :
        (kind : AgentDecisionType)
        → Triple
            (Balanced b r.policy g a)
            (Ledger b r.policy g a (some d))
            (handle_decision r kind d)
            (Fits g a)
    unfolding handle_decision handle_final handle_need_input handle_failure
    handle_decision-Fits final =
        performed_then b r.policy (partial_text (response r d.final_response))
          (completed-Fits none none tt)
    handle_decision-Fits need_input =
        performed_then b r.policy (partial_text (some (chars (question r d.user_input))))
          (performed_then b r.policy asks_user (completed-Fits (some user_input_required) none tt))
    handle_decision-Fits AgentDecisionType.fail =
        performed_then b r.policy (partial_text (some (chars (failure_message r d.failure))))
          (fail_with-Fits failed_llm (some (failure_message r d.failure)))
    handle_decision-Fits AgentDecisionType.tool_call = tool-Fits d.tool_call
    handle_decision-Fits delegate = delegation-Fits d.delegation
