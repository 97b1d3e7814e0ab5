-- ===== src/Runtime/Ran.antt =====
-- The tools that server/src/agentic/agents/runtime/continuation.py runs and the agents that it
-- delegates to, and the ledger.
use juris_ai.Base.{ℕ, String, true, not, refl, Option, none, ◌≡◌, ◌==◌}
use juris_ai.Base.Json.{Json}
use juris_ai.Base.Result.{Result, ok, err}
use juris_ai.Lifecycle.Budget.{AgentExecutionBudget}
use juris_ai.Lifecycle.Operations.{tool_call, agent_hop}
use juris_ai.Runtime.Decisions.{AgentDecision}
use juris_ai.Runtime.Guards.{check_tool}
use juris_ai.Runtime.Session.{
  Exn, exception, reasoning_failure, AgentActionRequest, Delegated, delegated, Runtime, M,
  raise_result,
}
use juris_ai.Runtime.Tools.{execute_tool_call}
use juris_ai.Runtime.Evidence.{
  returned_by, execute_tool, delegate_action, not_found, retriever_parameters, retrieve_evidence,
  found_evidence,
}
use juris_ai.Runtime.Triple.{Triple, bind, pure, branch, catch_rule, conseq}
use juris_ai.Runtime.Ledger.{
  MayRun, MayDelegate, IsPermitted, Credit, gain, to_Balanced, ask-Ledger,
}
use juris_ai.Runtime.Rules.{timed_then, with_gain}
use juris_ai.Runtime.Proposals.{check_tool-allowed}
use juris_ai.Runtime.Payments.{pays_delegation}
use juris_ai.Runtime.Corrected.{Kept, Raised}
use juris_ai.Runtime.Slices.{anyhow}
use juris_ai.Runtime.Gathered.{
  Keeps, resolve-Keeps, validate_call-Keeps, run_valid-Keeps, compliance-Keeps,
}

module _ (b : AgentExecutionBudget) (r : Runtime) {g : Credit} {a : ℕ}
    {d : Option AgentDecision} where
  execute_tool_call-Keeps :
      (t : ℕ) (name : String) (parameters : Json)
      → MayRun r.policy name
      → Triple
          (Raised b r g a)
          (Kept b r (gain (tool_call t) true g) a d)
          (execute_tool_call r.world name parameters none)
          (λ _. Kept b r g a d)
  unfolding execute_tool_call
  execute_tool_call-Keeps t name parameters may =
      bind (with_gain b r.policy (tool_call t) (resolve-Keeps b r name)) λ tool.
        bind (with_gain b r.policy (tool_call t) (validate_call-Keeps b r name tool parameters))
          λ v. run_valid-Keeps b r t name v may

  pub execute_tool-Keeps :
      (x : AgentActionRequest) (name : String)
      → MayRun r.policy name
      → Keeps b r g a d (execute_tool r x name)
  unfolding execute_tool
  execute_tool-Keeps x name may =
      timed_then b r.policy r.world tool_call
        (λ t.
          bind (execute_tool_call-Keeps t name x.parameters may)
            λ result. bind (compliance-Keeps b r name result) λ _. pure λ s h. h)
        (λ _. pure λ s h. h)

  pub delegate_action-Keeps :
      (x : AgentActionRequest) (target : String)
      → (not (target == "") ≡ true → MayDelegate r.policy target)
      → Keeps b r g a d (delegate_action r x target)
  unfolding delegate_action IsPermitted
  delegate_action-Keeps x target may =
      branch (target == "") (λ _. record { holds = λ s h. to_Balanced b r.policy s h })
        (λ e.
          timed_then b r.policy r.world agent_hop
            (λ t.
              bind
                (ask-Ledger b r.policy (delegated target x.parameters)
                  (r.world.delegate target x.parameters) (may (rw e refl))
                  (pays_delegation g t target x.parameters))
                λ answer. bind (answered answer) λ result. pure {a = returned_by r result} λ s h. h)
            (λ _. pure λ s h. h))
    where
      answered : (answer : Result Exn Delegated) → Keeps b r g a d (raise_result answer)
      answered (ok v) = pure λ s h. h
      answered (err e) = record { holds = λ s h. to_Balanced b r.policy s h }

-- The same, without naming the last decision
abbrev pub Balances : AgentExecutionBudget → Runtime → Credit → ℕ → {A : Type 0} → M A → Type 0
Balances b r g a m = Triple (Raised b r g a) (Raised b r g a) m (λ _. Raised b r g a)

module _ (b : AgentExecutionBudget) (r : Runtime) {g : Credit} {a : ℕ} where
  pub balances :
      {A : Type 0} {m : M A} → ((d : Option AgentDecision) → Keeps b r g a d m) → Balances b r g a m
  balances h =
      anyhow b r λ d. conseq (λ s l. l) (λ s x. x) (λ v s l. to_Balanced b r.policy s l) (h d)

  caught : (e : Exn) → Balances b r g a (not_found r e)
  caught (exception class message) =
      branch (class == "ToolNotFoundError") (λ _. pure λ s h. h) (λ _. record { holds = λ s h. h })
  caught (reasoning_failure class message) = record { holds = λ s h. h }

  pub retrieve_evidence-Balances : (top_k : ℕ) → Balances b r g a (retrieve_evidence r top_k)
  unfolding retrieve_evidence
  retrieve_evidence-Balances top_k =
      branch (check_tool r.policy "retriever").allowed
        (λ e. anyhow b r λ d.
          timed_then b r.policy r.world tool_call
            (λ t.
              bind
                (catch_rule (λ s x. x)
                  (bind
                    (execute_tool_call-Keeps b r t "retriever" (retriever_parameters r top_k)
                      (check_tool-allowed r.policy "retriever" e, refl))
                    λ result. pure λ s h. to_Balanced b r.policy s h)
                  caught)
                λ result. pure {a = found_evidence r result} λ s h. h)
            (λ _. pure λ s h. to_Balanced b r.policy s h))
        (λ _. pure λ s h. h)
