-- ===== src/Runtime/Attempts.antt =====
-- `_execute_reasoning_attempt` of server/src/agentic/agents/runtime/execution.py, its fuel and the
-- ledger.
use juris_ai.Base.{
  ℕ, zero, suc, ◌+◌, ◌≤◌, ◌<◌, String, Bool, true, false, Option, none, some, arith, if◌then◌else◌,
}
use juris_ai.Base.Result.{Result, ok, err}
use juris_ai.Lifecycle.Budget.{AgentExecutionBudget, failed_validation}
use juris_ai.Lifecycle.Operations.{step, iteration, decision, rejected_decision, fails}
use juris_ai.Lifecycle.Traces.{
  Work, iterations, tool_calls, agent_hops, steps, decisions, rejections,
}
use juris_ai.Runtime.Decisions.{AgentDecision, validate}
use juris_ai.Runtime.Session.{Exn, AgentExecutionResult, reasoned, Runtime, M}
use juris_ai.Runtime.Handle.{partial_result, result_of, is_running}
use juris_ai.Runtime.Reason.{
  reason_once, stop_closed, finish_decision, reject_decision, settle_decision,
  execute_reasoning_attempt, turn_remaining, raise_failure, rejection_feedback,
}
use juris_ai.Runtime.Triple.{Triple, bind, pure, conseq, read_session, Post-if}
use juris_ai.Runtime.Ledger.{
  Ledger-le-limit, cost, IsPermitted, Credit, gain, to_Balanced, drop_gain, ask-Ledger,
}
use juris_ai.Runtime.Rules.{
  set_parts, performed_then, now-Ledger, timed_then, with_gain, without_gain,
}
use juris_ai.Runtime.Proposals.{Fits, failed-Fits, close_partial-Fits, handle_decision-Fits}
use juris_ai.Runtime.Corrected.{
  Kept, Raised, Corrected, may_correct-Corrected, correct_tool-Corrected, decided-Kept,
  set_closed-Kept,
}

-- An iteration that was granted pays for one reasoning.
pays_reasoning :
    (g : Credit) (t time : ℕ) (context : _) (w : Work)
    → g w + cost (reasoned time context) w ≤ gain (iteration t) true g w
unfolding cost
pays_reasoning g t time context iterations = omega arith
pays_reasoning g t time context tool_calls = omega arith
pays_reasoning g t time context agent_hops = omega arith
pays_reasoning g t time context steps = omega arith
pays_reasoning g t time context decisions = omega arith
pays_reasoning g t time context rejections = omega arith

module _ (b : AgentExecutionBudget) (r : Runtime) where
  reason_once-Kept :
      {g : Credit} {a : ℕ} {d : Option AgentDecision} (t : ℕ)
      → Triple
          (Raised b r g a)
          (Kept b r (gain (iteration t) true g) a d)
          (reason_once r)
          (λ v. Kept b r g a (some v))
  unfolding reason_once IsPermitted
  reason_once-Kept {g = g} {a = a} t =
      bind (with_gain b r.policy (iteration t) (now-Ledger b r.policy r.world)) λ time.
        bind read_session λ s.
          bind
            (conseq (λ s h. h.1) (λ s x. x) (λ v s q. q)
              (ask-Ledger b r.policy
                (reasoned (turn_remaining s.lifecycle time) s.reasoning_context)
                (r.world.reason (turn_remaining s.lifecycle time) s.reasoning_context) tt
                (pays_reasoning g t (turn_remaining s.lifecycle time) s.reasoning_context)))
            λ answer. bind (answered answer) λ v. decided-Kept b r v
    where
      answered :
          {d : Option AgentDecision} (answer : Result Exn AgentDecision)
          → Triple (Raised b r g a) (Kept b r g a d) (raise_failure r answer) (λ _. Kept b r g a d)
      answered (ok v) = pure λ s h. h
      answered (err e) = record { holds = λ s h. to_Balanced b r.policy s h }

  -- What the next attempt has to keep
  abbrev Again : Credit → ℕ → M AgentExecutionResult → Type 0
  Again g a again =
      (t : ℕ) (d : Option AgentDecision)
      → Triple (Raised b r (gain (rejected_decision t) true g) a)
          (Kept b r (gain (rejected_decision t) true g) a d) again
          (Fits b r (gain (rejected_decision t) true g) a)

  module _ {g : Credit} {a : ℕ} where
    finish-Fits :
        (d : AgentDecision)
        → Triple (Raised b r g a) (Kept b r g a (some d)) (finish_decision r d) (Fits b r g a)
    unfolding finish_decision
    finish-Fits d = bind (handle_decision-Fits b r d.decision_type) λ result.
        bind
          (record {
            holds = λ s h.
                Post-if (Raised b r g a) (λ _. Fits b r g a result) (is_running s.lifecycle.status)
                  _ _ h (set_parts b r.policy s true s.reasoning_context h.0, h.1);
          })
          λ _. pure λ s h. h

    reject-Fits :
        (d : AgentDecision) (message : String)
        → Triple
            (Raised b r g a)
            (Kept b r g a (some d))
            (reject_decision r d message)
            (Fits b r g a)
    unfolding reject_decision
    reject-Fits d message =
        performed_then b r.policy (fails failed_validation)
          (bind (set_closed-Kept b r) λ _. failed-Fits b r failed_validation (some message))

    stop-Fits :
        {d : Option AgentDecision}
        → Triple (Raised b r g a) (Kept b r g a d) (stop_closed r none) (Fits b r g a)
    unfolding stop_closed partial_result result_of
    stop-Fits = record {
      holds =
          λ s h. (to_Balanced b r.policy _ (set_parts b r.policy s true s.reasoning_context h), tt);
    }

    Corrected-Fits :
        {d : Option AgentDecision} (again : M AgentExecutionResult) {other : M AgentExecutionResult}
        (corrected : Bool)
        → Again g a again
        → Triple (Raised b r g a) (Kept b r g a d) other (Fits b r g a)
        → Triple
            (Raised b r g a)
            (Corrected b r g a d corrected)
            (if corrected then again else other)
            (Fits b r g a)
    Corrected-Fits {d = d} again true h k = record {
      holds = λ s (t, l).
          (conseq (λ s x. x) (λ s x. drop_gain b r.policy (rejected_decision t) true s x)
              (λ result s q. (drop_gain b r.policy (rejected_decision t) true s q.0, q.1))
              (h t d)).holds
            s l;
    }
    Corrected-Fits again false h k = k

    settle-Fits :
        (again : M AgentExecutionResult) (d : AgentDecision) (v : Result String AgentDecision)
        → Again g a again
        → Triple
            (Raised b r g a)
            (Kept b r g a (some d))
            (settle_decision r again d v)
            (Fits b r g a)
    unfolding settle_decision stop_closed
    settle-Fits again d (err message) h =
        bind (may_correct-Corrected b r (rejection_feedback r message))
          λ c. Corrected-Fits again c h (reject-Fits d message)
    settle-Fits again d (ok valid) h = bind (decided-Kept b r valid) λ d'.
        timed_then b r.policy r.world decision
          (λ t. without_gain b r.policy (decision t) (
            bind (correct_tool-Corrected b r d'.decision_type d'.tool_call)
              λ c. Corrected-Fits again c h (finish-Fits d')))
          (λ _. close_partial-Fits b r)

  pub attempt-Fits :
      (n : ℕ) {g : Credit} {a : ℕ} {d : Option AgentDecision}
      → b.max_rejected_decisions < n + g rejections
      → Triple (Raised b r g a) (Kept b r g a d) (execute_reasoning_attempt r n) (Fits b r g a)
  unfolding execute_reasoning_attempt
  attempt-Fits zero le = record {
    holds = λ s h. absurd (omega (arith, le, Ledger-le-limit b r.policy rejections s h));
  }
  attempt-Fits (suc n) le =
      timed_then b r.policy r.world step
        (λ t. without_gain b r.policy (step t) (
          timed_then b r.policy r.world iteration
            (λ t. bind (reason_once-Kept t) λ d.
              settle-Fits (execute_reasoning_attempt r n) d (validate d)
                λ t d. attempt-Fits n (omega (arith, le)))
            (λ _. stop-Fits)))
        (λ _. stop-Fits)
