-- ===== src/Runtime/Corrected.antt =====
-- `_may_correct` of server/src/agentic/agents/runtime/execution.py and the number of corrections.
use juris_ai.Base.{ℕ, String, Bool, true, false, ◌≡◌, refl, Option, none, some, ◌∷◌, [], leb}
use juris_ai.Lifecycle.Budget.{AgentExecutionBudget, BudgetCheckResult, is_allowed}
use juris_ai.Lifecycle.Operations.{rejected_decision}
use juris_ai.Runtime.Decisions.{AgentDecision, AgentDecisionType, AgentToolCall}
use juris_ai.Runtime.Guards.{check_tool}
use juris_ai.Runtime.Content.{runtime_feedback}
use juris_ai.Runtime.Session.{Runtime, Session, return, ◌>>◌, timed_check}
use juris_ai.Runtime.Handle.{set_closed, is_running, extend_reasoning_context}
use juris_ai.Runtime.Reason.{decided, may_correct, correct_tool, tool_not_available_feedback}
use juris_ai.Runtime.Triple.{Triple, bind, pure, branch, conseq, read_session}
use juris_ai.Runtime.Ledger.{Credit, gain, Ledger, Balanced, drop_gain}
use juris_ai.Runtime.Rules.{set_parts, extend_reasoning_context-Ledger, now-Ledger}
use juris_ai.Runtime.Stopped.{CheckedEnd, checked-CheckedEnd, extend_reasoning_context-Raises}

module _ (b : AgentExecutionBudget) (r : Runtime) where
  abbrev pub Kept : Credit → ℕ → Option AgentDecision → Session → Type 0
  Kept g a d = Ledger b r.policy g a d

  abbrev pub Raised : Credit → ℕ → Session → Type 0
  Raised g a = Balanced b r.policy g a

  -- If the model is asked again, one more rejected decision was counted.
  abbrev pub Corrected : Credit → ℕ → Option AgentDecision → Bool → Session → Type 0
  Corrected g a d true s = (t : ℕ) × Kept (gain (rejected_decision t) true g) a d s
  Corrected g a d false s = Kept g a d s

  module _ {g : Credit} {a : ℕ} {d : Option AgentDecision} where
    extended :
        (t : ℕ) (feedback : String) (budget : BudgetCheckResult)
        → Triple
            (Raised g a)
            (CheckedEnd b r.policy g a d (rejected_decision t) budget)
            (extend_reasoning_context (runtime_feedback feedback ∷ []) >> return true)
            (Corrected g a d)
    extended t feedback budget = by_check (is_allowed budget)
      where
        by_check :
            (allowed : Bool)
            → Triple
                (Raised g a)
                (λ s.
                  Kept (gain (rejected_decision t) allowed g) a d s
                  × (allowed ≡ false → is_running s.lifecycle.status ≡ false))
                (extend_reasoning_context (runtime_feedback feedback ∷ []) >> return true)
                (Corrected g a d)
        by_check true =
            conseq (λ s h. h.0) (λ s x. drop_gain b r.policy (rejected_decision t) true s x)
              (λ ok s q. q)
              (bind (extend_reasoning_context-Ledger b r.policy (runtime_feedback feedback ∷ []))
                λ _. pure λ s h. (t, h))
        by_check false =
            conseq (λ s h. (drop_gain b r.policy (rejected_decision t) false s h.0, h.1 refl))
              (λ s x. x) (λ ok s q. q)
              (bind (extend_reasoning_context-Raises b r.policy (runtime_feedback feedback ∷ []))
                λ _. record { holds = λ s f. absurd f })

    pub may_correct-Corrected :
        (feedback : String)
        → Triple (Raised g a) (Kept g a d) (may_correct r feedback) (Corrected g a d)
    unfolding may_correct timed_check
    may_correct-Corrected feedback =
        bind {Q = λ budget s. (t : ℕ) × CheckedEnd b r.policy g a d (rejected_decision t) budget s}
          (bind (now-Ledger b r.policy r.world) λ t.
            conseq (λ s h. h) (λ s x. x) (λ budget s q. (t, q))
              (checked-CheckedEnd b r.policy (rejected_decision t)))
          λ budget. bind read_session λ s.
            branch
              (leb s.lifecycle.budget.max_rejected_decisions s.lifecycle.rejected_decision_count)
              (λ _. pure λ s (e, (t, h)).
                drop_gain b r.policy (rejected_decision t) (is_allowed budget) s h.0)
              (λ _. record { holds = λ s (e, (t, h)). (extended t feedback budget).holds s h })

    pub correct_tool-Corrected :
        (kind : AgentDecisionType) (call : Option AgentToolCall)
        → Triple (Raised g a) (Kept g a d) (correct_tool r kind call) (Corrected g a d)
    unfolding correct_tool
    correct_tool-Corrected AgentDecisionType.tool_call (some call) =
        branch (check_tool r.policy call.tool_name).allowed (λ _. pure λ s h. h)
          (λ _. may_correct-Corrected (tool_not_available_feedback r call.tool_name))
    correct_tool-Corrected AgentDecisionType.tool_call none = pure λ s h. h
    correct_tool-Corrected AgentDecisionType.final call = pure λ s h. h
    correct_tool-Corrected AgentDecisionType.delegate call = pure λ s h. h
    correct_tool-Corrected AgentDecisionType.need_input call = pure λ s h. h
    correct_tool-Corrected AgentDecisionType.fail call = pure λ s h. h

    pub decided-Kept :
        (v : AgentDecision) → Triple (Raised g a) (Kept g a d) (decided v) (λ w. Kept g a (some w))
    decided-Kept v = record {
      holds = λ s h. record {
        within = h.within;
        same_budget = h.same_budget;
        paid = h.paid;
        attempts = h.attempts;
        last = refl;
        permitted = h.permitted;
      };
    }

    pub set_closed-Kept : Triple (Raised g a) (Kept g a d) set_closed (λ _. Kept g a d)
    set_closed-Kept = record { holds = λ s h. set_parts b r.policy s true s.reasoning_context h }
