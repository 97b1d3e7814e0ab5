-- ===== src/Runtime/Finals.antt =====
-- The loop of server/src/agentic/agents/runtime/continuation.py: its fuel, and the FINAL answers
-- that it returns.
use juris_ai.Base.{
  arith, zero, suc, ◌+◌, ◌<◌, ap, ℕ, String, true, false, ◌≡◌, refl, subst, inl, inr, Option, none,
  some, List, ◌==◌,
}
use juris_ai.Lifecycle.Budget.{AgentExecutionBudget}
use juris_ai.Lifecycle.Operations.{step}
use juris_ai.Runtime.Decisions.{AgentDecision, AgentDecisionType, final}
use juris_ai.Runtime.Content.{ToolResult}
use juris_ai.Runtime.Session.{AgentExecutionResult, Runtime, Session, ◌>>=◌}
use juris_ai.Runtime.Continuation.{
  Next, returns, goes_on, continuation_of, after_gate, continue_decision, continue_round,
  continue_loop, go_on,
}
use juris_ai.Runtime.Triple.{Triple, bind, pure, branch, conseq}
use juris_ai.Lifecycle.Traces.{steps}
use juris_ai.Runtime.Ledger.{Ledger-le-limit, Credit, gain, to_Balanced, drop_gain}
use juris_ai.Runtime.Proposals.{Proposed, Fits}
use juris_ai.Runtime.Corrected.{Kept, Raised}
use juris_ai.Runtime.Gate.{Gated, gate_final}
use juris_ai.Runtime.Gated.{Judged}
use juris_ai.Runtime.Judged.{gate_answer-Judged}
use juris_ai.Runtime.Rounds.{IsSettled}
use juris_ai.Runtime.Answers.{IsVerified}
use juris_ai.Runtime.Loops.{
  RoundFits, leave_with-RoundFits, tool_call-RoundFits, delegation-RoundFits,
}

module _ (b : AgentExecutionBudget) (r : Runtime) where
  -- What the gate is asked, and what it says when there is nothing to ask
  abbrev Asked : Credit → ℕ → String → Gated → Session → Type 0
  Asked g a answer (none, none) s = Raised b r g a s × ((answer == "") ≡ true)
  Asked g a answer gated s = Judged b r answer g a gated s

  asks :
      (g : Credit) (a : ℕ) (answer : String) (gated : Gated) (s : Session)
      → Judged b r answer g a gated s
      → Asked g a answer gated s
  asks g a answer (none, none) s h = absurd h.1
  asks g a answer (none, some summary) s h = h
  asks g a answer (some gated, none) s h = h
  asks g a answer (some gated, some summary) s h = h

  module _ {g : Credit} {a : ℕ} (result : AgentExecutionResult) (results : List ToolResult)
      (d : AgentDecision) (same : result.decision ≡ some d) where
    after_gate-RoundFits :
        (answer : String) (gated : Gated)
        → d.final_response ≡ some answer
        → Triple
            (Raised b r g a)
            (Judged b r answer g a gated)
            (after_gate r result results gated)
            (RoundFits b r g a)
    unfolding after_gate continuation_of
    after_gate-RoundFits answer (none, none) given = record { holds = λ s h. absurd h.1 }
    after_gate-RoundFits answer (none, some summary) given = pure λ s h. (
      h.0,
      λ d' text e f t n.
          let same_text : answer ≡ text = cc in
          (summary, refl, inl (subst (λ x. IsVerified r x summary) same_text h.1)),
    )
    after_gate-RoundFits answer (some gated, some summary) given =
        pure λ s h. (h.0, λ d' text e f t n. (summary, refl, inr h.1))
    after_gate-RoundFits answer (some gated, none) given = pure λ s h. h

    -- A result whose decision has no text is returned as it is.
    as_it_is :
        ((text : String) → d.final_response ≡ some text → (text == "") ≡ false → ⊥)
        → Triple
            (Raised b r g a)
            (Raised b r g a)
            (after_gate r result results (none, none))
            (RoundFits b r g a)
    unfolding after_gate continuation_of
    as_it_is no_text = pure λ s h. (
      h,
      λ d' text e f t n.
          let given : d.final_response ≡ some text = cc in absurd (no_text text given n),
    )

    answered :
        (answer : String) (gated : Gated)
        → d.final_response ≡ some answer
        → Triple
            (Raised b r g a)
            (Asked g a answer gated)
            (after_gate r result results gated)
            (RoundFits b r g a)
    answered answer (none, none) given = record {
      holds = λ s h.
          (as_it_is λ text e n.
              let same_text : answer ≡ text = cc in
              let empty = h.1 in cc (ap (λ x. x == "") same_text)).holds
            s h.0;
    }
    answered answer (none, some summary) given =
        after_gate-RoundFits answer (none, some summary) given
    answered answer (some gated, none) given = after_gate-RoundFits answer (some gated, none) given
    answered answer (some gated, some summary) given =
        after_gate-RoundFits answer (some gated, some summary) given

    final-RoundFits :
        (given : Option String)
        → d.final_response ≡ given
        → Triple
            (Raised b r g a)
            (Raised b r g a)
            (gate_final r given >>= λ gated. after_gate r result results gated)
            (RoundFits b r g a)
    unfolding gate_final
    final-RoundFits none e = record { holds = λ s h. (as_it_is λ text q n. cc).holds s h }
    final-RoundFits (some answer) e =
        bind {Q = Asked g a answer}
          (branch (answer == "") (λ empty. pure λ s h. (h, empty))
            (λ _. conseq (λ s h. h) (λ s x. x) (asks g a answer) (gate_answer-Judged b r answer)))
          λ gated. answered answer gated e

    decision-RoundFits :
        (kind : AgentDecisionType)
        → d.decision_type ≡ kind
        → Proposed r.policy result.action
        → Triple
            (Raised b r g a)
            (Kept b r g a result.decision)
            (continue_decision r kind d result results)
            (RoundFits b r g a)
    unfolding continue_decision continuation_of
    decision-RoundFits final e ok =
        conseq (to_Balanced b r.policy) (λ s x. x) (λ v s q. q)
          (final-RoundFits d.final_response refl)
    decision-RoundFits AgentDecisionType.tool_call e ok =
        tool_call-RoundFits b r result results (λ d' e' f. cc) result.action ok
    decision-RoundFits AgentDecisionType.delegate e ok =
        delegation-RoundFits b r result results (λ d' e' f. cc) result.action ok
    decision-RoundFits AgentDecisionType.need_input e ok =
        pure λ s h. (to_Balanced b r.policy s h, λ d' text e' f t n. cc)
    decision-RoundFits AgentDecisionType.fail e ok =
        pure λ s h. (to_Balanced b r.policy s h, λ d' text e' f t n. cc)

  round-RoundFits :
      {g : Credit} {a : ℕ} (result : AgentExecutionResult) (results : List ToolResult)
      (o : Option AgentDecision)
      → result.decision ≡ o
      → Proposed r.policy result.action
      → Triple
          (Raised b r g a)
          (Kept b r g a result.decision)
          (continue_round r o (result, results))
          (RoundFits b r g a)
  unfolding continue_round
  round-RoundFits result results none same ok =
      conseq (to_Balanced b r.policy) (λ s x. x) (λ v s q. q)
        (leave_with-RoundFits b r result results (λ d e f. cc))
  round-RoundFits result results (some d) same ok =
      decision-RoundFits result results d same d.decision_type refl ok

  -- The loop ends, and what it returns is settled.
  pub loop-IsSettled :
      (n : ℕ) {g : Credit} {a : ℕ} (result : AgentExecutionResult) (results : List ToolResult)
      → b.max_total_steps < n + g steps
      → Triple
          (Raised b r g a)
          (Fits b r g a result)
          (continue_loop r n (result, results))
          (λ t s. Raised b r g a s × IsSettled b r t)
  unfolding continue_loop
  loop-IsSettled zero result results le = record {
    holds = λ s h. absurd (omega (arith, le, Ledger-le-limit b r.policy steps s h.0));
  }
  loop-IsSettled (suc n) {g = g} {a = a} result results le = record {
    holds = λ s h.
        (bind (round-RoundFits result results result.decision refl h.1) (
            went_on λ t res ress.
              loop-IsSettled n {g = gain (step t) true g} res ress (omega (arith, le)))).holds
          s h.0;
  }
    where
      went_on :
          ((t : ℕ) (res : AgentExecutionResult) (ress : List ToolResult)
            → Triple
                (Raised b r (gain (step t) true g) a)
                (Fits b r (gain (step t) true g) a res)
                (continue_loop r n (res, ress))
                (λ x s. Raised b r (gain (step t) true g) a s × IsSettled b r x))
          → (next : Next)
          → Triple
              (Raised b r g a)
              (RoundFits b r g a next)
              (go_on r (continue_loop r n) next)
              (λ t s. Raised b r g a s × IsSettled b r t)
      went_on again (returns t) = pure λ s h. h
      went_on again (goes_on (res, ress)) = record {
        holds = λ s (t, h).
            (conseq (λ s x. x) (λ s x. drop_gain b r.policy (step t) true s x)
                (λ v s q. (drop_gain b r.policy (step t) true s q.0, q.1)) (again t res ress)).holds
              s h;
      }
