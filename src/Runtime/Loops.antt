-- ===== src/Runtime/Loops.antt =====
-- The rounds of the loop of server/src/agentic/agents/runtime/continuation.py that go on, for tool
-- calls and delegations.
use juris_ai.Base.{ℕ, String, true, false, not, ◌≡◌, refl, sym, ◌∙◌, Option, none, some, List, ◌==◌}
use juris_ai.Lifecycle.Budget.{AgentExecutionBudget}
use juris_ai.Lifecycle.Operations.{step}
use juris_ai.Runtime.Decisions.{AgentDecision}
use juris_ai.Runtime.Content.{ToolResult}
use juris_ai.Runtime.Session.{
  AgentActionRequest, AgentExecutionResult, Runtime, Session, M, timed_check, ◌>>=◌,
}
use juris_ai.Runtime.Handle.{is_send, terminal_result, result_of, text_or}
use juris_ai.Runtime.Continuation.{
  Next, returns, goes_on, continuation_of, leave_with, leave_terminal, call_named,
  continue_tool_call, continue_delegation, is_agent_call,
}
use juris_ai.Runtime.Triple.{Triple, bind, pure, branch, conseq}
use juris_ai.Runtime.Ledger.{MayRun, MayDelegate, Credit, gain, to_Balanced, drop_gain}
use juris_ai.Runtime.Rules.{timed_then}
use juris_ai.Runtime.Proposals.{Proposed, Fits}
use juris_ai.Runtime.Corrected.{Kept, Raised}
use juris_ai.Runtime.Ran.{delegate_action-Keeps}
use juris_ai.Runtime.Reason.{if_allowed}
use juris_ai.Runtime.Rounds.{
  IsSettled, NotFinal, NextFits, after_tool-NextFits, after_delegation-NextFits, run_action-Keeps,
}

module _ (b : AgentExecutionBudget) (r : Runtime) where
  -- A round that goes on has taken a step.
  abbrev pub RoundFits : Credit → ℕ → Next → Session → Type 0
  RoundFits g a (returns t) s = Raised b r g a s × IsSettled b r t
  RoundFits g a (goes_on loop) s = (t : ℕ) × Fits b r (gain (step t) true g) a loop.0 s

  takes_step :
      (g : Credit) (a : ℕ) (t : ℕ) (next : Next) (s : Session)
      → NextFits b r (gain (step t) true g) a next s
      → RoundFits g a next s
  takes_step g a t (returns x) s h = (drop_gain b r.policy (step t) true s h.0, h.1)
  takes_step g a t (goes_on loop) s h = (t, h)

  pub leave_with-RoundFits :
      {g : Credit} {a : ℕ} (result : AgentExecutionResult) (results : List ToolResult)
      → NotFinal result.decision
      → Triple (Raised b r g a) (Raised b r g a) (leave_with r result results) (RoundFits g a)
  unfolding continuation_of
  leave_with-RoundFits result results other =
      pure λ s h. (h, λ d text e f t n. absurd (other d e f))

  leave_terminal-RoundFits :
      {g : Credit} {a : ℕ} {d : Option AgentDecision} (results : List ToolResult)
      → NotFinal d
      → Triple (Raised b r g a) (Kept b r g a d) (leave_terminal r results) (RoundFits g a)
  unfolding leave_terminal terminal_result result_of continuation_of
  leave_terminal-RoundFits results other = record {
    holds =
        λ s h. (to_Balanced b r.policy s h, λ d text e f t n. absurd (other d (sym h.last ∙ e) f));
  }

  stepped :
      {g : Credit} {a : ℕ} {d : Option AgentDecision} {m : M Next} (results : List ToolResult)
      → NotFinal d
      → ((g' : Credit) → Triple (Raised b r g' a) (Kept b r g' a d) m (NextFits b r g' a))
      → Triple
          (Raised b r g a)
          (Kept b r g a d)
          (timed_check r.world step >>= λ budget. if_allowed budget m (leave_terminal r results))
          (RoundFits g a)
  stepped {g = g} {a = a} results other h =
      timed_then b r.policy r.world step
        (λ t.
          conseq (λ s l. l) (λ s x. drop_gain b r.policy (step t) true s x) (takes_step g a t)
            (h (gain (step t) true g)))
        (λ _. leave_terminal-RoundFits results other)

  module _ {g : Credit} {a : ℕ} (result : AgentExecutionResult) (results : List ToolResult)
      (other : NotFinal result.decision) where
    pub tool_call-RoundFits :
        (x : Option AgentActionRequest)
        → Proposed r.policy x
        → Triple
            (Raised b r g a)
            (Kept b r g a result.decision)
            (continue_tool_call r result results x)
            (RoundFits g a)
    unfolding continue_tool_call call_named
    tool_call-RoundFits none ok =
        conseq (to_Balanced b r.policy) (λ s x. x) (λ v s q. q)
          (leave_with-RoundFits result results other)
    tool_call-RoundFits (some x) ok = named x.tool_name ok.runs
      where
        named :
            (name : Option String)
            → ((n : String) → name ≡ some n → is_send x.action_type ≡ false → MayRun r.policy n)
            → Triple
                (Raised b r g a)
                (Kept b r g a result.decision)
                (call_named r result results x name)
                (RoundFits g a)
        named none may =
            conseq (to_Balanced b r.policy) (λ s x. x) (λ v s q. q)
              (leave_with-RoundFits result results other)
        named (some name) may = stepped results other λ g'.
            bind (run_action-Keeps b r x name (may name refl))
              λ t. after_tool-NextFits b r other t results

    pub delegation-RoundFits :
        (x : Option AgentActionRequest)
        → Proposed r.policy x
        → Triple
            (Raised b r g a)
            (Kept b r g a result.decision)
            (continue_delegation r result results x)
            (RoundFits g a)
    unfolding continue_delegation
    delegation-RoundFits none ok =
        conseq (to_Balanced b r.policy) (λ s x. x) (λ v s q. q)
          (leave_with-RoundFits result results other)
    delegation-RoundFits (some x) ok =
        branch (not (is_agent_call x.action_type))
          (λ _.
            conseq (to_Balanced b r.policy) (λ s x. x) (λ v s q. q)
              (leave_with-RoundFits result results other))
          (λ _. stepped results other λ g'.
            bind
              (delegate_action-Keeps b r x (text_or "" x.target_agent_id)
                (named x.target_agent_id ok.delegates))
              λ answer.
                after_delegation-NextFits b r other (text_or "" x.target_agent_id) answer results)
      where
        named :
            (target : Option String)
            → ((n : String) → target ≡ some n → MayDelegate r.policy n)
            → not (text_or "" target == "") ≡ true
            → MayDelegate r.policy (text_or "" target)
        named none may e = cc e
        named (some n) may e = may n refl
