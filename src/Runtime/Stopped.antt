-- ===== src/Runtime/Stopped.antt =====
-- Denied checks of the lifecycle, for server/src/agentic/agents/runtime/execution.py, and the
-- handle of an execution that has ended.
use juris_ai.Base.{ℕ, false, not, ◌≡◌, refl, ap, Option, List}
use juris_ai.Lifecycle.Budget.{AgentExecutionBudget, BudgetCheckResult, is_allowed}
use juris_ai.Lifecycle.Operations.{Call, run_call, returned, nothing, raised}
use juris_ai.Lifecycle.Invariant.{run_call-IsStopped}
use juris_ai.Runtime.Decisions.{AgentDecision}
use juris_ai.Runtime.Guards.{AgentPolicy}
use juris_ai.Runtime.Content.{RetrievedContent}
use juris_ai.Runtime.Session.{Session, done, raises, exception, settled, checked}
use juris_ai.Runtime.Handle.{is_running, extend_reasoning_context}
use juris_ai.Runtime.Triple.{Post, Triple, Post-if, Post-if_true}
use juris_ai.Runtime.Ledger.{Credit, gain, Ledger, Balanced, to_Balanced, checked-Ledger}

abbrev pub HasEnded : Session → Type 0
HasEnded s = is_running s.lifecycle.status ≡ false

-- What is left by a check: if it was denied, the execution has ended.
abbrev pub CheckedEnd :
    AgentExecutionBudget
    → AgentPolicy
    → Credit
    → ℕ
    → Option AgentDecision
    → Call
    → BudgetCheckResult
    → Session
    → Type 0
CheckedEnd b p g a d c budget s =
    Ledger b p (gain c (is_allowed budget) g) a d s × (is_allowed budget ≡ false → HasEnded s)

module _ (b : AgentExecutionBudget) (p : AgentPolicy) {g : Credit} {a : ℕ}
    {d : Option AgentDecision} where
  pub checked-CheckedEnd :
      (c : Call) → Triple (Balanced b p g a) (Ledger b p g a d) (checked c) (CheckedEnd b p g a d c)
  unfolding checked
  checked-CheckedEnd c = record {
    holds = λ s h. with_status s (run_call c s.lifecycle).0 refl ((checked-Ledger b p c).holds s h);
  }
    where
      with_status :
          (s : Session) (o : juris_ai.Lifecycle.Operations.Outcome)
          → (run_call c s.lifecycle).0 ≡ o
          → Post
              (Balanced b p g a)
              (λ budget. Ledger b p (gain c (is_allowed budget) g) a d)
              (
                settled done (raises (exception "AttributeError" "")) o,
                record s { lifecycle = (run_call c s.lifecycle).1 },
              )
          → Post (Balanced b p g a) (CheckedEnd b p g a d c) (
            settled done (raises (exception "AttributeError" "")) o,
            record s { lifecycle = (run_call c s.lifecycle).1 },
          )
      with_status s (returned budget) e h =
          (h, λ denied. ap is_running (run_call-IsStopped c s.lifecycle budget e denied).stopped)
      with_status s nothing e h = h
      with_status s raised e h = h

  pub extend_reasoning_context-Raises :
      (items : List RetrievedContent)
      → Triple
          (Balanced b p g a)
          (λ s. Ledger b p g a d s × HasEnded s)
          (extend_reasoning_context items)
          (λ _ _. ⊥)
  unfolding extend_reasoning_context
  extend_reasoning_context-Raises items = record {
    holds = λ s (h, ended).
        Post-if (Balanced b p g a) (λ _ _. ⊥) s.closed _ _ (to_Balanced b p s h)
          (Post-if_true (Balanced b p g a) (λ _ _. ⊥) (not (is_running s.lifecycle.status)) _ _
            (ap not ended) (to_Balanced b p s h));
  }
