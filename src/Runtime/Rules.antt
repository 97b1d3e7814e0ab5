-- ===== src/Runtime/Rules.antt =====
-- The steps of server/src/agentic/agents/runtime that call the lifecycle, and the ledger.
use juris_ai.Base.{◌++◌, not, ℕ, Bool, true, false, Option, List, arith}
use juris_ai.Lifecycle.Budget.{AgentExecutionBudget, BudgetCheckResult, is_allowed}
use juris_ai.Lifecycle.Operations.{Call}
use juris_ai.Runtime.Decisions.{AgentDecision}
use juris_ai.Runtime.Guards.{AgentPolicy}
use juris_ai.Runtime.Content.{RetrievedContent}
use juris_ai.Runtime.Session.{
  Session, M, checked, performed, World, now, timed_check, read_clock, ◌>>=◌, ◌>>◌,
}
use juris_ai.Runtime.Handle.{is_running, has_items, extend_reasoning_context}
use juris_ai.Runtime.Reason.{if_allowed}
use juris_ai.Runtime.Triple.{branch_on, conseq, bind, Post-if, Triple}
use juris_ai.Runtime.Ledger.{
  cost, IsPermitted, Credit, gain, Ledger, Balanced, to_Balanced, drop_gain, ask-Ledger,
  checked-Ledger, performed-Ledger,
}

module _ (b : AgentExecutionBudget) (p : AgentPolicy) where
  -- The fields that the ledger does not look at
  pub set_parts :
      {g : Credit} {a : ℕ} {d : Option AgentDecision} (s : Session) (closed : Bool)
      (context : List RetrievedContent)
      → Ledger b p g a d s
      → Ledger b p g a d (record s { closed = closed; reasoning_context = context })
  set_parts s closed context h = record {
    within = h.within;
    same_budget = h.same_budget;
    paid = h.paid;
    attempts = h.attempts;
    last = h.last;
    permitted = h.permitted;
  }

  module _ {g : Credit} {a : ℕ} {d : Option AgentDecision} where
    pub extend_reasoning_context-Ledger :
        (items : List RetrievedContent)
        → Triple
            (Balanced b p g a)
            (Ledger b p g a d)
            (extend_reasoning_context items)
            (λ _. Ledger b p g a d)
    unfolding extend_reasoning_context
    extend_reasoning_context-Ledger items = record {
      holds = λ s h.
          Post-if (Balanced b p g a) (λ _. Ledger b p g a d) s.closed _ _ (to_Balanced b p s h)
            (Post-if (Balanced b p g a) (λ _. Ledger b p g a d)
              (not (is_running s.lifecycle.status)) _ _ (to_Balanced b p s h)
              (Post-if (Balanced b p g a) (λ _. Ledger b p g a d) (has_items items) _ _
                (set_parts s s.closed (s.reasoning_context ++ items) h) h));
    }

    -- A call whose credit is given up
    pub checked_then :
        {A : Type 0} {Q : A → Session → Type 0} {f : BudgetCheckResult → M A} (c : Call)
        → ((budget : BudgetCheckResult) → Triple (Balanced b p g a) (Ledger b p g a d) (f budget) Q)
        → Triple (Balanced b p g a) (Ledger b p g a d) (checked c >>= f) Q
    checked_then c h =
        bind (checked-Ledger b p c)
          λ budget. conseq (drop_gain b p c (is_allowed budget)) (λ s x. x) (λ r s q. q) (h budget)

    pub performed_then :
        {A : Type 0} {Q : A → Session → Type 0} {m : M A} (c : Call)
        → Triple (Balanced b p g a) (Ledger b p g a d) m Q
        → Triple (Balanced b p g a) (Ledger b p g a d) (performed c >> m) Q
    performed_then c h = bind (performed-Ledger b p c) λ _. h

    pub now-Ledger :
        (w : World) → Triple (Balanced b p g a) (Ledger b p g a d) (now w) (λ _. Ledger b p g a d)
    unfolding now cost IsPermitted
    now-Ledger w = ask-Ledger b p read_clock w.clock tt λ k. omega arith

    -- A check that reads the clock, and what follows each of its answers
    pub timed_then :
        {A : Type 0} {Q : A → Session → Type 0} (w : World) (c : ℕ → Call) {go : M A}
        {denied : BudgetCheckResult → M A}
        → ((t : ℕ) → Triple (Balanced b p g a) (Ledger b p (gain (c t) true g) a d) go Q)
        → ((budget : BudgetCheckResult)
            → Triple (Balanced b p g a) (Ledger b p g a d) (denied budget) Q)
        → Triple
            (Balanced b p g a)
            (Ledger b p g a d)
            (timed_check w c >>= λ budget. if_allowed budget go (denied budget))
            Q
    unfolding timed_check
    timed_then w c {go = go} {denied = denied} allowed_triple denied_triple = record {
      holds = λ s h.
          (bind (now-Ledger w) λ t. bind (checked-Ledger b p (c t)) λ budget.
              branch_on (λ ok. Ledger b p (gain (c t) ok g) a d) (is_allowed budget)
                (allowed_triple t)
                (conseq (drop_gain b p (c t) false) (λ s x. x) (λ r s q. q)
                  (denied_triple budget))).holds
            s h;
    }

    -- Credit that only the precondition needs
    pub with_gain :
        {A : Type 0} {Q : A → Session → Type 0} {m : M A} (c : Call)
        → Triple (Balanced b p (gain c true g) a) (Ledger b p (gain c true g) a d) m Q
        → Triple (Balanced b p g a) (Ledger b p (gain c true g) a d) m Q
    with_gain c t = conseq (λ s h. h) (λ s x. drop_gain b p c true s x) (λ r s q. q) t

    pub without_gain :
        {A : Type 0} {Q : A → Session → Type 0} {m : M A} (c : Call)
        → Triple (Balanced b p g a) (Ledger b p g a d) m Q
        → Triple (Balanced b p g a) (Ledger b p (gain c true g) a d) m Q
    without_gain c t = conseq (drop_gain b p c true) (λ s x. x) (λ r s q. q) t
