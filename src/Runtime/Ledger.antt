-- ===== src/Runtime/Ledger.antt =====
-- The ledger of an execution in server/src/agentic/agents/runtime: what its journal says of the
-- lifecycle's budget and of the agent's policy.
use juris_ai.Base.{
  subst, ℕ, ◌+◌, ◌≤◌, String, Bool, true, false, ◌≡◌, refl, ◌∙◌, Option, [], ◌∷◌, arith, ◌&&◌,
  if◌then◌else◌, elem,
}
use juris_ai.Lifecycle.Budget.{AgentExecutionBudget, is_allowed}
use juris_ai.Lifecycle.Operations.{Call, run_call, returned, nothing, raised}
use juris_ai.Lifecycle.Invariant.{IsWithin, run_call-IsWithin}
use juris_ai.Lifecycle.Traces.{
  limit, counter-le-limit, Work, iterations, tool_calls, agent_hops, asks_for, counter, granted,
  counter-run_call, budget-run_call,
}
use juris_ai.Runtime.Decisions.{AgentDecision}
use juris_ai.Runtime.Guards.{AgentPolicy, is_gated}
use juris_ai.Runtime.Session.{
  Effect, read_clock, reasoned, ran_tool, delegated, Journal, Session, Runtime, M, ask, settled,
  done, raises, checked, performed,
}
use juris_ai.Runtime.Triple.{Post, Triple}

-- How much of each kind of budgeted work an effect is
unfoldable pub cost : Effect → Work → ℕ
cost (reasoned _ _) iterations = 1
cost (ran_tool _ _) tool_calls = 1
cost (delegated _ _) agent_hops = 1
cost _ _ = 0

unfoldable pub spent : Work → Journal → ℕ
unfolding cost
spent w [] = 0
spent w (e ∷ j) = cost e w + spent w j

-- A tool that is run without a human is one of the policy's, and needs no approval.
abbrev pub MayRun : AgentPolicy → String → Type 0
MayRun p name = (elem name p.allowed_tools ≡ true) × (is_gated name ≡ false)

abbrev pub MayDelegate : AgentPolicy → String → Type 0
MayDelegate p target = (p.allow_delegation ≡ true) × (elem target p.allowed_agents ≡ true)

unfoldable pub IsPermitted : AgentPolicy → Effect → Type 0
IsPermitted p (ran_tool name _) = MayRun p name
IsPermitted p (delegated target _) = MayDelegate p target
IsPermitted p _ = Unit

unfoldable pub AllPermitted : AgentPolicy → Journal → Type 0
unfolding IsPermitted
AllPermitted p [] = Unit
AllPermitted p (e ∷ j) = IsPermitted p e × AllPermitted p j

-- Work that was granted and not yet done
abbrev pub Credit : Type 0
Credit = Work → ℕ

abbrev pub gain : Call → Bool → Credit → Credit
gain c ok g w = g w + (if asks_for w c && ok then 1 else 0)

module _ (b : AgentExecutionBudget) (p : AgentPolicy) where
  -- At least `a` attempts were made, and `d` is the last decision.
  pub record Ledger (g : Credit) (a : ℕ) (d : Option AgentDecision) (s : Session) : Type 0 where
    pub within : IsWithin s.lifecycle
    pub same_budget : s.lifecycle.budget ≡ b
    pub paid : (w : Work) → g w + spent w s.journal ≤ counter w s.lifecycle
    pub attempts : a ≤ s.attempt_count
    pub last : s.last_decision ≡ d
    pub permitted : AllPermitted p s.journal

  -- The same, whatever the last decision is
  abbrev pub Balanced : Credit → ℕ → Session → Type 0
  Balanced g a s = Ledger g a s.last_decision s

  pub to_Balanced :
      {g : Credit} {a : ℕ} {d : Option AgentDecision} (s : Session)
      → Ledger g a d s
      → Balanced g a s
  to_Balanced s h = record {
    within = h.within;
    same_budget = h.same_budget;
    paid = h.paid;
    attempts = h.attempts;
    last = refl;
    permitted = h.permitted;
  }

  -- What was done and what may still be done is within the budget.
  pub Ledger-le-limit :
      {g : Credit} {a : ℕ} {d : Option AgentDecision} (w : Work) (s : Session)
      → Ledger g a d s
      → g w + spent w s.journal ≤ limit w b
  Ledger-le-limit w s h =
      let bound =
        subst (λ x. counter w s.lifecycle ≤ limit w x) h.same_budget
          (counter-le-limit w s.lifecycle h.within) in
      omega (arith, bound, h.paid w)

  -- Credit may be given up.
  pub forgo :
      {g g' : Credit} {a : ℕ} {d : Option AgentDecision}
      → ((w : Work) → g w ≤ g' w)
      → (s : Session) → Ledger g' a d s
      → Ledger g a d s
  forgo le s h = record {
    within = h.within;
    same_budget = h.same_budget;
    paid = λ w. omega (arith, le w, h.paid w);
    attempts = h.attempts;
    last = h.last;
    permitted = h.permitted;
  }

  pub drop_gain :
      {g : Credit} {a : ℕ} {d : Option AgentDecision} (c : Call) (ok : Bool) (s : Session)
      → Ledger (gain c ok g) a d s
      → Ledger g a d s
  drop_gain {g = g} c ok = forgo λ w. ground arith

  -- An effect that is permitted uses up the credit for it.
  pub ask-Ledger :
      {A : Type 0} {g g' : Credit} {a : ℕ} {d : Option AgentDecision} (e : Effect)
      (answer : Journal → A)
      → IsPermitted p e
      → ((w : Work) → g w + cost e w ≤ g' w)
      → Triple (Balanced g a) (Ledger g' a d) (ask e answer) (λ _. Ledger g a d)
  unfolding spent AllPermitted
  ask-Ledger e answer ok le = record {
    holds = λ s h. record {
      within = h.within;
      same_budget = h.same_budget;
      paid = λ w. omega (arith, le w, h.paid w);
      attempts = h.attempts;
      last = h.last;
      permitted = (ok, h.permitted);
    };
  }

  -- The session after a call of the lifecycle
  called :
      {g : Credit} {a : ℕ} {d : Option AgentDecision} (c : Call) (s : Session)
      → Ledger g a d s
      → Ledger
          (gain c (granted (run_call c s.lifecycle).0) g)
          a
          d
          (record s { lifecycle = (run_call c s.lifecycle).1 })
  called {g = g} c s h = record {
    within = run_call-IsWithin c s.lifecycle h.within;
    same_budget = budget-run_call c s.lifecycle ∙ h.same_budget;
    paid = λ w. omega (arith, counter-run_call w c s.lifecycle, h.paid w);
    attempts = h.attempts;
    last = h.last;
    permitted = h.permitted;
  }

  checked_outcome :
      (g : Credit) {a : ℕ} {d : Option AgentDecision} (c : Call)
      (o : juris_ai.Lifecycle.Operations.Outcome) (t : Session)
      → Ledger (gain c (granted o) g) a d t
      → Post
          (Balanced g a)
          (λ budget. Ledger (gain c (is_allowed budget) g) a d)
          (settled done (raises (juris_ai.Runtime.Session.exception "AttributeError" "")) o, t)
  checked_outcome g c (returned r) t h = h
  checked_outcome g c nothing t h = to_Balanced t (drop_gain c false t h)
  checked_outcome g c raised t h = to_Balanced t (drop_gain c false t h)

  -- A check that is allowed gives credit for what it allows.
  pub checked-Ledger :
      {g : Credit} {a : ℕ} {d : Option AgentDecision} (c : Call)
      → Triple
          (Balanced g a)
          (Ledger g a d)
          (checked c)
          (λ budget. Ledger (gain c (is_allowed budget) g) a d)
  unfolding checked
  checked-Ledger {g = g} c = record {
    holds = λ s h. checked_outcome g c (run_call c s.lifecycle).0 _ (called c s h);
  }

  performed_outcome :
      (g : Credit) {a : ℕ} {d : Option AgentDecision} (c : Call)
      (o : juris_ai.Lifecycle.Operations.Outcome) (t : Session)
      → Ledger (gain c (granted o) g) a d t
      → Post (Balanced g a) (λ _. Ledger g a d) (settled (λ _. done tt) (done tt) o, t)
  performed_outcome g c (returned r) t h = drop_gain c (is_allowed r) t h
  performed_outcome g c nothing t h = drop_gain c false t h
  performed_outcome g c raised t h = to_Balanced t (drop_gain c false t h)

  pub performed-Ledger :
      {g : Credit} {a : ℕ} {d : Option AgentDecision} (c : Call)
      → Triple (Balanced g a) (Ledger g a d) (performed c) (λ _. Ledger g a d)
  unfolding performed
  performed-Ledger {g = g} c = record {
    holds = λ s h. performed_outcome g c (run_call c s.lifecycle).0 _ (called c s h);
  }
