-- ===== src/Runtime/Turns.antt =====
-- A whole turn of an agent, as AgentExecutionNode of server/src/agentic/execution/graph/nodes.py and
-- DelegatedAgentRunner of agents/runtime/delegation.py run it.
use juris_ai.Base.{
  String, false, ◌==◌, ℕ, suc, ◌≤◌, ◌≡◌, ◌≢◌, refl, ap, Option, none, some, List, [], arith, subst,
}
use juris_ai.Lifecycle.Budget.{AgentExecutionBudget}
use juris_ai.Lifecycle.Invariant.{new_state-IsWithin}
use juris_ai.Lifecycle.Traces.{Work, limit}
use juris_ai.Runtime.Decisions.{AgentDecision, final}
use juris_ai.Runtime.Content.{RetrievedContent}
use juris_ai.Runtime.Session.{
  AgentContinuationResult, AgentExecutionResult, Runtime, Session, Outcome, done, raises, paused,
  exhausted,
}
use juris_ai.Runtime.Gate.{seed_retrieval_top_k}
use juris_ai.Runtime.Continuation.{execute, seed_context, seed_evidence, run_turn, start}
use juris_ai.Runtime.Triple.{Post, Triple, bind, pure}
use juris_ai.Runtime.Ledger.{spent, AllPermitted, Credit, Ledger-le-limit}
use juris_ai.Runtime.Proposals.{Fits}
use juris_ai.Runtime.Corrected.{Raised}
use juris_ai.Runtime.Slices.{anyhow, reason-Fits}
use juris_ai.Runtime.Gathered.{record_reasoning_context-Keeps}
use juris_ai.Runtime.Ran.{Balances, balances, retrieve_evidence-Balances}
use juris_ai.Runtime.Rounds.{IsAnswerSettled, IsSettled}
use juris_ai.Runtime.Finals.{loop-IsSettled}

module _ (b : AgentExecutionBudget) (r : Runtime) where
  module _ {g : Credit} {a : ℕ} where
    seed_context-Balances :
        (found : Option (List RetrievedContent)) → Balances b r g a (seed_context r found)
    unfolding seed_context
    seed_context-Balances none = pure λ s h. h
    seed_context-Balances (some context) =
        bind (balances b r λ d. record_reasoning_context-Keeps b r context) λ kept. pure λ s h. h

    execute-IsSettled :
        (result : AgentExecutionResult)
        → Triple
            (Raised b r g a)
            (Fits b r g a result)
            (execute r result)
            (λ t s. Raised b r g a s × IsSettled b r t)
    unfolding execute
    execute-IsSettled result = record {
      holds = λ s h.
          let same = ap (λ x. x.max_total_steps) h.0.same_budget in
          (loop-IsSettled b r (suc s.lifecycle.budget.max_total_steps) result []
              (omega (arith, same))).holds
            s h;
    }

    turn-IsSettled :
        Triple
          (Raised b r g a)
          (Raised b r g a)
          (run_turn r)
          (λ t s. Raised b r g a s × IsSettled b r t)
    unfolding run_turn seed_evidence
    turn-IsSettled =
        bind (bind (retrieve_evidence-Balances b r seed_retrieval_top_k) seed_context-Balances)
          λ _. bind (anyhow b r λ d. reason-Fits b r) λ result. execute-IsSettled result

  start-Raised :
      (t : ℕ) (context : List RetrievedContent) → Raised b r (λ _. 0) 0 (start b t context)
  unfolding start spent AllPermitted
  start-Raised t context = record {
    within = new_state-IsWithin b t;
    same_budget = refl;
    paid = λ w. omega arith;
    attempts = omega arith;
    last = refl;
    permitted = tt;
  }

  -- What holds however a turn ends
  Ended :
      (x : Outcome AgentContinuationResult × Session)
      → Post (Raised b r (λ _. 0) 0) (λ t s. Raised b r (λ _. 0) 0 s × IsSettled b r t) x
      → Raised b r (λ _. 0) 0 x.1
  Ended (done t, s) h = h.0
  Ended (raises e, s) h = h
  Ended (paused, s) h = h
  Ended (exhausted, s) h = absurd h

  ended :
      (t : ℕ) (context : List RetrievedContent)
      → Raised b r (λ _. 0) 0 (run_turn r (start b t context)).1
  ended t context =
      Ended (run_turn r (start b t context))
        (turn-IsSettled.holds (start b t context) (start-Raised t context))

  has_fuel :
      (x : Outcome AgentContinuationResult × Session)
      → Post (Raised b r (λ _. 0) 0) (λ t s. Raised b r (λ _. 0) 0 s × IsSettled b r t) x
      → x.0 ≢ exhausted
  has_fuel (exhausted, s) h e = h
  has_fuel (done t, s) h e = cc
  has_fuel (raises x, s) h e = cc
  has_fuel (paused, s) h e = cc

  -- A turn in a new execution never runs out of the fuel of the model: the corrections of rejected
  -- decisions, the retries of failed reasoning calls and the rounds of the continuation are bounded
  -- by the budget and the number of attempts.
  pub run_turn-returns :
      (t : ℕ) (context : List RetrievedContent) → (run_turn r (start b t context)).0 ≢ exhausted
  run_turn-returns t context =
      has_fuel (run_turn r (start b t context))
        (turn-IsSettled.holds (start b t context) (start-Raised t context))

  -- However a turn in a new execution ends, the calls of the model, the tool runs and the
  -- delegations that it made are each at most the limit that the budget sets for them.
  pub spent-run_turn_le :
      (w : Work) (t : ℕ) (context : List RetrievedContent)
      → spent w (run_turn r (start b t context)).1.journal ≤ limit w b
  spent-run_turn_le w t context =
      let bound = Ledger-le-limit b r.policy w _ (ended t context) in omega (arith, bound)

  -- However a turn in a new execution ends (it returns, raises or pauses), every tool that it ran
  -- without a person's approval is one that the policy of the agent allows and is not a gated one,
  -- and every agent that it delegated to is one that the policy allows.
  pub run_turn-AllPermitted :
      (t : ℕ) (context : List RetrievedContent)
      → AllPermitted r.policy (run_turn r (start b t context)).1.journal
  run_turn-AllPermitted t context = (ended t context).permitted

  Post-IsSettled :
      (x : Outcome AgentContinuationResult × Session) (result : AgentContinuationResult)
      → Post (Raised b r (λ _. 0) 0) (λ t s. Raised b r (λ _. 0) 0 s × IsSettled b r t) x
      → x.0 ≡ done result
      → IsSettled b r result
  Post-IsSettled (done t, s) result h e =
      let same : t ≡ result = cc in subst (IsSettled b r) same h.1
  Post-IsSettled (raises x, s) result h e = cc
  Post-IsSettled (paused, s) result h e = cc
  Post-IsSettled (exhausted, s) result h e = absurd h

  -- If a turn in a new execution returns a result whose decision is FINAL with a text that is not
  -- empty, then the result carries a summary, and either this text was scored by the answer
  -- evaluator, which could score it, and the scores satisfy the quality policy, or the status is
  -- partial, the summary says unverified and the response is one of the two fixed messages, cut to
  -- the length that the budget allows.
  pub run_turn-IsAnswerSettled :
      (t : ℕ) (context : List RetrievedContent) (result : AgentContinuationResult)
      (d : AgentDecision) (text : String)
      → (run_turn r (start b t context)).0 ≡ done result
      → result.result.decision ≡ some d
      → d.decision_type ≡ final
      → d.final_response ≡ some text
      → (text == "") ≡ false
      → IsAnswerSettled b r result text
  run_turn-IsAnswerSettled t context result d text e =
      Post-IsSettled (run_turn r (start b t context)) result
        (turn-IsSettled.holds (start b t context) (start-Raised t context)) e d text
