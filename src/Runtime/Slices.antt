-- ===== src/Runtime/Slices.antt =====
-- `reason` of server/src/agentic/agents/runtime/execution.py, its retries and the ledger.
use juris_ai.Base.{
  ℕ, zero, suc, ◌+◌, ◌≤◌, ◌<◌, String, Bool, true, not, ◌≡◌, sym, ap, subst, Option, some, arith,
  ◌&&◌, ltb,
}
use mathlib.Core.Bool.{and-eq-true_iff}
use juris_ai.Base.Result.{Result, ok, err}
use juris_ai.Lifecycle.Budget.{AgentExecutionBudget, failed_llm}
use juris_ai.Lifecycle.Operations.{fails}
use juris_ai.Lifecycle.Traces.{rejections}
use juris_ai.Runtime.Decisions.{AgentDecision}
use juris_ai.Runtime.Retry.{delay_seconds, is_retryable}
use juris_ai.Runtime.Session.{
  Exn, exception, reasoning_failure, AgentExecutionResult, read_deadline, slept, Runtime, Session,
  M, ◌>>◌, record_effect,
}
use juris_ai.Runtime.Handle.{failed_result, terminal_result, result_of, is_running}
use juris_ai.Runtime.Reason.{
  give_up, delay_of, delay_raised, can_retry, retry_or_give_up, is_too_late, after_failure,
  count_attempt, attempt_fuel, reason_slice, reason,
}
use juris_ai.Runtime.Triple.{Triple, bind, pure, branch, catch_rule, conseq, read_session, Post-if}
use juris_ai.Runtime.Ledger.{cost, IsPermitted, Credit, to_Balanced, ask-Ledger}
use juris_ai.Runtime.Rules.{performed_then, now-Ledger}
use juris_ai.Runtime.Proposals.{Fits}
use juris_ai.Runtime.Corrected.{Kept, Raised, set_closed-Kept}
use juris_ai.Runtime.Attempts.{attempt-Fits}

module _ (b : AgentExecutionBudget) (r : Runtime) where
  -- A precondition that does not name the last decision
  pub anyhow :
      {A : Type 0} {g : Credit} {a : ℕ} {X : Session → Type 0} {m : M A} {Q : A → Session → Type 0}
      → ((d : Option AgentDecision) → Triple X (Kept b r g a d) m Q)
      → Triple X (Raised b r g a) m Q
  anyhow t = record { holds = λ s h. (t s.last_decision).holds s h }

  can_retry-lt :
      (class : String) (t : Session)
      → can_retry r class t ≡ true
      → t.attempt_count < r.retry_policy.max_attempts
  unfolding can_retry
  can_retry-lt class t e =
      let below =
        ((and-eq-true_iff (is_retryable r.world.is_subclass r.retryable_exceptions class)
            (ltb t.attempt_count r.retry_policy.max_attempts)).0
          e).1 in
      ground (arith, below)

  module _ {g : Credit} {a : ℕ} where
    failed_last-Fits :
        {d : Option AgentDecision} (message : String) (t : Session)
        → Triple
            (Raised b r g a)
            (λ s. (t ≡ s) × Kept b r g a d s)
            (failed_result failed_llm (some message) t.last_decision)
            (Fits b r g a)
    unfolding failed_result result_of
    failed_last-Fits message t = record {
      holds = λ s (e, h).
          (subst (λ x. Kept b r g a x.last_decision s) (sym e) (to_Balanced b r.policy s h), tt);
    }

    give_up-Fits :
        (message : String)
        → Triple (Raised b r g a) (Raised b r g a) (give_up r message) (Fits b r g a)
    unfolding give_up
    give_up-Fits message = anyhow λ d.
        performed_then b r.policy (fails failed_llm) (
          bind (set_closed-Kept b r {d = d}) λ _. bind read_session λ t. failed_last-Fits message t)

    delay_of-Kept :
        {d : Option AgentDecision} (can_retry : Bool) (retry_count : ℕ)
        → Triple
            (Raised b r g a)
            (Kept b r g a d)
            (delay_of r can_retry retry_count)
            (λ _. Kept b r g a d)
    unfolding delay_of
    delay_of-Kept can_retry retry_count =
        branch can_retry (λ _. raised_delay (delay_seconds r.retry_policy retry_count))
          (λ _. pure λ s h. h)
      where
        raised_delay :
            {d : Option AgentDecision} (x : Result String ℕ)
            → Triple (Raised b r g a) (Kept b r g a d) (delay_raised r x) (λ _. Kept b r g a d)
        raised_delay (ok delay) = pure λ s h. h
        raised_delay (err message) = record { holds = λ s h. to_Balanced b r.policy s h }

    slept_again :
        {d : Option AgentDecision} (delay : ℕ) {again : M AgentExecutionResult}
        → Triple (Raised b r g a) (Raised b r g a) again (Fits b r g a)
        → Triple
            (Raised b r g a)
            (Kept b r g a d)
            (record_effect (slept delay) >> again)
            (Fits b r g a)
    unfolding cost IsPermitted
    slept_again delay h =
        bind (ask-Ledger b r.policy (slept delay) (λ _. tt) tt (λ w. omega arith))
          λ _. conseq (to_Balanced b r.policy) (λ s x. x) (λ v s q. q) h

    retry_or_give_up-Fits :
        {d : Option AgentDecision} (again : M AgentExecutionResult) (class message : String)
        (t : Session)
        → a ≤ t.attempt_count
        → (a < r.retry_policy.max_attempts
            → Triple (Raised b r g a) (Raised b r g a) again (Fits b r g a))
        → Triple
            (Raised b r g a)
            (Kept b r g a d)
            (retry_or_give_up r again class message t)
            (Fits b r g a)
    unfolding retry_or_give_up cost IsPermitted
    retry_or_give_up-Fits again class message t le h =
        bind (delay_of-Kept (can_retry r class t) t.attempt_count) λ delay.
          bind (now-Ledger b r.policy r.world) λ time.
            bind (ask-Ledger b r.policy read_deadline r.world.remaining tt (λ w. omega arith))
              λ left.
                branch
                  (can_retry r class t
                    && not (is_too_late t.lifecycle time left (delay + r.retry_policy.min_attempt)))
                  (λ e.
                    let lt = can_retry-lt class t ((and-eq-true_iff _ _).0 e).0 in
                    slept_again delay (h (omega (arith, lt, le))))
                  (λ _.
                    conseq (to_Balanced b r.policy) (λ s x. x) (λ v s q. q) (give_up-Fits message))

    after_failure-Fits :
        (again : M AgentExecutionResult) (e : Exn)
        → (a < r.retry_policy.max_attempts
            → Triple (Raised b r g a) (Raised b r g a) again (Fits b r g a))
        → Triple (Raised b r g a) (Raised b r g a) (after_failure r again e) (Fits b r g a)
    unfolding after_failure cost IsPermitted
    after_failure-Fits again (exception class message) h = give_up-Fits message
    after_failure-Fits again (reasoning_failure class message) h = anyhow λ d.
        bind read_session λ t. record {
          holds = λ s (e, l).
              (retry_or_give_up-Fits again class message t
                  (subst (λ x. a ≤ x.attempt_count) (sym e) l.attempts) h).holds
                s l;
        }

  count_attempt-Kept :
      {g : Credit} {a : ℕ} {d : Option AgentDecision}
      → Triple (Raised b r g a) (Kept b r g a d) count_attempt (λ _. Kept b r g (suc a) d)
  count_attempt-Kept = record {
    holds = λ s h. record {
      within = h.within;
      same_budget = h.same_budget;
      paid = h.paid;
      attempts = omega (arith, h.attempts);
      last = h.last;
      permitted = h.permitted;
    };
  }

  fewer :
      {g : Credit} {a : ℕ} {d : Option AgentDecision} (s : Session)
      → Kept b r g (suc a) d s
      → Kept b r g a d s
  fewer s h = record {
    within = h.within;
    same_budget = h.same_budget;
    paid = h.paid;
    attempts = omega (arith, h.attempts);
    last = h.last;
    permitted = h.permitted;
  }

  pub terminal-Fits :
      {g : Credit} {a : ℕ} → Triple (Raised b r g a) (Raised b r g a) terminal_result (Fits b r g a)
  unfolding terminal_result result_of
  terminal-Fits = record { holds = λ s h. (h, tt) }

  slice-Fits :
      (n : ℕ) {g : Credit} {a : ℕ} {d : Option AgentDecision}
      → r.retry_policy.max_attempts < n + a
      → 0 < n
      → Triple (Raised b r g a) (Kept b r g a d) (reason_slice r n) (Fits b r g a)
  unfolding reason_slice
  slice-Fits zero le pos = absurd (omega (arith, pos))
  slice-Fits (suc n) {g = g} {a = a} {d = d} le pos = record {
    holds = λ s h.
        Post-if (Raised b r g a) (Fits b r g a) s.closed _ _ (to_Balanced b r.policy s h) (
          Post-if (Raised b r g a) (Fits b r g a) (not (is_running s.lifecycle.status)) _ _
            (terminal-Fits.holds s (to_Balanced b r.policy s h))
            ((bind count_attempt-Kept λ _.
                conseq (λ s l. l) (λ s x. fewer s x) (λ v s q. (fewer s q.0, q.1))
                  (catch_rule (λ s x. x) (attempt-Fits b r (attempt_fuel r s) (enough s h))
                    λ e. after_failure-Fits (reason_slice r n) e λ lt.
                      anyhow (λ d. slice-Fits n (omega (arith, le)) (omega (arith, le, lt))))).holds
              s h));
  }
    where
      enough :
          (s : Session)
          → Kept b r g a d s
          → b.max_rejected_decisions < attempt_fuel r s + g rejections
      enough s h =
          let same = ap (λ x. x.max_rejected_decisions) h.same_budget in omega (arith, same)

  pub reason-Fits :
      {g : Credit} {a : ℕ} {d : Option AgentDecision}
      → Triple (Raised b r g a) (Kept b r g a d) (reason r) (Fits b r g a)
  unfolding reason
  reason-Fits = slice-Fits (suc r.retry_policy.max_attempts) (omega arith) (omega arith)
