-- ===== src/Runtime/Judged.antt =====
-- The answer-quality gate of server/src/agentic/agents/runtime/continuation.py on the scores of a
-- FINAL answer.
use juris_ai.Base.{ℕ, String, true, not, ◌≡◌, refl, Option, none, some, List, arith}
use juris_ai.Base.Result.{Result, ok, err}
use juris_ai.Lifecycle.Budget.{AgentExecutionBudget}
use juris_ai.Lifecycle.Operations.{step}
use juris_ai.Runtime.Content.{evidence_items, contents}
use juris_ai.Runtime.Quality.{AnswerEvaluationResult, is_sufficient}
use juris_ai.Runtime.Session.{Exn, Journal, evaluated, ◌>>=◌, Runtime, Session, ask, raise_result}
use juris_ai.Runtime.Handle.{is_running}
use juris_ai.Runtime.Records.{request_question}
use juris_ai.Runtime.Gate.{Gated, reject_unverified, judge_answer, gate_answer, summary_of}
use juris_ai.Runtime.Triple.{Triple, bind, pure, branch, conseq, read_session}
use juris_ai.Runtime.Ledger.{cost, IsPermitted, Credit, gain, to_Balanced, ask-Ledger, drop_gain}
use juris_ai.Runtime.Rules.{timed_then}
use juris_ai.Runtime.Corrected.{Raised}
use juris_ai.Runtime.Slices.{anyhow}
use juris_ai.Runtime.Gated.{Settled, Judged, reject-Settled, retry_answer-Settled}
use juris_ai.Runtime.Answers.{Refused}

module _ (b : AgentExecutionBudget) (r : Runtime) where
  settled_judges :
      (g : Credit) (a : ℕ) (answer : String) (t : ℕ) (gated : Gated) (s : Session)
      → Settled b r (gain (step t) true g) a gated s
      → Judged b r answer g a gated s
  settled_judges g a answer t (none, none) s h = absurd h.1
  settled_judges g a answer t (none, some summary) s h = absurd h.1
  settled_judges g a answer t (some result, none) s h = (t, h)
  settled_judges g a answer t (some result, some summary) s h =
      (drop_gain b r.policy (step t) true s h.0, h.1)

module _ (b : AgentExecutionBudget) (r : Runtime) {g : Credit} {a : ℕ} where
  rejected_judges :
      (answer : String) (gated : Gated) (s : Session)
      → Raised b r g a s × Refused b gated
      → Judged b r answer g a gated s
  rejected_judges answer (none, summary) s h = absurd h.1
  rejected_judges answer (some result, none) s h = absurd h.1
  rejected_judges answer (some result, some summary) s h = h

  reject-Judged :
      (answer : String) (e : Option AnswerEvaluationResult)
      → Triple (Raised b r g a) (Raised b r g a) (reject_unverified r e) (Judged b r answer g a)
  reject-Judged answer e =
      conseq (λ s h. h) (λ s x. x) (rejected_judges answer) (reject-Settled b r e)

  judge_answer-Judged :
      (answer : String) (evidence : List String) (history : Journal) (e : AnswerEvaluationResult)
      → r.world.evaluate (request_question r) answer evidence history ≡ ok e
      → Triple (Raised b r g a) (Raised b r g a) (judge_answer r e) (Judged b r answer g a)
  unfolding judge_answer
  judge_answer-Judged answer evidence history e scored =
      branch e.relevance_unavailable (λ _. reject-Judged answer (some e))
        (λ available.
          branch (is_sufficient r.quality e)
            (λ sufficient. pure {a = (none, some (summary_of (some e) true))} λ s h. (
              h,
              record {
                scores = e;
                evidence = evidence;
                history = history;
                scored = scored;
                sufficient = sufficient;
                available = available;
                reported = refl;
              },
            ))
            (λ _.
              branch e.groundedness_detail.judge_unavailable (λ _. reject-Judged answer (some e))
                (λ _. anyhow b r λ d.
                  timed_then b r.policy r.world step
                    (λ t.
                      conseq (λ s h. to_Balanced b r.policy s h)
                        (λ s x. drop_gain b r.policy (step t) true s x)
                        (settled_judges b r g a answer t) (retry_answer-Settled b r e))
                    (λ _.
                      conseq (λ s h. to_Balanced b r.policy s h) (λ s x. x) (λ v s q. q)
                        (reject-Judged answer (some e))))))

  replied-Judged :
      (answer : String) (evidence : List String) (history : Journal)
      (reply : Result Exn AnswerEvaluationResult)
      → r.world.evaluate (request_question r) answer evidence history ≡ reply
      → Triple
          (Raised b r g a)
          (Raised b r g a)
          (raise_result reply >>= λ e. judge_answer r e)
          (Judged b r answer g a)
  replied-Judged answer evidence history (ok e) same = record {
    holds = (judge_answer-Judged answer evidence history e same).holds;
  }
  replied-Judged answer evidence history (err x) same = record { holds = λ s h. h }

  ask_then :
      (answer : String) (evidence : List String)
      → Triple
          (Raised b r g a)
          (Raised b r g a)
          (ask (evaluated answer evidence) (r.world.evaluate (request_question r) answer evidence)
            >>= λ reply. raise_result reply >>= λ e. judge_answer r e)
          (Judged b r answer g a)
  unfolding cost IsPermitted
  ask_then answer evidence = record {
    holds = λ s h. (replied-Judged answer evidence s.journal _ refl).holds _ (
        to_Balanced b r.policy _ (
          (ask-Ledger b r.policy (evaluated answer evidence) (λ _. tt) tt (λ w. omega arith)).holds
            s h));
  }

  pub gate_answer-Judged :
      (answer : String)
      → Triple (Raised b r g a) (Raised b r g a) (gate_answer r answer) (Judged b r answer g a)
  unfolding gate_answer
  gate_answer-Judged answer = bind read_session λ t.
      conseq (λ s h. h.1) (λ s x. x) (λ v s q. q)
        (branch (not (is_running t.lifecycle.status)) (λ _. reject-Judged answer none)
          (λ _. ask_then answer (contents (evidence_items t.reasoning_context))))
