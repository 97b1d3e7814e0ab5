-- ===== src/Resume/Completes.antt =====
-- A resume of server/src/application/services/hitl_resume.py that carries an approved action out, and
-- the attempts after it.
use juris_ai.Base.{
  String, Bool, true, false, ◌≡◌, ◌≢◌, refl, ap, ◌⊎◌, inl, inr, none, some, [], ◌∷◌,
}
use juris_ai.Base.Dict.{Dict, get}
use juris_ai.Base.Result.{err}
use juris_ai.Approvals.Records.{ApprovalDecision, approve, reject, edit}
use juris_ai.Approvals.Verifier.{or_empty, AgentAction, pending, completed, failed}
use juris_ai.Approvals.Edits.{approved_value, get-approved_value}
use juris_ai.Resume.Task.{
  on_exit-rule, Attempt, Setting, Task, is_claimable, is_executing, may_claim, stored_result,
}
use juris_ai.Resume.Run.{
  resume_completed, resume_failed, not_allowed, resume_claimable, resume_after_decision,
  is_approval, retry_row, retry,
}
use juris_ai.Resume.Ends.{and_false, message, Succeeds, attempt-completes}

is_approval-true : (d : ApprovalDecision) → d ≢ reject → is_approval d ≡ true
is_approval-true approve n = refl
is_approval-true edit n = refl
is_approval-true reject n = absurd (n refl)

module _ {Json : Type 0} (c : Setting Json) where
  -- The action as a resume completes it.
  abbrev pub completed_action :
      Attempt Json → AgentAction Json → (result answer : Json) → AgentAction Json
  completed_action a r result answer = record r {
    status = completed;
    result = some (
        ("tool_result", result) ∷ ("approval_id", c.text c.approval_id) ∷ ("content", answer) ∷ []);
    updated_at = a.now;
  }

  -- What the attempt that completes leaves, with the parameters of the message.
  abbrev pub completed_task :
      Attempt Json → AgentAction Json → Task Json → (result answer : Json) → Dict Json → Task Json
  completed_task a r t result answer sent_parameters = record {
    row = some (completed_action a r result answer);
    sent = sent_parameters ∷ t.sent;
  }

  resume-completed :
      (a : Attempt Json) (d : ApprovalDecision) (force : Bool) (r : AgentAction Json)
      (t : Task Json)
      → t.row ≡ some r
      → r.status ≡ completed
      → ((resume_after_decision c a (some d) force t).1 ≡ t)
        × (retry c a force (some d) t ≡ (err not_allowed, t))
  unfolding resume_after_decision resume_claimable may_claim retry retry_row
  resume-completed a d force r t found over =
      let f = ap is_claimable over in
      let b = ap is_executing over in
      (
        on_exit-rule (λ z. z.1 ≡ t) a.claims (λ _. resume_claimable c a (is_approval d) force t)
            (λ e. (some resume_failed, t)) (none, t) (λ _ _. rw (found, f, b, and_false force) refl)
            (λ e p. refl) (λ p. refl),
        rw (found, f, b) refl,
      )

  -- If the action is pending or failed, has a plan and no stored result, the decision is no
  -- rejection and every step of the attempt succeeds, then the resume completes: one message is
  -- sent, with the reviewer's edits over the proposed parameters, and the action is completed, with
  -- the tool's result, the id of the approval and the answer stored. After it, no resume or retry,
  -- forced or not, sends or changes anything, and a retry is not allowed.
  pub resume_completes :
      (a later : Attempt Json) (d e : ApprovalDecision) (force : Bool) (t : Task Json)
      (r : AgentAction Json) (plan result answer : Json)
      → t.row ≡ some r
      → (r.status ≡ pending) ⊎ (r.status ≡ failed)
      → r.plan_snapshot ≡ some plan
      → stored_result c.is_null r ≡ none
      → d ≢ reject
      → Succeeds a result answer
      → (p : Dict Json) × ((k : String) → get k p ≡ approved_value r.parameters c.edited k)
        × (resume_after_decision c a (some d) false t
            ≡ (some resume_completed, completed_task a r t result answer p))
        × ((resume_after_decision c later (some e) force (completed_task a r t result answer p)).1
            ≡ completed_task a r t result answer p)
        × (retry c later force (some e) (completed_task a r t result answer p)
            ≡ (err not_allowed, completed_task a r t result answer p))
  unfolding or_empty
  resume_completes a later d e force t r plan result answer found free_status planned unstored go
        good =
      let free : is_claimable r.status ≡ true = elim free_status [
        | inl p ↦ ap is_claimable p
        | inr p ↦ ap is_claimable p
      ] in
      let (resumes, retries) =
        resume-completed later e force (completed_action a r result answer)
          (completed_task a r t result answer (message c r)) refl refl in
      (
        message c r,
        (λ k. get-approved_value k r.parameters c.edited),
        attempt-completes c r plan free planned unstored a d t result answer (is_approval-true d go)
            found good,
        resumes,
        retries,
      )
