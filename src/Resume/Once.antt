-- ===== src/Resume/Once.antt =====
-- How often an approved message leaves over all attempts of server/src/application/services/
-- hitl_resume.py that follow one another.
use juris_ai.Base.{
  ◌≤◌, Bool, true, false, not, ◌≡◌, ◌≢◌, refl, sym, ap, ◌∙◌, subst, Option, none, some, List, [],
  ◌∷◌, length, arith, inl, inr, ◌⊎◌, ◌||◌, ◌&&◌, All,
}
use juris_ai.Base.Result.{Result}
use juris_ai.Approvals.Records.{ApprovalDecision, approve, reject, edit}
use juris_ai.Approvals.Verifier.{AgentAction}
use juris_ai.Resume.Task.{
  on_exit-rule, on_some-rule, if-rule, Attempt, Setting, Task, is_claimable, is_executing,
  may_claim, claimed, stored_result,
}
use juris_ai.Resume.Run.{
  Reply, ResumeError, HitlResumeStatus, resume_completed, in_progress, resume_claimable,
  resume_after_decision, is_approval, may_have_sent, takes_over, retry_reply, retry_row, retry,
}
use juris_ai.Resume.Rejected.{resume_reject-sent}
use juris_ai.Resume.Kept.{some-injective, Guarded, IsReliable, run_claimed-Guarded}

-- An attempt: the one that follows the decision, or an unforced retry by the owner.
pub data Request (Json : Type 0) : Type 0 where
  decided again : Attempt Json → Request Json

abbrev pub attempt_of : {Json : Type 0} → Request Json → Attempt Json
attempt_of (decided a) = a
attempt_of (again a) = a

||-cases : (a b : Bool) → (a || b) ≡ true → (a ≡ true) ⊎ (b ≡ true)
||-cases true b h = inl refl
||-cases false b h = inr h

&&-left : (a b : Bool) → (a && b) ≡ true → a ≡ true
&&-left true b h = refl
&&-left false b h = cc

module _ {Json : Type 0} (c : Setting Json) where
  unfoldable pub serve : ApprovalDecision → Request Json → Task Json → Task Json
  serve d (decided a) t = (resume_after_decision c a (some d) false t).1
  serve d (again a) t = (retry c a false (some d) t).1

  unfoldable pub serve_all : ApprovalDecision → List (Request Json) → Task Json → Task Json
  unfolding serve
  serve_all d [] t = t
  serve_all d (q ∷ qs) t = serve_all d qs (serve d q t)

  retry_reply-task : (z : Reply Json) → (retry_reply c z).1 ≡ z.1
  retry_reply-task (none, t) = refl
  retry_reply-task (some in_progress, t) = refl
  retry_reply-task (some resume_completed, t) = refl
  retry_reply-task (some _, t) = refl

  abbrev Guards : Reply Json → Type 0
  Guards z = Guarded c.is_null z.1

  -- A takeover of a row with no stored result happens only if nothing was sent.
  Covered : Bool → Task Json → Type 0
  Covered take_over t =
      (r : AgentAction Json)
      → t.row ≡ some r
      → take_over ≡ true
      → stored_result c.is_null r ≡ none
      → t.sent ≡ []

  resume_claimable-Guarded :
      (a : Attempt Json) (approved take_over : Bool) (t : Task Json)
      → IsReliable c a
      → Guarded c.is_null t
      → Covered take_over t
      → Guards (resume_claimable c a approved take_over t)
  unfolding resume_claimable Covered may_claim stored_result
  resume_claimable-Guarded a approved take_over t ok h cov =
      on_some-rule Guards t.row _ _ (λ _. h)
        (λ r p.
          if-rule Guards (may_claim c.stale a.now take_over r) _ _
            (λ m.
              run_claimed-Guarded c a approved (claimed a.now r)
                (record t { row = some (claimed a.now r) }) ok refl refl
                (record { once = h.once; clear = λ q e n. ready r p m (unclaimed r q e n) }))
            (λ _. h))
    where
      unclaimed :
          (r q : AgentAction Json)
          → some (claimed a.now r) ≡ some q
          → stored_result c.is_null q ≡ none
          → stored_result c.is_null r ≡ none
      unclaimed r q e n = ap (stored_result c.is_null) (some-injective e) ∙ n

      ready :
          (r : AgentAction Json)
          → t.row ≡ some r
          → may_claim c.stale a.now take_over r ≡ true
          → stored_result c.is_null r ≡ none
          → t.sent ≡ []
      ready r p m n = elim (||-cases _ _ m) [
        | inl free ↦ h.clear r p free n
        | inr x ↦ cov r p (&&-left take_over _ x) n
      ]

  resume_after_decision-Guarded :
      (a : Attempt Json) (d : ApprovalDecision) (take_over : Bool) (t : Task Json)
      → IsReliable c a
      → Guarded c.is_null t
      → Covered take_over t
      → Guards (resume_after_decision c a (some d) take_over t)
  unfolding resume_after_decision
  resume_after_decision-Guarded a d take_over t ok h cov =
      on_exit-rule Guards a.claims _ _ _
        (λ _ _. resume_claimable-Guarded a (is_approval d) take_over t ok h cov) (λ _ _. h) (λ _. h)

  not-takes_over :
      (a : Attempt Json) (d : ApprovalDecision) (r : AgentAction Json)
      → is_approval d ≡ true
      → (takes_over c a r && (may_have_sent c d r && not false)) ≡ false
      → takes_over c a r ≡ true
      → stored_result c.is_null r ≢ none
  unfolding may_have_sent
  not-takes_over a d r ap' e over n = cc (rw (over, ap', n, may_have_sent) at e)

  serve-Guarded :
      (d : ApprovalDecision) (q : Request Json) (t : Task Json)
      → is_approval d ≡ true
      → IsReliable c (attempt_of q)
      → Guarded c.is_null t
      → Guarded c.is_null (serve d q t)
  unfolding serve retry retry_row Covered
  serve-Guarded d (decided a) t sends ok h =
      resume_after_decision-Guarded a d false t ok h (λ r p e n. cc)
  serve-Guarded d (again a) t sends ok h =
      on_some-rule Holds t.row _ _ (λ _. h)
        (λ r p.
          if-rule Holds (is_claimable r.status || is_executing r.status) _ _
            (λ _.
              if-rule Holds (takes_over c a r && (may_have_sent c d r && not false)) _ _ (λ _. h)
                (λ e.
                  subst (Guarded c.is_null)
                    (sym
                      (retry_reply-task (resume_after_decision c a (some d) (takes_over c a r) t)))
                    (resume_after_decision-Guarded a d (takes_over c a r) t ok h (λ q p' over n.
                      absurd (
                        not-takes_over a d r sends e over
                          (ap (stored_result c.is_null) (some-injective (sym p ∙ p')) ∙ n))))))
            (λ _. h))
    where
      Holds : Result ResumeError (Option HitlResumeStatus) × Task Json → Type 0
      Holds z = Guarded c.is_null z.1

  serve_reject-sent : (q : Request Json) (t : Task Json) → (serve reject q t).sent ≡ t.sent
  unfolding serve retry retry_row
  serve_reject-sent (decided a) t = resume_reject-sent c a t.sent false t refl
  serve_reject-sent (again a) t =
      on_some-rule Holds t.row _ _ (λ _. refl)
        (λ r p.
          if-rule Holds (is_claimable r.status || is_executing r.status) _ _
            (λ _.
              if-rule Holds (takes_over c a r && (may_have_sent c reject r && not false)) _ _
                (λ _. refl)
                (λ _.
                  ap (λ z. z.sent)
                    (retry_reply-task
                      (resume_after_decision c a (some reject) (takes_over c a r) t))
                  ∙ resume_reject-sent c a t.sent (takes_over c a r) t refl))
            (λ _. refl))
    where
      Holds : Result ResumeError (Option HitlResumeStatus) × Task Json → Type 0
      Holds z = z.1.sent ≡ t.sent

  serve_all_reject-sent :
      (qs : List (Request Json)) (t : Task Json) → (serve_all reject qs t).sent ≡ t.sent
  unfolding serve_all
  serve_all_reject-sent [] t = refl
  serve_all_reject-sent (q ∷ qs) t =
      serve_all_reject-sent qs (serve reject q t) ∙ serve_reject-sent q t

  serve_all-Guarded :
      (d : ApprovalDecision) (qs : List (Request Json)) (t : Task Json)
      → is_approval d ≡ true
      → All (λ q. IsReliable c (attempt_of q)) qs
      → Guarded c.is_null t
      → Guarded c.is_null (serve_all d qs t)
  unfolding serve_all
  serve_all-Guarded d [] t sends ok h = h
  serve_all-Guarded d (q ∷ qs) t sends ok h =
      serve_all-Guarded d qs (serve d q t) sends ok.1 (serve-Guarded d q t sends ok.0 h)

  -- If in every attempt the commit of the tool's result does not raise, a tool that raises has sent
  -- nothing, and neither a result nor the refusal is null, then attempts to resume one approval
  -- that follow one another, the one after the decision and any number of unforced retries, with
  -- processes that stop at any step, together send its message at most once.
  pub sent_once :
      (d : ApprovalDecision) (qs : List (Request Json)) (t : Task Json)
      → All (λ q. IsReliable c (attempt_of q)) qs
      → t.sent ≡ []
      → length (serve_all d qs t).sent ≤ 1
  sent_once reject qs t ok e = rw (serve_all_reject-sent qs t, e) (omega arith)
  sent_once approve qs t ok e =
      (serve_all-Guarded approve qs t refl ok
        (record { once = rw e (omega arith); clear = λ r p s n. e })).once
  sent_once edit qs t ok e =
      (serve_all-Guarded edit qs t refl ok
        (record { once = rw e (omega arith); clear = λ r p s n. e })).once
