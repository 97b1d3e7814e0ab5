-- ===== src/Resume/Rejected.antt =====
-- Attempts of server/src/application/services/hitl_resume.py on a rejected action.
use juris_ai.Base.{String, Bool, false, ◌≡◌, some, List}
use juris_ai.Base.Dict.{Dict}
use juris_ai.Approvals.Records.{reject}
use juris_ai.Approvals.Verifier.{AgentAction}
use juris_ai.Resume.Task.{
  on_exit-rule, on_some-rule, if-rule, Attempt, Setting, Task, may_claim, claimed,
}
use juris_ai.Resume.Run.{
  Reply, record_failure, finish, take_turn, run_claimed, resume_claimable, resume_after_decision,
}

module _ {Json : Type 0} (c : Setting Json) where
  -- Writing, without a call, sends nothing.
  module _ (a : Attempt Json) (was : List (Dict Json)) where
    abbrev Quiet : Reply Json → Type 0
    Quiet z = z.1.sent ≡ was

    record_failure-sent :
        (e : String) (t : Task Json) → t.sent ≡ was → Quiet (record_failure c a e t)
    unfolding record_failure
    record_failure-sent e t h =
        on_some-rule Quiet t.row _ _ (λ _. h)
          (λ r p. on_exit-rule Quiet a.records _ _ _ (λ _ _. h) (λ _ _. h) (λ _. h))

    finish-sent :
        (approved : Bool) (content : Json) (t : Task Json)
        → t.sent ≡ was
        → Quiet (finish c a approved content t)
    unfolding finish
    finish-sent approved content t h =
        on_some-rule Quiet t.row _ _ (λ _. record_failure-sent "StaleDataError" t h)
          (λ r p.
            on_exit-rule Quiet a.finishes _ _ _ (λ _ _. h) (λ e _. record_failure-sent e t h)
              (λ _. h))

    take_turn-sent :
        (approved : Bool) (t : Task Json) → t.sent ≡ was → Quiet (take_turn c a approved t)
    unfolding take_turn
    take_turn-sent approved t h =
        on_exit-rule Quiet a.turns _ _ _ (λ content _. finish-sent approved content t h)
          (λ e _. record_failure-sent e t h) (λ _. h)

    run_claimed-sent :
        (r : AgentAction Json) (t : Task Json) → t.sent ≡ was → Quiet (run_claimed c a false r t)
    unfolding run_claimed
    run_claimed-sent r t h =
        on_some-rule Quiet r.plan_snapshot _ _ (λ _. h)
          (λ plan _.
            on_exit-rule Quiet a.loads _ _ _ (λ _ _. take_turn-sent false t h)
              (λ e _. record_failure-sent e t h) (λ _. h))

    pub resume_reject-sent :
        (take_over : Bool) (t : Task Json)
        → t.sent ≡ was
        → Quiet (resume_after_decision c a (some reject) take_over t)
    unfolding resume_after_decision resume_claimable
    resume_reject-sent take_over t h =
        on_exit-rule Quiet a.claims _ _ _
          (λ _ _.
            on_some-rule Quiet t.row _ _ (λ _. h)
              (λ r p.
                if-rule Quiet (may_claim c.stale a.now take_over r) _ _
                  (λ _.
                    run_claimed-sent (claimed a.now r) (record t { row = some (claimed a.now r) })
                      h)
                  (λ _. h)))
          (λ _ _. h) (λ _. h)
