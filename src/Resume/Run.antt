-- ===== src/Resume/Run.antt =====
-- HitlResumeService of server/src/application/services/hitl_resume.py. `none` in place of a status
-- is a process that stopped; what it had committed stays.
use juris_ai.Base.{
  String, Bool, true, false, not, ◌&&◌, ◌||◌, Option, none, some, [], ◌∷◌, if◌then◌else◌,
}
use juris_ai.Base.Dict.{put}
use juris_ai.Base.Result.{Result, ok, err}
use juris_ai.Approvals.Records.{ApprovalDecision, reject}
use juris_ai.Approvals.Verifier.{
  AgentActionStatus, executing, completed, action_rejected, failed, AgentAction, tool_result_key,
  or_empty, approved_parameters,
}
use juris_ai.Resume.Task.{
  Exit, on_exit, on_some, returned, raised, stopped, Attempt, Setting, Task, is_claimable,
  is_executing, is_stale, may_claim, claimed, stored_result,
}

pub data HitlResumeStatus : Type 0 where
  resume_completed resume_failed not_resumed in_progress : HitlResumeStatus

pub data ResumeError : Type 0 where
  not_allowed needs_confirmation : ResumeError

abbrev pub Reply : Type 0 → Type 0
Reply Json = Option HitlResumeStatus × Task Json

-- APPROVE or EDIT
abbrev pub is_approval : ApprovalDecision → Bool
is_approval reject = false
is_approval _ = true

module _ {Json : Type 0} (c : Setting Json) where
  -- The row after a failure.
  abbrev pub failed_row : Attempt Json → String → AgentAction Json → AgentAction Json
  failed_row a error r = record r {
    status = failed;
    result =
        some (
          put "approval_id" (c.text c.approval_id)
            (put "error" (c.text error) (or_empty r.result)));
    updated_at = a.now;
  }

  -- _record_failure, and the status that is reported after it.
  unfoldable pub record_failure : Attempt Json → String → Task Json → Reply Json
  unfolding or_empty
  record_failure a error t =
      on_some t.row (some resume_failed, t)
        (λ r.
          on_exit a.records
            (λ _. (some resume_failed, record t { row = some (failed_row a error r) }))
            (λ _. (some resume_failed, t)) (none, t))

  -- The message, if it leaves.
  unfoldable pub send : Attempt Json → AgentAction Json → Task Json → Task Json
  unfolding approved_parameters
  send a r t =
      if a.sends then record t { sent = approved_parameters r.parameters c.edited ∷ t.sent } else t

  -- The call itself, if the user may still make it.
  unfoldable pub call_tool :
      Attempt Json → Bool → AgentAction Json → Task Json → Exit Json × Task Json
  unfolding send
  call_tool a allowed r t = if allowed then (a.runs, send a r t) else (returned c.refusal, t)

  abbrev pub stored_row : Attempt Json → Json → AgentAction Json → AgentAction Json
  stored_row a v r = record r {
    status = executing;
    result = some ((tool_result_key, v) ∷ ("approval_id", c.text c.approval_id) ∷ []);
    updated_at = a.now;
  }

  -- The commit of the result of the call.
  unfoldable pub store_result :
      Attempt Json → AgentAction Json → Exit Json × Task Json → Exit Json × Task Json
  store_result a r (x, t) =
      on_exit x
        (λ v.
          on_exit a.stores (λ _. (returned v, record t { row = some (stored_row a v r) }))
            (λ e. (raised e, t)) (stopped, t))
        (λ e. (raised e, t)) (stopped, t)

  -- _approved_tool_result
  unfoldable pub approved_tool_result :
      Attempt Json → AgentAction Json → Task Json → Exit Json × Task Json
  unfolding stored_result store_result call_tool
  approved_tool_result a r t =
      on_some (stored_result c.is_null r)
        (on_exit a.authorizes (λ allowed. store_result a r (call_tool a allowed r t))
          (λ e. (raised e, t)) (stopped, t))
        (λ v. on_exit a.restores (λ _. (returned v, t)) (λ e. (raised e, t)) (stopped, t))

  abbrev pub final_status : Bool → AgentActionStatus
  final_status approved = if approved then completed else action_rejected

  abbrev pub finished_row : Attempt Json → Bool → Json → AgentAction Json → AgentAction Json
  finished_row a approved content r = record r {
    status = final_status approved;
    result = some (put "content" content (or_empty r.result));
    updated_at = a.now;
  }

  -- The write of the finished turn; the row of an action is never deleted.
  unfoldable pub finish : Attempt Json → Bool → Json → Task Json → Reply Json
  unfolding record_failure or_empty
  finish a approved content t = on_some t.row (record_failure a "StaleDataError" t) (λ r.
      on_exit a.finishes
        (λ _. (some resume_completed, record t { row = some (finished_row a approved content r) }))
        (λ e. record_failure a e t) (none, t))

  -- The resumed turn.
  unfoldable pub take_turn : Attempt Json → Bool → Task Json → Reply Json
  unfolding record_failure finish
  take_turn a approved t =
      on_exit a.turns (λ content. finish a approved content t) (λ e. record_failure a e t) (none, t)

  unfoldable pub after_call : Attempt Json → Exit Json × Task Json → Reply Json
  unfolding record_failure take_turn
  after_call a (x, t) = on_exit x (λ v. take_turn a true t) (λ e. record_failure a e t) (none, t)

  -- What follows a claim.
  unfoldable pub run_claimed : Attempt Json → Bool → AgentAction Json → Task Json → Reply Json
  unfolding record_failure after_call take_turn approved_tool_result
  run_claimed a approved r t =
      on_some r.plan_snapshot (some resume_failed, t)
        (λ plan.
          on_exit a.loads
            (λ _.
              if approved then after_call a (approved_tool_result a r t) else take_turn a false t)
            (λ e. record_failure a e t) (none, t))

  unfoldable pub resume_claimable : Attempt Json → Bool → Bool → Task Json → Reply Json
  unfolding may_claim run_claimed
  resume_claimable a approved take_over t =
      on_some t.row (some in_progress, t)
        (λ r.
          if may_claim c.stale a.now take_over r
          then run_claimed a approved (claimed a.now r) (record t { row = some (claimed a.now r) })
          else (some in_progress, t))

  unfoldable pub resume_after_decision :
      Attempt Json → Option ApprovalDecision → Bool → Task Json → Reply Json
  unfolding resume_claimable
  resume_after_decision a decision take_over t =
      on_some decision (some not_resumed, t)
        (λ d.
          on_exit a.claims (λ _. resume_claimable a (is_approval d) take_over t)
            (λ e. (some resume_failed, t)) (none, t))

  -- _may_have_sent
  unfoldable pub may_have_sent : ApprovalDecision → AgentAction Json → Bool
  unfolding stored_result
  may_have_sent d r = is_approval d && on_some (stored_result c.is_null r) true (λ v. false)

  abbrev pub retry_reply : Reply Json → Result ResumeError (Option HitlResumeStatus) × Task Json
  retry_reply (some in_progress, t) = (err not_allowed, t)
  retry_reply (status, t) = (ok status, t)

  unfoldable pub takes_over : Attempt Json → AgentAction Json → Bool
  unfolding is_stale
  takes_over a r = is_executing r.status && is_stale c.stale a.now r

  unfoldable pub retry_row :
      Attempt Json
      → Bool
      → ApprovalDecision
      → AgentAction Json
      → Task Json
      → Result ResumeError (Option HitlResumeStatus) × Task Json
  unfolding takes_over may_have_sent resume_after_decision
  retry_row a force d r t =
      if is_claimable r.status || is_executing r.status
      then (if takes_over a r && (may_have_sent d r && not force)
          then (err needs_confirmation, t)
          else retry_reply (resume_after_decision a (some d) (takes_over a r) t))
      else (err not_allowed, t)

  unfoldable pub retry :
      Attempt Json
      → Bool
      → Option ApprovalDecision
      → Task Json
      → Result ResumeError (Option HitlResumeStatus) × Task Json
  unfolding retry_row
  retry a force decision t =
      on_some decision (err not_allowed, t)
        (λ d. on_some t.row (err not_allowed, t) (λ r. retry_row a force d r t))
