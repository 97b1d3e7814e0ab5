-- ===== src/Resume/Ends.antt =====
-- How single attempts of server/src/application/services/hitl_resume.py end.
use juris_ai.Base.{
  ◌+◌, ◌≤◌, String, Bool, true, false, ◌≡◌, refl, ap, ◌∙◌, ◌⊎◌, inl, inr, none, some, ◌∷◌, ◌&&◌,
  arith,
}
use juris_ai.Base.Dict.{Dict}
use juris_ai.Base.Result.{err}
use juris_ai.Approvals.Records.{ApprovalDecision}
use juris_ai.Approvals.Verifier.{AgentAction, pending, executing, failed, approved_parameters}
use juris_ai.Resume.Task.{
  returned, raised, Attempt, Setting, Task, is_claimable, is_executing, is_stale, may_claim,
  claimed, stored_result,
}
use juris_ai.Resume.Kept.{stored-failed_row}
use juris_ai.Resume.Run.{
  resume_completed, resume_failed, in_progress, not_allowed, failed_row, stored_row, finished_row,
  record_failure, send, call_tool, store_result, approved_tool_result, finish, take_turn,
  after_call, run_claimed, resume_claimable, resume_after_decision, is_approval, takes_over,
  retry_reply, retry_row, retry,
}

pub and_false : (b : Bool) → (b && false) ≡ false
and_false true = refl
and_false false = refl

module _ {Json : Type 0} (c : Setting Json) (a : Attempt Json) (d : ApprovalDecision)
    (t : Task Json) (r : AgentAction Json) (found : t.row ≡ some r)
    (claims : a.claims ≡ returned tt) where
  -- If the commit of the claim succeeds and the action is executing and not stale, a resume answers
  -- that it is in progress and a retry is not allowed, forced or not, and neither changes anything.
  pub resume_busy :
      (take_over : Bool)
      → r.status ≡ executing
      → is_stale c.stale a.now r ≡ false
      → (resume_after_decision c a (some d) take_over t ≡ (some in_progress, t))
        × (retry c a take_over (some d) t ≡ (err not_allowed, t))
  unfolding resume_after_decision resume_claimable may_claim retry retry_row takes_over
  resume_busy take_over busy fresh =
      let b : is_executing r.status ≡ true = ap is_executing busy in
      let f : is_claimable r.status ≡ false = ap is_claimable busy in
      (
        rw (claims, found, f, b, fresh, and_false take_over) refl,
        rw (found, f, b, fresh, claims) refl,
      )

  no_snapshot-claimed :
      is_claimable r.status ≡ true
      → r.plan_snapshot ≡ none
      → resume_after_decision c a (some d) false t
        ≡ (some resume_failed, record t { row = some (claimed a.now r) })
  unfolding resume_after_decision resume_claimable may_claim run_claimed
  no_snapshot-claimed free bare = rw (claims, found, free, bare) refl

module _ {Json : Type 0} (c : Setting Json) where
  -- The task that a claim leaves behind.
  abbrev pub left_executing : Attempt Json → AgentAction Json → Task Json → Task Json
  left_executing a r t = record t {
    row = some (record r { status = executing; updated_at = a.now });
  }

  -- If the action is pending or failed and has no plan, and the commit of the claim succeeds, a
  -- resume answers that it failed and leaves the action executing, with no failure recorded. As
  -- long as the claim is not stale, a later resume or retry whose claim commits, forced or not,
  -- changes nothing: it answers that it is in progress, or is not allowed.
  pub resume_no_snapshot :
      (a later : Attempt Json) (d e : ApprovalDecision) (force : Bool) (t : Task Json)
      (r : AgentAction Json)
      → t.row ≡ some r
      → (r.status ≡ pending) ⊎ (r.status ≡ failed)
      → r.plan_snapshot ≡ none
      → a.claims ≡ returned tt
      → later.claims ≡ returned tt
      → later.now ≤ a.now + c.stale
      → (resume_after_decision c a (some d) false t ≡ (some resume_failed, left_executing a r t))
        × (resume_after_decision c later (some e) force (left_executing a r t)
            ≡ (some in_progress, left_executing a r t))
        × (retry c later force (some e) (left_executing a r t)
            ≡ (err not_allowed, left_executing a r t))
  unfolding is_stale
  resume_no_snapshot a later d e force t r found free_status bare claims claims' soon =
      let fresh : is_stale c.stale later.now (claimed a.now r) ≡ false = ground arith in
      let free : is_claimable r.status ≡ true = elim free_status [
        | inl p ↦ ap is_claimable p
        | inr p ↦ ap is_claimable p
      ] in
      let (resumes, retries) =
        resume_busy c later e (left_executing a r t) (claimed a.now r) refl claims' force refl
          fresh in
      (no_snapshot-claimed c a d t r found claims free bare, resumes, retries)

-- The approved message of an action.
abbrev pub message : {Json : Type 0} → Setting Json → AgentAction Json → Dict Json
message c r = approved_parameters r.parameters c.edited

-- Every step of an attempt ends as it should, with the tool's result and the answer of the turn.
pub record Succeeds {Json : Type 0} (a : Attempt Json) (result answer : Json) : Type 0 where
  pub claims : a.claims ≡ returned tt
  pub loads : a.loads ≡ returned tt
  pub restores : a.restores ≡ returned tt
  pub authorizes : a.authorizes ≡ returned true
  pub sends : a.sends ≡ true
  pub runs : a.runs ≡ returned result
  pub stores : a.stores ≡ returned tt
  pub turns : a.turns ≡ returned answer
  pub finishes : a.finishes ≡ returned tt

-- The message leaves and the commit of its result raises, which is recorded.
pub record Loses {Json : Type 0} (a : Attempt Json) (result : Json) (e : String) : Type 0 where
  pub claims : a.claims ≡ returned tt
  pub loads : a.loads ≡ returned tt
  pub authorizes : a.authorizes ≡ returned true
  pub sends : a.sends ≡ true
  pub runs : a.runs ≡ returned result
  pub stores : a.stores ≡ raised e
  pub records : a.records ≡ returned tt

module _ {Json : Type 0} (c : Setting Json) (r : AgentAction Json) (plan : Json)
    (free : is_claimable r.status ≡ true) (planned : r.plan_snapshot ≡ some plan)
    (unstored : stored_result c.is_null r ≡ none) where
  pub attempt-completes :
      (a : Attempt Json) (d : ApprovalDecision) (t : Task Json) (result answer : Json)
      → is_approval d ≡ true
      → t.row ≡ some r
      → Succeeds a result answer
      → resume_after_decision c a (some d) false t ≡ (
        some resume_completed,
        record {
          row = some (finished_row c a true answer (stored_row c a result (claimed a.now r)));
          sent = message c r ∷ t.sent;
        },
      )
  unfolding resume_after_decision resume_claimable may_claim run_claimed after_call
      approved_tool_result call_tool store_result send take_turn finish stored_result
  attempt-completes a d t result answer go found s =
      rw
        (
          s.claims, found, go, free, planned, s.loads, unstored, s.authorizes, s.sends, s.runs,
          s.stores, s.turns, s.finishes,
        )
        refl

  -- The send whose result is lost.
  result_lost :
      (a : Attempt Json) (d : ApprovalDecision) (t : Task Json) (result : Json) (e : String)
      → is_approval d ≡ true
      → t.row ≡ some r
      → Loses a result e
      → resume_after_decision c a (some d) false t ≡ (
        some resume_failed,
        record { row = some (failed_row c a e (claimed a.now r)); sent = message c r ∷ t.sent },
      )
  unfolding resume_after_decision resume_claimable may_claim run_claimed after_call
      approved_tool_result call_tool store_result send record_failure stored_result
  result_lost a d t result e go found s =
      rw
        (
          s.claims, found, go, free, planned, s.loads, unstored, s.authorizes, s.sends, s.runs,
          s.stores, s.records,
        )
        refl

  retry_failed :
      (a : Attempt Json) (d : ApprovalDecision) (t : Task Json)
      → t.row ≡ some r
      → r.status ≡ failed
      → retry c a false (some d) t ≡ retry_reply c (resume_after_decision c a (some d) false t)
  unfolding retry retry_row takes_over
  retry_failed a d t found f = rw (found, ap is_claimable f, ap is_executing f) refl

module _ {Json : Type 0} (c : Setting Json) (r : AgentAction Json) (plan : Json)
    (free : is_claimable r.status ≡ true) (planned : r.plan_snapshot ≡ some plan)
    (unstored : stored_result c.is_null r ≡ none) where
  -- If the message left but the commit of its result raised, and the failure was recorded, then an
  -- unforced retry whose steps all succeed sends the message a second time.
  pub lost_result-sends_again :
      (first second : Attempt Json) (d : ApprovalDecision) (t : Task Json)
      (result again answer : Json) (e : String)
      → is_approval d ≡ true
      → t.row ≡ some r
      → Loses first result e
      → Succeeds second again answer
      → (retry c second false (some d) (resume_after_decision c first (some d) false t).1).1.sent
        ≡ message c r ∷ message c r ∷ t.sent
  unfolding stored_result
  lost_result-sends_again first second d t result again answer e go found lost good =
      let r' : AgentAction Json = failed_row c first e (claimed first.now r) in
      let t' : Task Json = record { row = some r'; sent = message c r ∷ t.sent } in
      let bare = stored-failed_row c first e (claimed first.now r) ∙ unstored' in
      let done =
        attempt-completes c r' plan refl planned bare second d t' again answer go refl good in
      ap (λ z. (retry c second false (some d) z.1).1.sent)
        (result_lost c r plan free planned unstored first d t result e go found lost)
      ∙ ap (λ z. z.1.sent) (retry_failed c r' plan refl planned bare second d t' refl refl)
      ∙ ap (λ z. (retry_reply c z).1.sent) done
    where
      unstored' : stored_result c.is_null (claimed first.now r) ≡ none
      unstored' = unstored
