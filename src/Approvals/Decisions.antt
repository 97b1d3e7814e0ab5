-- ===== src/Approvals/Decisions.antt =====
-- What a decision on an approval does, on every branch:
-- server/src/application/services/approval_lifecycle.py.
use juris_ai.Base.{
  if◌then◌else◌, ◌<◌, inl, inr, String, true, false, ◌≡◌, refl, none, some, leb, Bool-cases, sym,
  ap, subst, ◌==◌, Option-cases, ==→≡, ≡→==, arith,
}
use juris_ai.Base.Result.{ok, err}
use juris_ai.Approvals.Records.{
  ApprovalStatus, waiting, approved, rejected, edited, expired, ApprovalDecision, approve, reject,
  edit, is_waiting, Approval, Store, find, write, save_decision, decide_row, log_decision,
  save_expired,
}
use juris_ai.Approvals.Service.{
  has_expired, not_actionable, failed, Env, DecisionRequest, is_expired, owner_ok, expire,
  get_waiting, settle, commit_decision, then_commit, process_decision, process,
}
use juris_ai.Approvals.Outcomes.{
  decided_as, decided, decision_row, Owned, Outcome, missing, foreign, late, stale, uncommitted,
  recorded, IsKeyed,
}

pub is_waiting→≡ : (x : ApprovalStatus) → is_waiting x ≡ true → x ≡ waiting
is_waiting→≡ waiting e = refl
is_waiting→≡ approved e = cc
is_waiting→≡ rejected e = cc
is_waiting→≡ edited e = cc
is_waiting→≡ expired e = cc

module _ {Json : Type 0} where
  process_lem :
      (d : ApprovalDecision) (env : Env) (id : String) (request : DecisionRequest Json)
      (user_id : String) (s : Store Json)
      → process_decision d env id request user_id s
        ≡ then_commit env user_id (decided_as d env request user_id) (get_waiting env id user_id s)
  unfolding process_decision decided_as
  process_lem approve env id request user_id s = refl
  process_lem reject env id request user_id s = refl
  process_lem edit env id request user_id s = refl

  -- The owner's request meets a clock and a status.
  get_waiting-Owned :
      (env : Env) (id user_id : String) (s : Store Json) (row : Approval Json)
      → Owned id user_id s row
      → get_waiting env id user_id s ≡ (
          if is_expired env.now row
          then expire env id s
          else if is_waiting row.status
          then (ok row, s)
          else (err (not_actionable row.status), s))
  unfolding get_waiting owner_ok
  get_waiting-Owned env id user_id s row own =
      rw (own.found, ≡→== row.requested_by user_id own.owner, get_waiting) refl

  pub expire-found :
      (env : Env) (id : String) (s : Store Json) (row : Approval Json)
      → find id s ≡ some row
      → env.commits ≡ true
      → expire env id s ≡ (err has_expired, write id (record row { status = expired }) s)
  unfolding expire save_expired
  expire-found env id s row found c = rw (c, found, save_expired) refl

  pub expire-missing :
      (env : Env) (id : String) (s : Store Json)
      → find id s ≡ none
      → env.commits ≡ true
      → expire env id s ≡ (err has_expired, s)
  unfolding expire save_expired
  expire-missing env id s absent c = rw (c, absent, save_expired) refl

  pub expire-uncommitted :
      (env : Env) (id : String) (s : Store Json)
      → env.commits ≡ false
      → expire env id s ≡ (err failed, s)
  unfolding expire
  expire-uncommitted env id s c = rw c refl

  pub save_decision-waiting :
      (entity row : Approval Json) (s : Store Json)
      → find entity.id s ≡ some row
      → is_waiting row.status ≡ true
      → save_decision entity s
        ≡ (some (true, decide_row entity row), write entity.id (decide_row entity row) s)
  unfolding save_decision
  save_decision-waiting entity row s found w = rw (found, w, save_decision) refl

  pub save_decision-refused :
      (entity row : Approval Json) (s : Store Json)
      → find entity.id s ≡ some row
      → is_waiting row.status ≡ false
      → save_decision entity s ≡ (some (false, row), s)
  unfolding save_decision
  save_decision-refused entity row s found w = rw (found, w, save_decision) refl

  -- The write of a decision taken on the row that the table holds.
  commit_decision-waiting :
      (env : Env) (d : ApprovalDecision) (request : DecisionRequest Json) (user_id : String)
      (s : Store Json) (row : Approval Json)
      → find row.id s ≡ some row
      → is_waiting row.status ≡ true
      → commit_decision env (decided_as d env request user_id row) user_id s ≡ (
          if env.commits
          then (
            ok (decided_as d env request user_id row),
            log_decision
                (record {
                  user_id = user_id;
                  agent_action_id = row.agent_action_id;
                  approval_id = row.id;
                  decision_type = some d;
                })
                (write row.id (decided_as d env request user_id row) s),
          )
          else (err failed, s))
  unfolding commit_decision settle decided_as
  commit_decision-waiting env d request user_id s row found w =
      ap (settle env user_id s)
        (save_decision-waiting (decided_as d env request user_id row) row s found w)

  commit_decision-Outcome :
      (env : Env) (id : String) (request : DecisionRequest Json) (user_id : String) (s : Store Json)
      (row : Approval Json)
      → Owned id user_id s row
      → env.now < row.expires_at
      → is_waiting row.status ≡ true
      → Outcome env id request user_id s
          (commit_decision env (decided env request user_id row) user_id s)
  unfolding decided decision_row
  commit_decision-Outcome env id request user_id s row own in_time w =
      let written =
        commit_decision-waiting env request.decision request user_id s row
          (subst (λ j. find j s ≡ some row) (sym own.keyed) own.found) w in
      elim (Bool-cases env.commits) [
        | inl c ↦
            subst (Outcome env id request user_id s) (cc (written, c, own.keyed))
              (recorded row own in_time (is_waiting→≡ _ w) c)
        | inr c ↦
            subst (Outcome env id request user_id s) (cc (written, c))
              (uncommitted row own (inr (in_time, is_waiting→≡ _ w)) c)
      ]

  -- The request of an owner, once the row is found.
  owned_outcome :
      (env : Env) (id : String) (request : DecisionRequest Json) (user_id : String) (s : Store Json)
      (row : Approval Json)
      → Owned id user_id s row
      → Outcome env id request user_id s (process env id request user_id s)
  unfolding process is_expired then_commit decided
  owned_outcome env id request user_id s row own =
      rw
        (
          process_lem request.decision env id request user_id s,
          get_waiting-Owned env id user_id s row own,
        )
        (elim (Bool-cases (leb row.expires_at env.now)) [
          | inl over ↦ elim (Bool-cases env.commits) [
            | inl c ↦
                rw (over, expire-found env id s row own.found c) (late row own (ground arith) c)
            | inr c ↦
                rw (over, expire-uncommitted env id s c)
                  (uncommitted row own (inl (ground arith)) c)
          ]
          | inr in_time ↦ elim (Bool-cases (is_waiting row.status)) [
            | inl w ↦
                rw (in_time, w)
                  (commit_decision-Outcome env id request user_id s row own (ground arith) w)
            | inr w ↦ rw (in_time, w) (stale row own (ground arith) (λ p. cc (rw p at w)))
          ]
        ])

  -- The owner's request after the deadline, whatever was decided before it.
  pub process-late :
      (env : Env) (id : String) (request : DecisionRequest Json) (user_id : String) (s : Store Json)
      (row : Approval Json)
      → Owned id user_id s row
      → leb row.expires_at env.now ≡ true
      → env.commits ≡ true
      → process env id request user_id s
        ≡ (err has_expired, write id (record row { status = expired }) s)
  unfolding process is_expired then_commit
  process-late env id request user_id s row own over c =
      rw
        (
          process_lem request.decision env id request user_id s,
          get_waiting-Owned env id user_id s row own,
          over,
          expire-found env id s row own.found c,
        )
        refl

  -- In a store whose rows stand under their own ids, a decision request takes the branch that its
  -- row, its user, the clock and the commit select: the row is missing, another user requested it,
  -- its deadline has passed (and only then it turns to expired), it is no longer waiting, the
  -- transaction fails, or the decision is written on the row with one entry in the compliance log;
  -- a refused request changes nothing else.
  pub process-Outcome :
      (env : Env) (id : String) (request : DecisionRequest Json) (user_id : String) (s : Store Json)
      → IsKeyed s
      → Outcome env id request user_id s (process env id request user_id s)
  unfolding process then_commit get_waiting owner_ok
  process-Outcome env id request user_id s keyed = elim (Option-cases (find id s)) [
    | inl e ↦ rw (process_lem request.decision env id request user_id s, e, get_waiting) (missing e)
    | inr (row, e) ↦ elim (Bool-cases (row.requested_by == user_id)) [
      | inl own ↦
          owned_outcome env id request user_id s row
            (record { found = e; keyed = keyed id row e; owner = ==→≡ _ _ own })
      | inr other ↦
          rw (process_lem request.decision env id request user_id s, e, other, get_waiting)
            (foreign row e (λ p. cc (≡→== _ _ p, other)))
    ]
  ]
