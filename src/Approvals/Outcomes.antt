-- ===== src/Approvals/Outcomes.antt =====
-- What a decision on an approval promises, stated apart from the code of
-- server/src/application/services/approval_lifecycle.py: the branches, and what each one leaves.
use juris_ai.Base.{◌≤◌, ◌<◌, ◌⊎◌, String, true, false, ◌≡◌, ◌≢◌, Option, none, some}
use juris_ai.Base.Result.{ok, err}
use juris_ai.Base.Dict.{Dict}
use juris_ai.Approvals.Records.{
  ApprovalStatus, waiting, approved, rejected, edited, expired, ApprovalDecision, approve, reject,
  edit, Approval, ComplianceRow, Store, find, write, log_decision,
}
use juris_ai.Approvals.Service.{
  not_found, forbidden, has_expired, not_actionable, failed, Env, DecisionRequest, Reply,
}

-- The status that a decision gives, and the payload that it leaves: only an edit replaces it.
unfoldable pub status_after : ApprovalDecision → ApprovalStatus
status_after approve = approved
status_after reject = rejected
status_after edit = edited

module _ {Json : Type 0} where
  unfoldable pub payload_after :
      ApprovalDecision → Option (Dict Json) → Option (Dict Json) → Option (Dict Json)
  payload_after edit payload old = payload
  payload_after _ payload old = old

  unfoldable pub decided_as :
      ApprovalDecision → Env → DecisionRequest Json → String → Approval Json → Approval Json
  unfolding status_after payload_after
  decided_as decision env request user_id row = record row {
    status = status_after decision;
    approved_by = some user_id;
    decision_type = some decision;
    decision_reason = request.decision_reason;
    edited_payload = payload_after decision request.edited_payload row.edited_payload;
    decided_at = some env.now;
  }

  -- The row as the decision leaves it.
  unfoldable pub decided : Env → DecisionRequest Json → String → Approval Json → Approval Json
  unfolding decided_as
  decided env request user_id row = decided_as request.decision env request user_id row

  unfoldable pub decision_row : DecisionRequest Json → String → Approval Json → ComplianceRow
  decision_row request user_id row = record {
    user_id = user_id;
    agent_action_id = row.agent_action_id;
    approval_id = row.id;
    decision_type = some request.decision;
  }

  -- The row that the request names, which the user requested.
  pub record Owned (id user_id : String) (s : Store Json) (row : Approval Json) : Type 0 where
    pub found : find id s ≡ some row
    pub keyed : row.id ≡ id
    pub owner : row.requested_by ≡ user_id

  -- The branches of a decision, with the reply and the committed store of each.
  pub data Outcome (env : Env) (id : String) (request : DecisionRequest Json) (user_id : String)
      (s : Store Json) : Reply Json (Approval Json) → Type 0 where
    missing : find id s ≡ none → Outcome env id request user_id s (err not_found, s)
    foreign :
        (row : Approval Json)
        → find id s ≡ some row
        → row.requested_by ≢ user_id
        → Outcome env id request user_id s (err forbidden, s)
    late :
        (row : Approval Json)
        → Owned id user_id s row
        → row.expires_at ≤ env.now
        → env.commits ≡ true
        → Outcome env id request user_id s
            (err has_expired, write id (record row { status = expired }) s)
    stale :
        (row : Approval Json)
        → Owned id user_id s row
        → env.now < row.expires_at
        → row.status ≢ waiting
        → Outcome env id request user_id s (err (not_actionable row.status), s)
    uncommitted :
        (row : Approval Json)
        → Owned id user_id s row
        → (row.expires_at ≤ env.now) ⊎ ((env.now < row.expires_at) × (row.status ≡ waiting))
        → env.commits ≡ false
        → Outcome env id request user_id s (err failed, s)
    recorded :
        (row : Approval Json)
        → Owned id user_id s row
        → env.now < row.expires_at
        → row.status ≡ waiting
        → env.commits ≡ true
        → Outcome env id request user_id s (
          ok (decided env request user_id row),
          log_decision
              (decision_row request user_id row)
              (write id (decided env request user_id row) s),
        )

-- Every row stands under its own id.
abbrev pub IsKeyed : {Json : Type 0} → Store Json → Type 0
IsKeyed s = (id : String) (row : _) → find id s ≡ some row → row.id ≡ id
