-- ===== src/Approvals/Service.antt =====
-- ApprovalLifecycleService of server/src/application/services/approval_lifecycle.py. A method
-- returns its result or its exception, beside the committed store: what was not committed when an
-- exception leaves the request is rolled back.
use juris_ai.Base.{ℕ, ◌+◌, String, Bool, true, false, Option, none, some, leb, if◌then◌else◌, ◌==◌}
use juris_ai.Base.Dict.{Dict}
use juris_ai.Base.Result.{Result, ok, err}
use juris_ai.Approvals.Records.{
  ApprovalStatus, waiting, approved, rejected, edited, ApprovalDecision, approve, reject, edit,
  is_waiting, Approval, Store, find, write, save_expired, save_decision, log_decision,
}

-- The exceptions; `failed` is the plain ApprovalError that wraps any other exception.
pub data ApprovalError : Type 0 where
  not_found forbidden has_expired : ApprovalError
  not_actionable not_valid : ApprovalStatus → ApprovalError
  failed : ApprovalError

-- What a request meets: the clock, the id that the database gives to a new row, and whether the
-- transaction that it writes (the insert into the compliance log among them) commits.
-- The readings of the clock within one request are taken as one.
pub record Env : Type 0 where
  pub now : ℕ
  pub new_id : String
  pub commits : Bool

pub record DecisionRequest (Json : Type 0) : Type 0 where
  pub decision : ApprovalDecision
  pub edited_payload : Option (Dict Json)
  pub decision_reason : Option String

abbrev pub is_approved_status : ApprovalStatus → Bool
is_approved_status approved = true
is_approved_status _ = false

abbrev pub Reply : Type 0 → Type 0 → Type 0
Reply Json A = Result ApprovalError A × Store Json

module _ {Json : Type 0} where
  -- Approval.is_expired: datetime.now(UTC) >= self.expires_at
  unfoldable pub is_expired : ℕ → Approval Json → Bool
  is_expired now row = leb row.expires_at now

  unfoldable pub create :
      (ttl_seconds : ℕ)
      → Env
      → (action_id requested_by : String) → Store Json
      → Reply Json (Approval Json)
  create ttl_seconds env action_id requested_by s =
      let row : Approval Json = record {
        id = env.new_id;
        agent_action_id = action_id;
        status = waiting;
        requested_by = requested_by;
        approved_by = none;
        decision_type = none;
        decision_reason = none;
        edited_payload = none;
        expires_at = env.now + ttl_seconds;
        decided_at = none;
      } in
      if env.commits then (ok row, write env.new_id row s) else (err failed, s)

  -- _ensure_owner, where a user is given
  unfoldable pub owner_ok : Option String → Approval Json → Bool
  owner_ok none row = true
  owner_ok (some user_id) row = row.requested_by == user_id

  unfoldable pub get_approval : String → Option String → Store Json → Reply Json (Approval Json)
  unfolding owner_ok
  get_approval id user_id s = elim (find id s) [
    | none ↦ (err not_found, s)
    | some row ↦ if owner_ok user_id row then (ok row, s) else (err forbidden, s)
  ]

  -- _expire, and the exception that its callers raise after it
  unfoldable pub expire : Env → String → Store Json → Reply Json (Approval Json)
  unfolding save_expired
  expire env id s = if env.commits then (err has_expired, save_expired id s) else (err failed, s)

  unfoldable pub validate : Env → String → Option String → Store Json → Reply Json (Approval Json)
  unfolding owner_ok is_expired expire
  validate env id user_id s = elim (find id s) [
    | none ↦ (err not_found, s)
    | some row ↦
        if owner_ok user_id row
        then (if is_expired env.now row
            then expire env id s
            else if is_approved_status row.status
            then (ok row, s)
            else (err (not_valid row.status), s))
        else (err forbidden, s)
  ]

  -- _get_waiting_entity: the owner first, then expiry, then the status.
  unfoldable pub get_waiting : Env → String → String → Store Json → Reply Json (Approval Json)
  unfolding owner_ok is_expired expire
  get_waiting env id user_id s = elim (find id s) [
    | none ↦ (err not_found, s)
    | some row ↦
        if owner_ok (some user_id) row
        then (if is_expired env.now row
            then expire env id s
            else if is_waiting row.status
            then (ok row, s)
            else (err (not_actionable row.status), s))
        else (err forbidden, s)
  ]

  -- What follows the conditional write: the refusal, or the compliance row and the commit.
  unfoldable pub settle :
      Env
      → String
      → Store Json
      → Option (Bool × Approval Json) × Store Json
      → Reply Json (Approval Json)
  settle env user_id s (none, written) = (err failed, s)
  settle env user_id s (some (false, row), written) = (err (not_actionable row.status), s)
  settle env user_id s (some (true, row), written) =
      if env.commits
      then (
        ok row,
        log_decision
            (record {
              user_id = user_id;
              agent_action_id = row.agent_action_id;
              approval_id = row.id;
              decision_type = row.decision_type;
            })
            written,
      )
      else (err failed, s)

  -- _save_decision: the conditional write, the compliance row and the commit, in one transaction.
  unfoldable pub commit_decision :
      Env → Approval Json → String → Store Json → Reply Json (Approval Json)
  unfolding save_decision settle
  commit_decision env entity user_id s = settle env user_id s (save_decision entity s)

  -- What the three decisions set on the entity.
  abbrev pub set_decision :
      Env
      → ApprovalStatus
      → ApprovalDecision
      → String
      → Option String
      → Approval Json
      → Approval Json
  set_decision env status decision user_id reason entity = record entity {
    status = status;
    approved_by = some user_id;
    decision_type = some decision;
    decision_reason = reason;
    decided_at = some env.now;
  }

  -- The entity that get_waiting returned, changed and handed to the write.
  unfoldable pub then_commit :
      Env
      → String
      → (Approval Json → Approval Json)
      → Reply Json (Approval Json)
      → Reply Json (Approval Json)
  unfolding commit_decision
  then_commit env user_id change (err e, s) = (err e, s)
  then_commit env user_id change (ok entity, s) = commit_decision env (change entity) user_id s

  unfoldable pub approve_request :
      Env → String → String → Option String → Store Json → Reply Json (Approval Json)
  unfolding get_waiting then_commit
  approve_request env id user_id reason s =
      then_commit env user_id (set_decision env approved approve user_id reason)
        (get_waiting env id user_id s)

  unfoldable pub reject_request :
      Env → String → String → Option String → Store Json → Reply Json (Approval Json)
  unfolding get_waiting then_commit
  reject_request env id user_id reason s =
      then_commit env user_id (set_decision env rejected reject user_id reason)
        (get_waiting env id user_id s)

  unfoldable pub edit_request :
      Env
      → String
      → String
      → Option (Dict Json)
      → Option String
      → Store Json
      → Reply Json (Approval Json)
  unfolding get_waiting then_commit
  edit_request env id user_id payload reason s =
      then_commit env user_id
        (λ entity. record (set_decision env edited edit user_id reason entity) {
          edited_payload = payload;
        })
        (get_waiting env id user_id s)

  unfoldable pub process_decision :
      ApprovalDecision
      → Env
      → String
      → DecisionRequest Json
      → String
      → Store Json
      → Reply Json (Approval Json)
  unfolding approve_request reject_request edit_request
  process_decision approve env id request user_id s =
      approve_request env id user_id request.decision_reason s
  process_decision reject env id request user_id s =
      reject_request env id user_id request.decision_reason s
  process_decision edit env id request user_id s =
      edit_request env id user_id request.edited_payload request.decision_reason s

  unfoldable pub process :
      Env → String → DecisionRequest Json → String → Store Json → Reply Json (Approval Json)
  unfolding process_decision
  process env id request user_id s = process_decision request.decision env id request user_id s
