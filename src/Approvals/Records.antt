-- ===== src/Approvals/Records.antt =====
-- The rows of `approvals` and of the compliance log, and the statements that the repositories run
-- on them: adapters/persistence/sqlalchemy/models/approval.py, repositories/approval.py. A row is
-- found by its id. Times are readings of the clock.
use juris_ai.Base.{ℕ, String, Bool, true, false, Option, none, some, List, ◌∷◌, if◌then◌else◌}
use juris_ai.Base.Dict.{Dict, get, put}

pub data ApprovalStatus : Type 0 where
  waiting approved rejected edited expired : ApprovalStatus

pub data ApprovalDecision : Type 0 where
  approve reject edit : ApprovalDecision

abbrev pub is_waiting : ApprovalStatus → Bool
is_waiting waiting = true
is_waiting _ = false

-- The values of the payload are JSON, which no modelled code looks into.
pub record Approval (Json : Type 0) : Type 0 where
  pub id : String
  pub agent_action_id : String
  pub status : ApprovalStatus
  pub requested_by : String
  pub approved_by : Option String
  pub decision_type : Option ApprovalDecision
  pub decision_reason : Option String
  pub edited_payload : Option (Dict Json)
  pub expires_at : ℕ
  pub decided_at : Option ℕ

-- The payload of a HITL_APPROVAL_DECISION row of the compliance log.
pub record ComplianceRow : Type 0 where
  pub user_id : String
  pub agent_action_id : String
  pub approval_id : String
  pub decision_type : Option ApprovalDecision

pub record Store (Json : Type 0) : Type 0 where
  pub approvals : Dict (Approval Json)
  pub log : List ComplianceRow

module _ {Json : Type 0} where
  abbrev pub find : String → Store Json → Option (Approval Json)
  find id s = get id s.approvals

  abbrev pub write : String → Approval Json → Store Json → Store Json
  write id row s = record s { approvals = put id row s.approvals }

  -- ApprovalRepository.save of an entity whose status was set to EXPIRED: the flush writes the
  -- column, whatever the row holds by now.
  unfoldable pub save_expired : String → Store Json → Store Json
  save_expired id s = elim (find id s) [
    | none ↦ s
    | some row ↦ write id (record row { status = expired }) s
  ]

  -- The columns that a decision writes.
  abbrev pub decide_row : Approval Json → Approval Json → Approval Json
  decide_row entity row = record row {
    status = entity.status;
    approved_by = entity.approved_by;
    decision_type = entity.decision_type;
    decision_reason = entity.decision_reason;
    edited_payload = entity.edited_payload;
    decided_at = entity.decided_at;
  }

  -- ApprovalRepository.save_decision: one UPDATE … WHERE id = … AND status = WAITING. What it
  -- returns is whether it found a row, beside the entity reloaded from the table; a row that is
  -- gone fails the reload.
  unfoldable pub save_decision :
      Approval Json → Store Json → Option (Bool × Approval Json) × Store Json
  save_decision entity s = elim (find entity.id s) [
    | none ↦ (none, s)
    | some row ↦
        if is_waiting row.status
        then (some (true, decide_row entity row), write entity.id (decide_row entity row) s)
        else (some (false, row), s)
  ]

  abbrev pub log_decision : ComplianceRow → Store Json → Store Json
  log_decision row s = record s { log = row ∷ s.log }
