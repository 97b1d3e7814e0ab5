-- ===== src/Examples/Resumes.antt =====
-- Attempts of server/src/application/services/hitl_resume.py to carry out one approved message.
use juris_ai.Base.{
  inl, String, arith, ℕ, ◌≤◌, ◌≡◌, refl, true, false, none, some, List, [], ◌∷◌, length, leb,
}
use juris_ai.Base.Dict.{Dict, get}
use juris_ai.Base.Result.{err}
use juris_ai.Approvals.Edits.{approved_value}
use juris_ai.Approvals.Records.{approve}
use juris_ai.Approvals.Verifier.{AgentAction, pending, executing}
use juris_ai.Resume.Task.{
  returned, raised, stopped, Attempt, Setting, Task, is_stale, stored_result,
}
use juris_ai.Resume.Run.{
  in_progress, resume_completed, resume_failed, not_allowed, needs_confirmation,
  resume_after_decision, retry,
}
use juris_ai.Resume.Kept.{IsReliable}
use juris_ai.Resume.Once.{Request, decided, again, serve_all, sent_once}
use juris_ai.Resume.Completes.{completed_task, resume_completes}
use juris_ai.Resume.Ends.{
  message, Succeeds, Loses, resume_busy, resume_no_snapshot, lost_result-sends_again,
}

-- JSON values are numbers, and 0 is null.
abbrev setting : Setting ℕ
setting = record {
  is_null = λ n. leb n 0;
  refusal = 7;
  text = λ s. 9;
  stale = 60;
  approval_id = "apr";
  edited = none;
}

abbrev good : ℕ → Attempt ℕ
good now = record {
  now = now;
  claims = returned tt;
  loads = returned tt;
  restores = returned tt;
  authorizes = returned true;
  sends = true;
  runs = returned 5;
  stores = returned tt;
  turns = returned 6;
  finishes = returned tt;
  records = returned tt;
}

-- The message leaves, and the commit of its result raises.
abbrev lossy : ℕ → Attempt ℕ
lossy now = record (good now) { stores = raised "OperationalError" }

-- The process stops after the message has left.
abbrev halted : ℕ → Attempt ℕ
halted now = record (good now) { runs = stopped }

abbrev waiting_row : AgentAction ℕ
waiting_row = record {
  status = pending;
  tool_name = some "email_send";
  parameters = ("to", 3) ∷ [];
  plan_snapshot = some 1;
  result = none;
  updated_at = 0;
}

abbrev busy_row : AgentAction ℕ
busy_row = record waiting_row { status = executing; updated_at = 100 }

abbrev bare_row : AgentAction ℕ
bare_row = record waiting_row { plan_snapshot = none }

abbrev task_of : AgentAction ℕ → Task ℕ
task_of row = record { row = some row; sent = [] }

good-IsReliable : (now : ℕ) → IsReliable setting (good now)
good-IsReliable now = record {
  stores_once = λ e p. cc;
  raises_unsent = λ e p. cc;
  returns_result = λ v p. let same : 5 ≡ v = cc in rw⁻¹ same refl;
  refuses = refl;
}

halted-IsReliable : (now : ℕ) → IsReliable setting (halted now)
halted-IsReliable now = record {
  stores_once = λ e p. cc;
  raises_unsent = λ e p. cc;
  returns_result = λ v p. cc;
  refuses = refl;
}

-- A process that stops in the call, a retry, and a second one.
abbrev attempts : List (Request ℕ)
attempts = decided (halted 10) ∷ again (good 20) ∷ again (good 200) ∷ []

sent_once_example : length (serve_all setting approve attempts (task_of waiting_row)).sent ≤ 1
sent_once_example =
    sent_once setting approve attempts (task_of waiting_row)
      (halted-IsReliable 10, (good-IsReliable 20, (good-IsReliable 200, tt))) refl

serve_all-attempts :
    (serve_all setting approve attempts (task_of waiting_row)).sent ≡ (("to", 3) ∷ []) ∷ []
unfolding serve_all retry
serve_all-attempts = refl

-- The unforced retry of a stale action asks, since the message may have left.
retry-halted :
    (retry setting
      (good 200)
      false
      (some approve)
      (resume_after_decision setting (halted 10) (some approve) false (task_of waiting_row)).1).0
    ≡ err needs_confirmation
unfolding retry resume_after_decision
retry-halted = refl

resume_busy_example :
    (resume_after_decision setting (good 130) (some approve) true (task_of busy_row)
      ≡ (some in_progress, task_of busy_row))
    × (retry setting (good 130) true (some approve) (task_of busy_row)
        ≡ (err not_allowed, task_of busy_row))
unfolding is_stale
resume_busy_example =
    resume_busy setting (good 130) approve (task_of busy_row) busy_row refl refl true refl refl

abbrev left : Task ℕ
left = record { row = some (record bare_row { status = executing; updated_at = 10 }); sent = [] }

resume_no_snapshot_example :
    (resume_after_decision setting (good 10) (some approve) false (task_of bare_row)
      ≡ (some resume_failed, left))
    × (resume_after_decision setting (good 60) (some approve) true left ≡ (some in_progress, left))
    × (retry setting (good 60) true (some approve) left ≡ (err not_allowed, left))
resume_no_snapshot_example =
    resume_no_snapshot setting (good 10) (good 60) approve approve true (task_of bare_row) bare_row
      refl (inl refl) refl refl refl (omega arith)

good-Succeeds : (now : ℕ) → Succeeds (good now) 5 6
good-Succeeds now = record {
  claims = refl;
  loads = refl;
  restores = refl;
  authorizes = refl;
  sends = refl;
  runs = refl;
  stores = refl;
  turns = refl;
  finishes = refl;
}

lossy-Loses : Loses (lossy 10) 5 "OperationalError"
lossy-Loses = record {
  claims = refl;
  loads = refl;
  authorizes = refl;
  sends = refl;
  runs = refl;
  stores = refl;
  records = refl;
}

resume_completes_example :
    (p : Dict ℕ) × ((k : String) → get k p ≡ approved_value (("to", 3) ∷ []) none k)
    × (resume_after_decision setting (good 10) (some approve) false (task_of waiting_row) ≡ (
      some resume_completed,
      completed_task setting (good 10) waiting_row (task_of waiting_row) 5 6 p,
    ))
    × ((resume_after_decision setting
          (good 200)
          (some approve)
          true
          (completed_task setting (good 10) waiting_row (task_of waiting_row) 5 6 p)).1
        ≡ completed_task setting (good 10) waiting_row (task_of waiting_row) 5 6 p)
    × (retry setting
          (good 200)
          true
          (some approve)
          (completed_task setting (good 10) waiting_row (task_of waiting_row) 5 6 p)
        ≡ (
          err not_allowed,
          completed_task setting (good 10) waiting_row (task_of waiting_row) 5 6 p,
        ))
unfolding stored_result
resume_completes_example =
    resume_completes setting (good 10) (good 200) approve approve true (task_of waiting_row)
      waiting_row 1 5 6 refl (inl refl) refl refl (λ p. cc) (good-Succeeds 10)

lost_result-sends_again_example :
    (retry setting
      (good 20)
      false
      (some approve)
      (resume_after_decision setting
        (lossy 10)
        (some approve)
        false
        (task_of waiting_row)).1).1.sent
    ≡ message setting waiting_row ∷ message setting waiting_row ∷ []
unfolding stored_result
lost_result-sends_again_example =
    lost_result-sends_again setting waiting_row 1 refl refl refl (lossy 10) (good 20) approve
      (task_of waiting_row) 5 5 6 "OperationalError" refl refl lossy-Loses (good-Succeeds 20)
