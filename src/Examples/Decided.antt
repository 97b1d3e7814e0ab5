-- ===== src/Examples/Decided.antt =====
-- Approvals, decisions on them and tokens: server/src/application/services/approval_lifecycle.py
-- and server/src/application/authorization/approval_lifecycle/verifier.py. JSON values are texts.
use juris_ai.Base.{
  ◌≤◌, ◌≡◌, refl, ◌↔◌, inl, inr, true, false, String, none, some, [], ◌∷◌, ◌==◌, arith, ℕ, Bool,
  ◌∙◌, Bool-cases, sym, ap, ==→≡,
}
use juris_ai.Base.Dict.{Dict}
use juris_ai.Base.Result.{ok, err}
use juris_ai.Approvals.Records.{waiting, approved, expired, approve, Approval, Store, find}
use juris_ai.Approvals.Service.{
  create, commit_decision, expire, Env, DecisionRequest, process, not_actionable,
}
use juris_ai.Approvals.Outcomes.{Outcome, IsKeyed, decided}
use juris_ai.Approvals.Decisions.{process-Outcome}
use juris_ai.Approvals.Verifier.{pending, AgentAction, is_approved}
use juris_ai.Approvals.Tokens.{Verified, is_approved_iff}
use juris_ai.Approvals.Races.{decisions_of, ◌⟶*◌, done, step, creates, expires, decides}
use juris_ai.Approvals.Once.{empty_store, one_decision, decision_stays, Remains}
use juris_ai.Approvals.Executable.{Executable, validate-ok_iff}
use juris_ai.Approvals.Service.{validate}
use juris_ai.Approvals.Late.{late_request-unapproves}

abbrev asked : Approval String
asked = record {
  id = "apr";
  agent_action_id = "actn";
  status = waiting;
  requested_by = "ada";
  approved_by = none;
  decision_type = none;
  decision_reason = none;
  edited_payload = none;
  expires_at = 100;
  decided_at = none;
}

abbrev answered : Approval String
answered = record asked { status = approved; decision_type = some approve }

abbrev holding : Approval String → Store String
holding row = record { approvals = ("apr", row) ∷ []; log = [] }

abbrev at_time : ℕ → Env
at_time now = record { now = now; new_id = "apr"; commits = true }

abbrev yes : DecisionRequest String
yes = record { decision = approve; edited_payload = none; decision_reason = none }

abbrev proposal : Dict String
proposal = ("to", "court") ∷ ("body", "draft") ∷ []

abbrev sending : Dict (AgentAction String)
sending =
    (
      "actn",
      record {
        status = pending;
        tool_name = some "email_send";
        parameters = proposal;
        plan_snapshot = none;
        result = none;
        updated_at = 0;
      },
    )
    ∷ []

abbrev same : String → String → Bool
same a b = a == b

approve_in_time :
    (process (at_time 50) "apr" yes "ada" (holding asked)).0
    ≡ ok (decided (at_time 50) yes "ada" asked)
unfolding process decided
approve_in_time = refl

approve_twice :
    (process (at_time 50) "apr" yes "ada" (holding answered)).0 ≡ err (not_actionable approved)
unfolding process
approve_twice = refl

token_opens : is_approved same (holding answered) sending "apr" "email_send" proposal ≡ true
unfolding is_approved
token_opens = refl

token_elsewhere : is_approved same (holding answered) sending "apr" "slack_post" proposal ≡ false
unfolding is_approved
token_elsewhere = refl

holding-IsKeyed : (row : Approval String) → row.id ≡ "apr" → IsKeyed (holding row)
holding-IsKeyed row named id other found = elim (Bool-cases ("apr" == id)) [
  | inl e ↦
      let same_row : row ≡ other = cc (rw e at found) in
      sym (ap (λ r. r.id) same_row) ∙ named ∙ ==→≡ "apr" id e
  | inr e ↦ absurd (cc (rw e at found))
]

process-Outcome_example :
    Outcome
      (at_time 50)
      "apr"
      yes
      "ada"
      (holding asked)
      (process (at_time 50) "apr" yes "ada" (holding asked))
process-Outcome_example =
    process-Outcome (at_time 50) "apr" yes "ada" (holding asked) (holding-IsKeyed asked refl)

-- A new approval, and the decision on it.
abbrev born : Store String
unfolding create
born = (create 60 (at_time 40) "actn" "ada" empty_store).1

abbrev closed : Store String
unfolding commit_decision decided
closed = (commit_decision (at_time 50) (decided (at_time 50) yes "ada" asked) "ada" born).1

to_closed : empty_store ⟶* closed
unfolding create born commit_decision closed
to_closed =
    step empty_store born closed (creates 60 (at_time 40) "actn" "ada" empty_store refl)
      (step born closed closed (decides (at_time 50) yes "ada" asked born) (done closed))

one_decision_example :
    (decisions_of "apr" closed.log ≤ 1)
    × ((row : Approval String)
        → find "apr" closed ≡ some row
        → row.status ≡ waiting
        → decisions_of "apr" closed.log ≡ 0)
one_decision_example = one_decision "apr" closed to_closed

logged_once : decisions_of "apr" closed.log ≡ 1
unfolding decisions_of closed born
logged_once = refl

abbrev lapsed : Store String
unfolding expire
lapsed = (expire (at_time 150) "apr" (holding answered)).1

decision_stays_example :
    (row' : Approval String) × ((find "apr" lapsed ≡ some row') × Remains answered row')
unfolding expire lapsed
decision_stays_example =
    decision_stays "apr" (holding answered) lapsed answered (holding-IsKeyed answered refl)
      (step (holding answered) lapsed lapsed (expires (at_time 150) "apr" (holding answered))
        (done lapsed))
      refl (λ p. cc)

-- The store after the late request, and after a second one.
abbrev overdue : Store String
unfolding process
overdue = (process (at_time 150) "apr" yes "ada" (holding answered)).1

late_request-unapproves_example :
    (find "apr" overdue ≡ some (record answered { status = expired }))
    × (find "apr" (expire (at_time 160) "apr" overdue).1
        ≡ some (record answered { status = expired }))
    × (is_approved same (expire (at_time 160) "apr" overdue).1 sending "apr" "email_send" proposal
        ≡ false)
unfolding overdue process
late_request-unapproves_example =
    late_request-unapproves same (at_time 150) "apr" yes "ada" (holding answered) answered sending
      "email_send" proposal (expire (at_time 160) "apr" overdue).1 (holding-IsKeyed answered refl)
      (record { found = refl; keyed = refl; owner = refl }) (omega arith) refl
      (step overdue _ _ (expires (at_time 160) "apr" overdue) (done _))

is_approved_iff_example :
    (is_approved same (holding answered) sending "apr" "email_send" proposal ≡ true)
    ↔ Verified same (holding answered) sending "apr" "email_send" proposal
is_approved_iff_example =
    is_approved_iff same (holding answered) sending "apr" "email_send" proposal

validate-ok_iff_example :
    (validate (at_time 50) "apr" (some "ada") (holding answered) ≡ (ok answered, holding answered))
    ↔ ((find "apr" (holding answered) ≡ some answered)
        × (holding answered ≡ holding answered)
        × Executable (at_time 50) (some "ada") answered)
validate-ok_iff_example =
    validate-ok_iff (at_time 50) "apr" (some "ada") (holding answered) (holding answered) answered

answered_passes : (validate (at_time 50) "apr" (some "ada") (holding answered)).0 ≡ ok answered
unfolding validate
answered_passes = refl
