-- ===== src/Runtime/Decisions.antt =====
-- server/src/agentic/decisions: what an agent decides, and the check that a decision carries exactly
-- the payload of its type.
use juris_ai.Base.{
  String, Bool, true, false, not, ◌&&◌, Option, none, some, List, [], ◌∷◌, if◌then◌else◌, ◌==◌,
}
use juris_ai.Base.Json.{Json}
use juris_ai.Base.Text.{is_blank, concat, join}
use juris_ai.Base.Result.{Result, ok, ◌>>◌, raise_if}

pub data AgentDecisionType : Type 0 where
  final tool_call delegate need_input fail : AgentDecisionType

abbrev pub decision_value : AgentDecisionType → String
decision_value final = "final"
decision_value tool_call = "tool_call"
decision_value delegate = "delegate"
decision_value need_input = "need_input"
decision_value fail = "fail"

pub record AgentToolCall : Type 0 where
  pub tool_name : String
  pub parameters : Json

pub record AgentDelegation : Type 0 where
  pub target_agent_id : String
  pub parameters : Json

pub record AgentUserInputRequest : Type 0 where
  pub question : String

pub record AgentFailure : Type 0 where
  pub code : String
  pub message : String

pub record AgentDecision : Type 0 where
  pub decision_type : AgentDecisionType
  pub reason : Option String
  pub final_response : Option String
  pub tool_call : Option AgentToolCall
  pub delegation : Option AgentDelegation
  pub user_input : Option AgentUserInputRequest
  pub failure : Option AgentFailure

abbrev pub is_some {ℓ} : {A : Type ℓ} → Option A → Bool
is_some none = false
is_some (some a) = true

-- not text or not text.strip()
abbrev pub no_text : Option String → Bool
no_text none = true
no_text (some text) = is_blank text

-- `payloads`, each with whether it is there.
unfoldable pub payloads : AgentDecision → List (String × Bool)
payloads d =
    ("final_response", is_some d.final_response)
    ∷ ("tool_call", is_some d.tool_call)
    ∷ ("delegation", is_some d.delegation)
    ∷ ("user_input", is_some d.user_input)
    ∷ ("failure", is_some d.failure)
    ∷ []

unfoldable pub unexpected : String → List (String × Bool) → List String
unexpected allowed [] = []
unexpected allowed ((name, present) ∷ rest) =
    let others = unexpected allowed rest in
    if not (name == allowed) && present then name ∷ others else others

abbrev pub is_empty : List String → Bool
is_empty [] = true
is_empty (_ ∷ _) = false

-- The messages of AgentDecisionValidationError are the errors.
unfoldable pub reject_other_payloads : AgentDecision → String → Result String (Unit {0})
unfolding payloads unexpected
reject_other_payloads d allowed =
    let names = unexpected allowed (payloads d) in
    raise_if (not (is_empty names)) (
      concat (
        decision_value d.decision_type
        ∷ " decision contains unexpected payload(s): "
        ∷ join ", " names
        ∷ "."
        ∷ []))

unfoldable pub validate_final : AgentDecision → Result String (Unit {0})
unfolding reject_other_payloads
validate_final d = do
  raise_if (no_text d.final_response) "FINAL decision requires final_response."
  reject_other_payloads d "final_response"

unfoldable pub validate_tool_call : AgentDecision → Result String (Unit {0})
unfolding reject_other_payloads
validate_tool_call d = do
  raise_if (not (is_some d.tool_call)) "TOOL_CALL decision requires tool_call."
  reject_other_payloads d "tool_call"

unfoldable pub validate_delegation : AgentDecision → Result String (Unit {0})
unfolding reject_other_payloads
validate_delegation d = do
  raise_if (not (is_some d.delegation)) "DELEGATE decision requires delegation."
  reject_other_payloads d "delegation"

unfoldable pub validate_user_input : AgentDecision → Result String (Unit {0})
unfolding reject_other_payloads
validate_user_input d = do
  raise_if (not (is_some d.user_input)) "NEED_INPUT decision requires user_input."
  reject_other_payloads d "user_input"

unfoldable pub validate_failure : AgentDecision → Result String (Unit {0})
unfolding reject_other_payloads
validate_failure d = do
  raise_if (not (is_some d.failure)) "FAIL decision requires failure."
  reject_other_payloads d "failure"

-- The validator of a decision's type
unfoldable pub validate_payloads : AgentDecisionType → AgentDecision → Result String (Unit {0})
unfolding validate_final validate_tool_call validate_delegation validate_user_input validate_failure
validate_payloads final d = validate_final d
validate_payloads tool_call d = validate_tool_call d
validate_payloads delegate d = validate_delegation d
validate_payloads need_input d = validate_user_input d
validate_payloads fail d = validate_failure d

-- `validate` returns its argument.
unfoldable pub validate : AgentDecision → Result String AgentDecision
unfolding validate_payloads
validate d = validate_payloads d.decision_type d >> ok d
