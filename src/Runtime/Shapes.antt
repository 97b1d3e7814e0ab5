-- ===== src/Runtime/Shapes.antt =====
-- Which decisions server/src/agentic/decisions/validator.py accepts.
use juris_ai.Base.{
  String, Option, none, some, ap, ◌∙◌, String, Bool, true, false, ◌≡◌, refl, ◌↔◌, arith, Bool-cases,
  inl, inr,
}
use juris_ai.Base.Text.{is_blank}
use juris_ai.Base.Result.{Result, ok, err, ◌>>◌}
use juris_ai.Runtime.Decisions.{
  AgentDecision, AgentDecisionType, final, delegate, need_input, is_some, no_text, payloads,
  unexpected, reject_other_payloads, validate_final, validate_tool_call, validate_delegation,
  validate_user_input, validate_failure, validate_payloads, validate,
}

-- Whether a decision has the payload of a type
abbrev pub carries : AgentDecision → AgentDecisionType → Bool
carries d final = is_some d.final_response
carries d AgentDecisionType.tool_call = is_some d.tool_call
carries d delegate = is_some d.delegation
carries d need_input = is_some d.user_input
carries d AgentDecisionType.fail = is_some d.failure

abbrev pub same_type : AgentDecisionType → AgentDecisionType → Bool
same_type final final = true
same_type AgentDecisionType.tool_call AgentDecisionType.tool_call = true
same_type delegate delegate = true
same_type need_input need_input = true
same_type AgentDecisionType.fail AgentDecisionType.fail = true
same_type _ _ = false

-- A decision has the payload of its own type and no other, and a FINAL one has a text.
pub record HasShape (d : AgentDecision) : Type 0 where
  pub only : (kind : AgentDecisionType) → carries d kind ≡ same_type kind d.decision_type
  pub text :
      d.decision_type ≡ final → (t : String) × (d.final_response ≡ some t) × (is_blank t ≡ false)

no_text-false :
    (o : Option String) → no_text o ≡ false → (t : String) × (o ≡ some t) × (is_blank t ≡ false)
no_text-false none h = cc
no_text-false (some t) h = (t, refl, h)

only_payload :
    (d : AgentDecision) (own : AgentDecisionType)
    → validate_payloads own d ≡ ok tt
    → (kind : AgentDecisionType) → carries d kind ≡ same_type kind own
unfolding validate_payloads validate_final validate_tool_call validate_delegation
    validate_user_input validate_failure reject_other_payloads unexpected payloads
only_payload d final e kind = ground arith
only_payload d AgentDecisionType.tool_call e kind = ground arith
only_payload d delegate e kind = ground arith
only_payload d need_input e kind = ground arith
only_payload d AgentDecisionType.fail e kind = ground arith

accepted :
    (d : AgentDecision) (own : AgentDecisionType)
    → ((kind : AgentDecisionType) → carries d kind ≡ same_type kind own)
    → (own ≡ final → no_text d.final_response ≡ false)
    → validate_payloads own d ≡ ok tt
unfolding validate_payloads validate_final validate_tool_call validate_delegation
    validate_user_input validate_failure reject_other_payloads unexpected payloads
accepted d final only text =
    rw
      (
        text refl,
        only AgentDecisionType.tool_call,
        only delegate,
        only need_input,
        only AgentDecisionType.fail,
      )
      refl
accepted d AgentDecisionType.tool_call only text =
    rw
      (
        only final,
        only AgentDecisionType.tool_call,
        only delegate,
        only need_input,
        only AgentDecisionType.fail,
      )
      refl
accepted d delegate only text =
    rw
      (
        only final,
        only AgentDecisionType.tool_call,
        only delegate,
        only need_input,
        only AgentDecisionType.fail,
      )
      refl
accepted d need_input only text =
    rw
      (
        only final,
        only AgentDecisionType.tool_call,
        only delegate,
        only need_input,
        only AgentDecisionType.fail,
      )
      refl
accepted d AgentDecisionType.fail only text =
    rw
      (
        only final,
        only AgentDecisionType.tool_call,
        only delegate,
        only need_input,
        only AgentDecisionType.fail,
      )
      refl

final_text :
    (d : AgentDecision) (own : AgentDecisionType)
    → validate_payloads own d ≡ ok tt
    → own ≡ final
    → no_text d.final_response ≡ false
unfolding validate_payloads validate_final
final_text d final e same = elim (Bool-cases (no_text d.final_response)) [
  | inl blank ↦ cc (rw blank at e)
  | inr text ↦ text
]
final_text d AgentDecisionType.tool_call e same = cc
final_text d delegate e same = cc
final_text d need_input e same = cc
final_text d AgentDecisionType.fail e same = cc

-- The validator of decisions accepts a decision exactly when it has the payload of its type and no
-- other, and a FINAL one has a text that is not blank.
pub validate-HasShape_iff : (d : AgentDecision) → (validate d ≡ ok d) ↔ HasShape d
unfolding validate
validate-HasShape_iff d = (
  λ e.
      let valid = passed d (validate_payloads d.decision_type d) e in
      record {
        only = only_payload d d.decision_type valid;
        text = λ same. no_text-false d.final_response (final_text d d.decision_type valid same);
      },
  λ shape.
      rw
        (accepted d d.decision_type shape.only
          (λ same. let (t, e, filled) = shape.text same in ap no_text e ∙ filled))
        refl,
)
  where
    passed : (d : AgentDecision) (v : Result String (Unit {0})) → (v >> ok d) ≡ ok d → v ≡ ok tt
    passed d (ok tt) e = refl
    passed d (err m) e = cc
