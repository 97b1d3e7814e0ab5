-- ===== src/Approvals/Late.antt =====
-- A request after the deadline of an approval that was decided in time:
-- server/src/application/services/approval_lifecycle.py and
-- server/src/application/authorization/approval_lifecycle/verifier.py.
use juris_ai.Base.{
  ◌≤◌, String, Bool, true, false, ◌≡◌, refl, Bool-cases, ≡→==, arith, inl, inr, some, ◌==◌, subst,
  sym, ap, ◌∙◌,
}
use juris_ai.Base.Dict.{Dict, get-put}
use juris_ai.Approvals.Records.{expired, Approval, Store, find, write}
use juris_ai.Approvals.Service.{Env, DecisionRequest, process}
use juris_ai.Approvals.Outcomes.{Owned, IsKeyed}
use juris_ai.Approvals.Decisions.{process-late, expire-found}
use juris_ai.Approvals.Races.{◌⟶◌, ◌⟶*◌, expires}
use juris_ai.Approvals.Once.{as_expired, decision_stays, step-IsKeyed}
use juris_ai.Approvals.Verifier.{AgentAction, is_approved}

module _ {Json : Type 0} where
  is_approved-expired :
      (eq : Json → Json → Bool) (s : Store Json) (actions : Dict (AgentAction Json))
      (id action : String) (payload : Dict Json) (row : Approval Json)
      → find id s ≡ some row
      → row.status ≡ expired
      → is_approved eq s actions id action payload ≡ false
  unfolding is_approved
  is_approved-expired eq s actions id action payload row found lapsed =
      elim (Bool-cases (id == "")) [
        | inl e ↦ rw (e, is_approved) refl
        | inr e ↦ rw (e, found, lapsed, is_approved) refl
      ]

  lapsed_store :
      (id : String) (row : Approval Json) (s : Store Json)
      → find id (write id (as_expired row) s) ≡ some (as_expired row)
  lapsed_store id row s = cc (get-put id id (as_expired row) s.approvals, ≡→== id id refl)

  lapsed-stays :
      (id : String) (s t : Store Json) (row : Approval Json)
      → IsKeyed s
      → s ⟶* t
      → find id s ≡ some (as_expired row)
      → find id t ≡ some (as_expired row)
  lapsed-stays id s t row keyed steps found =
      let (last, (there, remains)) =
        decision_stays id s t (as_expired row) keyed steps found (λ p. cc) in
      elim remains [ inl p ↦ there ∙ ap some p | inr p ↦ there ∙ ap some p ]

  -- In a store whose rows stand under their own ids, the owner's request at or after the deadline
  -- turns the approval to expired if its transaction commits, whatever was decided in time, and
  -- after any further transactions of other requests it is still expired and the verifier refuses
  -- its token.
  pub late_request-unapproves :
      (eq : Json → Json → Bool) (env : Env) (id : String) (request : DecisionRequest Json)
      (user_id : String) (s : Store Json) (row : Approval Json) (actions : Dict (AgentAction Json))
      (action : String) (payload : Dict Json) (t : Store Json)
      → IsKeyed s
      → Owned id user_id s row
      → row.expires_at ≤ env.now
      → env.commits ≡ true
      → (process env id request user_id s).1 ⟶* t
      → (find id (process env id request user_id s).1 ≡ some (record row { status = expired }))
        × (find id t ≡ some (record row { status = expired }))
        × (is_approved eq t actions id action payload ≡ false)
  late_request-unapproves eq env id request user_id s row actions action payload t keyed own over c
        later =
      let late = process-late env id request user_id s row own (ground arith) c in
      let after = lapsed_store id row s in
      let keyed' =
        step-IsKeyed keyed
          (subst (λ r. s ⟶ r.1) (expire-found env id s row own.found c) (expires env id s)) in
      let stays =
        lapsed-stays id (write id (as_expired row) s) t row keyed'
          (subst (λ r. r.1 ⟶* t) late later) after in
      (
        subst (λ r. find id r.1 ≡ some (as_expired row)) (sym late) after,
        stays,
        is_approved-expired eq t actions id action payload (as_expired row) stays refl,
      )
