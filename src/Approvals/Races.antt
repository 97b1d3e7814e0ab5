-- ===== src/Approvals/Races.antt =====
-- Requests of several workers on the same approvals. A request reads a row and writes later, so
-- that what it writes comes from a row as it once was: server/src/application/services/
-- approval_lifecycle.py, server/src/adapters/persistence/sqlalchemy/repositories/approval.py.
use juris_ai.Base.{
  ℕ, suc, String, Bool, true, false, ◌≡◌, refl, sym, ap, subst, ◌∙◌, Option, none, some, List, [],
  ◌∷◌, ◌==◌, if◌then◌else◌, Bool-cases, Option-cases, String-cases, ≡→==, ≢→==, inl, inr,
}
use juris_ai.Base.Dict.{get-put}
use juris_ai.Approvals.Records.{
  expired, ApprovalDecision, approve, reject, edit, is_waiting, Approval, ComplianceRow, Store,
  find, write, save_expired, save_decision, decide_row, log_decision,
}
use juris_ai.Approvals.Service.{Env, DecisionRequest, settle, commit_decision, create, expire}
use juris_ai.Approvals.Outcomes.{decided_as, decided, status_after, IsKeyed}
use juris_ai.Approvals.Decisions.{
  expire-missing, expire-found, expire-uncommitted, save_decision-waiting, save_decision-refused,
}

-- The rows of the compliance log that record a decision on an approval.
unfoldable pub decisions_of : String → List ComplianceRow → ℕ
decisions_of id [] = 0
decisions_of id (row ∷ rows) =
    let rest = decisions_of id rows in if row.approval_id == id then suc rest else rest

module _ {Json : Type 0} where
  -- One committed transaction of some request.
  infix 4 ◌⟶◌
  pub data ◌⟶◌ : Store Json → Store Json → Type 0 where
    -- A decision taken on a row that was read at any time before, under any clock.
    decides :
        (env : Env) (request : DecisionRequest Json) (user_id : String) (read : Approval Json)
        (s : Store Json)
        → s ⟶ (commit_decision env (decided env request user_id read) user_id s).1
    -- The expiry of an approval, however it stood when the request read it.
    expires : (env : Env) (id : String) (s : Store Json) → s ⟶ (expire env id s).1
    -- A new approval, under an id that no row and no decision has.
    creates :
        (ttl_seconds : ℕ) (env : Env) (action_id requested_by : String) (s : Store Json)
        → find env.new_id s ≡ none
        → s ⟶ (create ttl_seconds env action_id requested_by s).1

  infix 4 ◌⟶*◌
  pub data ◌⟶*◌ : Store Json → Store Json → Type 0 where
    done : (s : Store Json) → s ⟶* s
    step : (s t u : Store Json) → s ⟶ t → t ⟶* u → s ⟶* u

  -- What a transaction does to the row and the log of one approval.
  pub data Effect (id : String) (s t : Store Json) : Type 0 where
    same : find id t ≡ find id s → decisions_of id t.log ≡ decisions_of id s.log → Effect id s t
    lapses :
        (row : Approval Json)
        → find id s ≡ some row
        → find id t ≡ some (record row { status = expired })
        → decisions_of id t.log ≡ decisions_of id s.log
        → Effect id s t
    decision :
        (row row' : Approval Json)
        → find id s ≡ some row
        → is_waiting row.status ≡ true
        → find id t ≡ some row'
        → row'.id ≡ row.id
        → is_waiting row'.status ≡ false
        → decisions_of id t.log ≡ suc (decisions_of id s.log)
        → Effect id s t
    appears :
        (row : Approval Json)
        → find id s ≡ none
        → find id t ≡ some row
        → row.id ≡ id
        → decisions_of id t.log ≡ decisions_of id s.log
        → Effect id s t

  decided_id :
      (env : Env) (request : DecisionRequest Json) (user_id : String) (read : Approval Json)
      → (decided env request user_id read).id ≡ read.id
  unfolding decided decided_as
  decided_id env request user_id read = refl

  decided-is_waiting :
      (env : Env) (request : DecisionRequest Json) (user_id : String) (read : Approval Json)
      → is_waiting (decided env request user_id read).status ≡ false
  unfolding decided decided_as status_after
  decided-is_waiting env request user_id read = go request.decision
    where
      go : (d : ApprovalDecision) → is_waiting (status_after d) ≡ false
      go approve = refl
      go reject = refl
      go edit = refl

  settle-uncommitted :
      (env : Env) (user_id : String) (s : Store Json)
      (reply : Option (Bool × Approval Json) × Store Json)
      → env.commits ≡ false
      → (settle env user_id s reply).1 ≡ s
  unfolding settle
  settle-uncommitted env user_id s (none, written) c = refl
  settle-uncommitted env user_id s (some (false, row), written) c = refl
  settle-uncommitted env user_id s (some (true, row), written) c = rw c refl

  -- The store after a decision that found the row waiting.
  pub recorded_store :
      (env : Env) (entity row : Approval Json) (user_id : String) (s : Store Json)
      → find entity.id s ≡ some row
      → is_waiting row.status ≡ true
      → env.commits ≡ true
      → (commit_decision env entity user_id s).1
        ≡ log_decision
            (record {
              user_id = user_id;
              agent_action_id = row.agent_action_id;
              approval_id = row.id;
              decision_type = entity.decision_type;
            })
            (write entity.id (decide_row entity row) s)
  unfolding commit_decision settle
  recorded_store env entity row user_id s e w c =
      ap (λ r. (settle env user_id s r).1) (save_decision-waiting entity row s e w) ∙ rw c refl

  refused_store :
      (env : Env) (entity row : Approval Json) (user_id : String) (s : Store Json)
      → find entity.id s ≡ some row
      → is_waiting row.status ≡ false
      → (commit_decision env entity user_id s).1 ≡ s
  unfolding commit_decision settle
  refused_store env entity row user_id s e w =
      ap (λ r. (settle env user_id s r).1) (save_decision-refused entity row s e w)

  -- A write of any row that is not waiting, under the condition of save_decision.
  commit_decision-Effect :
      (env : Env) (entity : Approval Json) (user_id : String) (s : Store Json) (id : String)
      → IsKeyed s
      → is_waiting entity.status ≡ false
      → Effect id s (commit_decision env entity user_id s).1
  unfolding commit_decision settle save_decision decisions_of
  commit_decision-Effect env entity user_id s id keyed decided' =
      elim (Option-cases (find entity.id s)) [
        | inl e ↦ rw (e, save_decision) (same refl refl)
        | inr (row, e) ↦ elim (Bool-cases (is_waiting row.status)) [
          | inr w ↦
              subst (Effect id s) (sym (refused_store env entity row user_id s e w))
                (same refl refl)
          | inl w ↦ elim (Bool-cases env.commits) [
            | inr c ↦
                subst (Effect id s)
                  (sym (settle-uncommitted env user_id s (save_decision entity s) c))
                  (same refl refl)
            | inl c ↦
                subst (Effect id s) (sym (recorded_store env entity row user_id s e w c))
                  (elim (String-cases entity.id id) [
                    | inl p ↦
                        let found : find id s ≡ some row = subst (λ j. find j s ≡ some row) p e in
                        decision row (decide_row entity row) found w
                          (cc (
                            get-put entity.id id (decide_row entity row) s.approvals,
                            ≡→== entity.id id p,
                          ))
                          refl decided' (rw (≡→== row.id id (keyed id row found)) refl)
                    | inr (differ, q) ↦
                        same (cc (get-put entity.id id (decide_row entity row) s.approvals, q))
                          (rw (≢→== row.id id (λ r. differ (sym (keyed entity.id row e) ∙ r))) refl)
                  ])
          ]
        ]
      ]

  expire-Effect :
      (env : Env) (approval_id : String) (s : Store Json) (id : String)
      → Effect id s (expire env approval_id s).1
  unfolding expire save_expired
  expire-Effect env approval_id s id = elim (Bool-cases env.commits) [
    | inr c ↦
        subst (λ r. Effect id s r.1) (sym (expire-uncommitted env approval_id s c)) (same refl refl)
    | inl c ↦ elim (Option-cases (find approval_id s)) [
      | inl e ↦
          subst (λ r. Effect id s r.1) (sym (expire-missing env approval_id s e c)) (same refl refl)
      | inr (row, e) ↦
          subst (λ r. Effect id s r.1) (sym (expire-found env approval_id s row e c))
            (elim (String-cases approval_id id) [
              | inl p ↦
                  lapses row (subst (λ j. find j s ≡ some row) p e)
                    (cc (
                      get-put approval_id id (record row { status = expired }) s.approvals,
                      ≡→== approval_id id p,
                    ))
                    refl
              | inr (_, q) ↦
                  same
                    (cc (get-put approval_id id (record row { status = expired }) s.approvals, q))
                    refl
            ])
    ]
  ]

  write-Effect :
      (id new_id : String) (row : Approval Json) (s : Store Json)
      → find new_id s ≡ none
      → row.id ≡ new_id
      → Effect id s (write new_id row s)
  write-Effect id new_id row s fresh named = elim (String-cases new_id id) [
    | inl p ↦
        appears row (subst (λ j. find j s ≡ none) p fresh)
          (cc (get-put new_id id row s.approvals, ≡→== new_id id p)) (named ∙ p) refl
    | inr (_, q) ↦ same (cc (get-put new_id id row s.approvals, q)) refl
  ]

  create-Effect :
      (ttl_seconds : ℕ) (env : Env) (action_id requested_by : String) (s : Store Json) (id : String)
      → find env.new_id s ≡ none
      → Effect id s (create ttl_seconds env action_id requested_by s).1
  unfolding create
  create-Effect ttl_seconds env action_id requested_by s id fresh = elim (Bool-cases env.commits) [
    | inl c ↦ rw (c, create) (write-Effect id env.new_id _ s fresh refl)
    | inr c ↦ rw (c, create) (same refl refl)
  ]

  pub step-Effect : {s t : Store Json} (id : String) → IsKeyed s → s ⟶ t → Effect id s t
  step-Effect id keyed (decides env request user_id read s) =
      commit_decision-Effect env (decided env request user_id read) user_id s id keyed
        (decided-is_waiting env request user_id read)
  step-Effect id keyed (expires env approval_id s) = expire-Effect env approval_id s id
  step-Effect id keyed (creates ttl env action user s fresh) =
      create-Effect ttl env action user s id fresh

  pub Effect-IsKeyed : {s t : Store Json} → IsKeyed s → ((id : String) → Effect id s t) → IsKeyed t
  Effect-IsKeyed keyed effect id row found = elim (effect id) [
    | same e _ ↦ keyed id row (sym e ∙ found)
    | lapses old e e' _ ↦ keyed_as (keyed id old e) (sym e' ∙ found)
    | decision old new e w e' n w' l ↦ keyed_as (n ∙ keyed id old e) (sym e' ∙ found)
    | appears new e e' n l ↦ keyed_as n (sym e' ∙ found)
  ]
    where
      keyed_as : {new : Approval Json} → new.id ≡ id → some new ≡ some row → row.id ≡ id
      keyed_as n e = cc
