-- ===== src/Approvals/Once.antt =====
-- The decisions on one approval under interleaved requests:
-- server/src/application/services/approval_lifecycle.py, save_decision of
-- server/src/adapters/persistence/sqlalchemy/repositories/approval.py.
use juris_ai.Base.{
  ℕ, ◌+◌, ◌≤◌, String, true, false, ◌≡◌, ◌≢◌, refl, sym, ap, subst, ◌∙◌, Option, none, some, [],
  if◌then◌else◌, Bool-cases, ◌⊎◌, arith, inl, inr,
}
use juris_ai.Approvals.Records.{
  waiting, expired, is_waiting, Approval, Store, find, write, log_decision,
}
use juris_ai.Approvals.Service.{Env, DecisionRequest}
use juris_ai.Approvals.Outcomes.{decided_as, decided, status_after, IsKeyed}
use juris_ai.Approvals.Decisions.{is_waiting→≡, expire-found}
use juris_ai.Approvals.Service.{Reply, process}
use juris_ai.Approvals.Outcomes.{
  decision_row, Outcome, missing, foreign, late, stale, uncommitted, recorded,
}
use juris_ai.Approvals.Decisions.{process-Outcome, expire-found}
use juris_ai.Approvals.Races.{recorded_store, decides, expires}
use juris_ai.Approvals.Races.{
  decisions_of, ◌⟶◌, ◌⟶*◌, done, step, Effect, same, lapses, decision, appears, step-Effect,
  Effect-IsKeyed,
}

module _ {Json : Type 0} where
  -- How many decisions the row of an approval still admits.
  unfoldable pub open_for : Option (Approval Json) → ℕ
  open_for none = 1
  open_for (some row) = if is_waiting row.status then 1 else 0

  abbrev pub weight : String → Store Json → ℕ
  weight id s = decisions_of id s.log + open_for (find id s)

  open_for-waiting :
      (o : Option (Approval Json)) (row : Approval Json)
      → o ≡ some row
      → is_waiting row.status ≡ true
      → open_for o ≡ 1
  unfolding open_for
  open_for-waiting o row e w = ap open_for e ∙ rw w refl

  open_for-decided :
      (o : Option (Approval Json)) (row : Approval Json)
      → o ≡ some row
      → is_waiting row.status ≡ false
      → open_for o ≡ 0
  unfolding open_for
  open_for-decided o row e w = ap open_for e ∙ rw w refl

  open_for_le : (o : Option (Approval Json)) → open_for o ≤ 1
  unfolding open_for
  open_for_le none = omega arith
  open_for_le (some row) = elim (Bool-cases (is_waiting row.status)) [
    | inl w ↦ rw w (omega arith)
    | inr w ↦ rw w (omega arith)
  ]

  Effect-weight : {s t : Store Json} (id : String) → Effect id s t → weight id t ≤ weight id s
  unfolding open_for
  Effect-weight {s} {t} id (same e l) = omega (arith, l, ap open_for e)
  Effect-weight {s} {t} id (lapses row e e' l) =
      omega (arith, l, open_for-decided (find id t) _ e' refl)
  Effect-weight {s} {t} id (decision row row' e w e' n w' l) =
      omega
        (arith, l, open_for-waiting (find id s) row e w, open_for-decided (find id t) row' e' w')
  Effect-weight {s} {t} id (appears row e e' n l) =
      let before : open_for (find id s) ≡ 1 = ap open_for e in
      omega (arith, l, open_for_le (find id t))

  pub step-IsKeyed : {s t : Store Json} → IsKeyed s → s ⟶ t → IsKeyed t
  step-IsKeyed keyed move = Effect-IsKeyed keyed (λ id. step-Effect id keyed move)

  weight_le : {s t : Store Json} (id : String) → IsKeyed s → s ⟶* t → weight id t ≤ weight id s
  weight_le id keyed (done s) = omega arith
  weight_le id keyed (step s t u move rest) =
      let first = Effect-weight id (step-Effect id keyed move) in
      omega (arith, first, weight_le id (step-IsKeyed keyed move) rest)

  abbrev pub empty_store : Store Json
  empty_store = record { approvals = []; log = [] }

  -- However the transactions of requests interleave, from an empty table on, an approval has at
  -- most one decision in the compliance log, and one that is still waiting has none.
  pub one_decision :
      (id : String) (s : Store Json)
      → empty_store ⟶* s
      → (decisions_of id s.log ≤ 1)
        × ((row : Approval Json)
            → find id s ≡ some row
            → row.status ≡ waiting
            → decisions_of id s.log ≡ 0)
  unfolding decisions_of open_for
  one_decision id s steps =
      let keyed : IsKeyed empty_store = λ j row e. cc in
      let bound : weight id s ≤ 1 = weight_le id keyed steps in
      (
        omega arith,
        λ row found w. omega (arith, open_for-waiting (find id s) row found (rw w refl)),
      )

  abbrev pub as_expired : Approval Json → Approval Json
  as_expired row = record row { status = expired }

  -- What a decided row may still become.
  abbrev pub Remains : Approval Json → Approval Json → Type 0
  Remains row row' = (row' ≡ row) ⊎ (row' ≡ as_expired row)

  Remains-trans : {a b c : Approval Json} → Remains a b → Remains b c → Remains a c
  Remains-trans (inl p) (inl q) = inl (q ∙ p)
  Remains-trans (inl p) (inr q) = inr (q ∙ ap as_expired p)
  Remains-trans (inr p) (inl q) = inr (q ∙ p)
  Remains-trans (inr p) (inr q) = inr (q ∙ ap as_expired p)

  pub data Later (id : String) (row : Approval Json) (t : Store Json) : Type 0 where
    later :
        (row' : Approval Json)
        → find id t ≡ some row'
        → is_waiting row'.status ≡ false
        → Remains row row'
        → Later id row t

  Effect-Later :
      (id : String) (s t : Store Json) (row : Approval Json)
      → Effect id s t
      → find id s ≡ some row
      → is_waiting row.status ≡ false
      → Later id row t
  Effect-Later id s t row (same e l) found w = later row (e ∙ found) w (inl refl)
  Effect-Later id s t row (lapses old e e' l) found w =
      let p : old ≡ row = cc in later (as_expired old) e' refl (inr (ap as_expired p))
  Effect-Later id s t row (decision old new e w' e' n w'' l) found w =
      let p : old ≡ row = cc in absurd (cc (ap (λ r. is_waiting r.status) p, w, w'))
  Effect-Later id s t row (appears new e e' n l) found w = absurd (cc (e, found))

  steps-Later :
      (id : String) {s t : Store Json} (row : Approval Json)
      → IsKeyed s
      → s ⟶* t
      → find id s ≡ some row
      → is_waiting row.status ≡ false
      → Later id row t
  steps-Later id row keyed (done s) found w = later row found w (inl refl)
  steps-Later id row keyed (step s t u move rest) found w =
      elim (Effect-Later id s t row (step-Effect id keyed move) found w) [
        | later next found' w' r ↦
            elim (steps-Later id next (step-IsKeyed keyed move) rest found' w') [
              | later last found'' w'' r' ↦ later last found'' w'' (Remains-trans r r')
            ]
      ]

  -- In a store whose rows stand under their own ids, a decision that was recorded is never replaced
  -- by another one: whatever requests do later, the row keeps all that the decision wrote, except
  -- that its status may turn to expired.
  pub decision_stays :
      (id : String) (s t : Store Json) (row : Approval Json)
      → IsKeyed s
      → s ⟶* t
      → find id s ≡ some row
      → row.status ≢ waiting
      → (row' : Approval Json) × ((find id t ≡ some row') × Remains row row')
  decision_stays id s t row keyed steps found w = elim (Bool-cases (is_waiting row.status)) [
    | inl e ↦ absurd (w (is_waiting→≡ row.status e))
    | inr e ↦ elim (steps-Later id row keyed steps found e) [
      | later row' found' w' r ↦ (row', (found', r))
    ]
  ]

  -- In a store whose rows stand under their own ids, the store that an undisturbed decision request
  -- leaves is reached by transactions of the step relation.
  process_steps :
      (env : Env) (id : String) (request : DecisionRequest Json) (user_id : String) (s : Store Json)
      → IsKeyed s
      → s ⟶* (process env id request user_id s).1
  unfolding decided decided_as decision_row status_after
  process_steps env id request user_id s keyed =
      go _ (process-Outcome env id request user_id s keyed)
    where
      go : (r : Reply Json (Approval Json)) → Outcome env id request user_id s r → s ⟶* r.1
      go r (missing _) = done s
      go r (foreign _ _ _) = done s
      go r (late row own _ c) =
          subst (λ q. s ⟶* q.1) (expire-found env id s row own.found c)
            (step _ _ _ (expires env id s) (done _))
      go r (stale _ _ _ _) = done s
      go r (uncommitted _ _ _ _) = done s
      go r (recorded row own _ w c) =
          step _ _ _
            (subst (λ q. s ⟶ q)
              (recorded_store env (decided env request user_id row) row user_id s
                  (subst (λ j. find j s ≡ some row) (sym own.keyed) own.found) (rw w refl) c
                ∙ ap
                    (λ j.
                      log_decision (decision_row request user_id row)
                        (write j (decided env request user_id row) s))
                    own.keyed)
              (decides env request user_id row s))
            (done _)
