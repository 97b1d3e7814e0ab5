-- ===== src/Approvals/Executable.antt =====
-- Which approvals pass ApprovalLifecycleService.validate of
-- server/src/application/services/approval_lifecycle.py.
use juris_ai.Base.{
  ◌<◌, String, true, false, ◌≡◌, refl, ◌↔◌, inl, inr, Option, none, some, leb, Bool-cases,
  Option-cases, ==→≡, ≡→==, arith, ap, sym, ◌∙◌, ◌≢◌, subst,
}
use juris_ai.Base.Result.{ok, err}
use juris_ai.Approvals.Records.{
  ApprovalStatus, waiting, approved, rejected, edited, expired, Approval, Store, find, save_expired,
}
use juris_ai.Approvals.Decisions.{expire-uncommitted}
use juris_ai.Approvals.Service.{
  Reply, Env, has_expired, is_approved_status, is_expired, owner_ok, expire, validate,
}

is_approved_status→≡ : (x : ApprovalStatus) → is_approved_status x ≡ true → x ≡ approved
is_approved_status→≡ approved e = refl
is_approved_status→≡ waiting e = cc
is_approved_status→≡ rejected e = cc
is_approved_status→≡ edited e = cc
is_approved_status→≡ expired e = cc

module _ {Json : Type 0} where
  -- The row is approved, its deadline is ahead, and the user, if one is given, requested it.
  pub record Executable (env : Env) (user_id : Option String) (row : Approval Json) : Type 0 where
    pub owner : (user : String) → user_id ≡ some user → row.requested_by ≡ user
    pub in_time : env.now < row.expires_at
    pub decision : row.status ≡ approved

  owner_ok→ :
      (user_id : Option String) (row : Approval Json)
      → owner_ok user_id row ≡ true
      → (user : String) → user_id ≡ some user
      → row.requested_by ≡ user
  unfolding owner_ok
  owner_ok→ none row h user e = absurd (cc e)
  owner_ok→ (some u) row h user e = let same : u ≡ user = cc in ==→≡ row.requested_by u h ∙ same

  →owner_ok :
      (user_id : Option String) (row : Approval Json)
      → ((user : String) → user_id ≡ some user → row.requested_by ≡ user)
      → owner_ok user_id row ≡ true
  unfolding owner_ok
  →owner_ok none row h = refl
  →owner_ok (some u) row h = ≡→== row.requested_by u (h u refl)

  expire-fails :
      (env : Env) (id : String) (s t : Store Json) (row : Approval Json)
      → expire env id s ≢ (ok row, t)
  unfolding expire
  expire-fails env id s t row e = elim (Bool-cases env.commits) [
    | inl c ↦ cc (ap (λ r. r.0) (expire-commits c), ap (λ r. r.0) e)
    | inr c ↦ cc (ap (λ r. r.0) (expire-uncommitted env id s c), ap (λ r. r.0) e)
  ]
    where
      expire-commits : env.commits ≡ true → expire env id s ≡ (err has_expired, save_expired id s)
      expire-commits c = rw c refl

  -- An approval passes validate, and then is returned with nothing changed, exactly when its row is
  -- approved, its deadline is ahead, and the user, if one is given, requested it.
  pub validate-ok_iff :
      (env : Env) (id : String) (user_id : Option String) (s t : Store Json) (row : Approval Json)
      → (validate env id user_id s ≡ (ok row, t))
        ↔ ((find id s ≡ some row) × (t ≡ s) × Executable env user_id row)
  unfolding validate is_expired
  validate-ok_iff env id user_id s t row = (to, from)
    where
      passed :
          (old : Approval Json)
          → find id s ≡ some old
          → ((user : String) → user_id ≡ some user → old.requested_by ≡ user)
          → leb old.expires_at env.now ≡ false
          → old.status ≡ approved
          → ◌≡◌ {A = Reply Json (Approval Json)} (ok old, s) (ok row, t)
          → (find id s ≡ some row) × (t ≡ s) × Executable env user_id row
      passed old e o early w h =
          let same : old ≡ row = cc (ap (λ r. r.0) h) in
          (
            e ∙ ap some same,
            sym (ap (λ r. r.1) h),
            subst (Executable env user_id) same
                (record { owner = o; in_time = ground arith; decision = w }),
          )

      to :
          validate env id user_id s ≡ (ok row, t)
          → (find id s ≡ some row) × (t ≡ s) × Executable env user_id row
      to h = elim (Option-cases (find id s)) [
        | inl e ↦ absurd (cc (ap (λ r. r.0) (rw (e, validate) at h)))
        | inr (old, e) ↦ elim (Bool-cases (owner_ok user_id old)) [
          | inr o ↦ absurd (cc (ap (λ r. r.0) (rw (e, o, validate) at h)))
          | inl o ↦ elim (Bool-cases (leb old.expires_at env.now)) [
            | inl late ↦ absurd (expire-fails env id s t row (rw (e, o, late, validate) at h))
            | inr early ↦ elim (Bool-cases (is_approved_status old.status)) [
              | inr w ↦ absurd (cc (ap (λ r. r.0) (rw (e, o, early, w, validate) at h)))
              | inl w ↦
                  passed old e (owner_ok→ user_id old o) early (is_approved_status→≡ old.status w)
                    (rw (e, o, early, w, validate) at h)
            ]
          ]
        ]
      ]

      from :
          (find id s ≡ some row) × (t ≡ s) × Executable env user_id row
          → validate env id user_id s ≡ (ok row, t)
      from (e, p, x) =
          let early : leb row.expires_at env.now ≡ false = ground (arith, x.in_time) in
          let test : is_approved_status row.status ≡ true = ap is_approved_status x.decision in
          rw (e, →owner_ok user_id row x.owner, early, test, validate)
            (ap (λ z. (ok row, z)) (sym p))
