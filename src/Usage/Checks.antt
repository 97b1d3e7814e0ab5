-- ===== src/Usage/Checks.antt =====
-- What `check` of server/src/core/usage.py finds when it lets a call pass.
use juris_ai.Base.{
  ℕ, ◌+◌, ◌≤◌, String, false, ◌≡◌, refl, ap, none, List, arith, Option-cases, Bool-cases, ltb, inl,
  inr,
}
use juris_ai.Usage.Meter.{
  RequestTokenBudget, UsageMeter, Checked, sum_estimates, quota_error, inherit, check_quota, check,
}
use juris_ai.Usage.Counts.{inherit-SameCounts}

-- What a check knows when it lets a call pass.
pub record Lets (texts : List String) (b : RequestTokenBudget) (m : UsageMeter) (z : Checked)
    : Type 0 where
  pub quota : z.budget.quota ≡ b.quota
  pub used : z.budget.used ≡ b.used
  pub fits :
      z.raised ≡ none → b.used + m.total_tokens + sum_estimates m.estimate_tokens texts ≤ b.quota

ltb-false : (a b : ℕ) → ltb a b ≡ false → b ≤ a
ltb-false a b e = ground arith

check_quota-Lets :
    (texts : List String) (b : RequestTokenBudget) (m : UsageMeter)
    → Lets texts b m (check_quota texts b m)
unfolding check_quota quota_error
check_quota-Lets texts b m = elim (Option-cases m.refused) [
  | inr (r, e) ↦ rw e (record { quota = refl; used = refl; fits = λ p. cc })
  | inl e ↦
      let asked = b.used + m.total_tokens + sum_estimates m.estimate_tokens texts in
      elim (Bool-cases (ltb b.quota asked)) [
        | inl k ↦ rw (e, k) (record { quota = refl; used = refl; fits = λ p. cc })
        | inr k ↦
            rw (e, k) (record { quota = refl; used = refl; fits = λ p. ltb-false b.quota asked k })
      ]
]

pub check-Lets :
    (texts : List String) (b : RequestTokenBudget) (m : UsageMeter)
    → Lets texts b m (check texts b m)
unfolding check
check-Lets texts b m =
    let i = inherit-SameCounts b m in
    let q = check_quota-Lets texts b (inherit b m) in
    record {
      quota = q.quota;
      used = q.used;
      fits = λ p.
          let l = q.fits p in
          let e : sum_estimates (inherit b m).estimate_tokens texts
              ≡ sum_estimates m.estimate_tokens texts =
            ap (λ f. sum_estimates f texts) i.estimates in
          omega (arith, l, i.totals, e);
    }
