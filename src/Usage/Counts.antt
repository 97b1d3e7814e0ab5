-- ===== src/Usage/Counts.antt =====
-- The counts that a meter of server/src/core/usage.py keeps.
use juris_ai.Base.{ℕ, ◌+◌, String, ◌≡◌, refl, ◌∙◌, inl, inr, List, Option-cases, Bool-cases, ltb}
use juris_ai.Usage.Meter.{
  RequestTokenBudget, LlmUsage, UsageMeter, new_meter, add, merge, sum_estimates, inherit,
  check_quota, check,
}

-- A count that meters keep of the calls.
pub record Measure : Type 0 where
  pub of_meter : UsageMeter → ℕ
  pub of_usage : LlmUsage → ℕ
  pub of_new : (e : String → ℕ) → of_meter (new_meter e) ≡ 0
  pub of_add : (u : LlmUsage) (m : UsageMeter) → of_meter (add u m) ≡ of_meter m + of_usage u
  pub of_merge : (t m : UsageMeter) → of_meter (merge t m) ≡ of_meter t + of_meter m
  pub of_check :
      (texts : List String) (b : RequestTokenBudget) (m : UsageMeter)
      → of_meter (check texts b m).meter ≡ of_meter m
  pub of_fallback :
      (m : UsageMeter) (n : ℕ) → of_meter (record m { fallback_calls = n }) ≡ of_meter m

-- A check leaves the counts of the meter.
pub record SameCounts (m m' : UsageMeter) : Type 0 where
  pub prompts : m'.prompt_tokens ≡ m.prompt_tokens
  pub completions : m'.completion_tokens ≡ m.completion_tokens
  pub totals : m'.total_tokens ≡ m.total_tokens
  pub estimates : m'.estimate_tokens ≡ m.estimate_tokens

pub inherit-SameCounts : (b : RequestTokenBudget) (m : UsageMeter) → SameCounts m (inherit b m)
unfolding inherit
inherit-SameCounts b m = elim (Option-cases m.refused) [
  | inl e ↦ rw e (record { prompts = refl; completions = refl; totals = refl; estimates = refl })
  | inr (r, e) ↦
      rw e (record { prompts = refl; completions = refl; totals = refl; estimates = refl })
]

check_quota-SameCounts :
    (texts : List String) (b : RequestTokenBudget) (m : UsageMeter)
    → SameCounts m (check_quota texts b m).meter
unfolding check_quota
check_quota-SameCounts texts b m = elim (Option-cases m.refused) [
  | inr (r, e) ↦
      rw e (record { prompts = refl; completions = refl; totals = refl; estimates = refl })
  | inl e ↦
      elim (Bool-cases
        (ltb b.quota (b.used + m.total_tokens + sum_estimates m.estimate_tokens texts))) [
          | inl k ↦
              rw (e, k)
                (record { prompts = refl; completions = refl; totals = refl; estimates = refl })
          | inr k ↦
              rw (e, k)
                (record { prompts = refl; completions = refl; totals = refl; estimates = refl })
        ]
]

pub check-SameCounts :
    (texts : List String) (b : RequestTokenBudget) (m : UsageMeter)
    → SameCounts m (check texts b m).meter
unfolding check
check-SameCounts texts b m =
    let i = inherit-SameCounts b m in
    let q = check_quota-SameCounts texts b (inherit b m) in
    record {
      prompts = q.prompts ∙ i.prompts;
      completions = q.completions ∙ i.completions;
      totals = q.totals ∙ i.totals;
      estimates = q.estimates ∙ i.estimates;
    }

abbrev pub prompts : Measure
unfolding add merge
prompts = record {
  of_meter = λ m. m.prompt_tokens;
  of_usage = λ u. u.prompt_tokens;
  of_new = λ e. refl;
  of_add = λ u m. refl;
  of_merge = λ t m. refl;
  of_check = λ texts b m. (check-SameCounts texts b m).prompts;
  of_fallback = λ m n. refl;
}

abbrev pub completions : Measure
unfolding add merge
completions = record {
  of_meter = λ m. m.completion_tokens;
  of_usage = λ u. u.completion_tokens;
  of_new = λ e. refl;
  of_add = λ u m. refl;
  of_merge = λ t m. refl;
  of_check = λ texts b m. (check-SameCounts texts b m).completions;
  of_fallback = λ m n. refl;
}

abbrev pub totals : Measure
unfolding add merge
totals = record {
  of_meter = λ m. m.total_tokens;
  of_usage = λ u. u.total_tokens;
  of_new = λ e. refl;
  of_add = λ u m. refl;
  of_merge = λ t m. refl;
  of_check = λ texts b m. (check-SameCounts texts b m).totals;
  of_fallback = λ m n. refl;
}
