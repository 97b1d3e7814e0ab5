-- ===== src/Usage/Inside.antt =====
-- A scope of a request with a token quota: request_token_quota and usage_scope of
-- server/src/core/usage.py.
use juris_ai.Base.{
  ℕ, ◌+◌, ◌≤◌, String, true, false, ◌≡◌, refl, sym, ap, ◌∙◌, subst, none, some, List, [], ◌∷◌,
  arith, Option-cases, ◌⊎◌, inl, inr,
}
use juris_ai.Usage.Meter.{
  Refusal, RequestTokenBudget, LlmUsage, UsageMeter, Checked, add, sum_estimates, check,
}
use juris_ai.Usage.Scopes.{
  Context, Answer, responds, fails, Works, finished, raises_error, generate, fallback, scope,
  attempt, Ran, next, check_request_token_quota, record_llm_usage, record_llm_fallback, answer, run,
}
use juris_ai.Usage.Counts.{SameCounts, check-SameCounts}
use juris_ai.Usage.Checks.{Lets, check-Lets}

-- A response takes at most `over` tokens more than the estimate of its prompt.
pub data IsWithin (over estimated : ℕ) : Answer → Type 0 where
  fails_within : IsWithin over estimated fails
  no_usage_within : IsWithin over estimated (responds none)
  usage_within :
      (u : LlmUsage)
      → u.total_tokens ≤ estimated + over
      → IsWithin over estimated (responds (some u))

-- The body of a scope, which opens no other scope.
abbrev pub IsBody : ℕ → (String → ℕ) → Works → Type 0
IsBody over estimate finished = Unit
IsBody over estimate raises_error = Unit
IsBody over estimate (generate texts a k) =
    IsWithin over (sum_estimates estimate texts) a × IsBody over estimate k
IsBody over estimate (fallback k) = IsBody over estimate k
IsBody over estimate (scope e body k) = ⊥
IsBody over estimate (attempt body k) = IsBody over estimate body × IsBody over estimate k

pub next_keeps :
    (P : Context → Type 0) (z : Ran) (k : Context → Ran)
    → P z.1
    → ((d : Context) → P d → P (k d).1)
    → P (next z k).1
next_keeps P (true, d) k p f = f d p
next_keeps P (false, d) k p f = p

module _ (quota over : ℕ) where
  -- In a scope: the scope began within the quota and its calls stay within `over` of it.
  pub record Inside (estimate : String → ℕ) (spare : ℕ) (c : Context) : Type 0 where
    pub b : RequestTokenBudget
    pub t : UsageMeter
    pub m : UsageMeter
    pub answers : List LlmUsage
    pub is : c ≡ record { budget = some b; meters = m ∷ []; tally = some t; answered = answers }
    pub limit : b.quota ≡ quota
    pub counted : t.total_tokens ≡ b.used
    pub estimates : m.estimate_tokens ≡ estimate
    pub capped : b.used + m.total_tokens + spare ≤ quota + over

  module _ (estimate : String → ℕ) where
    -- After a check: a call that passes leaves room for its estimate and for `over`.
    abbrev Passed : ℕ → Ran → Type 0
    Passed n (true, c) = Inside estimate (n + over) c
    Passed n (false, c) = Inside estimate 0 c

    check-Passed :
        (texts : List String) (c : Context)
        → Inside estimate 0 c
        → Passed (sum_estimates estimate texts) (check_request_token_quota texts c)
    unfolding check_request_token_quota
    check-Passed texts c h =
        subst (λ c'. Passed (sum_estimates estimate texts) (check_request_token_quota texts c'))
          (sym h.is) (here (Option-cases z.raised))
      where
        z : Checked
        z = check texts h.b h.m

        l : Lets texts h.b h.m z
        l = check-Lets texts h.b h.m

        s : SameCounts h.m z.meter
        s = check-SameCounts texts h.b h.m

        after :
            (n : ℕ)
            → h.b.used + h.m.total_tokens + n ≤ quota + over
            → Inside estimate n (record {
              budget = some z.budget;
              meters = z.meter ∷ [];
              tally = some h.t;
              answered = h.answers;
            })
        after n fit = record {
          b = z.budget;
          t = h.t;
          m = z.meter;
          answers = h.answers;
          is = refl;
          limit = l.quota ∙ h.limit;
          counted = h.counted ∙ sym l.used;
          estimates = s.estimates ∙ h.estimates;
          capped = omega (arith, l.used, s.totals);
        }

        here :
            (z.raised ≡ none) ⊎ ((r : Refusal) × (z.raised ≡ some r))
            → Passed (sum_estimates estimate texts) (
                check_request_token_quota texts (record {
                  budget = some h.b;
                  meters = h.m ∷ [];
                  tally = some h.t;
                  answered = h.answers;
                }))
        here (inl e) =
            let fit = l.fits e in
            let same : sum_estimates h.m.estimate_tokens texts ≡ sum_estimates estimate texts =
              ap (λ f. sum_estimates f texts) h.estimates in
            rw (e, check_request_token_quota)
              (after (sum_estimates estimate texts + over) (omega (arith, fit, same, h.limit)))
        here (inr (r, e)) = rw (e, check_request_token_quota) (after 0 h.capped)

    Inside-0 : (n : ℕ) (c : Context) → Inside estimate n c → Inside estimate 0 c
    Inside-0 n c h = record {
      b = h.b;
      t = h.t;
      m = h.m;
      answers = h.answers;
      is = h.is;
      limit = h.limit;
      counted = h.counted;
      estimates = h.estimates;
      capped = omega (arith, h.capped);
    }

    answer-Inside :
        (n : ℕ) (a : Answer) (c : Context)
        → IsWithin over n a
        → Inside estimate (n + over) c
        → Inside estimate 0 (answer a c).1
    unfolding answer record_llm_usage add
    answer-Inside n fails c w h = Inside-0 (n + over) c h
    answer-Inside n (responds none) c w h = Inside-0 (n + over) c h
    answer-Inside n (responds (some u)) c (usage_within _ fits) h =
        subst (λ c'. Inside estimate 0 (answer (responds (some u)) c').1) (sym h.is)
          (record {
            b = h.b;
            t = h.t;
            m = add u h.m;
            answers = u ∷ h.answers;
            is = refl;
            limit = h.limit;
            counted = h.counted;
            estimates = h.estimates;
            capped = omega (arith, h.capped, fits);
          })

    generate-Inside :
        (texts : List String) (a : Answer) (c : Context)
        → IsWithin over (sum_estimates estimate texts) a
        → Inside estimate 0 c
        → Inside estimate 0 (next (check_request_token_quota texts c) (answer a)).1
    generate-Inside texts a c w h = go (check_request_token_quota texts c) (check-Passed texts c h)
      where
        go :
            (z : Ran)
            → Passed (sum_estimates estimate texts) z
            → Inside estimate 0 (next z (answer a)).1
        go (true, d) p = answer-Inside (sum_estimates estimate texts) a d w p
        go (false, d) p = p

    fallback-Inside :
        (c : Context) → Inside estimate 0 c → Inside estimate 0 (record_llm_fallback c)
    unfolding record_llm_fallback
    fallback-Inside c h =
        subst (λ c'. Inside estimate 0 (record_llm_fallback c')) (sym h.is)
          (record {
            b = h.b;
            t = h.t;
            m = record h.m { fallback_calls = h.m.fallback_calls + 1 };
            answers = h.answers;
            is = refl;
            limit = h.limit;
            counted = h.counted;
            estimates = h.estimates;
            capped = h.capped;
          })

    pub run-Inside :
        (w : Works) (c : Context)
        → IsBody over estimate w
        → Inside estimate 0 c
        → Inside estimate 0 (run w c).1
    unfolding run
    run-Inside finished c w h = h
    run-Inside raises_error c w h = h
    run-Inside (generate texts a k) c w h =
        next_keeps (Inside estimate 0) (next (check_request_token_quota texts c) (answer a)) (run k)
          (generate-Inside texts a c w.0 h) (λ d p. run-Inside k d w.1 p)
    run-Inside (fallback k) c w h = run-Inside k (record_llm_fallback c) w (fallback-Inside c h)
    run-Inside (scope e body k) c w h = absurd w
    run-Inside (attempt body k) c w h = run-Inside k (run body c).1 w.1 (run-Inside body c w.0 h)
