-- ===== src/Usage/Cap.antt =====
-- How far a request passes its token quota: request_token_quota of server/src/core/usage.py, for
-- scopes that follow one another.
use juris_ai.Base.{ℕ, ◌+◌, ◌≤◌, String, ◌≡◌, refl, sym, ap, subst, none, some, List, [], arith}
use juris_ai.Usage.Meter.{RequestTokenBudget, LlmUsage, UsageMeter, new_meter, merge}
use juris_ai.Usage.Scopes.{
  Context, Works, finished, raises_error, generate, fallback, scope, attempt, record_llm_fallback,
  open_scope, close_scope, closed, run, begin_request,
}
use juris_ai.Usage.Inside.{IsBody, next_keeps, Inside, run-Inside}

-- A request whose calls are made in scopes that follow one another.
abbrev pub IsFlat : ℕ → Works → Type 0
IsFlat over finished = Unit
IsFlat over raises_error = Unit
IsFlat over (generate texts a k) = ⊥
IsFlat over (fallback k) = IsFlat over k
IsFlat over (scope estimate body k) = IsBody over estimate body × IsFlat over k
IsFlat over (attempt body k) = IsFlat over body × IsFlat over k

module _ (quota over : ℕ) where
  -- Between two scopes.
  record Between (c : Context) : Type 0 where
    b : RequestTokenBudget
    t : UsageMeter
    answers : List LlmUsage
    is : c ≡ record { budget = some b; meters = []; tally = some t; answered = answers }
    limit : b.quota ≡ quota
    counted : t.total_tokens ≡ b.used
    capped : b.used ≤ quota + over

  module _ (estimate : String → ℕ) where
    open-Inside : (c : Context) → Between c → Inside quota over estimate 0 (open_scope estimate c)
    open-Inside c h =
        subst (λ c'. Inside quota over estimate 0 (open_scope estimate c')) (sym h.is)
          (record {
            b = h.b;
            t = h.t;
            m = new_meter estimate;
            answers = h.answers;
            is = refl;
            limit = h.limit;
            counted = h.counted;
            estimates = refl;
            capped = omega (arith, h.capped);
          })

    close-Between : (c : Context) → Inside quota over estimate 0 c → Between (close_scope c)
    unfolding close_scope merge
    close-Between c h =
        subst (λ c'. Between (close_scope c')) (sym h.is)
          (record {
            b = record h.b { used = h.b.used + h.m.total_tokens };
            t = merge h.t h.m;
            answers = h.answers;
            is = refl;
            limit = h.limit;
            counted = omega (arith, h.counted);
            capped = omega (arith, h.capped);
          })

  fallback-Between : (c : Context) → Between c → Between (record_llm_fallback c)
  unfolding record_llm_fallback
  fallback-Between c h =
      subst (λ c'. Between (record_llm_fallback c')) (sym h.is) (subst Between h.is h)

  run-Between : (w : Works) (c : Context) → IsFlat over w → Between c → Between (run w c).1
  unfolding run
  run-Between finished c w h = h
  run-Between raises_error c w h = h
  run-Between (generate texts a k) c w h = absurd w
  run-Between (fallback k) c w h = run-Between k (record_llm_fallback c) w (fallback-Between c h)
  run-Between (scope estimate body k) c w h =
      let z = run body (open_scope estimate c) in
      next_keeps Between (closed z) (run k)
        (close-Between estimate z.1 (
          run-Inside quota over estimate body (open_scope estimate c) w.0
            (open-Inside estimate c h)))
        (λ d p. run-Between k d w.1 p)
  run-Between (attempt body k) c w h = run-Between k (run body c).1 w.1 (run-Between body c w.0 h)

-- If the scopes of a request follow one another, all its calls are made in them, and no response
-- takes more than `over` tokens beyond the estimate of its prompt, then the tokens of the request
-- are at most its quota and `over`.
pub request_capped :
    (quota over : ℕ) (w : Works) (estimate : String → ℕ)
    → IsFlat over w
    → (t : UsageMeter) × ((run w (begin_request estimate (some quota))).1.tally ≡ some t)
      × (t.total_tokens ≤ quota + over)
request_capped quota over w estimate flat =
    let h = run-Between quota over w (begin_request estimate (some quota)) flat (record {
      b = record { quota = quota; used = 0; refused = none };
      t = new_meter estimate;
      answers = [];
      is = refl;
      limit = refl;
      counted = refl;
      capped = omega arith;
    }) in
    (h.t, ap (λ (c : Context). c.tally) h.is, omega (arith, h.capped, h.counted))
