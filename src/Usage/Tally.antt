-- ===== src/Usage/Tally.antt =====
-- What the scopes of a request add to its tally: usage_tally and usage_scope of
-- server/src/core/usage.py.
use juris_ai.Base.{
  ℕ, ◌+◌, ◌<◌, String, true, false, ◌≡◌, refl, ◌∙◌, ◌⊎◌, inl, inr, Option, none, some, List, [],
  ◌∷◌, length, arith,
}
use juris_ai.Usage.Meter.{RequestTokenBudget, LlmUsage, UsageMeter, new_meter, merge}
use juris_ai.Usage.Scopes.{
  Context, Answer, responds, fails, Works, finished, raises_error, generate, fallback, scope,
  attempt, Ran, next, caught, check_request_token_quota, record_llm_usage, record_llm_fallback,
  answer, open_scope, close_scope, closed, run, begin_request,
}
use juris_ai.Usage.Counts.{Measure, prompts, completions, totals}

-- The calls are all made in a scope that the works open.
abbrev pub IsScoped : Works → Type 0
IsScoped finished = Unit
IsScoped raises_error = Unit
IsScoped (generate texts a k) = ⊥
IsScoped (fallback k) = IsScoped k
IsScoped (scope estimate body k) = IsScoped k
IsScoped (attempt body k) = IsScoped body × IsScoped k

abbrev pub InScope : Context → Type 0
InScope c = 0 < length c.meters

module _ (μ : Measure) where
  pub sum_usage : List LlmUsage → ℕ
  sum_usage [] = 0
  sum_usage (u ∷ us) = μ.of_usage u + sum_usage us

  sum_meters : List UsageMeter → ℕ
  sum_meters [] = 0
  sum_meters (m ∷ ms) = μ.of_meter m + sum_meters ms

  abbrev pub of_tally : Option UsageMeter → ℕ
  of_tally none = 0
  of_tally (some t) = μ.of_meter t

  -- The tally with what the open scopes will add to it.
  held : Context → ℕ
  unfolding sum_meters
  held c = of_tally c.tally + sum_meters c.meters

  abbrev IsTallied : Context → Type 0
  IsTallied c = (t : UsageMeter) × (c.tally ≡ some t)

  record Counted (before after : Context) : Type 0 where
    depth : length after.meters ≡ length before.meters
    tallied : IsTallied after
    balance : held after + sum_usage before.answered ≡ held before + sum_usage after.answered

  Counted-refl : (c : Context) → IsTallied c → Counted c c
  Counted-refl c t = record { depth = refl; tallied = t; balance = refl }

  Counted-trans : {c d e : Context} → Counted c d → Counted d e → Counted c e
  Counted-trans p q = record {
    depth = q.depth ∙ p.depth;
    tallied = q.tallied;
    balance = omega (arith, p.balance, q.balance);
  }

  next-Counted :
      (c : Context) (z : Ran) (k : Context → Ran)
      → Counted c z.1
      → ((d : Context) → Counted c d → Counted d (k d).1)
      → Counted c (next z k).1
  next-Counted c (true, d) k p f = Counted-trans p (f d p)
  next-Counted c (false, d) k p f = p

  caught-Counted :
      (c : Context) (z : Ran) (k : Context → Ran)
      → Counted c z.1
      → ((d : Context) → Counted c d → Counted d (k d).1)
      → Counted c (caught z k).1
  caught-Counted c (ran, d) k p f = Counted-trans p (f d p)

  check-Counted :
      (texts : List String) (c : Context)
      → IsTallied c
      → Counted c (check_request_token_quota texts c).1
  unfolding check_request_token_quota held sum_meters
  check-Counted texts c h = go c.budget c.meters c.tally c.answered h
    where
      go :
          (b : Option RequestTokenBudget) (ms : List UsageMeter) (t : Option UsageMeter)
          (a : List LlmUsage)
          → IsTallied (record { budget = b; meters = ms; tally = t; answered = a })
          → Counted
              (record { budget = b; meters = ms; tally = t; answered = a })
              (check_request_token_quota texts
                (record { budget = b; meters = ms; tally = t; answered = a })).1
      go b [] t a h = Counted-refl _ h
      go none (m ∷ ms) t a h = Counted-refl _ h
      go (some b) (m ∷ ms) t a h = record {
        depth = refl;
        tallied = h;
        balance = omega (arith, μ.of_check texts b m);
      }

  fallback-Counted : (c : Context) → IsTallied c → Counted c (record_llm_fallback c)
  unfolding record_llm_fallback held sum_meters
  fallback-Counted c h = go c.budget c.meters c.tally c.answered h
    where
      go :
          (b : Option RequestTokenBudget) (ms : List UsageMeter) (t : Option UsageMeter)
          (a : List LlmUsage)
          → IsTallied (record { budget = b; meters = ms; tally = t; answered = a })
          → Counted
              (record { budget = b; meters = ms; tally = t; answered = a })
              (record_llm_fallback (record { budget = b; meters = ms; tally = t; answered = a }))
      go b [] t a h = Counted-refl _ h
      go b (m ∷ ms) t a h = record {
        depth = refl;
        tallied = h;
        balance = omega (arith, μ.of_fallback m (m.fallback_calls + 1));
      }

  answer-Counted : (a : Answer) (c : Context) → IsTallied c → InScope c → Counted c (answer a c).1
  unfolding answer record_llm_usage held sum_meters sum_usage
  answer-Counted x c h s = go c.budget c.meters c.tally c.answered x h s
    where
      go :
          (b : Option RequestTokenBudget) (ms : List UsageMeter) (t : Option UsageMeter)
          (a : List LlmUsage)
          → (x : Answer) → IsTallied (record { budget = b; meters = ms; tally = t; answered = a })
          → InScope (record { budget = b; meters = ms; tally = t; answered = a })
          → Counted
              (record { budget = b; meters = ms; tally = t; answered = a })
              (answer x (record { budget = b; meters = ms; tally = t; answered = a })).1
      go b ms t a fails h s = Counted-refl _ h
      go b ms t a (responds none) h s = Counted-refl _ h
      go b [] t a (responds (some u)) h s = absurd (omega arith)
      go b (m ∷ ms) t a (responds (some u)) h s = record {
        depth = refl;
        tallied = h;
        balance = omega (arith, μ.of_add u m);
      }

  open-held : (estimate : String → ℕ) (c : Context) → held (open_scope estimate c) ≡ held c
  unfolding held sum_meters
  open-held estimate c = omega (arith, μ.of_new estimate)

  close-Counted :
      (estimate : String → ℕ) (c d : Context)
      → Counted (open_scope estimate c) d
      → Counted c (close_scope d)
  unfolding close_scope held sum_meters
  close-Counted estimate c d p = go d.budget d.meters d.tally d.answered p
    where
      go :
          (b : Option RequestTokenBudget) (ms : List UsageMeter) (t : Option UsageMeter)
          (a : List LlmUsage)
          → Counted
              (open_scope estimate c)
              (record { budget = b; meters = ms; tally = t; answered = a })
          → Counted c (close_scope (record { budget = b; meters = ms; tally = t; answered = a }))
      go b [] t a p = absurd (omega (arith, p.depth))
      go b (m ∷ ms) none a p = cc (p.tallied.1)
      go b (m ∷ ms) (some t) a p = record {
        depth = omega (arith, p.depth);
        tallied = (merge t m, refl);
        balance = omega (arith, p.balance, open-held estimate c, μ.of_merge t m);
      }

  run-Counted :
      (w : Works) (c : Context) → IsTallied c → IsScoped w ⊎ InScope c → Counted c (run w c).1
  unfolding run
  run-Counted finished c h s = Counted-refl c h
  run-Counted raises_error c h s = Counted-refl c h
  run-Counted (generate texts a k) c h (inl s) = absurd s
  run-Counted (generate texts a k) c h (inr s) =
      next-Counted c (next (check_request_token_quota texts c) (answer a)) (run k)
        (next-Counted c (check_request_token_quota texts c) (answer a) (check-Counted texts c h)
          (λ d p. answer-Counted a d p.tallied (omega (arith, p.depth))))
        (λ d p. run-Counted k d p.tallied (inr (omega (arith, p.depth))))
  run-Counted (fallback k) c h s =
      let p = fallback-Counted c h in
      Counted-trans p (run-Counted k (record_llm_fallback c) p.tallied (scoped_after p s))
    where
      scoped_after : {d : Context} → Counted c d → IsScoped k ⊎ InScope c → IsScoped k ⊎ InScope d
      scoped_after p (inl s) = inl s
      scoped_after p (inr s) = inr (omega (arith, p.depth))
  run-Counted (scope estimate body k) c h s =
      let z = run body (open_scope estimate c) in
      next-Counted c (closed z) (run k)
        (close-Counted estimate c z.1
          (run-Counted body (open_scope estimate c) h (inr (omega arith))))
        (λ d p.
          run-Counted k d p.tallied
            (elim s [ inl q ↦ inl q | inr q ↦ inr (omega (arith, p.depth)) ]))
  run-Counted (attempt body k) c h s =
      caught-Counted c (run body c) (run k)
        (run-Counted body c h (elim s [ inl q ↦ inl q.0 | inr q ↦ inr q ]))
        (λ d p.
          run-Counted k d p.tallied
            (elim s [ inl q ↦ inl q.1 | inr q ↦ inr (omega (arith, p.depth)) ]))

  -- The tally.
  pub tally_lem :
      (w : Works) (estimate : String → ℕ) (quota : Option ℕ)
      → IsScoped w
      → of_tally (run w (begin_request estimate quota)).1.tally
        ≡ sum_usage (run w (begin_request estimate quota)).1.answered
  unfolding held sum_meters sum_usage
  tally_lem w estimate quota s =
      let c = begin_request estimate quota in
      let p = run-Counted w c (new_meter estimate, refl) (inl s) in
      omega (arith, p.balance, no_meters _ p.depth, μ.of_new estimate)
    where
      no_meters : (ms : List UsageMeter) → length ms ≡ 0 → sum_meters ms ≡ 0
      no_meters [] e = refl
      no_meters (m ∷ ms) e = absurd (omega arith)

-- However the works of a request end, if its calls are made in scopes, nested or not, the tally
-- counts the prompt, completion and total tokens of all responses whose usage the provider
-- reported, and no others.
pub tally_counts :
    (w : Works) (estimate : String → ℕ) (quota : Option ℕ)
    → IsScoped w
    → let end = (run w (begin_request estimate quota)).1 in
      (of_tally prompts end.tally ≡ sum_usage prompts end.answered)
      × (of_tally completions end.tally ≡ sum_usage completions end.answered)
      × (of_tally totals end.tally ≡ sum_usage totals end.answered)
tally_counts w estimate quota s = (
  tally_lem prompts w estimate quota s,
  tally_lem completions w estimate quota s,
  tally_lem totals w estimate quota s,
)
