-- ===== src/Usage/Silent.antt =====
-- Calls of a request whose budget has a refusal: `check` of server/src/core/usage.py.
use juris_ai.Base.{
  ℕ, ◌+◌, String, true, false, ◌≡◌, refl, sym, ap, ◌∙◌, subst, ◌⊎◌, inl, inr, Option, none, some,
  List, [], ◌∷◌, length, arith, Option-cases,
}
use juris_ai.Usage.Meter.{
  Refusal, RequestTokenBudget, LlmUsage, UsageMeter, Checked, quota_error, inherit, check_quota,
  check,
}
use juris_ai.Usage.Scopes.{
  Context, Works, finished, raises_error, generate, fallback, scope, attempt, Ran, next,
  check_request_token_quota, record_llm_fallback, answer, open_scope, close_scope, closed, run,
}
use juris_ai.Usage.Tally.{IsScoped, InScope}

-- The budget of the request has a refused call.
pub record IsRefused (c : Context) : Type 0 where
  pub budget : RequestTokenBudget
  pub refusal : Refusal
  pub has_budget : c.budget ≡ some budget
  pub has_refusal : budget.refused ≡ some refusal

pub record Silent (before after : Context) : Type 0 where
  pub refused : IsRefused after
  pub depth : length after.meters ≡ length before.meters
  pub silent : after.answered ≡ before.answered

Silent-refl : (c : Context) → IsRefused c → Silent c c
Silent-refl c h = record { refused = h; depth = refl; silent = refl }

Silent-trans : {c d e : Context} → Silent c d → Silent d e → Silent c e
Silent-trans p q = record {
  refused = q.refused;
  depth = q.depth ∙ p.depth;
  silent = q.silent ∙ p.silent;
}

next-Silent :
    (c : Context) (z : Ran) (k : Context → Ran)
    → Silent c z.1
    → ((d : Context) → Silent c d → Silent d (k d).1)
    → Silent c (next z k).1
next-Silent c (true, d) k p f = Silent-trans p (f d p)
next-Silent c (false, d) k p f = p

pub next-false : (z : Ran) (k : Context → Ran) → z.0 ≡ false → next z k ≡ z
next-false (true, d) k e = cc
next-false (false, d) k e = refl

-- A meter takes the refusal of the request over.
inherit-refused :
    (b : RequestTokenBudget) (m : UsageMeter) (r : Refusal)
    → b.refused ≡ some r
    → (s : Refusal) × ((inherit b m).refused ≡ some s)
unfolding inherit
inherit-refused b m r e = elim (Option-cases m.refused) [
  | inl n ↦ (r, rw (n, inherit) e)
  | inr (s, n) ↦ (s, rw (n, inherit) n)
]

check_quota-refused :
    (texts : List String) (b : RequestTokenBudget) (m : UsageMeter) (s : Refusal)
    → m.refused ≡ some s
    → check_quota texts b m ≡ record {
      raised =
          some
            (record s { prompt_tokens = m.prompt_tokens; completion_tokens = m.completion_tokens });
      budget = b;
      meter = m;
    }
unfolding check_quota quota_error
check_quota-refused texts b m s e = rw e refl

-- Such a meter refuses.
check_refused :
    (texts : List String) (b : RequestTokenBudget) (m : UsageMeter) (r : Refusal)
    → b.refused ≡ some r
    → (s : Refusal) × ((check texts b m).raised ≡ some s) × ((check texts b m).budget ≡ b)
unfolding check
check_refused texts b m r e =
    let (s, n) = inherit-refused b m r e in
    let q = check_quota-refused texts b (inherit b m) s n in
    (_, ap (λ (z : Checked). z.raised) q, ap (λ (z : Checked). z.budget) q)

check-Silent :
    (texts : List String) (c : Context)
    → IsRefused c
    → InScope c
    → let z = check_request_token_quota texts c in (z.0 ≡ false) × Silent c z.1
unfolding check_request_token_quota
check-Silent texts c h s = go c.budget c.meters c.tally c.answered h s
  where
    go :
        (b : Option RequestTokenBudget) (ms : List UsageMeter) (t : Option UsageMeter)
        (a : List LlmUsage)
        → IsRefused (record { budget = b; meters = ms; tally = t; answered = a })
        → InScope (record { budget = b; meters = ms; tally = t; answered = a })
        → let c' : Context = record { budget = b; meters = ms; tally = t; answered = a } in
          let z = check_request_token_quota texts c' in (z.0 ≡ false) × Silent c' z.1
    go b [] t a h s = absurd (omega arith)
    go none (m ∷ ms) t a h s = cc (h.has_budget)
    go (some b) (m ∷ ms) t a h s =
        let same : b ≡ h.budget = cc (h.has_budget) in
        let e : b.refused ≡ some h.refusal =
          ap (λ (x : RequestTokenBudget). x.refused) same ∙ h.has_refusal in
        let (r, raised, kept) = check_refused texts b m h.refusal e in
        (
          rw (raised, check_request_token_quota) refl,
          record {
            refused = record {
              budget = b;
              refusal = h.refusal;
              has_budget = ap some kept;
              has_refusal = e;
            };
            depth = refl;
            silent = refl;
          },
        )

fallback-Silent : (c : Context) → IsRefused c → Silent c (record_llm_fallback c)
unfolding record_llm_fallback
fallback-Silent c h = go c.budget c.meters c.tally c.answered h
  where
    go :
        (b : Option RequestTokenBudget) (ms : List UsageMeter) (t : Option UsageMeter)
        (a : List LlmUsage)
        → IsRefused (record { budget = b; meters = ms; tally = t; answered = a })
        → let c' : Context = record { budget = b; meters = ms; tally = t; answered = a } in
          Silent c' (record_llm_fallback c')
    go b [] t a h = Silent-refl _ h
    go b (m ∷ ms) t a h = record {
      refused = record {
        budget = h.budget;
        refusal = h.refusal;
        has_budget = h.has_budget;
        has_refusal = h.has_refusal;
      };
      depth = refl;
      silent = refl;
    }

pub record Shut (d e : Context) : Type 0 where
  pub refused : IsRefused e
  pub depth : length e.meters + 1 ≡ length d.meters
  pub silent : e.answered ≡ d.answered

pub close-Shut : (d : Context) → IsRefused d → InScope d → Shut d (close_scope d)
unfolding close_scope
close-Shut d h s = go d.budget d.meters d.tally d.answered h s
  where
    go :
        (b : Option RequestTokenBudget) (ms : List UsageMeter) (t : Option UsageMeter)
        (a : List LlmUsage)
        → IsRefused (record { budget = b; meters = ms; tally = t; answered = a })
        → InScope (record { budget = b; meters = ms; tally = t; answered = a })
        → let d' : Context = record { budget = b; meters = ms; tally = t; answered = a } in
          Shut d' (close_scope d')
    go b [] t a h s = absurd (omega (arith, s))
    go none (m ∷ ms) t a h s = cc (h.has_budget)
    go (some b) (m ∷ ms) t a h s =
        let same : b ≡ h.budget = cc (h.has_budget) in
        record {
          refused = record {
            budget = record b { used = b.used + m.total_tokens };
            refusal = h.refusal;
            has_budget = refl;
            has_refusal = ap (λ (x : RequestTokenBudget). x.refused) same ∙ h.has_refusal;
          };
          depth = omega arith;
          silent = refl;
        }

close-Silent :
    (estimate : String → ℕ) (c d : Context)
    → Silent (open_scope estimate c) d
    → Silent c (close_scope d)
close-Silent estimate c d p =
    let q = close-Shut d p.refused (omega (arith, p.depth)) in
    record {
      refused = q.refused;
      depth = omega (arith, q.depth, p.depth);
      silent = q.silent ∙ p.silent;
    }

pub run-Silent :
    (w : Works) (c : Context) → IsRefused c → IsScoped w ⊎ InScope c → Silent c (run w c).1
unfolding run
run-Silent finished c h s = Silent-refl c h
run-Silent raises_error c h s = Silent-refl c h
run-Silent (generate texts a k) c h (inl s) = absurd s
run-Silent (generate texts a k) c h (inr s) =
    let z = check_request_token_quota texts c in
    let (stops, quiet) = check-Silent texts c h s in
    let first : next z (answer a) ≡ z = next-false z (answer a) stops in
    let both : next (next z (answer a)) (run k) ≡ z =
      ap (λ y. next y (run k)) first ∙ next-false z (run k) stops in
    subst (λ (y : Ran). Silent c y.1) (sym both) quiet
run-Silent (fallback k) c h s =
    let p = fallback-Silent c h in
    Silent-trans p (
      run-Silent k (record_llm_fallback c) p.refused
        (elim s [ inl q ↦ inl q | inr q ↦ inr (omega (arith, p.depth)) ]))
run-Silent (scope estimate body k) c h s =
    let inner = open_scope estimate c in
    let z = run body inner in
    let opened : IsRefused inner = record {
      budget = h.budget;
      refusal = h.refusal;
      has_budget = h.has_budget;
      has_refusal = h.has_refusal;
    } in
    next-Silent c (closed z) (run k)
      (close-Silent estimate c z.1 (run-Silent body inner opened (inr (omega arith))))
      (λ d p.
        run-Silent k d p.refused (elim s [ inl q ↦ inl q | inr q ↦ inr (omega (arith, p.depth)) ]))
run-Silent (attempt body k) c h s =
    let z = run body c in
    let p = run-Silent body c h (elim s [ inl q ↦ inl q.0 | inr q ↦ inr q ]) in
    Silent-trans p (
      run-Silent k z.1 p.refused
        (elim s [ inl q ↦ inl q.1 | inr q ↦ inr (omega (arith, p.depth)) ]))
