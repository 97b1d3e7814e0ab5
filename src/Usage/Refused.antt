-- ===== src/Usage/Refused.antt =====
-- What follows a refusal by the token quota of a request: `check` of server/src/core/usage.py.
use juris_ai.Base.{
  ℕ, ◌+◌, ◌<◌, ltb, String, true, false, ◌≡◌, refl, sym, ap, ◌∙◌, subst, inl, inr, none, some, List,
  [], ◌∷◌, length, arith,
}
use juris_ai.Usage.Meter.{
  Refusal, RequestTokenBudget, UsageMeter, Checked, quota_error, inherit, check_quota, check,
  sum_estimates,
}
use juris_ai.Usage.Scopes.{
  Context, Answer, Works, generate, Ran, next, check_request_token_quota, answer, close_scope, run,
}
use juris_ai.Usage.Tally.{IsScoped}
use juris_ai.Usage.Silent.{IsRefused, Silent, next-false, close-Shut, run-Silent}

-- The rest of a request: what is left in each open scope, the current one first, and then what
-- follows them.
unfoldable pub run_rest : List Works → Works → Context → Context
unfolding run close_scope
run_rest [] k c = (run k c).1
run_rest (w ∷ ws) k c = run_rest ws k (close_scope (run w c).1)

run_rest-answered :
    (rest : List Works) (k : Works) (c : Context)
    → IsRefused c
    → length rest ≡ length c.meters
    → IsScoped k
    → (run_rest rest k c).answered ≡ c.answered
unfolding run_rest
run_rest-answered [] k c h e s = (run-Silent k c h (inl s)).silent
run_rest-answered (w ∷ ws) k c h e s =
    let p = run-Silent w c h (inr (omega (arith, e))) in
    let q = close-Shut (run w c).1 p.refused (omega (arith, e, p.depth)) in
    run_rest-answered ws k (close_scope (run w c).1) q.refused (omega (arith, e, p.depth, q.depth))
      s
    ∙ (q.silent ∙ p.silent)

-- A check that raises, with a budget that has a refusal after it.
abbrev Refuses : Checked → Type 0
Refuses z = (r : Refusal) × ((z.raised ≡ some r) × ((s : Refusal) × (z.budget.refused ≡ some s)))

check_quota-Refuses :
    (texts : List String) (b : RequestTokenBudget) (m : UsageMeter)
    → m.refused ≡ none
    → b.quota < b.used + m.total_tokens + sum_estimates m.estimate_tokens texts
    → Refuses (check_quota texts b m)
unfolding check_quota quota_error
check_quota-Refuses texts b m free over =
    let past : ltb b.quota (b.used + m.total_tokens + sum_estimates m.estimate_tokens texts)
        ≡ true =
      ground arith in
    rw (free, past, check_quota) (_, (refl, (_, refl)))

inherit-free :
    (b : RequestTokenBudget) (m : UsageMeter)
    → m.refused ≡ none
    → inherit b m ≡ record m { refused = b.refused }
unfolding inherit
inherit-free b m free = rw (free, inherit) refl

check-Refuses :
    (texts : List String) (b : RequestTokenBudget) (m : UsageMeter)
    → m.refused ≡ none
    → b.refused ≡ none
    → b.quota < b.used + m.total_tokens + sum_estimates m.estimate_tokens texts
    → Refuses (check texts b m)
unfolding check
check-Refuses texts b m free unrefused over =
    subst (λ n. Refuses (check_quota texts b n)) (sym (inherit-free b m free))
      (check_quota-Refuses texts b (record m { refused = b.refused }) unrefused over)

refused_check :
    (texts : List String) (c : Context) (b : RequestTokenBudget) (m : UsageMeter)
    (ms : List UsageMeter)
    → c.meters ≡ m ∷ ms
    → c.budget ≡ some b
    → m.refused ≡ none
    → b.refused ≡ none
    → b.quota < b.used + m.total_tokens + sum_estimates m.estimate_tokens texts
    → let z = check_request_token_quota texts c in (z.0 ≡ false) × Silent c z.1
unfolding check_request_token_quota
refused_check texts c b m ms scopes limited open_meter open_budget over =
    let (r, (raised, (s, recorded))) = check-Refuses texts b m open_meter open_budget over in
    rw (scopes, limited, raised, check_request_token_quota)
      (
        refl,
        record {
          refused = record {
            budget = (check texts b m).budget;
            refusal = s;
            has_budget = refl;
            has_refusal = recorded;
          };
          depth = refl;
          silent = refl;
        },
      )

-- The tokens that a prompt of several texts is estimated at.
unfoldable pub estimated : (String → ℕ) → List String → ℕ
estimated estimate [] = 0
estimated estimate (x ∷ xs) = estimate x + estimated estimate xs

sum_estimates_lem :
    (estimate : String → ℕ) (texts : List String)
    → sum_estimates estimate texts ≡ estimated estimate texts
unfolding sum_estimates estimated
sum_estimates_lem estimate [] = refl
sum_estimates_lem estimate (x ∷ xs) = ap (λ n. estimate x + n) (sum_estimates_lem estimate xs)

-- If nothing of a request was refused yet, a call in a scope raises when the quota is less than the
-- tokens used, those of the current scope and the estimate of its prompt, and then neither this
-- call nor a later one reaches a provider that answers: not in what is left of the scopes that are
-- open, nor after them, where calls are made in scopes.
pub refused-silent :
    (texts : List String) (a : Answer) (w : Works) (c : Context) (b : RequestTokenBudget)
    (m : UsageMeter) (ms : List UsageMeter) (rest : List Works) (k : Works)
    → c.meters ≡ m ∷ ms
    → c.budget ≡ some b
    → m.refused ≡ none
    → b.refused ≡ none
    → b.quota < b.used + m.total_tokens + estimated m.estimate_tokens texts
    → length rest ≡ length c.meters
    → IsScoped k
    → ((run (generate texts a w) c).0 ≡ false)
      × ((run_rest rest k (run (generate texts a w) c).1).answered ≡ c.answered)
unfolding run
refused-silent texts a w c b m ms rest k scopes limited open_meter open_budget over depth s =
    let z = check_request_token_quota texts c in
    let (stops, quiet) = refused_check texts c b m ms scopes limited open_meter open_budget (
      subst (λ n. b.quota < b.used + m.total_tokens + n)
        (sym (sum_estimates_lem m.estimate_tokens texts)) over) in
    let first : next z (answer a) ≡ z = next-false z (answer a) stops in
    let both : next (next z (answer a)) (run w) ≡ z =
      ap (λ y. next y (run w)) first ∙ next-false z (run w) stops in
    subst (λ (y : Ran). (y.0 ≡ false) × ((run_rest rest k y.1).answered ≡ c.answered)) (sym both)
      (
        stops,
        run_rest-answered rest k z.1 quiet.refused (omega (arith, depth, quiet.depth)) s
            ∙ quiet.silent,
      )
